-- ===== src/Bfdd/Stream.antt =====
-- The stream of bytes as the messages that it has, whatever the buffer and the chunks.
use bbdd.Base.{
  ℕ, zero, suc, ◌+◌, ◌*◌, ◌-◌, ◌<◌, ◌≤◌, ◌≡◌, ◌≢◌, ◌⊎◌, inl, inr, refl, ap, ◌∙◌, Bool, true, false,
  List, [], ◌∷◌, ◌++◌, length, take, drop, get_or, arith, length-append, Bool-cases,
}
use bbdd.Bfdd.Framing.{Front, incomplete, too_short, whole, frame_of, RxRc, rx_ok, rx_failed}

abbrev pub stream_length : List ℕ → ℕ
stream_length xs = get_or 0 6 xs * 256 + get_or 0 7 xs

abbrev pub first_frame : List ℕ → Front
first_frame xs = frame_of (length xs) (stream_length xs)

pub get_or-append : (i : ℕ) (xs ys : List ℕ) → i < length xs → get_or 0 i (xs ++ ys) ≡ get_or 0 i xs
get_or-append i [] ys l = absurd (omega arith)
get_or-append zero (x ∷ xs) ys l = refl
get_or-append (suc i) (x ∷ xs) ys l = get_or-append i xs ys (omega arith)

pub take-append : (n : ℕ) (xs ys : List ℕ) → n ≤ length xs → take n (xs ++ ys) ≡ take n xs
take-append zero xs ys l = refl
take-append (suc n) [] ys l = absurd (omega arith)
take-append (suc n) (x ∷ xs) ys l = ap (λ zs. x ∷ zs) (take-append n xs ys (omega arith))

pub drop-append : (n : ℕ) (xs ys : List ℕ) → n ≤ length xs → drop n (xs ++ ys) ≡ drop n xs ++ ys
drop-append zero xs ys l = refl
drop-append (suc n) [] ys l = absurd (omega arith)
drop-append (suc n) (x ∷ xs) ys l = drop-append n xs ys (omega arith)

pub length-drop : (n : ℕ) (xs : List ℕ) → n ≤ length xs → length (drop n xs) ≡ length xs - n
length-drop zero xs l = omega arith
length-drop (suc n) [] l = absurd (omega arith)
length-drop (suc n) (x ∷ xs) l = length-drop n xs (omega arith) ∙ omega arith

-- A message at the front is whole, and has a header.
pub whole-fits : (n m len : ℕ) → frame_of n m ≡ whole len → (8 ≤ len) × (len ≤ n) × (len ≡ m)
unfolding frame_of
whole-fits n m len q = ground (arith, q)

-- It stays there when more bytes come.
pub whole-append :
    (xs ys : List ℕ) (len : ℕ) → first_frame xs ≡ whole len → first_frame (xs ++ ys) ≡ whole len
unfolding frame_of
whole-append xs ys len q =
    let (a, b, c) = whole-fits (length xs) (stream_length xs) len q in
    let g6 = get_or-append 6 xs ys (omega arith) in
    let g7 = get_or-append 7 xs ys (omega arith) in
    let l = length-append xs ys in rw (g6, g7) (ground (arith, a, b, c, l))

rx_failed-ne : rx_failed ≢ rx_ok
rx_failed-ne q = cc

pub Front-cases : (f : Front) → (f ≡ incomplete) ⊎ ((f ≡ too_short) ⊎ ((len : ℕ) × (f ≡ whole len)))
Front-cases incomplete = inl refl
Front-cases too_short = inr (inl refl)
Front-cases (whole len) = inr (inr (len, refl))

module _ {S : Type 0} (cb : S → List ℕ → S × Bool) where
  -- What is called for the messages of a stream, and what is left of it, for streams below `n` bytes.
  unfoldable pub frames : ℕ → S → List ℕ → S × List ℕ × RxRc
  frames zero s xs = (s, xs, rx_ok)
  frames (suc n) s xs = elim (first_frame xs) [
    | incomplete ↦ (s, xs, rx_ok)
    | too_short ↦ (s, xs, rx_failed)
    | whole len ↦
        let r = cb s (take len xs) in
        elim r.1 [ true ↦ frames n r.0 (drop len xs) | false ↦ (r.0, drop len xs, rx_failed) ]
  ]

  unfoldable pub stream : S → List ℕ → S × List ℕ × RxRc
  stream s xs = frames (suc (length xs)) s xs

  -- More fuel than the stream has bytes makes no difference.
  pub frames-fuel :
      (n m : ℕ) (s : S) (xs : List ℕ)
      → length xs < n
      → length xs < m
      → frames n s xs ≡ frames m s xs
  unfolding frames
  frames-fuel zero m s xs a b = absurd (omega arith)
  frames-fuel (suc n) zero s xs a b = absurd (omega arith)
  frames-fuel (suc n) (suc m) s xs a b = elim (Front-cases (first_frame xs)) [
    | inl f ↦ rw (f, frames) refl
    | inr (inl f) ↦ rw (f, frames) refl
    | inr (inr (len, f)) ↦
        let (lo, hi, eq) = whole-fits (length xs) (stream_length xs) len f in
        let shorter = length-drop len xs hi in
        elim (Bool-cases (cb s (take len xs)).1) [
          | inl q ↦
              rw (f, frames, q)
                (frames-fuel n m (cb s (take len xs)).0 (drop len xs) (omega arith) (omega arith))
          | inr q ↦ rw (f, frames, q) refl
        ]
  ]

  pub frames-whole :
      (n len : ℕ) (s : S) (xs : List ℕ)
      → first_frame xs ≡ whole len
      → (cb s (take len xs)).1 ≡ true
      → frames (suc n) s xs ≡ frames n (cb s (take len xs)).0 (drop len xs)
  unfolding frames
  frames-whole n len s xs f on = rw (f, frames, on) refl

  pub frames-last :
      (n len : ℕ) (s : S) (xs : List ℕ)
      → first_frame xs ≡ whole len
      → (cb s (take len xs)).1 ≡ false
      → frames (suc n) s xs ≡ ((cb s (take len xs)).0, drop len xs, rx_failed)
  unfolding frames
  frames-last n len s xs f off = rw (f, frames, off) refl

  -- One message is taken off the front, and the rest goes on, also when more bytes come behind.
  stream-whole :
      (s : S) (xs ys : List ℕ) (len : ℕ)
      → first_frame xs ≡ whole len
      → (cb s (take len xs)).1 ≡ true
      → stream s (xs ++ ys) ≡ stream (cb s (take len xs)).0 (drop len xs ++ ys)
  unfolding stream
  stream-whole s xs ys len f on =
      let (lo, hi, eq) = whole-fits (length xs) (stream_length xs) len f in
      let n = length (xs ++ ys) in
      let front = take-append len xs ys hi in
      let back = drop-append len xs ys hi in
      let shorter = length-drop len xs hi in
      let all = length-append xs ys in
      let left = length-append (drop len xs) ys in
      frames-whole n len s (xs ++ ys) (whole-append xs ys len f) (ap (λ zs. (cb s zs).1) front ∙ on)
      ∙ ap (λ zs. frames n (cb s zs).0 (drop len (xs ++ ys))) front
      ∙ ap (λ zs. frames n (cb s (take len xs)).0 zs) back
      ∙ frames-fuel n (suc (length (drop len xs ++ ys))) (cb s (take len xs)).0 (drop len xs ++ ys)
          (omega arith) (omega arith)

  frames-append :
      (n : ℕ) (s s' : S) (xs ys rest : List ℕ)
      → length xs < n
      → frames n s xs ≡ (s', rest, rx_ok)
      → stream s (xs ++ ys) ≡ stream s' (rest ++ ys)
  unfolding frames
  frames-append zero s s' xs ys rest a q = absurd (omega arith)
  frames-append (suc n) s s' xs ys rest a q = elim (Front-cases (first_frame xs)) [
    | inl f ↦
        let same : (s, xs, rx_ok) ≡ (s', rest, rx_ok) = rw (f, frames) at q in
        ap (λ r. stream r.0 (r.1 ++ ys)) same
    | inr (inl f) ↦
        let same : (s, xs, rx_failed) ≡ (s', rest, rx_ok) = rw (f, frames) at q in
        absurd (rx_failed-ne (ap (λ r. r.2) same))
    | inr (inr (len, f)) ↦
        let (lo, hi, eq) = whole-fits (length xs) (stream_length xs) len f in
        let shorter = length-drop len xs hi in
        elim (Bool-cases (cb s (take len xs)).1) [
          | inl on ↦
              let same : frames n (cb s (take len xs)).0 (drop len xs) ≡ (s', rest, rx_ok) =
                rw (f, frames, on) at q in
              stream-whole s xs ys len f on
              ∙ frames-append n (cb s (take len xs)).0 s' (drop len xs) ys rest (omega arith) same
          | inr off ↦
              let same : ((cb s (take len xs)).0, drop len xs, rx_failed) ≡ (s', rest, rx_ok) =
                rw (f, frames, off) at q in
              absurd (rx_failed-ne (ap (λ r. r.2) same))
        ]
  ]

  -- A stream may be cut anywhere.
  pub stream-append :
      (s s' : S) (xs ys rest : List ℕ)
      → stream s xs ≡ (s', rest, rx_ok)
      → stream s (xs ++ ys) ≡ stream s' (rest ++ ys)
  unfolding stream
  stream-append s s' xs ys rest q = frames-append (suc (length xs)) s s' xs ys rest (omega arith) q
