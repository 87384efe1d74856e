-- ===== src/Bfdd/Framed.antt =====
-- The buffer and the loop over it do what the stream says.
use bbdd.Base.{
  ℕ, zero, suc, ◌+◌, ◌<◌, ◌≤◌, ◌≡◌, ◌⊎◌, inl, inr, refl, sym, ap, ◌∙◌, Bool, true, false, Option,
  none, some, List, [], ◌∷◌, ◌++◌, length, ltb, take, get_or, arith, length-append, Bool-cases,
}
use bbdd.Sb.{Sb, ok, push_len, pull}
use bbdd.Sb.Content.Bytes.{bytes_of}
use bbdd.Sb.Content.Push.{content, IsValid, push_len-IsPushed, pull-drop}
use bbdd.Bfdd.Framing.{
  incomplete, too_short, whole, frame_of, header_length, RxRc, rx_ok, rx_failed, rx_loop, rx_cb,
}
use bbdd.Bfdd.Stream.{
  first_frame, whole-fits, frames, frames-whole, frames-last, length-drop, stream, stream-append,
  Front-cases,
}

length-bytes_of : (f : ℕ → ℕ) (at n : ℕ) → length (bytes_of f at n) ≡ n
length-bytes_of f at zero = refl
length-bytes_of f at (suc n) = ap suc (length-bytes_of f (suc at) n)

get_or-bytes_of : (f : ℕ → ℕ) (i at n : ℕ) → i < n → get_or 0 i (bytes_of f at n) ≡ f (at + i)
get_or-bytes_of f i at zero l = absurd (omega arith)
get_or-bytes_of f zero at (suc n) l = ground arith
get_or-bytes_of f (suc i) at (suc n) l =
    let rest = get_or-bytes_of f i (suc at) n (omega arith) in
    let e : suc at + i ≡ at + suc i = omega arith in rest ∙ ap f e

take-bytes_of : (f : ℕ → ℕ) (at m n : ℕ) → m ≤ n → take m (bytes_of f at n) ≡ bytes_of f at m
take-bytes_of f at zero n l = refl
take-bytes_of f at (suc m) zero l = absurd (omega arith)
take-bytes_of f at (suc m) (suc n) l =
    ap (λ zs. f at ∷ zs) (take-bytes_of f (suc at) m n (omega arith))

-- The frame at the front of the buffer is that of its bytes.
frame_of-content : (sb : Sb) → frame_of sb.len (header_length sb) ≡ first_frame (content sb)
unfolding frame_of header_length
frame_of-content sb =
    let n = length-bytes_of sb.buf sb.off sb.len in
    elim (Bool-cases (ltb sb.len 8)) [
      | inl short ↦ rw (n, short) refl
      | inr long ↦
          let g6 = get_or-bytes_of sb.buf 6 sb.off sb.len (ground arith) in
          let g7 = get_or-bytes_of sb.buf 7 sb.off sb.len (ground arith) in rw (n, g6, g7) refl
    ]

append_assoc : (xs ys zs : List ℕ) → xs ++ ys ++ zs ≡ xs ++ (ys ++ zs)
append_assoc [] ys zs = refl
append_assoc (x ∷ xs) ys zs = ap (λ ws. x ∷ ws) (append_assoc xs ys zs)

triple :
    {A B C : Type 0} {a : A} {b : B} {c : C} (r : A × B × C)
    → a ≡ r.0
    → b ≡ r.1
    → c ≡ r.2
    → r ≡ (a, b, c)
triple (x, y, z) p q t = rw (p, q, t) refl

module _ {S : Type 0} (cb : S → List ℕ → S × Bool) where
  -- The state, the bytes and the result are those of a stream.
  abbrev pub IsCut : Option (S × Sb × RxRc) → S × List ℕ × RxRc → Type 0
  IsCut none r = ⊥
  IsCut (some (s, sb, rc)) r = IsValid sb × (s ≡ r.0) × (content sb ≡ r.1) × (rc ≡ r.2)

  loop-whole :
      (n len : ℕ) (s : S) (sb sb' : Sb)
      → frame_of sb.len (header_length sb) ≡ whole len
      → pull sb len ≡ some sb'
      → (cb s (bytes_of sb.buf sb.off len)).1 ≡ true
      → rx_loop cb (suc n) s sb ≡ rx_loop cb n (cb s (bytes_of sb.buf sb.off len)).0 sb'
  unfolding rx_loop
  loop-whole n len s sb sb' f p on = rw (f, rx_loop, p, on) refl

  loop-last :
      (n len : ℕ) (s : S) (sb sb' : Sb)
      → frame_of sb.len (header_length sb) ≡ whole len
      → pull sb len ≡ some sb'
      → (cb s (bytes_of sb.buf sb.off len)).1 ≡ false
      → rx_loop cb (suc n) s sb ≡ some ((cb s (bytes_of sb.buf sb.off len)).0, sb', rx_failed)
  unfolding rx_loop
  loop-last n len s sb sb' f p off = rw (f, rx_loop, p, off) refl

  no_whole-IsCut :
      (n : ℕ) (s : S) (sb : Sb)
      → IsValid sb
      → (first_frame (content sb) ≡ incomplete) ⊎ (first_frame (content sb) ≡ too_short)
      → IsCut (rx_loop cb (suc n) s sb) (frames cb (suc n) s (content sb))
  unfolding rx_loop frames
  no_whole-IsCut n s sb v (inl f) =
      let f' = frame_of-content sb ∙ f in rw (f', f, rx_loop, frames) (v, refl, refl, refl)
  no_whole-IsCut n s sb v (inr f) =
      let f' = frame_of-content sb ∙ f in rw (f', f, rx_loop, frames) (v, refl, refl, refl)

  rx_loop-IsCut :
      (n : ℕ) (s : S) (sb : Sb)
      → IsValid sb
      → sb.len < n
      → IsCut (rx_loop cb n s sb) (frames cb n s (content sb))
  rx_loop-IsCut zero s sb v l = absurd (omega arith)
  rx_loop-IsCut (suc n) s sb v l = elim (Front-cases (first_frame (content sb))) [
    | inl f ↦ no_whole-IsCut n s sb v (inl f)
    | inr (inl f) ↦ no_whole-IsCut n s sb v (inr f)
    | inr (inr (len, f)) ↦
        let f' = frame_of-content sb ∙ f in
        let (lo, hi, eq) = whole-fits sb.len (header_length sb) len f' in
        let (sb', p, v', c) = pull-drop sb len v hi in
        let msg = take-bytes_of sb.buf sb.off len sb.len hi in
        let n₀ = length-bytes_of sb.buf sb.off sb.len in
        let n₁ = length-bytes_of sb'.buf sb'.off sb'.len in
        let left = length-drop len (content sb) (rw n₀ hi) in
        let gone = ap length c in
        elim (Bool-cases (cb s (bytes_of sb.buf sb.off len)).1) [
          | inl on ↦
              rw
                (
                  loop-whole n len s sb sb' f' p on,
                  frames-whole cb n len s (content sb) f (ap (λ m. (cb s m).1) msg ∙ on),
                  msg,
                  sym c,
                )
                (rx_loop-IsCut n (cb s (bytes_of sb.buf sb.off len)).0 sb' v'
                  (omega (arith, lo, hi, n₀, n₁, left, gone)))
          | inr off ↦
              rw
                (
                  loop-last n len s sb sb' f' p off,
                  frames-last cb n len s (content sb) f (ap (λ m. (cb s m).1) msg ∙ off),
                  msg,
                )
                (v', refl, c, refl)
        ]
  ]

  -- A chunk for which a valid buffer has room, up to 2 ^ 63 bytes in all: the loop ends, no assertion fails, and the messages that
  -- are handed on, the bytes that are left and the result are those of the stream that the buffer
  -- held, with the chunk behind it.
  pub rx_cb-IsCut :
      (alloc : ℕ → Bool) (s : S) (sb sb₁ : Sb) (chunk : List ℕ)
      → IsValid sb
      → sb.len + (length chunk + 1) ≤ 9223372036854775808
      → push_len alloc sb chunk ≡ some (ok sb₁)
      → IsCut (rx_cb cb alloc s sb chunk) (stream cb s (content sb ++ chunk))
  unfolding rx_cb stream
  rx_cb-IsCut alloc s sb sb₁ chunk v fit q =
      let pushed = push_len-IsPushed alloc sb chunk v fit in
      let (v₁, c, nul, room) = rw q at pushed in
      let n₁ = length-bytes_of sb₁.buf sb₁.off sb₁.len in
      let cut = rx_loop-IsCut (suc sb₁.len) s sb₁ v₁ (omega arith) in
      let same : frames cb (suc sb₁.len) s (content sb₁)
          ≡ frames cb (suc (length (content sb ++ chunk))) s (content sb ++ chunk) =
        ap (λ k. frames cb (suc k) s (content sb₁)) (sym n₁)
        ∙ ap (λ xs. frames cb (suc (length xs)) s xs) c in
      rw (q, sym same) cut

  -- However the stream is cut into chunks, the messages and what is left are the same: two chunks,
  -- one after the other, do what the one chunk of both does, if the buffer is valid, the first one
  -- leaves no error, and there is room for each, up to 2 ^ 63 bytes in all.
  pub rx_cb-chunks :
      (alloc : ℕ → Bool) (s s₁ : S) (sb sb₁ p₁ p₂ p₃ : Sb) (a b : List ℕ)
      → IsValid sb
      → sb.len + (length (a ++ b) + 1) ≤ 9223372036854775808
      → sb₁.len + (length b + 1) ≤ 9223372036854775808
      → push_len alloc sb a ≡ some (ok p₁)
      → rx_cb cb alloc s sb a ≡ some (s₁, sb₁, rx_ok)
      → push_len alloc sb₁ b ≡ some (ok p₂)
      → push_len alloc sb (a ++ b) ≡ some (ok p₃)
      → (r : S × List ℕ × RxRc) × IsCut (rx_cb cb alloc s₁ sb₁ b) r
        × IsCut (rx_cb cb alloc s sb (a ++ b)) r
  rx_cb-chunks alloc s s₁ sb sb₁ p₁ p₂ p₃ a b v fit fit₁ q₁ run q₂ q₃ =
      let both = length-append a b in
      let first = rx_cb-IsCut alloc s sb p₁ a v (omega (arith, fit, both)) q₁ in
      let (v₁, es, ec, er) = rw run at first in
      let cut : stream cb s (content sb ++ (a ++ b)) ≡ stream cb s₁ (content sb₁ ++ b) =
        ap (stream cb s) (sym (append_assoc (content sb) a b))
        ∙ stream-append cb s s₁ (content sb ++ a) b (content sb₁)
            (triple (stream cb s (content sb ++ a)) es ec er) in
      (
        stream cb s₁ (content sb₁ ++ b),
        rx_cb-IsCut alloc s₁ sb₁ p₂ b v₁ fit₁ q₂,
        rw (sym cut) (rx_cb-IsCut alloc s sb p₃ (a ++ b) v fit q₃),
      )
