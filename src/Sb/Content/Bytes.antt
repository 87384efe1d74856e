-- ===== src/Sb/Content/Bytes.antt =====
-- Stretches of memory as lists of bytes.
use bbdd.Base.{
  ℕ, zero, suc, ◌+◌, ◌-◌, ◌<◌, ◌≤◌, ◌≡◌, refl, ap, List, [], ◌∷◌, ◌++◌, arith, length, drop,
}
use bbdd.Sb.{memmove, mempcpy}

abbrev pub bytes_of : (ℕ → ℕ) → ℕ → ℕ → List ℕ
bytes_of f at zero = []
bytes_of f at (suc n) = f at ∷ bytes_of f (suc at) n

pub bytes_of-shift :
    (f g : ℕ → ℕ) (at bt n : ℕ)
    → ((i : ℕ) → i < n → f (at + i) ≡ g (bt + i))
    → bytes_of f at n ≡ bytes_of g bt n
bytes_of-shift f g at bt zero same = refl
bytes_of-shift f g at bt (suc n) same =
    let first : f at ≡ g bt = ground (arith, same 0 (omega arith)) in
    let rest = bytes_of-shift f g (suc at) (suc bt) n (λ i l. ground (arith, same (suc i))) in
    ground arith

pub bytes_of_split :
    (f : ℕ → ℕ) (at n m : ℕ) → bytes_of f at (n + m) ≡ bytes_of f at n ++ bytes_of f (at + n) m
bytes_of_split f at zero m = ground arith
bytes_of_split f at (suc n) m =
    let e : suc n + m ≡ suc (n + m) = omega arith in
    let t : at + suc n ≡ suc at + n = omega arith in
    rw (e, t) (ap (λ ys. f at ∷ ys) (bytes_of_split f (suc at) n m))

pub mempcpy_before : (f : ℕ → ℕ) (at i : ℕ) (xs : List ℕ) → i < at → mempcpy f at xs i ≡ f i
unfolding mempcpy
mempcpy_before f at i [] l = refl
mempcpy_before f at i (x ∷ xs) l = ground (arith, mempcpy_before f (suc at) i xs)

pub mempcpy_bytes :
    (f : ℕ → ℕ) (at : ℕ) (xs : List ℕ) → bytes_of (mempcpy f at xs) at (length xs) ≡ xs
unfolding mempcpy
mempcpy_bytes f at [] = refl
mempcpy_bytes f at (x ∷ xs) =
    let rest =
      bytes_of-shift (mempcpy f at (x ∷ xs)) (mempcpy f (suc at) xs) (suc at) (suc at) (length xs)
        (λ i l. ground arith) in
    ground (arith, rest, mempcpy_bytes f (suc at) xs)

pub bytes_of-drop :
    (f : ℕ → ℕ) (at k n : ℕ) → k ≤ n → bytes_of f (at + k) (n - k) ≡ drop k (bytes_of f at n)
bytes_of-drop f at zero n l = ground arith
bytes_of-drop f at (suc k) zero l = absurd (omega arith)
bytes_of-drop f at (suc k) (suc n) l = ground (arith, bytes_of-drop f (suc at) k n)

-- Moving the message to the front keeps its bytes.
pub memmove_bytes :
    (f : ℕ → ℕ) (off len : ℕ) → bytes_of (memmove f off len) 0 len ≡ bytes_of f off len
unfolding memmove
memmove_bytes f off len = bytes_of-shift (memmove f off len) f 0 off len (λ i l. ground arith)
