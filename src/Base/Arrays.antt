-- ===== src/Base/Arrays.antt =====
-- Lists as arrays: read with a default, and write.
use Prim.Native.Nat.{ℕ, zero, suc, ◌<◌}
use mathlib.Core.Path.{◌≡◌, refl}
use mathlib.Core.List.{List, [], ◌∷◌}
use native.Mathlib.Omega.{arith}
use bbdd.Base.Tests.{◌==◌, if◌then◌else◌}
use bbdd.Base.Lists.{length}

abbrev pub get_or {ℓ} : {A : Type ℓ} → A → ℕ → List A → A
get_or z i [] = z
get_or z zero (x ∷ xs) = x
get_or z (suc i) (x ∷ xs) = get_or z i xs

abbrev pub set_at {ℓ} : {A : Type ℓ} → ℕ → A → List A → List A
set_at i v [] = []
set_at zero v (x ∷ xs) = v ∷ xs
set_at (suc i) v (x ∷ xs) = x ∷ set_at i v xs

pub get-set {ℓ} :
    {A : Type ℓ} (z v : A) (i j : ℕ) (xs : List A)
    → i < length xs
    → get_or z j (set_at i v xs) ≡ (if i == j then v else get_or z j xs)
get-set z v i j [] h = absurd (omega arith)
get-set z v zero zero (x ∷ xs) h = refl
get-set z v zero (suc j) (x ∷ xs) h = ground arith
get-set z v (suc i) zero (x ∷ xs) h = ground arith
get-set z v (suc i) (suc j) (x ∷ xs) h = ground (arith, get-set z v i j xs (omega arith))

pub length-set {ℓ} : {A : Type ℓ} (v : A) (i : ℕ) (xs : List A) → length (set_at i v xs) ≡ length xs
length-set v i [] = refl
length-set v zero (x ∷ xs) = refl
length-set v (suc i) (x ∷ xs) = ground (arith, length-set v i xs)
