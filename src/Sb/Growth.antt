-- ===== src/Sb/Growth.antt =====
-- The loop that doubles the size of the buffer.
use bbdd.Base.{
  ℕ, zero, suc, ◌*◌, ◌^◌, ◌<◌, ◌≤◌, ◌≡◌, ◌⊎◌, inl, inr, refl, sym, ap, some, ltb, arith, Bool-cases,
}
use native.Mathlib.Nat.{pow-succ', mul_assoc}
use bbdd.Base.Words.{u64}
use bbdd.Sb.{grow, grow_fuel}

-- A size that is found: large enough, and at most the old one, the smallest, or twice what is needed.
pub record IsGrown (old needed new : ℕ) : Type 0 where
  pub enough : needed ≤ new
  pub bound : (new ≤ old) ⊎ ((new ≤ 1024) ⊎ (new < 2 * needed))

grow_positive :
    (n nsize needed : ℕ)
    → 0 < nsize
    → needed ≤ nsize * 2 ^ n
    → needed ≤ 9223372036854775808
    → (new : ℕ) × (grow (suc n) nsize needed ≡ some new) × IsGrown nsize needed new
unfolding grow
grow_positive zero nsize needed pos enough fit =
    (nsize, ground arith, record { enough = ground arith; bound = inl (omega arith) })
grow_positive (suc n) nsize needed pos enough fit = elim (Bool-cases (ltb nsize needed)) [
  | inr q ↦ (nsize, ground arith, record { enough = ground arith; bound = inl (omega arith) })
  | inl q ↦
      let less : nsize < needed = ground arith in
      let wrap : u64 (nsize * 2) ≡ nsize * 2 = omega arith in
      let enough' : needed ≤ nsize * 2 * 2 ^ n =
        rw (pow-succ' 2 n, sym (mul_assoc nsize 2 (2 ^ n))) at enough in
      let next : grow (suc n) (u64 (nsize * 2)) needed ≡ grow (suc n) (nsize * 2) needed =
        ap (λ k. grow (suc n) k needed) wrap in
      let (new, found, v) = grow_positive n (nsize * 2) needed (omega arith) enough' fit in
      (new, ground arith, record { enough = v.enough; bound = ground (arith, v.bound) })
]

-- From an empty buffer the first step goes to the smallest size.
grow_zero :
    (n needed : ℕ)
    → 0 < needed
    → needed ≤ 1024 * 2 ^ n
    → needed ≤ 9223372036854775808
    → (new : ℕ) × (grow (suc (suc n)) 0 needed ≡ some new) × IsGrown 0 needed new
unfolding grow
grow_zero n needed pos enough fit =
    let (new, found, v) = grow_positive n 1024 needed (omega arith) enough fit in
    (new, ground arith, record { enough = v.enough; bound = ground (arith, v.bound) })

-- 65 rounds are enough for every size up to 2 ^ 63: the loop ends with a size that is large enough,
-- and less than twice what is needed unless it is the old size or the smallest one.
pub grow-IsGrown :
    (size needed : ℕ)
    → needed ≤ 9223372036854775808
    → (new : ℕ) × (grow grow_fuel size needed ≡ some new) × IsGrown size needed new
unfolding grow
grow-IsGrown zero zero fit = (0, refl, record { enough = omega arith; bound = inl (omega arith) })
grow-IsGrown zero (suc needed) fit = grow_zero 63 (suc needed) (omega arith) (omega arith) fit
grow-IsGrown (suc size) needed fit =
    grow_positive 64 (suc size) needed (omega arith) (omega arith) fit
