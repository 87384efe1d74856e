-- ===== src/Timer/Order.antt =====
-- src/bbdd-timer.c: lists of timers in the order of a key.
use bbdd.Base.{
  ℕ, ◌≤◌, ◌≡◌, ◌≢◌, sym, inl, inr, List, [], ◌∷◌, ◌++◌, arith, Bool-cases, count, count-append,
  ◌==◌, InOrder, nothing, before, Compares,
}
use bbdd.Timer.{Timer, timer_cmp}

abbrev pub deadline : (ℕ → Timer) → ℕ → ℕ
deadline f a = (f a).deadline_ns

ap_le : (key : ℕ → ℕ) (a b u : ℕ) → a ≡ b → key u ≤ key a → key u ≤ key b
ap_le key a b u e l = rw (sym e) l

first-insert :
    (key : ℕ → ℕ) (us vs : List ℕ) (a u : ℕ)
    → ((b : ℕ) → count b (us ++ vs) ≢ 0 → key u ≤ key b)
    → key u ≤ key a
    → (b : ℕ) → count b (us ++ a ∷ vs) ≢ 0
    → key u ≤ key b
first-insert key us vs a u first le b m = elim (Bool-cases (a == b)) [
  | inl q ↦ ap_le key a b u (ground arith) le
  | inr q ↦ first b (ground (arith, count-append b us vs, count-append b us (a ∷ vs)))
]

first-delete :
    (key : ℕ → ℕ) (us vs : List ℕ) (a u : ℕ)
    → ((b : ℕ) → count b (us ++ a ∷ vs) ≢ 0 → key u ≤ key b)
    → (b : ℕ) → count b (us ++ vs) ≢ 0
    → key u ≤ key b
first-delete key us vs a u first b m =
    first b (ground (arith, count-append b us vs, count-append b us (a ∷ vs)))

-- A list in order stays so with a node put where it belongs, or taken out, and under other keys
-- that are the same on its nodes.
pub InOrder-insert :
    (key : ℕ → ℕ) (us vs : List ℕ) (a : ℕ)
    → InOrder key (us ++ vs)
    → ((b : ℕ) → count b us ≢ 0 → key b ≤ key a)
    → ((b : ℕ) → count b vs ≢ 0 → key a ≤ key b)
    → InOrder key (us ++ a ∷ vs)
InOrder-insert key [] vs a o lo hi = before hi o
InOrder-insert key (u ∷ us) vs a (before first o) lo hi =
    before (first-insert key us vs a u first (lo u (ground arith)))
      (InOrder-insert key us vs a o (λ b m. lo b (ground arith)) hi)

pub InOrder-delete :
    (key : ℕ → ℕ) (us vs : List ℕ) (a : ℕ) → InOrder key (us ++ a ∷ vs) → InOrder key (us ++ vs)
InOrder-delete key [] vs a (before first o) = o
InOrder-delete key (u ∷ us) vs a (before first o) =
    before (first-delete key us vs a u first) (InOrder-delete key us vs a o)

pub InOrder-keys :
    (key key' : ℕ → ℕ) (xs : List ℕ)
    → ((b : ℕ) → count b xs ≢ 0 → key' b ≡ key b)
    → InOrder key xs
    → InOrder key' xs
InOrder-keys key key' [] same nothing = nothing
InOrder-keys key key' (x ∷ xs) same (before first o) =
    before (λ b m. ground (arith, same b, same x, first b))
      (InOrder-keys key key' xs (λ b m. same b (ground arith)) o)

pub timer_cmp-Compares : (f : ℕ → Timer) → Compares (λ a b. timer_cmp (f a) (f b)) (deadline f)
unfolding timer_cmp
timer_cmp-Compares f a b =
    ((λ h. ground arith, λ h. ground arith), (λ h. ground arith, λ h. ground arith))
