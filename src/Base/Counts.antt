-- ===== src/Base/Counts.antt =====
-- How often a number occurs in a list, and the doubly-linked lists of utlist.h as an interface.
use Prim.Native.Nat.{ℕ, suc, ◌+◌, ◌-◌}
use mathlib.Core.Path.{◌≡◌, refl, ap}
use mathlib.Core.Logic.{◌≢◌}
use mathlib.Core.List.{List, [], ◌∷◌, ◌++◌}
use native.Mathlib.Omega.{arith}
use native.Mathlib.Decide.{ℕ_discrete}
use bbdd.Base.Tests.{◌==◌, if◌then◌else◌}
use bbdd.Base.Lists.{length, length-append}

abbrev pub count : ℕ → List ℕ → ℕ
count key [] = 0
count key (first ∷ others) = let rest = count key others in if first == key then suc rest else rest

pub count-append :
    (key : ℕ) (front back : List ℕ) → count key (front ++ back) ≡ count key front + count key back
count-append key [] back = omega arith
count-append key (first ∷ front) back = ground (arith, count-append key front back)

-- A member splits the list at its first occurrence.
pub count_split :
    (a : ℕ) (xs : List ℕ)
    → count a xs ≢ 0
    → (us : List ℕ) × (vs : List ℕ) × (xs ≡ us ++ a ∷ vs) × (count a us ≡ 0)
count_split a [] h = absurd (h refl)
count_split a (x ∷ xs) h = elim (ℕ_discrete x a) [
  | yes e ↦ ([], xs, ap (λ y. y ∷ xs) e, refl)
  | no ne ↦
      let (us, vs, split, fresh) = count_split a xs (ground arith) in
      (x ∷ us, vs, ap (◌∷◌ x) split, ground arith)
]

-- DL_APPEND and DL_DELETE of utlist.h over the addresses of the nodes, by their documentation:
-- an append puts the node last, and a delete takes the node out and keeps the order.
pub record DlList : Type 0 where
  pub append : List ℕ → ℕ → List ℕ
  pub delete : List ℕ → ℕ → List ℕ
  pub append_eq : (xs : List ℕ) (a : ℕ) → append xs a ≡ xs ++ a ∷ []
  pub delete_eq : (us vs : List ℕ) (a : ℕ) → count a us ≡ 0 → delete (us ++ a ∷ vs) a ≡ us ++ vs

module _ (dl : DlList) where
  pub count-append_node :
      (a b : ℕ) (xs : List ℕ)
      → count a (dl.append xs b) ≡ (if b == a then suc (count a xs) else count a xs)
  count-append_node a b xs = rw (dl.append_eq xs b) (rw (count-append a xs (b ∷ [])) (ground arith))

  pub length-append_node : (b : ℕ) (xs : List ℕ) → length (dl.append xs b) ≡ suc (length xs)
  length-append_node b xs = rw (dl.append_eq xs b) (omega (arith, length-append xs (b ∷ [])))

  pub count-delete_node :
      (a b : ℕ) (xs : List ℕ)
      → count b xs ≢ 0
      → count a (dl.delete xs b) ≡ (if b == a then count a xs - 1 else count a xs)
  count-delete_node a b xs h =
      let (us, vs, split, fresh) = count_split b xs h in
      rw (split, dl.delete_eq us vs b fresh)
        (ground (arith, count-append a us vs, count-append a us (b ∷ vs)))

  pub length-delete_node :
      (b : ℕ) (xs : List ℕ) → count b xs ≢ 0 → suc (length (dl.delete xs b)) ≡ length xs
  length-delete_node b xs h =
      let (us, vs, split, fresh) = count_split b xs h in
      rw (split, dl.delete_eq us vs b fresh)
        (omega (arith, length-append us vs, length-append us (b ∷ vs)))
