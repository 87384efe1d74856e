-- ===== src/Tx/Order.antt =====
-- The queue as the sequence in which it is served.
use bbdd.Base.{
  ℕ, ◌≡◌, ◌⊎◌, ◌↔◌, ◌∙◌, refl, sym, Bool, true, false, Option, none, some, List, [], ◌∷◌, ◌++◌,
  arith, if◌then◌else◌, DlList,
}
use bbdd.Tx.{Tx, enqueue, unlink, peek, pending}
use bbdd.Tx.Invariant.{IsLinked}

-- The addresses in the order of service: all finals, then all periodics, each first come first served.
abbrev pub served : Tx → List ℕ
served tx = tx.finals ++ tx.periodics

abbrev pub head? : List ℕ → Option ℕ
head? [] = none
head? (a ∷ _) = some a

peek-served :
    (tx : Tx) (xs ys : List ℕ) → tx.finals ≡ xs → tx.periodics ≡ ys → peek tx ≡ head? (xs ++ ys)
unfolding peek
peek-served tx [] [] e f = ground arith
peek-served tx [] (y ∷ ys) e f = ground arith
peek-served tx (x ∷ xs) ys e f = ground arith

module _ (dl : DlList) where
  -- `enqueue` on a slot that is linked changes nothing and says so; on a free slot it links it, behind
  -- the finals or behind the periodics, with the caller's parameters stamped on it.
  pub enqueue_order :
      (tx : Tx) (a : ℕ) (is_final : Bool) (discr tx_ifindex bfd_flags : ℕ)
      → let (tx', fresh) = enqueue dl tx a is_final discr tx_ifindex bfd_flags in
        (((tx.slot a).linked ≡ true) × (fresh ≡ false) × (tx' ≡ tx))
        ⊎ (((tx.slot a).linked ≡ false)
            × (fresh ≡ true)
            × (tx'.finals ≡ (if is_final then tx.finals ++ a ∷ [] else tx.finals))
            × (tx'.periodics ≡ (if is_final then tx.periodics else tx.periodics ++ a ∷ []))
            × (tx'.slot a ≡ record {
              discr = discr;
              tx_ifindex = tx_ifindex;
              bfd_flags = bfd_flags;
              linked = true;
              is_final = is_final;
            }))
  unfolding enqueue
  enqueue_order tx a is_final discr tx_ifindex bfd_flags =
      ground (arith, dl.append_eq tx.finals a, dl.append_eq tx.periodics a)

  peek-unlink_cases :
      (tx : Tx) (a : ℕ) (xs ys : List ℕ)
      → IsLinked tx
      → tx.finals ≡ xs
      → tx.periodics ≡ ys
      → head? (xs ++ ys) ≡ some a
      → (served tx ≡ a ∷ served (unlink dl tx a)) × (((unlink dl tx a).slot a).linked ≡ false)
  unfolding unlink
  peek-unlink_cases tx a [] [] v e f h = cc
  peek-unlink_cases tx a [] (y ∷ ys) v e f h =
      ground (arith, v.in_finals y, v.in_periodics y, dl.delete_eq [] ys y refl)
  peek-unlink_cases tx a (x ∷ xs) ys v e f h =
      ground (arith, v.in_finals x, dl.delete_eq [] xs x refl)

  -- Serving takes the head of the sequence off and leaves the rest in order.
  pub peek-unlink :
      (tx : Tx) (a : ℕ)
      → IsLinked tx
      → peek tx ≡ some a
      → (served tx ≡ a ∷ served (unlink dl tx a)) × (((unlink dl tx a).slot a).linked ≡ false)
  peek-unlink tx a v h =
      peek-unlink_cases tx a tx.finals tx.periodics v refl refl
        (sym (peek-served tx tx.finals tx.periodics refl refl) ∙ h)

-- `pending` tells whether `peek` has a slot to give.
pub pending_iff : (tx : Tx) → (pending tx ≡ false) ↔ (peek tx ≡ none)
unfolding pending peek
pending_iff tx = ground arith
