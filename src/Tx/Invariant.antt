-- ===== src/Tx/Invariant.antt =====
-- The queue's lists, its counters and the `linked` bits of the slots.
use bbdd.Base.{
  ℕ, ◌≡◌, refl, Bool, false, not, ◌&&◌, arith, if◌then◌else◌, length, count, DlList,
  count-append_node, length-append_node, count-delete_node, length-delete_node,
}
use bbdd.Base.Words.{u32}
use bbdd.Tx.{Tx, TxSlot, create, enqueue, unlink}

abbrev pub one_if : Bool → ℕ
one_if b = if b then 1 else 0

-- Each linked slot stands once in the list that its `is_final` names, and no other slot in any.
pub record IsLinked (tx : Tx) : Type 0 where
  pub in_finals : (a : ℕ) → count a tx.finals ≡ one_if ((tx.slot a).linked && (tx.slot a).is_final)
  pub in_periodics :
      (a : ℕ) → count a tx.periodics ≡ one_if ((tx.slot a).linked && not (tx.slot a).is_final)
  pub nfinals_length : tx.nfinals ≡ u32 (length tx.finals)
  pub nperiodics_length : tx.nperiodics ≡ u32 (length tx.periodics)

pub create-IsLinked : (f : ℕ → TxSlot) → ((a : ℕ) → (f a).linked ≡ false) → IsLinked (create f)
unfolding create
create-IsLinked f h = record {
  in_finals = λ a. ground (arith, h a);
  in_periodics = λ a. ground (arith, h a);
  nfinals_length = refl;
  nperiodics_length = refl;
}

module _ (dl : DlList) where
  -- Enqueueing keeps the lists, the counters and the bits in agreement, on a slot that is linked too.
  pub enqueue-IsLinked :
      (tx : Tx) (a : ℕ) (is_final : Bool) (discr tx_ifindex bfd_flags : ℕ)
      → IsLinked tx
      → IsLinked (enqueue dl tx a is_final discr tx_ifindex bfd_flags).0
  unfolding enqueue
  enqueue-IsLinked tx a is_final discr tx_ifindex bfd_flags v = record {
    in_finals =
        λ b. ground (arith, v.in_finals b, v.in_finals a, count-append_node dl b a tx.finals);
    in_periodics = λ b.
        ground (arith, v.in_periodics b, v.in_periodics a, count-append_node dl b a tx.periodics);
    nfinals_length = ground (arith, v.nfinals_length, length-append_node dl a tx.finals);
    nperiodics_length = ground (arith, v.nperiodics_length, length-append_node dl a tx.periodics);
  }

  -- Unlinking keeps them in agreement, on a slot that is not linked too.
  pub unlink-IsLinked : (tx : Tx) (a : ℕ) → IsLinked tx → IsLinked (unlink dl tx a)
  unfolding unlink
  unlink-IsLinked tx a v = record {
    in_finals =
        λ b. ground (arith, v.in_finals b, v.in_finals a, count-delete_node dl b a tx.finals);
    in_periodics = λ b.
        ground (arith, v.in_periodics b, v.in_periodics a, count-delete_node dl b a tx.periodics);
    nfinals_length =
        ground (arith, v.in_finals a, v.nfinals_length, length-delete_node dl a tx.finals);
    nperiodics_length =
        ground (arith, v.in_periodics a, v.nperiodics_length, length-delete_node dl a tx.periodics);
  }
