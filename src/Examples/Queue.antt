-- ===== src/Examples/Queue.antt =====
-- The TX queue at concrete slots.
use bbdd.Base.{◌≡◌, refl, true, false, some, [], ◌∷◌, arith}
use bbdd.Tx.{Tx, TxSlot, unlink, peek, set_slot, empty_slot}
use bbdd.Tx.Invariant.{IsLinked}
use bbdd.Tx.Order.{served, peek-unlink}
use bbdd.Examples.Lists.{list_dl}

-- A periodic packet of one session, and then a final one of another.
abbrev pub final_slot : TxSlot
final_slot = record { discr = 8; tx_ifindex = 12; bfd_flags = 16; linked = true; is_final = true }

abbrev pub periodic_slot : TxSlot
periodic_slot = record {
  discr = 7;
  tx_ifindex = 12;
  bfd_flags = 0;
  linked = true;
  is_final = false;
}

abbrev pub two_slots : Tx
two_slots = record {
  finals = 200 ∷ [];
  periodics = 101 ∷ [];
  nfinals = 1;
  nperiodics = 1;
  slot = set_slot (set_slot (λ a. empty_slot) 101 periodic_slot) 200 final_slot;
}

pub two_slots-IsLinked : IsLinked two_slots
two_slots-IsLinked = record {
  in_finals = λ a. ground arith;
  in_periodics = λ a. ground arith;
  nfinals_length = refl;
  nperiodics_length = refl;
}

peek-two_slots : peek two_slots ≡ some 200
unfolding peek
peek-two_slots = refl

peek-unlink_example :
    (served two_slots ≡ 200 ∷ served (unlink list_dl two_slots 200))
    × (((unlink list_dl two_slots 200).slot 200).linked ≡ false)
peek-unlink_example = peek-unlink list_dl two_slots 200 two_slots-IsLinked peek-two_slots
