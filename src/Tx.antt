-- ===== src/Tx.antt =====
-- src/bbdd-tx.c: the queue of deferred packet injections. A slot is a node of one of two lists and
-- lives inside a session, so the model has the slots in a store by address, and the two lists hold
-- addresses. `bbdd_tx_create` is `create`; `bbdd_tx_destroy` only frees the queue's own memory.
pub mod Invariant
pub mod Order
use bbdd.Base.{
  ℕ, suc, ◌+◌, ◌-◌, ◌%◌, ◌≡◌, Bool, true, false, not, Option, none, some, List, [], ◌∷◌, ◌==◌,
  if◌then◌else◌, DlList,
}
use bbdd.Base.Words.{u32, u32_mod}

pub record TxSlot : Type 0 where
  pub discr : ℕ
  pub tx_ifindex : ℕ
  pub bfd_flags : ℕ
  pub linked : Bool
  pub is_final : Bool  -- only meaningful while linked

pub record Tx : Type 0 where
  pub finals : List ℕ
  pub periodics : List ℕ
  pub nfinals : ℕ  -- uint32_t
  pub nperiodics : ℕ  -- uint32_t
  pub slot : ℕ → TxSlot

-- A slot of a session that was just allocated.
abbrev pub empty_slot : TxSlot
empty_slot = record { discr = 0; tx_ifindex = 0; bfd_flags = 0; linked = false; is_final = false }

abbrev pub set_slot : (ℕ → TxSlot) → ℕ → TxSlot → ℕ → TxSlot
set_slot f a s b = if a == b then s else f b

unfoldable pub create : (ℕ → TxSlot) → Tx
create f = record { finals = []; periodics = []; nfinals = 0; nperiodics = 0; slot = f }

module _ (dl : DlList) where
  unfoldable pub enqueue : Tx → ℕ → Bool → ℕ → ℕ → ℕ → Tx × Bool
  enqueue tx a is_final discr tx_ifindex bfd_flags =
      if (tx.slot a).linked
      then (tx, false)
      else let s : TxSlot = record {
        discr = discr;
        tx_ifindex = tx_ifindex;
        bfd_flags = bfd_flags;
        linked = true;
        is_final = is_final;
      } in
        let tx' = record tx { slot = set_slot tx.slot a s } in
        (
          if is_final
              then record tx' { finals = dl.append tx.finals a; nfinals = u32 (tx.nfinals + 1) }
              else record tx' {
                periodics = dl.append tx.periodics a;
                nperiodics = u32 (tx.nperiodics + 1);
              },
          true,
        )

  unfoldable pub unlink : Tx → ℕ → Tx
  unlink tx a =
      if not (tx.slot a).linked
      then tx
      else let tx' = record tx {
        slot = set_slot tx.slot a (record (tx.slot a) { linked = false });
      } in
        if (tx.slot a).is_final
        then record tx' { finals = dl.delete tx.finals a; nfinals = u32 (tx.nfinals + u32_mod - 1) }
        else record tx' {
          periodics = dl.delete tx.periodics a;
          nperiodics = u32 (tx.nperiodics + u32_mod - 1);
        }

abbrev first_of_list : List ℕ → Option ℕ
first_of_list [] = none
first_of_list (a ∷ _) = some a

-- The head of the finals, or else of the periodics.
unfoldable pub peek : Tx → Option ℕ
peek tx = elim tx.finals [ [] ↦ first_of_list tx.periodics | a ∷ _ ↦ some a ]

abbrev is_cons : List ℕ → Bool
is_cons [] = false
is_cons (_ ∷ _) = true

unfoldable pub pending : Tx → Bool
pending tx = if is_cons tx.finals then true else is_cons tx.periodics
