-- ===== src/Bpf/Rfc.antt =====
-- The state machine of RFC 5880, section 6.2, as the diagram draws it.
use bbdd.Base.{ℕ, ◌≡◌, ◌≢◌, ◌⊎◌, ◌↔◌, inl, inr, refl, arith}
use bbdd.Wire.Packet.{PktState, admindown, down, init, up, diag_nothing, diag_down}
use bbdd.Session.{StateEnd}
use bbdd.Bpf.Receive.{next_end}

-- The edges of the diagram: the state, the state that is received, and the next state.
pub data Edge : PktState → PktState → PktState → Type 0 where
  down_admin : Edge down admindown down
  down_up : Edge down up down
  down_down : Edge down down init
  down_init : Edge down init up
  init_admin : Edge init admindown down
  init_down : Edge init down init
  init_init : Edge init init up
  init_up : Edge init up up
  up_admin : Edge up admindown down
  up_down : Edge up down down
  up_init : Edge up init up
  up_up : Edge up up up

ruleset edges = (
  down_admin, down_up, down_down, down_init, init_admin, init_down, init_init, init_up, up_admin,
  up_down, up_init, up_up,
)

Edge-unique :
    {s r t : PktState} (l : StateEnd) → l.state ≡ s → Edge s r t → t ≡ (next_end s r l).state
unfolding next_end
Edge-unique l q down_admin = ground arith
Edge-unique l q down_up = ground arith
Edge-unique l q down_down = refl
Edge-unique l q down_init = refl
Edge-unique l q init_admin = refl
Edge-unique l q init_down = ground arith
Edge-unique l q init_init = refl
Edge-unique l q init_up = refl
Edge-unique l q up_admin = refl
Edge-unique l q up_down = refl
Edge-unique l q up_init = ground arith
Edge-unique l q up_up = ground arith

next_end-Edge :
    (s r : PktState) (l : StateEnd) → l.state ≡ s → s ≢ admindown → Edge s r (next_end s r l).state
unfolding next_end
next_end-Edge admindown r l q off = absurd (off refl)
next_end-Edge down admindown l q off = rw q down_admin
next_end-Edge down down l q off = down_down
next_end-Edge down init l q off = down_init
next_end-Edge down up l q off = rw q down_up
next_end-Edge init admindown l q off = init_admin
next_end-Edge init down l q off = rw q init_down
next_end-Edge init init l q off = init_init
next_end-Edge init up l q off = init_up
next_end-Edge up admindown l q off = up_admin
next_end-Edge up down l q off = up_down
next_end-Edge up init l q off = rw q up_init
next_end-Edge up up l q off = rw q up_up

-- The new state is the one that the diagram of RFC 5880 gives, and no other, whatever the state of
-- the end was, unless it is administratively down.
pub next_end-follows_rfc :
    (r t : PktState) (l : StateEnd)
    → l.state ≢ admindown
    → (t ≡ (next_end l.state r l).state) ↔ Edge l.state r t
next_end-follows_rfc r t l off =
    (λ q. rw q (next_end-Edge l.state r l refl off), Edge-unique l refl)

abbrev diag_of_change : PktState → ℕ
diag_of_change down = diag_down
diag_of_change _ = diag_nothing

next_end-diag_by :
    (s r : PktState) (l : StateEnd)
    → (next_end s r l ≡ l) ⊎ ((next_end s r l).diag ≡ diag_of_change (next_end s r l).state)
unfolding next_end
next_end-diag_by admindown admindown l = inr refl
next_end-diag_by admindown down l = inl refl
next_end-diag_by admindown init l = inl refl
next_end-diag_by admindown up l = inl refl
next_end-diag_by down admindown l = inl refl
next_end-diag_by down down l = inr refl
next_end-diag_by down init l = inr refl
next_end-diag_by down up l = inl refl
next_end-diag_by init admindown l = inr refl
next_end-diag_by init down l = inl refl
next_end-diag_by init init l = inr refl
next_end-diag_by init up l = inr refl
next_end-diag_by up admindown l = inr refl
next_end-diag_by up down l = inr refl
next_end-diag_by up init l = inl refl
next_end-diag_by up up l = inl refl

-- A received packet that does not change the state leaves the diagnostic too; one that does sets it
-- to "neighbor signaled session down" when the new state is down, and clears it otherwise.
pub next_end-diag :
    (r : PktState) (l : StateEnd)
    → (next_end l.state r l ≡ l)
      ⊎ ((next_end l.state r l).diag ≡ diag_of_change (next_end l.state r l).state)
next_end-diag r l = next_end-diag_by l.state r l
