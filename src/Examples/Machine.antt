-- ===== src/Examples/Machine.antt =====
-- The state machine at a concrete packet.
use bbdd.Base.{◌≡◌, ◌↔◌}
use bbdd.Wire.Packet.{down, up}
use bbdd.Bpf.Receive.{next_end}
use bbdd.Bpf.Rfc.{Edge, next_end-follows_rfc}
use bbdd.Examples.Inputs.{at_state}

next_end-follows_rfc_example : (down ≡ (next_end up down (at_state up)).state) ↔ Edge up down down
next_end-follows_rfc_example = next_end-follows_rfc down down (at_state up) (λ h. cc)
