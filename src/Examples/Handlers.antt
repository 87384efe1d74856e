-- ===== src/Examples/Handlers.antt =====
-- Packets, timeouts and timers at a concrete session.
use bbdd.Base.{◌≡◌, refl, inl, true, false, some}
use bbdd.Wire.{ntoh32, hton32}
use bbdd.Wire.Packet.{down, init, bfd_pkt_bits, bfd_pkt_state, bfd_pkt_diag}
use bbdd.Bpf.State.{Bpf, BSession, stable}
use bbdd.Bpf.Packet.{parse_packet, make_packet}
use bbdd.Bpf.Receive.{handle_packet, count_rx}
use bbdd.Bpf.Receiving.{received, IsAdvanced, handle_packet-received}
use bbdd.Examples.Inputs.{
  willing, daemon, dsession, bsession, packet, side, timing_300ms, session-IsValid,
}

handle_packet-received_example :
    (bpf' : Bpf) × (b' : BSession) × (handle_packet willing
        (daemon 8)
        (dsession down down)
        (bsession stable timing_300ms)
        (packet init 32)
        66
        255
      ≡ some (bpf', received (dsession down down) (side 9 init), b'))
    × IsAdvanced (count_rx (bsession stable timing_300ms) 66) false b'
unfolding parse_packet make_packet bfd_pkt_bits bfd_pkt_state bfd_pkt_diag ntoh32 hton32
handle_packet-received_example =
    handle_packet-received willing (daemon 8) (dsession down down) (bsession stable timing_300ms)
      (packet init 32) 66 255 (side 9 init) true false (session-IsValid down down stable) refl
      (inl (λ h. cc)) refl refl refl
