-- ===== src/Examples/Kept.antt =====
-- The packets that the BPF program keeps to itself, for the session of Inputs.
use bbdd.Base.{◌≡◌, refl, inl, true, false, some, arith}
use bbdd.Wire.{hton16, hton32, ntoh16, ntoh32, n16v, n32v}
use bbdd.Wire.Packet.{BfdPkt, up, init, down, admindown, bit_final}
use bbdd.Session.{DSession}
use bbdd.Bpf.State.{Bpf, BSession, SessionConfig, stable}
use bbdd.Bpf.Packet.{make_packet, inject_flags}
use bbdd.Bpf.Update.{session_config}
use bbdd.Bpf.Receive.{handle_packet, count_rx, expire}
use bbdd.Bpf.Roundtrip.{IsKnown}
use bbdd.Prog.State.{Prog, Skb, emit, bump_sess, rx_packets, add_rx_bytes}
use bbdd.Prog.Receive.{RxDigest, recv, recv_get_bfd, xmit_veth_rx_xmit}
use bbdd.Bpf.Packet.{inject_flags_bstate, session_flags}
use bbdd.Bpf.Receive.{next_end}
use bbdd.Prog.Absorb.{IsSettled, IsWatched, recv-refines, recv-keeps_down, received_count}
use bbdd.Bpf.Frame.{SameBut}
use bbdd.Prog.Stuck.{Knows, IsSender, expired_packet, expired-absorbs}
use bbdd.Examples.Inputs.{willing, daemon, bsession, dsession, side, timing_300ms, session-IsValid}
use bbdd.Examples.Program.{addr, kernel, config_of, prog, skb}

-- What the session 7 is told of, and expects.
abbrev incoming : DSession → BfdPkt
incoming d = (config_of d).rx_expect

abbrev digest : RxDigest
digest = record {
  ttl = 255;
  multihop = false;
  wire_len = 66;
  saddr = addr 16777226;
  daddr = addr 33554442;
}

incoming-IsBfd :
    (l r : _)
    → recv_get_bfd (skb (incoming (dsession l r)) 0) ≡ some (incoming (dsession l r), digest)
unfolding recv_get_bfd n16v hton16 ntoh16 bbdd.Prog.Receive.recv_parse_ipv4
incoming-IsBfd l r = refl

side-IsKnown : (s : _) → IsKnown (side 9 s)
side-IsKnown s = record {
  discr_set = ground arith;
  discr_u32 = omega arith;
  mult_set = ground arith;
  tx_u32 = omega arith;
  rx_u32 = omega arith;
  diag_5 = omega arith;
}

incoming-IsWatched :
    (l r : _)
    → IsWatched
        (dsession l r)
        (bsession stable timing_300ms)
        3
        0
        0
        225000
        300000
        900000
        true
        (prog (dsession l r))
        (incoming (dsession l r))
unfolding make_packet ntoh32 hton32 session_config
incoming-IsWatched l r = record {
  to_session = refl;
  config = refl;
  valid = session-IsValid l r stable;
  receiving = refl;
  known = side-IsKnown r;
  discr_u32 = omega arith;
  named = inl (ground arith);
}

up_counted :
    (let p = prog (dsession up up) in
      received_count (recv kernel p (skb (incoming (dsession up up)) 0)).0.log ≡ 1)
unfolding recv recv_get_bfd bbdd.Prog.Receive.recv_bfd bbdd.Prog.Receive.recv_known
    bbdd.Prog.Receive.pkt_eq bbdd.Prog.Receive.rearm_timer bbdd.Prog.Receive.start_timer
    session_config make_packet n16v n32v hton16 hton32 ntoh16 ntoh32
    bbdd.Prog.Receive.recv_parse_ipv4 bbdd.Wire.Packet.bfd_pkt_version
    bbdd.Bpf.Packet.rx_expect_flags bbdd.Bpf.Packet.rx_expect_flags_bstate
    bbdd.Bpf.Packet.session_flags
up_counted = refl

down_counted :
    (let p = prog (dsession down down) in
      received_count (recv kernel p (skb (incoming (dsession down down)) 0)).0.log ≡ 1)
unfolding recv recv_get_bfd bbdd.Prog.Receive.recv_bfd bbdd.Prog.Receive.recv_known
    bbdd.Prog.Receive.pkt_eq bbdd.Prog.Receive.rearm_timer bbdd.Prog.Receive.start_timer
    session_config make_packet n16v n32v hton16 hton32 ntoh16 ntoh32
    bbdd.Prog.Receive.recv_parse_ipv4 bbdd.Wire.Packet.bfd_pkt_version
    bbdd.Bpf.Packet.rx_expect_flags bbdd.Bpf.Packet.rx_expect_flags_bstate
    bbdd.Bpf.Packet.session_flags
down_counted = refl

up-IsSettled : IsSettled (dsession up up)
unfolding next_end
up-IsSettled = refl

recv-refines_example :
    (bpf' : Bpf) × (b' : BSession) × (handle_packet willing
        (daemon 5)
        (dsession up up)
        (bsession stable timing_300ms)
        (incoming (dsession up up))
        66
        255
      ≡ some (bpf', dsession up up, b'))
    × SameBut (count_rx (bsession stable timing_300ms) 66) b'
recv-refines_example =
    recv-refines (dsession up up) (bsession stable timing_300ms) 3 0 0 225000 300000 900000 true
      kernel (prog (dsession up up)) (skb (incoming (dsession up up)) 0) (incoming (dsession up up))
      digest willing (daemon 5) (incoming-IsWatched up up) up-IsSettled (incoming-IsBfd up up)
      (λ e. ground (arith, up_counted, e))

recv-keeps_down_example :
    (bpf' : Bpf) × (d' : DSession) × (b' : BSession) × (handle_packet willing
        (daemon 5)
        (dsession down down)
        (bsession stable timing_300ms)
        (incoming (dsession down down))
        66
        255
      ≡ some (bpf', d', b'))
    × (d'.local.end.state ≡ init)
recv-keeps_down_example =
    recv-keeps_down (dsession down down) (bsession stable timing_300ms) 3 0 0 225000 300000 900000
      true kernel (prog (dsession down down)) (skb (incoming (dsession down down)) 0)
      (incoming (dsession down down)) digest willing (daemon 5) (incoming-IsWatched down down) refl
      refl (incoming-IsBfd down down) (λ e. ground (arith, down_counted, e))

-- The other end of the session 7, both configured with the discriminator of the other.
abbrev configured : DSession
configured = record (dsession up up) { user_remote_discr = 9 }

abbrev other_end : DSession
other_end = record (dsession up up) { user_remote_discr = 7; local = side 9 up; remote = side 7 up }

knows : Knows configured timing_300ms other_end
knows = record { timing = refl; cpi = refl; to_other = refl; to_us = refl }

no_flags_injected : inject_flags (expire other_end) (bsession stable timing_300ms) ≡ some 0
unfolding inject_flags inject_flags_bstate session_flags
no_flags_injected = refl

-- What the session publishes when it has timed out.
abbrev expired_config : SessionConfig
expired_config =
    session_config (expire configured) (bsession stable timing_300ms) 3 0 0 1000000 1000000 900000
      false

abbrev expired_prog : Prog
expired_prog = record (prog configured) { config = λ k. some expired_config }

abbrev expired_skb : Skb
expired_skb = skb (expired_packet other_end timing_300ms 0) 4

expired_skb-IsBfd :
    recv_get_bfd expired_skb ≡ some (expired_packet other_end timing_300ms 0, digest)
unfolding recv_get_bfd n16v hton16 ntoh16 bbdd.Prog.Receive.recv_parse_ipv4
expired_skb-IsBfd = refl

expired-absorbs_example :
    IsSender willing (daemon 5) other_end (bsession stable timing_300ms) 11 0
    × ((recv kernel expired_prog expired_skb).0
        ≡ emit (emit expired_prog (bump_sess 7 rx_packets)) (add_rx_bytes 7 66))
expired-absorbs_example =
    expired-absorbs kernel expired_prog expired_skb digest willing (daemon 5) configured other_end
      (bsession stable timing_300ms) (bsession stable timing_300ms) 3 0 0 1000000 1000000 900000 11
      0 true knows refl refl (ground arith) no_flags_injected (ground arith) (omega arith) refl refl
      expired_skb-IsBfd refl
