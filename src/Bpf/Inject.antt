-- ===== src/Bpf/Inject.antt =====
-- src/bbdd-bpf.c: handing one packet to the shared TX socket, and the POLLOUT registration that
-- wakes the daemon when the socket has room. `none` stands for `abort()` and a failed assertion.
use bbdd.Base.{ℕ, ◌+◌, true, false, Option, none, some, ◌==◌, if◌then◌else◌}
use bbdd.Base.Words.{u64}
use bbdd.Wire.Packet.{BfdPkt}
use bbdd.Session.{DSession, af_inet}
use bbdd.Bpf.State.{
  Env, Bpf, BSession, BData, BState, on_hold, stable, await_final, await_non_final, shutting_down,
  sendmsg, set_pollout, unset_pollout, send_error, arm_pollout_failed, Frame, Rc, ok, err,
  sendmsg_failed, call, note,
}
use bbdd.Bpf.Packet.{make_packet}
use bbdd.Bpf.Cksum.{inet_cksum, iphdr_bytes, udp_bytes, udp6_cksum}

unfoldable pub tx_pollout_disarm : Env → Bpf → Bpf
tx_pollout_disarm e bpf =
    if bpf.tx_pollout_registered
    then record (call e bpf unset_pollout).0 { tx_pollout_registered = false }
    else bpf

unfoldable pub tx_pollout_arm : Env → Bpf → Bpf
tx_pollout_arm e bpf =
    if bpf.tx_pollout_registered
    then bpf
    else let (bpf', done) = call e bpf set_pollout in
      if done
      then record bpf' { tx_pollout_registered = true }
      else note bpf' (send_error arm_pollout_failed)

unfoldable pub session_send : Env → Bpf → ℕ → ℕ → Frame → Bpf × Rc
session_send e bpf mark tx_ifindex frame =
    let (bpf', done) = call e bpf (sendmsg mark tx_ifindex frame) in
    if done
    then (record bpf' { sk_sent_count = u64 (bpf'.sk_sent_count + 1) }, ok)
    else (bpf', err sendmsg_failed)

-- The data that packets carry: what is being polled, or else what is in effect.
unfoldable pub pick_bdata : BState → BData → BData → Option BData
pick_bdata on_hold eff dfr = none
pick_bdata stable eff dfr = some eff
pick_bdata await_final eff dfr = some dfr
pick_bdata await_non_final eff dfr = some dfr
pick_bdata shutting_down eff dfr = some dfr

-- The UDP header and the BFD packet: 8 and 24 bytes.
abbrev pub bfd_udp_len : ℕ
bfd_udp_len = 32

unfoldable pub make_frame : DSession → BfdPkt → Frame
make_frame dsess bfd =
    if dsess.dst.family == af_inet
    then record {
      is_ipv4 = true;
      ttl = 255;
      source = dsess.src.port;
      dest = dsess.dst.port;
      udp_len = bfd_udp_len;
      udp_check = 0;
      ip_check = inet_cksum (iphdr_bytes (20 + bfd_udp_len) 255 0 dsess.src dsess.dst);
      saddr = dsess.src;
      daddr = dsess.dst;
      bfd = bfd;
    }
    else record {
      is_ipv4 = false;
      ttl = 255;
      source = dsess.src.port;
      dest = dsess.dst.port;
      udp_len = bfd_udp_len;
      udp_check =
          udp6_cksum dsess.src dsess.dst (udp_bytes dsess.src.port dsess.dst.port bfd_udp_len 0 bfd)
            bfd_udp_len;
      ip_check = 0;
      saddr = dsess.src;
      daddr = dsess.dst;
      bfd = bfd;
    }

unfoldable pub inject_bdata : Env → Bpf → DSession → BSession → BData → ℕ → ℕ → Option (Bpf × Rc)
inject_bdata e bpf dsess bsess bdata tx_ifindex bfd_flags =
    if bdata.timing.detect_mult == 0
    then none
    else let bfd =
        make_packet dsess.local.discr bdata.timing dsess.local.end dsess.remote.discr bfd_flags in
      some (session_send e bpf bsess.gen_id tx_ifindex (make_frame dsess bfd))

unfoldable pub session_inject_pkt : Env → Bpf → DSession → BSession → ℕ → ℕ → Option (Bpf × Rc)
session_inject_pkt e bpf dsess bsess tx_ifindex bfd_flags =
    elim (pick_bdata bsess.bstate bsess.eff_data bsess.dfr_data) [
      | none ↦ none
      | some bdata ↦ inject_bdata e bpf dsess bsess bdata tx_ifindex bfd_flags
    ]

-- A packet for the RX end of the VETH pair, which makes the kernel arm the detection timer.
unfoldable pub inject_rearm_packet : Env → Bpf → DSession → BSession → Option (Bpf × Rc)
inject_rearm_packet e bpf dsess bsess = session_inject_pkt e bpf dsess bsess bpf.veth_rx_ifindex 0
