-- ===== src/Examples/Program.antt =====
-- The theorems about the BPF program at packets of the session of Inputs.
use bbdd.Base.{ℕ, ◌≡◌, ◌≢◌, refl, true, none, some, arith, [], ◌==◌, if◌then◌else◌}
use bbdd.Wire.{hton16, hton32, ntoh16, ntoh32, n16v}
use bbdd.Wire.Packet.{BfdPkt, up}
use bbdd.Session.{DSession}
use bbdd.Bpf.State.{SessionConfig, stable}
use bbdd.Bpf.Packet.{make_packet}
use bbdd.Bpf.Update.{session_config}
use bbdd.Bpf.Discr0.{BpfAddr, eth_p_ip}
use bbdd.Prog.State.{Prog, Skb, Kernel, Route, success, started, releases}
use bbdd.Prog.Packet.{tx_get_bfd, bfd_single_hop_port}
use bbdd.Prog.Send.{act_shot, xmit_veth_tx}
use bbdd.Prog.Receive.{xmit_veth_rx_xmit}
use bbdd.Prog.Release.{
  IsAccounted, sends, has_left, xmit_veth_tx-IsAccounted, xmit_veth_tx-current,
  xmit_veth_rx_xmit-releases,
}
use bbdd.Examples.Inputs.{bsession, dsession, at_state, timing_300ms}

abbrev pub addr : ℕ → BpfAddr
addr w = record { w0 = w; w1 = 0; w2 = 0; w3 = 0 }

abbrev route : Route
route = record { ifindex = 3; smac = 1; dmac = 2; src = addr 16777226; dst = addr 33554442 }

-- A kernel that does what it is asked to, and routes out of the interface 3.
abbrev pub kernel : Kernel
kernel = record {
  fib_lookup = λ params flags. (success, route);
  redirect_ok = λ ifindex. true;
  clone_ok = λ ifindex. true;
  reserve_ok = true;
  write_ok = λ w. true;
  csum_replace = λ check old new. check;
  prandom_u32 = 2147483648;
  ktime_ns = 1000;
  timer_init = started;
  set_callback_ok = true;
  timer_start_ok = true;
}

abbrev pub config_of : DSession → SessionConfig
config_of d = session_config d (bsession stable timing_300ms) 3 0 0 225000 300000 900000 true

-- The session 7 is the only one.
abbrev pub prog : DSession → Prog
prog d = record {
  veth_tx_ifindex = 12;
  config = λ discr. if discr == 7 then some (config_of d) else none;
  timer_initd = λ discr. if discr == 7 then some true else none;
  log = [];
}

abbrev pub skb : BfdPkt → ℕ → Skb
skb bfd mark = record {
  protocol = hton16 eth_p_ip;
  mark = mark;
  hash = 0;
  len = 66;
  ingress_ifindex = 3;
  tstamp = 0;
  linear = true;
  h_source = 0;
  h_dest = 0;
  ip = some (record {
    protocol = 17;
    len = hton16 52;
    ttl = 255;
    check = 0;
    saddr = addr 16777226;
    daddr = addr 33554442;
  });
  udp = some (record { source = hton16 49152; dest = hton16 bfd_single_hop_port; check = 0 });
  bfd = some bfd;
}

-- The packet that the session 7 sends.
abbrev outgoing : BfdPkt
outgoing = make_packet 7 timing_300ms (at_state up) 9 0

outgoing-IsBfd : (mark : ℕ) → tx_get_bfd (skb outgoing mark) ≡ some (outgoing, 52)
unfolding tx_get_bfd n16v hton16 bbdd.Prog.Packet.tx_is_bfd_ipv4 ntoh16
outgoing-IsBfd mark = refl

xmit_veth_tx-IsAccounted_example :
    IsAccounted
      (prog (dsession up up))
      (xmit_veth_tx kernel (prog (dsession up up)) (skb outgoing 4))
xmit_veth_tx-IsAccounted_example =
    xmit_veth_tx-IsAccounted kernel (prog (dsession up up)) (skb outgoing 4) outgoing 52
      (outgoing-IsBfd 4)

-- The session is at its generation 4.
stale :
    (config : SessionConfig)
    → (prog (dsession up up)).config (ntoh32 outgoing.my_disc) ≡ some config
    → 3 ≢ config.gen_id
unfolding make_packet ntoh32 hton32 session_config
stale config h k = ground arith

xmit_veth_tx-current_example :
    let (p, s, act) = xmit_veth_tx kernel (prog (dsession up up)) (skb outgoing 3) in
    (sends p.log ≡ 0) × (act ≡ act_shot)
xmit_veth_tx-current_example =
    xmit_veth_tx-current kernel (prog (dsession up up)) (skb outgoing 3) outgoing 52
      (outgoing-IsBfd 3) stale

xmit_veth_rx_xmit-releases_example :
    let (p, act) = xmit_veth_rx_xmit kernel (prog (dsession up up)) (skb outgoing 4) in
    (releases p.log ≡ 1) × (sends p.log ≡ 0) × (has_left act ≡ 1)
xmit_veth_rx_xmit-releases_example =
    xmit_veth_rx_xmit-releases kernel (prog (dsession up up)) (skb outgoing 4) outgoing 52
      (outgoing-IsBfd 4)
