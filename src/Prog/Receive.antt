-- ===== src/Prog/Receive.antt =====
-- src/bbdd-prog.bpf.c: the program on the receiving sockets, and the detection timers.
use bbdd.Base.{
  ℕ, ◌+◌, ◌*◌, Bool, true, false, not, ◌&&◌, Option, none, some, ltb, ◌==◌, if◌then◌else◌, ◌>>=◌,
}
use bbdd.Base.Words.{u64}
use bbdd.Wire.{Be32, hton16, ntoh16, ntoh32, n32v}
use bbdd.Wire.Packet.{BfdPkt, sizeof_bfd_pkt, bfd_pkt_version}
use bbdd.Bpf.State.{SessionConfig}
use bbdd.Bpf.Discr0.{BpfAddr, eth_p_ip}
use bbdd.Bpf.Directory.{store}
use bbdd.Prog.State.{
  Prog, Skb, IpHdr, Kernel, TimerRet, started, busy, failed, bump, bump_sess, add_rx_bytes,
  timer_start, rx_timeout, rx_admin_down, rx_ttl_low, rx_packets, ra_fail_timer, rx_not_bfd,
  rx_no_session, rx_wrong_version_number, rx_invalid_length, rx_your_discr_0, ra_not_bfd,
  ra_no_session, sk_released_count, elem_discr_0, elem_unx_pkt, elem_timeout, emit, notify,
}
use bbdd.Prog.Packet.{tx_get_bfd, be_eq, bfd_multi_hop_port, sizeof_ipv6hdr}
use bbdd.Prog.Send.{Act, act_ok, act_shot, act_stolen}

-- The callback of the timer of a session.
unfoldable pub session_expired : Kernel → Prog → ℕ → Prog
session_expired k p discr = notify k (emit p (bump_sess discr rx_timeout)) (elem_timeout discr)

abbrev fail_timer : Prog → ℕ → Prog
fail_timer p discr = emit p (bump_sess discr ra_fail_timer)

unfoldable pub start_timer : Kernel → Prog → ℕ → SessionConfig → Prog
start_timer k p discr config =
    if k.timer_start_ok
    then emit p (timer_start discr (u64 (config.detect_time_us * 1000)))
    else fail_timer p discr

-- The timer is set up at its first use; one that is set up already is as good.
unfoldable pub set_callback : Kernel → Prog → ℕ → SessionConfig → Prog
set_callback k p discr config =
    if k.set_callback_ok
    then start_timer k (record p { timer_initd = store p.timer_initd discr (some true) }) discr
        config
    else fail_timer p discr

unfoldable pub init_timer : TimerRet → Kernel → Prog → ℕ → SessionConfig → Prog
init_timer started k p discr config = set_callback k p discr config
init_timer busy k p discr config = set_callback k p discr config
init_timer failed k p discr config = fail_timer p discr

unfoldable pub rearm_timer : Kernel → Prog → ℕ → SessionConfig → Bool → Prog
rearm_timer k p discr config initd =
    if not config.rearm_timer
    then p
    else if not initd
    then init_timer k.timer_init k p discr config
    else start_timer k p discr config

-- The program at the RX end, for the packet that the daemon sends to have the timer armed.
unfoldable pub xmit_veth_rx_xmit : Kernel → Prog → Skb → Prog × Act
xmit_veth_rx_xmit k p skb = elim (tx_get_bfd skb) [
  | none ↦ (emit p (bump ra_not_bfd), act_shot)
  | some (bfd, tot_len) ↦
      let discr = ntoh32 bfd.my_disc in
      let unknown : Prog × Act =
        (emit (emit p (bump ra_no_session)) (bump sk_released_count), act_shot) in
      elim (p.config discr) [
        | none ↦ unknown
        | some config ↦ elim (p.timer_initd discr) [
          | none ↦ unknown
          | some initd ↦
              (emit (rearm_timer k p discr config initd) (bump sk_released_count), act_stolen)
        ]
      ]
]

-- struct bbdd_bfd_rx_pkt_digest
pub record RxDigest : Type 0 where
  pub ttl : ℕ
  pub multihop : Bool
  pub wire_len : ℕ
  pub saddr : BpfAddr
  pub daddr : BpfAddr

abbrev pub sizeof_ethhdr : ℕ
sizeof_ethhdr = 14

abbrev first_word : BpfAddr → BpfAddr
first_word a = record { w0 = a.w0; w1 = 0; w2 = 0; w3 = 0 }

unfoldable pub recv_parse_ipv4 : IpHdr → RxDigest
recv_parse_ipv4 iph = record {
  ttl = iph.ttl;
  multihop = false;
  wire_len = sizeof_ethhdr + ntoh16 iph.len;
  saddr = first_word iph.saddr;
  daddr = first_word iph.daddr;
}

unfoldable pub recv_parse_ipv6 : IpHdr → RxDigest
recv_parse_ipv6 ip6h = record {
  ttl = ip6h.ttl;
  multihop = false;
  wire_len = sizeof_ethhdr + sizeof_ipv6hdr + ntoh16 ip6h.len;
  saddr = ip6h.saddr;
  daddr = ip6h.daddr;
}

unfoldable pub recv_get_bfd : Skb → Option (BfdPkt × RxDigest)
recv_get_bfd skb = do
  iph ← skb.ip
  let digest =
      if be_eq skb.protocol (hton16 eth_p_ip) then recv_parse_ipv4 iph else recv_parse_ipv6 iph
  (if not skb.linear
      then none
      else (skb.udp >>= λ udph. skb.bfd >>= λ bfd.
          some (bfd, record digest { multihop = be_eq udph.dest (hton16 bfd_multi_hop_port) })))

abbrev be32_eq : Be32 → Be32 → Bool
be32_eq a b = n32v a == n32v b

-- memcmp of two packets, which have no padding.
unfoldable pub pkt_eq : BfdPkt → BfdPkt → Bool
unfolding n32v
pkt_eq a b =
    a.version_diag == b.version_diag
    && a.state_bits == b.state_bits
    && a.detection_multiplier == b.detection_multiplier
    && a.length == b.length
    && be32_eq a.my_disc b.my_disc
    && be32_eq a.your_disc b.your_disc
    && be32_eq a.desired_tx b.desired_tx
    && be32_eq a.required_rx b.required_rx
    && be32_eq a.required_echo_rx b.required_echo_rx

-- A packet of a session that both maps have.
unfoldable pub recv_known : Kernel → Prog → ℕ → SessionConfig → Bool → BfdPkt → RxDigest → Prog
recv_known k p discr config initd bfd digest =
    if config.admin_down
    then emit p (bump_sess discr rx_admin_down)
    else if ltb digest.ttl config.ttl
    then emit p (bump_sess discr rx_ttl_low)
    else if not (pkt_eq bfd config.rx_expect)
    then notify k p
        (elem_unx_pkt (record { packet = bfd; wire_len = digest.wire_len; ttl = digest.ttl }))
    else let p₁ = rearm_timer k p discr config initd in
      emit (emit p₁ (bump_sess discr rx_packets)) (add_rx_bytes discr digest.wire_len)

unfoldable pub recv_discr_0 : Kernel → Prog → Skb → BfdPkt → RxDigest → Prog
recv_discr_0 k p skb bfd digest = notify k (emit p (bump rx_your_discr_0)) (
    elem_discr_0 (record {
      packet = bfd;
      saddr = digest.saddr;
      daddr = digest.daddr;
      ethtype = ntoh16 skb.protocol;
      ttl = digest.ttl;
      multihop = digest.multihop;
      wire_len = digest.wire_len;
      ifindex = skb.ingress_ifindex;
    }))

-- What is left after the checks of the version and the length.
unfoldable pub recv_bfd : Kernel → Prog → Skb → BfdPkt → RxDigest → Prog
recv_bfd k p skb bfd digest =
    let discr = ntoh32 bfd.your_disc in
    if discr == 0 then recv_discr_0 k p skb bfd digest else elim (p.timer_initd discr) [
      | none ↦ emit p (bump rx_no_session)
      | some initd ↦ elim (p.config discr) [
        | none ↦ emit p (bump rx_no_session)
        | some config ↦ recv_known k p discr config initd bfd digest
      ]
    ]

unfoldable pub recv : Kernel → Prog → Skb → Prog × Act
recv k p skb = elim (recv_get_bfd skb) [
  | none ↦ (emit p (bump rx_not_bfd), act_ok)
  | some (bfd, digest) ↦
      if not (bfd_pkt_version bfd == 1)
      then (emit p (bump rx_wrong_version_number), act_shot)
      else if not (bfd.length == sizeof_bfd_pkt)
      then (emit p (bump rx_invalid_length), act_shot)
      else (recv_bfd k p skb bfd digest, act_shot)
]
