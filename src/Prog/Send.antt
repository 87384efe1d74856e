-- ===== src/Prog/Send.antt =====
-- src/bbdd-prog.bpf.c: the program at the TX end of the VETH pair. A periodic packet is cloned out
-- of an interface, and goes around with the time of its next turn; a final packet goes out itself.
use bbdd.Base.{ℕ, ◌+◌, ◌-◌, ◌*◌, ◌/◌, Bool, true, false, not, none, some, ◌==◌, if◌then◌else◌}
use bbdd.Base.Words.{u32, u64, u32_mod, uint32_max}
use Prim.Native.Nat.{bit_xor}
use bbdd.Wire.{Be16, hton16, ntoh16, ntoh32}
use bbdd.Wire.Packet.{bfd_pkt_bits, has_final}
use bbdd.Bpf.State.{SessionConfig}
use bbdd.Bpf.Discr0.{eth_p_ip}
use bbdd.Prog.State.{
  Prog, Skb, Kernel, Route, FibRet, lookup_error, success, blackhole, unreachable, prohibit,
  fwd_disabled, unsupp_lwt, no_neigh, frag_needed, no_src_addr, not_fwded, unnamed, bump, bump_sess,
  add_tx_bytes, redirect, clone_redirect, SessStat, tx_dst_blackholed, tx_dst_unreachable,
  tx_dst_prohibited, tx_indev_no_forwarding, tx_req_encap, tx_no_neigh, tx_no_neigh_final,
  tx_req_fragmentation, tx_no_src_addr, tx_not_forwarded, tx_fail_lookup, tx_fail_update,
  tx_fail_redir, tx_loopback_filter, tx_wrong_gen_id, tx_packets, tx_no_session, tx_not_bfd,
  sk_released_count, elem_no_neigh, emit, notify,
}
use bbdd.Prog.Packet.{tx_get_bfd, tx_update, be_eq}

-- The verdict on a packet: it goes on, is dropped, is taken, or was redirected.
pub data Act : Type 0 where
  act_ok act_shot act_stolen act_redirect : Act

abbrev pub knuth : ℕ
knuth = 2654435761

abbrev release : Prog → Prog
release p = emit p (bump sk_released_count)

unfoldable pub notify_no_neigh : Kernel → Prog → Be16 → Route → Prog
notify_no_neigh k p proto route = notify k p (
    elem_no_neigh (record {
      ifindex = route.ifindex;
      ethtype = ntoh16 proto;
      addr =
          if be_eq proto (hton16 eth_p_ip)
          then record { w0 = route.dst.w0; w1 = 0; w2 = 0; w3 = 0 }
          else route.dst;
    }))

-- The delay until the next turn, in microseconds.
unfoldable pub next_interval_us : SessionConfig → ℕ → ℕ
next_interval_us config prandom =
    let range = u32 (config.max_interval_us + u32_mod - config.min_interval_us) in
    u64 (u64 (prandom * range) / uint32_max + config.min_interval_us)

-- The label `out`, for a packet that was not handed on.
unfoldable pub finish : Kernel → Prog → SessionConfig → Bool → Act → Skb → Prog × Skb × Act
finish k p config true final_rc skb = (release p, skb, final_rc)
finish k p config false final_rc skb = (
  p,
  record skb { tstamp = u64 (k.ktime_ns + u64 (next_interval_us config k.prandom_u32 * 1000)) },
  act_ok,
)

-- The counters of a packet that was sent, and the label `out`.
unfoldable pub sent : Kernel → Prog → SessionConfig → ℕ → Bool → Act → Skb → Prog × Skb × Act
sent k p config discr is_final final_rc skb =
    finish k (emit (emit p (bump_sess discr tx_packets)) (add_tx_bytes discr skb.len)) config
      is_final final_rc skb

unfoldable pub forward : Kernel → Prog → SessionConfig → ℕ → Bool → Route → Skb → Prog × Skb × Act
forward k p config discr true route skb =
    if k.redirect_ok route.ifindex
    then sent k (emit p (redirect route.ifindex skb)) config discr true act_redirect skb
    else (release (emit p (bump_sess discr tx_fail_redir)), skb, act_shot)
forward k p config discr false route skb =
    if k.clone_ok route.ifindex
    then sent k (emit p (clone_redirect route.ifindex skb)) config discr false act_shot skb
    else finish k (emit p (bump_sess discr tx_fail_redir)) config false act_shot skb

-- Behind the switch on the answer of the lookup.
unfoldable pub routed : Kernel → Prog → SessionConfig → ℕ → Bool → Route → Skb → Prog × Skb × Act
routed k p config discr is_final route skb =
    if route.ifindex == p.veth_tx_ifindex
    then finish k (emit p (bump_sess discr tx_loopback_filter)) config is_final act_shot skb
    else let (skb', done) = tx_update k skb route in
      if done
      then forward k p config discr is_final route skb'
      else finish k (emit p (bump_sess discr tx_fail_update)) config is_final act_shot skb'

unfoldable pub no_route :
    SessStat → Kernel → Prog → SessionConfig → ℕ → Bool → Skb → Prog × Skb × Act
no_route stat k p config discr is_final skb =
    finish k (emit p (bump_sess discr stat)) config is_final act_shot skb

unfoldable pub on_lookup :
    FibRet → Kernel → Prog → SessionConfig → ℕ → Bool → Route → Skb → Prog × Skb × Act
on_lookup lookup_error k p config discr f route skb = no_route tx_fail_lookup k p config discr f skb
on_lookup success k p config discr f route skb = routed k p config discr f route skb
on_lookup blackhole k p config discr f route skb = no_route tx_dst_blackholed k p config discr f skb
on_lookup unreachable k p config discr f route skb =
    no_route tx_dst_unreachable k p config discr f skb
on_lookup prohibit k p config discr f route skb = no_route tx_dst_prohibited k p config discr f skb
on_lookup fwd_disabled k p config discr f route skb =
    no_route tx_indev_no_forwarding k p config discr f skb
on_lookup unsupp_lwt k p config discr f route skb = no_route tx_req_encap k p config discr f skb
on_lookup no_neigh k p config discr true route skb = (
  release (emit (notify_no_neigh k p skb.protocol route) (bump_sess discr tx_no_neigh_final)),
  skb,
  act_stolen,
)
on_lookup no_neigh k p config discr false route skb =
    no_route tx_no_neigh k (notify_no_neigh k p skb.protocol route) config discr false skb
on_lookup frag_needed k p config discr f route skb =
    no_route tx_req_fragmentation k p config discr f skb
on_lookup no_src_addr k p config discr f route skb = no_route tx_no_src_addr k p config discr f skb
on_lookup not_fwded k p config discr f route skb = no_route tx_not_forwarded k p config discr f skb
on_lookup unnamed k p config discr f route skb = routed k p config discr f route skb

-- A packet of a session that both maps have.
unfoldable pub send_current : Kernel → Prog → SessionConfig → ℕ → Bool → ℕ → Skb → Prog × Skb × Act
send_current k p config discr is_final tot_len skb =
    if not (skb.mark == config.gen_id)
    then (release (emit p (bump_sess discr tx_wrong_gen_id)), skb, act_shot)
    else let skb' =
        if skb.hash == 0
        then record skb { hash = bit_xor discr (u32 (config.gen_id * knuth)) }
        else skb in
      let (ret, route) =
        k.fib_lookup (record (config.fib_lookup) { tot_len = tot_len })
          config.bpf_fib_lookup_flags in
      on_lookup ret k p config discr is_final route skb'

abbrev tx_unknown : Prog → Skb → Prog × Skb × Act
tx_unknown p skb = (release (emit p (bump tx_no_session)), skb, act_shot)

unfoldable pub xmit_veth_tx : Kernel → Prog → Skb → Prog × Skb × Act
xmit_veth_tx k p skb = elim (tx_get_bfd skb) [
  | none ↦ (emit p (bump tx_not_bfd), skb, act_shot)
  | some (bfd, tot_len) ↦
      let discr = ntoh32 bfd.my_disc in
      elim (p.config discr) [
        | none ↦ tx_unknown p skb
        | some config ↦ elim (p.timer_initd discr) [
          | none ↦ tx_unknown p skb
          | some initd ↦ send_current k p config discr (has_final (bfd_pkt_bits bfd)) tot_len skb
        ]
      ]
]

-- The program at the RX end sends every packet to the TX end.
unfoldable pub xmit_veth_rx : Kernel → Prog → Skb → Prog × Act
xmit_veth_rx k p skb =
    if k.redirect_ok p.veth_tx_ifindex
    then (emit p (redirect p.veth_tx_ifindex skb), act_redirect)
    else (p, act_shot)
