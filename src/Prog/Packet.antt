-- ===== src/Prog/Packet.antt =====
-- src/bbdd-prog.bpf.c: finding the BFD packet in a packet that is sent, and rewriting its addresses.
use bbdd.Base.{ℕ, ◌+◌, Bool, true, false, not, ◌&&◌, Option, none, some, ◌==◌, if◌then◌else◌, ◌>>=◌}
use bbdd.Base.Words.{u16}
use bbdd.Wire.{Be16, hton16, ntoh16, n16v}
use bbdd.Wire.Packet.{BfdPkt}
use bbdd.Bpf.Update.{ip_proto_udp}
use bbdd.Bpf.Discr0.{BpfAddr, eth_p_ip, eth_p_ipv6}
use bbdd.Prog.State.{
  Skb, IpHdr, Kernel, Route, Write, eth_write, ip_write, l3_csum, l4_csum_0, l4_csum_1, l4_csum_2,
  l4_csum_3,
}

abbrev pub bfd_single_hop_port : ℕ
bfd_single_hop_port = 3784

abbrev pub bfd_multi_hop_port : ℕ
bfd_multi_hop_port = 4784

abbrev pub sizeof_ipv6hdr : ℕ
sizeof_ipv6hdr = 40

abbrev pub be_eq : Be16 → Be16 → Bool
be_eq a b = n16v a == n16v b

-- `tot_len`, for a UDP packet.
unfoldable pub tx_is_bfd_ipv4 : Option IpHdr → Option ℕ
tx_is_bfd_ipv4 none = none
tx_is_bfd_ipv4 (some iph) =
    if not (iph.protocol == ip_proto_udp) then none else some (ntoh16 iph.len)

unfoldable pub tx_is_bfd_ipv6 : Option IpHdr → Option ℕ
tx_is_bfd_ipv6 none = none
tx_is_bfd_ipv6 (some ip6h) =
    if not (ip6h.protocol == ip_proto_udp)
    then none
    else some (u16 (ntoh16 ip6h.len + sizeof_ipv6hdr))

-- The BFD packet and `tot_len`.
unfoldable pub tx_get_bfd : Skb → Option (BfdPkt × ℕ)
tx_get_bfd skb =
    if not (be_eq skb.protocol (hton16 eth_p_ip)) && not (be_eq skb.protocol (hton16 eth_p_ipv6))
    then none
    else if not skb.linear
    then none
    else do
      tot_len ←
          if be_eq skb.protocol (hton16 eth_p_ip)
          then tx_is_bfd_ipv4 skb.ip
          else tx_is_bfd_ipv6 skb.ip
      udph ← skb.udp
      (if not (be_eq udph.dest (hton16 bfd_single_hop_port))
            && not (be_eq udph.dest (hton16 bfd_multi_hop_port))
          then none
          else (skb.bfd >>= λ bfd. some (bfd, tot_len)))

-- A write goes on only when the one before it did not fail.
abbrev then_write : Kernel → Write → Skb × Bool → (Skb → Skb) → Skb × Bool
then_write k w (skb, false) f = (skb, false)
then_write k w (skb, true) f = if k.write_ok w then (f skb, true) else (skb, false)

abbrev set_udp_check : (ℕ → ℕ) → Skb → Skb
set_udp_check f skb = elim skb.udp [
  | none ↦ skb
  | some udph ↦ record skb { udp = some (record udph { check = f udph.check }) }
]

-- The checksum of IPv4 UDP stays when it is 0, which says that there is none.
abbrev mangle : Kernel → ℕ → ℕ → ℕ → ℕ
mangle k old new check = if check == 0 then check else k.csum_replace check old new

unfoldable pub tx_update_ipv4 : Kernel → Skb → Route → Skb × Bool
tx_update_ipv4 k skb route = elim skb.ip [
  | none ↦ (skb, false)
  | some iph ↦
      let old = iph.saddr in
      let new : BpfAddr = record old { w0 = route.src.w0 } in
      let s₁ =
        then_write k ip_write (skb, true)
          (λ s. record s { ip = some (record iph { saddr = new }) }) in
      let s₂ = then_write k l3_csum s₁ (λ s. record s {
        ip = some (record iph { saddr = new; check = k.csum_replace iph.check old.w0 new.w0 });
      }) in
      then_write k l4_csum_0 s₂ (set_udp_check (mangle k old.w0 new.w0))
]

unfoldable pub tx_update_ipv6 : Kernel → Skb → Route → Skb × Bool
tx_update_ipv6 k skb route = elim skb.ip [
  | none ↦ (skb, false)
  | some ip6h ↦
      let old = ip6h.saddr in
      let new = route.src in
      let s₁ =
        then_write k ip_write (skb, true)
          (λ s. record s { ip = some (record ip6h { saddr = new }) }) in
      let s₂ = then_write k l4_csum_0 s₁ (set_udp_check (λ c. k.csum_replace c old.w0 new.w0)) in
      let s₃ = then_write k l4_csum_1 s₂ (set_udp_check (λ c. k.csum_replace c old.w1 new.w1)) in
      let s₄ = then_write k l4_csum_2 s₃ (set_udp_check (λ c. k.csum_replace c old.w2 new.w2)) in
      then_write k l4_csum_3 s₄ (set_udp_check (λ c. k.csum_replace c old.w3 new.w3))
]

unfoldable pub tx_update : Kernel → Skb → Route → Skb × Bool
tx_update k skb route =
    if not skb.linear
    then (skb, false)
    else if not (k.write_ok eth_write)
    then (skb, false)
    else let s = record skb { h_source = route.smac; h_dest = route.dmac } in
      if be_eq skb.protocol (hton16 eth_p_ip)
      then tx_update_ipv4 k s route
      else tx_update_ipv6 k s route
