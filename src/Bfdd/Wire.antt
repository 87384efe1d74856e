-- ===== src/Bfdd/Wire.antt =====
-- What the message that adds a session has, when it is read.
use bbdd.Base.{
  ℕ, ◌+◌, ◌/◌, ◌*◌, ◌<◌, ◌≤◌, ◌≡◌, ◌≢◌, ◌⊎◌, refl, sym, ap, Bool, true, false, some, none, ◌==◌,
  arith, length,
}
use bbdd.Wire.{hton16, hton32, ntoh32}
use bbdd.Wire.Swap.{ntoh-hton}
use bbdd.Session.{DSession, SockAddr, af_inet6}
use bbdd.Bpf.Discr0.{BpfAddr}
use bbdd.Control.State.{Str, CAddr, CSession, Libs}
use bbdd.Control.Validate.{fine}
use bbdd.Control.Applied.{and_then-fine}
use bbdd.Bfdd.Message.{Message, dp_add_session}
use bbdd.Bfdd.Convert.{
  has_bit, is_zero, wire_af, filled, netif_to_c, vrf_to_c, session_multihop, session_demand,
  session_cbit, session_echo, session_ipv6, session_passive, session_shutdown,
}
use bbdd.Bfdd.Send.{
  wire_flags, addrbuf, src_buf, wire_session, wire_length, add_session_msg, bit_if,
}

abbrev pub bytes_of : SockAddr → BpfAddr
bytes_of a = record { w0 = a.w0; w1 = a.w1; w2 = a.w2; w3 = a.w3 }

-- A session whose values fit into the message, and whose source address, if it has one, is not the
-- address 0.
pub record IsSendable (d : DSession) : Type 0 where
  pub discr : d.local.discr < 4294967296
  pub discr_set : d.local.discr ≢ 0
  pub min_tx : d.local.timing.min_tx_us < 4294967296
  pub min_rx : d.local.timing.min_rx_us < 4294967296
  pub hold_time : d.hold_time_us < 4294967296
  pub ifindex : d.ifindex < 4294967296
  pub vrf_table : d.vrf_table < 4294967296
  pub src_family : (d.src.family ≡ 0) ⊎ (d.src.family ≡ d.dst.family)
  pub src_set : d.src.family ≢ 0 → is_zero (d.src.family == af_inet6) (bytes_of d.src) ≡ false

-- The bits of the sum of flags.
pub flags_sum :
    (v m c p s : Bool)
    → let n =
        bit_if v session_ipv6
        + bit_if m session_multihop
        + bit_if c session_cbit
        + bit_if p session_passive
        + bit_if s session_shutdown in
      (n < 4294967296)
      × (has_bit n session_ipv6 ≡ v)
      × (has_bit n session_multihop ≡ m)
      × (has_bit n session_cbit ≡ c)
      × (has_bit n session_passive ≡ p)
      × (has_bit n session_shutdown ≡ s)
      × (has_bit n session_echo ≡ false)
      × (has_bit n session_demand ≡ false)
flags_sum v m c p s = ground arith

-- The documented behaviour of inet_ntop and inet_pton for the two families: an address is printed, in
-- at most 45 characters, and what is printed is read as the bytes that the family has.
pub record IsInet (l : Libs) : Type 0 where
  pub prints :
      (v6 : Bool) (a : BpfAddr)
      → (s : Str) × (b : BpfAddr) × (l.inet_ntop (wire_af v6) a ≡ some s)
        × (length s ≤ 45)
        × (l.inet_pton (wire_af v6) s ≡ some b)
        × (b.w0 ≡ a.w0)
        × (v6 ≡ true → (b.w1 ≡ a.w1) × (b.w2 ≡ a.w2) × (b.w3 ≡ a.w3))

-- What is sent.
pub record Sent (l : Libs) (junk : BpfAddr) (d : DSession) (msg : Message) : Type 0 where
  pub src : BpfAddr
  pub dst : BpfAddr
  pub vrfname : Str
  pub ifname : Str
  pub src_copied : src_buf d.src ≡ fine src
  pub dst_copied : addrbuf junk d.dst ≡ fine dst
  pub length_set : msg.length ≡ hton16 (wire_length d)
  pub payload : msg.payload ≡ dp_add_session (wire_session d src dst vrfname ifname)

pub add_session_msg-Sent :
    (l : Libs) (junk : BpfAddr) (id : ℕ) (d : DSession) (msg : Message)
    → add_session_msg l junk id d ≡ fine msg
    → Sent l junk d msg
unfolding add_session_msg
add_session_msg-Sent l junk id d msg q =
    let (src, src_q, h₁) = and_then-fine _ _ msg q in
    let (dst, dst_q, h₂) = and_then-fine _ _ msg h₁ in
    let (vrfname, v_q, h₃) = and_then-fine _ _ msg h₂ in
    let (ifname, i_q, h₄) = and_then-fine _ _ msg h₃ in
    let same : record {
      version = 1;
      id = hton16 id;
      length = hton16 (wire_length d);
      payload = dp_add_session (wire_session d src dst vrfname ifname);
    }
        ≡ msg =
      ground (arith, h₄) in
    record {
      src = src;
      dst = dst;
      vrfname = vrfname;
      ifname = ifname;
      src_copied = src_q;
      dst_copied = dst_q;
      length_set = ap (λ m. m.length) (sym same);
      payload = ap (λ m. m.payload) (sym same);
    }

-- The request that the message is read as.
abbrev pub arrived : DSession → CAddr → CAddr → Str → Str → CSession
arrived d src dst vrfname ifname =
    let f = d.local.flags in
    record {
      flags = record {
        multihop = some f.multihop;
        cpi = some f.cpi;
        passive = some f.passive;
        shutdown = some f.shutdown;
      };
      discr = some d.local.discr;
      remote_discr = none;
      min_tx_us = some d.local.timing.min_tx_us;
      min_rx_us = some d.local.timing.min_rx_us;
      hold_time_us = some (d.hold_time_us / 1000 * 1000);
      ttl = some d.ttl;
      detect_mult = some d.local.timing.detect_mult;
      src = src;
      dst = dst;
      netif = netif_to_c d.ifindex ifname;
      vrf = vrf_to_c d.vrf_table vrfname;
      name = record { unset = false; val = none };
    }

pub filled-arrived :
    (d : DSession) (src dst : BpfAddr) (csrc cdst : CAddr) (vn ifn : Str)
    → IsSendable d
    → filled (wire_session d src dst vn ifn) (wire_flags d) csrc cdst ≡ arrived d csrc cdst vn ifn
unfolding filled wire_session wire_flags
filled-arrived d src dst csrc cdst vn ifn s =
    let f = d.local.flags in
    let (n, v, m, c, p, sh, e, dm) =
      flags_sum (d.dst.family == af_inet6) f.multihop f.cpi f.passive f.shutdown in
    let keep : (x : ℕ) → x < 4294967296 → ntoh32 (hton32 x) ≡ x = λ x lt. (ntoh-hton x).1 lt in
    let hold = s.hold_time in
    let set : (d.local.discr == 0) ≡ false = ground (arith, s.discr_set) in
    rw
      (
        m,
        c,
        p,
        sh,
        keep _ s.discr,
        keep _ s.min_tx,
        keep _ s.min_rx,
        keep (d.hold_time_us / 1000) (omega (arith, hold)),
        keep _ s.ifindex,
        keep _ s.vrf_table,
        set,
      )
      refl
