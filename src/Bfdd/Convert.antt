-- ===== src/Bfdd/Convert.antt =====
-- src/bbdd-bfdd.c: a session of a message as a request, with the flags of sessions.
use bbdd.Base.{
  ℕ, ◌+◌, ◌*◌, ◌/◌, ◌%◌, Bool, true, false, ◌&&◌, Option, none, some, [], ◌∷◌, ltb, ◌==◌, take,
  if◌then◌else◌,
}
use bbdd.Wire.{ntoh32}
use bbdd.Session.{af_inet, af_inet6}
use bbdd.Bpf.Discr0.{BpfAddr}
use bbdd.Control.State.{
  Str, CNetif, CVrf, CAddr, CSession, Libs, echo_unsupported, demand_unsupported, no_ntop,
  hold_time_overflow, invalid_length,
}
use bbdd.Control.Validate.{Checked, refused, fine, and_then}
use bbdd.Bfdd.Message.{FCumulus, be32_0, header_size, session_size, cumulus_size}

abbrev pub session_multihop : ℕ
session_multihop = 1

abbrev pub session_demand : ℕ
session_demand = 2

abbrev pub session_cbit : ℕ
session_cbit = 4

abbrev pub session_echo : ℕ
session_echo = 8

abbrev pub session_ipv6 : ℕ
session_ipv6 = 16

abbrev pub session_passive : ℕ
session_passive = 32

abbrev pub session_shutdown : ℕ
session_shutdown = 64

-- Whether the bit is set in the flags.
abbrev pub has_bit : ℕ → ℕ → Bool
has_bit flags bit = flags / bit % 2 == 1

-- Of the bytes of an address, those that the family has are 0.
abbrev pub is_zero : Bool → BpfAddr → Bool
is_zero true a = a.w0 == 0 && a.w1 == 0 && a.w2 == 0 && a.w3 == 0
is_zero false a = a.w0 == 0

unfoldable pub session_to_c_addr : Libs → BpfAddr → ℕ → Checked CAddr
session_to_c_addr l from af = elim (l.inet_ntop af from) [
  | none ↦ refused no_ntop
  | some str ↦ fine (record { unset = false; str = str; af = af })
]

unfoldable pub src_to_c : Libs → Bool → ℕ → BpfAddr → Checked CAddr
src_to_c l ipv6 af src =
    if is_zero ipv6 src
    then fine (record { unset = true; str = []; af = 0 })
    else session_to_c_addr l src af

-- UINT32_MAX / 1000
abbrev pub hold_time_max : ℕ
hold_time_max = 4294967

-- copy_name; IFNAMSIZ is 16.
abbrev pub copy_name : Str → Option Str
copy_name [] = none
copy_name (c ∷ cs) = some (take 15 (c ∷ cs))

abbrev pub non0 : ℕ → Option ℕ
non0 n = if n == 0 then none else some n

unfoldable pub netif_to_c : ℕ → Str → CNetif
netif_to_c ifindex ifname =
    if ifindex == 0
    then record { unset = true; name = none; ifindex = none }
    else record { unset = false; name = copy_name ifname; ifindex = some ifindex }

unfoldable pub vrf_to_c : ℕ → Str → CVrf
vrf_to_c vrf_id vrfname =
    if vrf_id == 0
    then record { netif = record { unset = true; name = none; ifindex = none }; table = none }
    else record {
      netif = record { unset = false; name = copy_name vrfname; ifindex = none };
      table = some vrf_id;
    }

-- After the checks.
unfoldable pub filled : FCumulus → ℕ → CAddr → CAddr → CSession
filled cmsess flags src dst =
    let fsess = cmsess.session in
    record {
      flags = record {
        multihop = some (has_bit flags session_multihop);
        cpi = some (has_bit flags session_cbit);
        passive = some (has_bit flags session_passive);
        shutdown = some (has_bit flags session_shutdown);
      };
      discr = non0 (ntoh32 fsess.lid);
      remote_discr = none;
      min_tx_us = some (ntoh32 fsess.min_tx);
      min_rx_us = some (ntoh32 fsess.min_rx);
      hold_time_us = some (ntoh32 fsess.hold_time * 1000);
      ttl = some fsess.ttl;
      detect_mult = some fsess.detect_mult;
      src = src;
      dst = dst;
      netif = netif_to_c (ntoh32 fsess.ifindex) fsess.ifname;
      vrf = vrf_to_c (ntoh32 cmsess.vrf_id) cmsess.vrfname;
      name = record { unset = false; val = none };
    }

abbrev pub wire_af : Bool → ℕ
wire_af true = af_inet6
wire_af false = af_inet

-- After the checks of the flags.
unfoldable pub convert : Libs → FCumulus → Checked CSession
convert l cmsess =
    let fsess = cmsess.session in
    let flags = ntoh32 fsess.flags in
    let ipv6 = has_bit flags session_ipv6 in
    and_then (src_to_c l ipv6 (wire_af ipv6) fsess.src) (λ src.
      and_then (session_to_c_addr l fsess.dst (wire_af ipv6)) (λ dst.
        if ltb hold_time_max (ntoh32 fsess.hold_time)
        then refused hold_time_overflow
        else fine (filled cmsess flags src dst)))

unfoldable pub session_to_c : Libs → FCumulus → Checked CSession
session_to_c l cmsess =
    let flags = ntoh32 cmsess.session.flags in
    if has_bit flags session_echo
    then refused echo_unsupported
    else if has_bit flags session_demand
    then refused demand_unsupported
    else convert l cmsess

-- Of a message whose type is DP_ADD_SESSION: the standard one, or the one with a VRF.
unfoldable pub session_msg_to_c : Libs → ℕ → FCumulus → Checked CSession
session_msg_to_c l length cmsess =
    if length == header_size + session_size
    then session_to_c l (record { session = cmsess.session; vrf_id = be32_0; vrfname = [] })
    else if length == header_size + cumulus_size
    then session_to_c l cmsess
    else refused invalid_length
