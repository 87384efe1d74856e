-- ===== src/Control/Apply.antt =====
-- src/bbdd-d.c: `bbdd_d_session_apply_c`, which checks a change of a session and makes it, with
-- the parsing of addresses of src/bbdd-sock.c.
use bbdd.Base.{ℕ, Bool, false, not, ◌&&◌, Option, none, some, [], ltb, ◌==◌, if◌then◌else◌, length}
use bbdd.Wire.{hton16, n16v}
use bbdd.Session.{DSession, SockAddr, SessFlags, af_inet, af_inet6, sess_data_eq}
use bbdd.Prog.Packet.{bfd_single_hop_port, bfd_multi_hop_port}
use bbdd.Control.State.{
  Str, CVrf, CAddr, CFlags, CSession, Libs, CError, discr_change, no_dst_address, af_mismatch,
  bad_address, zero_discr, zero_min_rx_us, zero_min_tx_us, zero_detect_mult,
}
use bbdd.Control.Validate.{Checked, refused, fine, and_then, str_eq, validate_vrf, session_to_c_vrf}

-- INET6_ADDRSTRLEN + sizeof "something://[]:" + 5
abbrev pub max_addrstr : ℕ
max_addrstr = 67

abbrev pub no_addr : SockAddr
no_addr = record { family = 0; port = record { value = 0 }; w0 = 0; w1 = 0; w2 = 0; w3 = 0 }

-- An address of one of the two families of sessions. The paths of AF_UNIX, which have no place in
-- SockAddr, are for the control socket only.
unfoldable pub parse_addrstr : Libs → ℕ → Str → Checked SockAddr
parse_addrstr l af str =
    if af == af_inet
    then (if ltb max_addrstr (length str) then refused bad_address else elim (l.inet_pton af str) [
      | none ↦ refused bad_address
      | some a ↦ fine (record no_addr { family = af_inet; w0 = a.w0 })
    ])
    else if af == af_inet6
    then elim (l.inet_pton af str) [
      | none ↦ refused bad_address
      | some a ↦
          fine (record no_addr { family = af_inet6; w0 = a.w0; w1 = a.w1; w2 = a.w2; w3 = a.w3 })
    ]
    else refused bad_address

-- The address to set, when one is to be set.
unfoldable pub apply_c_addr : Libs → CAddr → Checked (Option SockAddr)
apply_c_addr l from =
    if from.unset
    then fine (some no_addr)
    else if not (from.af == 0)
    then and_then (parse_addrstr l from.af from.str) (λ a. fine (some a))
    else fine none

abbrev pub given {ℓ} : {A : Type ℓ} → Option A → A → A
given none old = old
given (some new) old = new

unfoldable pub apply_flags : CFlags → SessFlags → SessFlags
apply_flags c flags = record {
  multihop = given c.multihop flags.multihop;
  cpi = given c.cpi flags.cpi;
  passive = given c.passive flags.passive;
  shutdown = given c.shutdown flags.shutdown;
}

-- `__bbdd_d_session_apply_c`, which cannot fail. The source port stays, and the destination port is
-- that of the session's kind.
unfoldable pub apply_fields : DSession → CSession → Option SockAddr → Option SockAddr → DSession
apply_fields dsess csess src dst =
    let flags = apply_flags csess.flags dsess.local.flags in
    record dsess {
      name = if csess.name.unset then [] else given csess.name.val dsess.name;
      src = record (given src dsess.src) { port = dsess.src.port };
      dst = record (given dst dsess.dst) {
        port = if flags.multihop then hton16 bfd_multi_hop_port else hton16 bfd_single_hop_port;
      };
      ifindex = if csess.netif.unset then 0 else given csess.netif.ifindex dsess.ifindex;
      vrf_ifindex =
          if csess.vrf.netif.unset then 0 else given csess.vrf.netif.ifindex dsess.vrf_ifindex;
      vrf_table = given csess.vrf.table (if csess.vrf.netif.unset then 0 else dsess.vrf_table);
      hold_time_us = given csess.hold_time_us dsess.hold_time_us;
      ttl = given csess.ttl dsess.ttl;
      user_remote_discr = given csess.remote_discr dsess.user_remote_discr;
      local = record (dsess.local) {
        flags = flags;
        discr = given csess.discr dsess.local.discr;
        timing = record {
          detect_mult = given csess.detect_mult dsess.local.timing.detect_mult;
          min_tx_us = given csess.min_tx_us dsess.local.timing.min_tx_us;
          min_rx_us = given csess.min_rx_us dsess.local.timing.min_rx_us;
        };
      };
      remote = record (dsess.remote) { discr = given csess.remote_discr dsess.remote.discr };
    }

unfoldable pub new_dst_af : DSession → CSession → ℕ
new_dst_af dsess csess = if not (csess.dst.af == 0) then csess.dst.af else dsess.dst.family

unfoldable pub new_src_af : DSession → CSession → ℕ
new_src_af dsess csess =
    if csess.src.unset
    then 0
    else if not (csess.src.af == 0)
    then csess.src.af
    else dsess.src.family

abbrev pub over {ℓ} : {A : Type ℓ} → Option A → Option A → Option A
over none old = old
over (some new) old = some new

-- The VRF as it would be after the change.
unfoldable pub vrf_view : Libs → DSession → CSession → CVrf
vrf_view l dsess csess =
    let now = session_to_c_vrf l dsess in
    let unset = csess.vrf.netif.unset in
    record now {
      netif = record (now.netif) {
        name = over csess.vrf.netif.name (if unset then none else now.netif.name);
        ifindex = over csess.vrf.netif.ifindex (if unset then none else now.netif.ifindex);
      };
      table = over csess.vrf.table now.table;
    }

-- MANDATORY_NON0, for each of the four values.
unfoldable pub mandatory : DSession → CSession → Option CError
mandatory dsess csess =
    if given csess.discr dsess.local.discr == 0
    then some zero_discr
    else if given csess.min_rx_us dsess.local.timing.min_rx_us == 0
    then some zero_min_rx_us
    else if given csess.min_tx_us dsess.local.timing.min_tx_us == 0
    then some zero_min_tx_us
    else if given csess.detect_mult dsess.local.timing.detect_mult == 0
    then some zero_detect_mult
    else none

-- After the checks of the discriminator and the families.
unfoldable pub apply_parsed : Libs → DSession → CSession → Checked DSession
apply_parsed l dsess csess = and_then (apply_c_addr l csess.src) (λ src.
    and_then (apply_c_addr l csess.dst) (λ dst.
      and_then (validate_vrf l (vrf_view l dsess csess)) (λ vrf. elim (mandatory dsess csess) [
        | some x ↦ refused x
        | none ↦ fine (apply_fields dsess csess src dst)
      ])))

unfoldable pub changes_discr : DSession → CSession → Bool
changes_discr dsess csess = elim csess.discr [
  | none ↦ false
  | some discr ↦ not (dsess.local.discr == 0) && not (discr == dsess.local.discr)
]

-- `none` is the failed assertion.
unfoldable pub apply_c : Libs → DSession → CSession → Option (Checked DSession)
apply_c l dsess csess =
    if changes_discr dsess csess
    then some (refused discr_change)
    else if csess.dst.unset
    then none
    else if new_dst_af dsess csess == 0
    then some (refused no_dst_address)
    else if not (new_src_af dsess csess == 0)
        && not (new_src_af dsess csess == new_dst_af dsess csess)
    then some (refused af_mismatch)
    else some (apply_parsed l dsess csess)

-- memcmp of two addresses.
unfoldable pub addr_eq : SockAddr → SockAddr → Bool
addr_eq a b =
    a.family == b.family
    && n16v a.port == n16v b.port
    && a.w0 == b.w0
    && a.w1 == b.w1
    && a.w2 == b.w2
    && a.w3 == b.w3

-- `changed`, by the memcmp of the session before and after.
unfoldable pub is_changed : DSession → DSession → Bool
is_changed a b = not (
    addr_eq a.src b.src
    && addr_eq a.dst b.dst
    && str_eq a.name b.name
    && a.hold_time_us == b.hold_time_us
    && a.ttl == b.ttl
    && a.ifindex == b.ifindex
    && a.vrf_ifindex == b.vrf_ifindex
    && a.user_remote_discr == b.user_remote_discr
    && a.vrf_table == b.vrf_table
    && sess_data_eq a.local b.local
    && sess_data_eq a.remote b.remote)
