-- ===== src/Control/Select.antt =====
-- src/bbdd-d.c: the sessions that a request describes.
use bbdd.Base.{
  ℕ, Bool, true, false, not, ◌&&◌, Option, none, some, List, [], ◌∷◌, ◌==◌, if◌then◌else◌, HashSet,
}
use bbdd.Session.{DSession, SockAddr, af_inet, af_inet6}
use bbdd.Bpf.Discr0.{BpfAddr}
use bbdd.Bpf.Directory.{World}
use bbdd.Control.State.{Str, CStr, CAddr, CFlags, CSession, Libs, bad_address}
use bbdd.Control.Validate.{Checked, refused, fine, and_then, str_eq}

-- A field that is not asked for matches.
abbrev pub asks : Option ℕ → ℕ → Bool
asks none value = true
asks (some q) value = q == value

abbrev pub flag_eq : Bool → Bool → Bool
flag_eq true b = b
flag_eq false b = not b

abbrev pub asks_flag : Option Bool → Bool → Bool
asks_flag none value = true
asks_flag (some q) value = flag_eq q value

-- Of the address `b`, the bytes that the family has.
unfoldable pub same_bytes : ℕ → BpfAddr → SockAddr → Bool
same_bytes af a b =
    if af == af_inet
    then a.w0 == b.w0
    else if af == af_inet6
    then a.w0 == b.w0 && a.w1 == b.w1 && a.w2 == b.w2 && a.w3 == b.w3
    else true

unfoldable pub addr_matches : Libs → CAddr → SockAddr → Checked Bool
addr_matches l query addr =
    if query.af == 0 then fine true else elim (l.inet_pton query.af query.str) [
      | none ↦ refused bad_address
      | some a ↦
          if not (query.af == addr.family) then fine false else fine (same_bytes query.af a addr)
    ]

unfoldable pub flags_match : CFlags → DSession → Bool
flags_match c dsess =
    let flags = dsess.local.flags in
    asks_flag c.multihop flags.multihop
    && asks_flag c.cpi flags.cpi
    && asks_flag c.passive flags.passive
    && asks_flag c.shutdown flags.shutdown

unfoldable pub name_matches : CStr → Str → Bool
name_matches query name =
    not (query.unset && not (str_eq name []))
    && elim query.val [ none ↦ true | some v ↦ str_eq v name ]

-- The fields behind the addresses.
unfoldable pub fields_match : CSession → DSession → Bool
fields_match query dsess =
    not (query.netif.unset && not (dsess.ifindex == 0))
    && not (query.vrf.netif.unset && not (dsess.vrf_ifindex == 0))
    && asks query.discr dsess.local.discr
    && asks query.detect_mult dsess.local.timing.detect_mult
    && asks query.min_tx_us dsess.local.timing.min_tx_us
    && asks query.min_rx_us dsess.local.timing.min_rx_us
    && asks query.hold_time_us dsess.hold_time_us
    && asks query.ttl dsess.ttl
    && asks query.netif.ifindex dsess.ifindex
    && asks query.vrf.netif.ifindex dsess.vrf_ifindex
    && asks query.vrf.table dsess.vrf_table
    && asks query.remote_discr dsess.remote.discr
    && name_matches query.name dsess.name

unfoldable pub session_matches : Libs → CSession → DSession → Checked Bool
session_matches l query dsess =
    if not (flags_match query.flags dsess)
    then fine false
    else and_then (addr_matches l query.src dsess.src) (λ src.
      if not src
      then fine false
      else and_then (addr_matches l query.dst dsess.dst)
          (λ dst. if not dst then fine false else fine (fields_match query dsess)))

-- The sessions in the order of the directory; memory for the list is taken to be there.
unfoldable pub select_from : Libs → CSession → (ℕ → DSession) → List ℕ → Checked (List ℕ)
select_from l query dsess [] = fine []
select_from l query dsess (k ∷ ks) =
    let rest = select_from l query dsess ks in
    and_then (session_matches l query (dsess k))
      (λ m. if m then and_then rest (λ found. fine ((dsess k).local.discr ∷ found)) else rest)

module _ (h : HashSet) where
  unfoldable pub select_sessions : Libs → CSession → World h → Checked (List ℕ)
  select_sessions l query w = select_from l query w.dsess (h.keys w.sessions)
