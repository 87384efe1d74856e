-- ===== src/Control/Validate.antt =====
-- src/bbdd-d.c: the interface and the VRF of a request, checked against the system.
use bbdd.Base.{ℕ, Bool, true, false, not, ◌&&◌, none, some, [], ◌∷◌, ◌==◌, if◌then◌else◌}
use bbdd.Session.{DSession}
use bbdd.Control.State.{
  Str, CNetif, CVrf, Libs, CError, no_ifindex, no_ifname, ifindex_and_unset,
  ifindex_ifname_mismatch, vrf_request_failed, vrf_table_mismatch,
}

-- A result, or the error of the request.
pub data Checked {ℓ} (A : Type ℓ) : Type ℓ where
  refused : CError → Checked A
  fine : A → Checked A

unfoldable pub and_then {ℓ} : {A B : Type ℓ} → Checked A → (A → Checked B) → Checked B
and_then (refused x) f = refused x
and_then (fine a) f = f a

-- strcmp, as equality.
unfoldable pub str_eq : Str → Str → Bool
str_eq [] [] = true
str_eq [] (b ∷ t) = false
str_eq (a ∷ s) [] = false
str_eq (a ∷ s) (b ∷ t) = a == b && str_eq s t

-- The index of a name, 0 for the empty one.
unfoldable pub index_of : Libs → Str → Checked ℕ
index_of l [] = fine 0
index_of l (c ∷ cs) =
    let ifindex = l.if_nametoindex (c ∷ cs) in
    if ifindex == 0 then refused no_ifname else fine ifindex

unfoldable pub name_of : Libs → ℕ → Checked Str
name_of l ifindex = elim (l.if_indextoname ifindex) [
  | none ↦ refused no_ifindex
  | some ifname ↦ fine ifname
]

-- Both are given, and have to belong together.
unfoldable pub check_pair : ℕ → Str → ℕ → Str → CNetif → Checked CNetif
check_pair ifindex [] found ifname netif = refused ifindex_and_unset
check_pair ifindex (c ∷ cs) found ifname netif =
    if not (ifindex == found)
    then refused ifindex_ifname_mismatch
    else if not (str_eq ifname (c ∷ cs))
    then refused ifindex_ifname_mismatch
    else fine netif

-- The assertion that a name that was found is not empty is left out, since an interface has a name.
unfoldable pub validate_netif : Libs → CNetif → Checked CNetif
validate_netif l netif = elim netif.ifindex [
  | none ↦ elim netif.name [
    | none ↦ fine netif
    | some name ↦ and_then (index_of l name) (λ i. fine (record netif { ifindex = some i }))
  ]
  | some ifindex ↦ and_then (name_of l ifindex) (λ ifname. elim netif.name [
    | none ↦ fine (record netif { name = some ifname })
    | some name ↦ and_then (index_of l name) (λ found. check_pair ifindex name found ifname netif)
  ])
]

unfoldable pub check_table : ℕ → CVrf → Checked CVrf
check_table table vrf = elim vrf.table [
  | none ↦ fine (record vrf { table = some table })
  | some given ↦ if not (given == table) then refused vrf_table_mismatch else fine vrf
]

unfoldable pub validate_vrf : Libs → CVrf → Checked CVrf
validate_vrf l vrf = and_then (validate_netif l vrf.netif) (λ netif. elim netif.ifindex [
  | none ↦ fine (record vrf { netif = netif })
  | some ifindex ↦ elim (l.get_vrf_table ifindex) [
    | none ↦ refused vrf_request_failed
    | some table ↦ check_table table (record vrf { netif = netif })
  ]
])

-- What a session has. The name that the index no longer has stays empty.
unfoldable pub session_to_c_vrf : Libs → DSession → CVrf
session_to_c_vrf l dsess = record {
  netif =
      if not (dsess.vrf_ifindex == 0)
      then record {
        unset = false;
        name = some (elim (l.if_indextoname dsess.vrf_ifindex) [ none ↦ [] | some n ↦ n ]);
        ifindex = some dsess.vrf_ifindex;
      }
      else record { unset = true; name = none; ifindex = none };
  table = if not (dsess.vrf_table == 0) then some dsess.vrf_table else none;
}
