-- ===== src/Control/State.antt =====
-- src/bbdd-c.h: a session as a request describes it, for a change of a session or for the choice of
-- sessions. A field with `_seen` is an Option; a string is the list of its characters.
use bbdd.Base.{ℕ, Bool, Option, List}
use bbdd.Bpf.Discr0.{BpfAddr}

abbrev pub Str : Type 0
Str = List ℕ

pub record CStr : Type 0 where
  pub unset : Bool
  pub val : Option Str

pub record CNetif : Type 0 where
  pub unset : Bool
  pub name : Option Str
  pub ifindex : Option ℕ

pub record CVrf : Type 0 where
  pub netif : CNetif
  pub table : Option ℕ

-- `af` is 0 when there is no address.
pub record CAddr : Type 0 where
  pub unset : Bool
  pub str : Str
  pub af : ℕ

pub record CFlags : Type 0 where
  pub multihop : Option Bool
  pub cpi : Option Bool
  pub passive : Option Bool
  pub shutdown : Option Bool

pub record CSession : Type 0 where
  pub flags : CFlags
  pub discr : Option ℕ
  pub remote_discr : Option ℕ
  pub min_tx_us : Option ℕ
  pub min_rx_us : Option ℕ
  pub hold_time_us : Option ℕ
  pub ttl : Option ℕ
  pub detect_mult : Option ℕ
  pub src : CAddr
  pub dst : CAddr
  pub netif : CNetif
  pub vrf : CVrf
  pub name : CStr

-- The libraries that the code asks: the answers of if_indextoname, if_nametoindex (0 for no such
-- interface), the netlink request for the table of a VRF, inet_pton and inet_ntop.
pub record Libs : Type 0 where
  pub if_indextoname : ℕ → Option Str
  pub if_nametoindex : Str → ℕ
  pub get_vrf_table : ℕ → Option ℕ
  pub inet_pton : ℕ → Str → Option BpfAddr
  pub inet_ntop : ℕ → BpfAddr → Option Str

-- What a request is refused for.
pub data CError : Type 0 where
  no_ifindex no_ifname ifindex_and_unset ifindex_ifname_mismatch : CError
  vrf_request_failed vrf_table_mismatch : CError
  discr_change no_dst_address af_mismatch bad_address : CError
  echo_unsupported demand_unsupported no_ntop hold_time_overflow invalid_length no_local_discr :
      CError
  zero_discr zero_min_rx_us zero_min_tx_us zero_detect_mult : CError
