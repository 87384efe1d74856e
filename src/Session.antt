-- ===== src/Session.antt =====
-- src/bbdd-d.h, src/bbdd-sock.h: a session as the daemon configures it, one end of it, and its
-- addresses. Of a socket address the model has the family, the port as stored and four raw words,
-- of which an IPv4 address takes the first.
use bbdd.Base.{ℕ, List, Bool, true, false, ◌&&◌, ◌==◌}
use bbdd.Wire.{Be16}
use bbdd.Wire.Packet.{PktState, state_num}

abbrev pub af_inet : ℕ
af_inet = 2

abbrev pub af_inet6 : ℕ
af_inet6 = 10

pub record SockAddr : Type 0 where
  pub family : ℕ
  pub port : Be16
  pub w0 : ℕ
  pub w1 : ℕ
  pub w2 : ℕ
  pub w3 : ℕ

pub record SessFlags : Type 0 where
  pub multihop : Bool
  pub cpi : Bool
  pub passive : Bool
  pub shutdown : Bool

pub record StateEnd : Type 0 where
  pub state : PktState
  pub diag : ℕ

pub record Timing : Type 0 where
  pub detect_mult : ℕ  -- uint8_t
  pub min_tx_us : ℕ  -- uint32_t
  pub min_rx_us : ℕ  -- uint32_t

-- The configuration and the state of one end, local or remote.
pub record SessData : Type 0 where
  pub flags : SessFlags
  pub discr : ℕ
  pub timing : Timing
  pub end : StateEnd

pub record DSession : Type 0 where
  pub src : SockAddr
  pub dst : SockAddr
  pub name : List ℕ  -- its characters
  pub hold_time_us : ℕ
  pub ttl : ℕ  -- uint8_t
  pub ifindex : ℕ
  pub vrf_ifindex : ℕ
  pub user_remote_discr : ℕ  -- 0 when not given
  pub vrf_table : ℕ  -- 0 when not configured
  pub local : SessData
  pub remote : SessData

abbrev bool_eq : Bool → Bool → Bool
bool_eq true b = b
bool_eq false true = false
bool_eq false false = true

abbrev flags_eq : SessFlags → SessFlags → Bool
flags_eq f g =
    bool_eq f.multihop g.multihop
    && bool_eq f.cpi g.cpi
    && bool_eq f.passive g.passive
    && bool_eq f.shutdown g.shutdown

abbrev timing_eq : Timing → Timing → Bool
timing_eq s t =
    s.detect_mult == t.detect_mult && s.min_tx_us == t.min_tx_us && s.min_rx_us == t.min_rx_us

-- memcmp of two ends. Copies of the struct carry its padding, which so plays no part.
unfoldable pub sess_data_eq : SessData → SessData → Bool
sess_data_eq a b =
    flags_eq a.flags b.flags
    && a.discr == b.discr
    && timing_eq a.timing b.timing
    && state_num a.end.state == state_num b.end.state
    && a.end.diag == b.end.diag
