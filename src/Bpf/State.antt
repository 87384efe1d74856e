-- ===== src/Bpf/State.antt =====
-- src/bbdd-bpf.c: the state of the userspace half, and its calls into the kernel and the daemon.
--
-- A call that can fail is written to `log` together with its outcome, newest first. What the
-- kernel answers is a parameter: a function of the calls made before and of the call itself.
use bbdd.Base.{ℕ, ◌+◌, ◌-◌, ◌%◌, Bool, true, List, ◌∷◌, ltb, DlList}
use bbdd.Base.Words.{u32, u64_mod}
use bbdd.Wire.{Be16}
use bbdd.Wire.Packet.{BfdPkt}
use bbdd.Session.{SockAddr, SessData, Timing}
use bbdd.Tx.{Tx}

-- The error messages.
pub data Error : Type 0 where
  sendmsg_failed family_mismatch unsupported_family config_insert_failed data_insert_failed : Error
  session_alloc_failed shwait_alloc_failed hold_alloc_failed timer_alloc_failed timer_arm_failed :
      Error
  over_2g sndbuf_failed no_bpf_session : Error

-- The `int` that a fallible C function returns, with the message.
pub data Rc : Type 0 where
  ok : Rc
  err : Error → Rc

-- struct bbdd_prog_session_config with the struct bpf_fib_lookup inside it.
pub record FibLookup : Type 0 where
  pub family : ℕ
  pub l4_protocol : ℕ
  pub sport : ℕ
  pub dport : ℕ
  pub ifindex : ℕ
  pub tbid : ℕ
  pub mark : ℕ
  pub tot_len : ℕ
  pub src : SockAddr
  pub dst : SockAddr

pub record SessionConfig : Type 0 where
  pub fib_lookup : FibLookup
  pub bpf_fib_lookup_flags : ℕ
  pub min_interval_us : ℕ
  pub max_interval_us : ℕ
  pub detect_time_us : ℕ
  pub gen_id : ℕ
  pub admin_down : Bool
  pub rearm_timer : Bool
  pub ttl : ℕ
  pub rx_expect : BfdPkt

-- The packet handed to the socket: the fields of its IP and UDP headers, and the BFD packet.
pub record Frame : Type 0 where
  pub is_ipv4 : Bool
  pub ttl : ℕ
  pub source : Be16
  pub dest : Be16
  pub udp_len : ℕ
  pub udp_check : ℕ
  pub ip_check : ℕ
  pub saddr : SockAddr
  pub daddr : SockAddr
  pub bfd : BfdPkt

-- What was being done when an error was sent to the monitors.
pub data Report : Type 0 where
  drain_failed arm_pollout_failed session_update_failed qd_change_failed : Report
  rearm_timer_failed final_failed session_del_resize_failed discr_0_failed : Report

pub data Call : Type 0 where
  sendmsg : ℕ → ℕ → Frame → Call
  config_update : ℕ → SessionConfig → Call
  config_delete data_insert data_delete : ℕ → Call
  set_pollout unset_pollout : Call
  set_sndbuf : ℕ → Call
  malloc_session malloc_shwait malloc_hold : ℕ → Call
  set_shwait_timer set_hold_timer : ℕ → ℕ → Call
  cancel_shwait_timer cancel_hold_timer : ℕ → Call
  state_changed : ℕ → SessData → Call
  send_error : Report → Call

abbrev pub Log : Type 0
Log = List (Call × Bool)

-- `released` is the counter `sk_released_count` of the kernel program, which it bumps on its own.
pub record Env : Type 0 where
  pub accepts : Log → Call → Bool
  pub released : Log → ℕ
  pub tx_capacity : ℕ  -- `--debug=tx-cap`, 0 when not given
  pub dl : DlList

pub data BState : Type 0 where
  on_hold stable await_final await_non_final shutting_down : BState

-- struct bbdd_bpf_session_data
pub record BData : Type 0 where
  pub timing : Timing
  pub shutdown : Bool

pub record Stats : Type 0 where
  pub rx_packets : ℕ
  pub rx_bytes : ℕ

pub record DiagStats : Type 0 where
  pub rx_admin_down : ℕ
  pub rx_ttl_low : ℕ
  pub rx_unsupported : ℕ
  pub rx_multipoint_not_0 : ℕ
  pub rx_detection_multiplier_0 : ℕ
  pub rx_my_discr_0 : ℕ
  pub rx_your_discr_0_not_down : ℕ

-- struct bbdd_bpf_session. `shwait` and `hold` tell whether the pointer is set. `lost` is no field of
-- the structure: it counts the shwaits on the heap whose timer is still set and whose pointer was
-- overwritten, which the callback of that timer acts on. The two slots live in the store of the
-- queue, at the addresses given.
pub record BSession : Type 0 where
  pub discr : ℕ
  pub gen_id : ℕ
  pub bstate : BState
  pub eff_data : BData
  pub dfr_data : BData
  pub qd_change : Bool
  pub shwait : Bool
  pub lost : ℕ
  pub hold : Bool
  pub timer_period_us : ℕ
  pub stats : Stats
  pub diag_stats : DiagStats
  pub final_slot : ℕ
  pub periodic_slot : ℕ

-- struct bbdd_bpf, less what never changes while sessions run.
pub record Bpf : Type 0 where
  pub veth_rx_ifindex : ℕ
  pub veth_tx_ifindex : ℕ
  pub tx : Tx
  pub tx_capacity : ℕ
  pub tx_pollout_registered : Bool
  pub sk_sent_count : ℕ
  pub sk_enq_count : ℕ
  pub sk_deq_count : ℕ
  pub rx_no_unique_session : ℕ
  pub log : Log

-- Make a call and keep its outcome.
abbrev pub call : Env → Bpf → Call → Bpf × Bool
call e bpf c = let done = e.accepts bpf.log c in (record bpf { log = (c, done) ∷ bpf.log }, done)

-- Send a notice, whose outcome nobody looks at.
abbrev pub note : Bpf → Call → Bpf
note bpf c = record bpf { log = (c, true) ∷ bpf.log }

unfoldable pub tx_pinned : Env → Bpf → ℕ
tx_pinned e bpf = u32 ((bpf.sk_sent_count + u64_mod - e.released bpf.log) % u64_mod)

unfoldable pub tx_have_capacity : Env → Bpf → Bool
tx_have_capacity e bpf = ltb (tx_pinned e bpf) bpf.tx_capacity
