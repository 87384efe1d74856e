-- ===== src/Examples/Inputs.antt =====
-- Two ends of a session, a packet, and the state of the daemon.
use bbdd.Base.{ℕ, refl, true, false, [], arith}
use bbdd.Wire.Packet.{BfdPkt, PktState}
use bbdd.Session.{SockAddr, SessFlags, StateEnd, Timing, SessData, DSession, af_inet}
use bbdd.Tx.{Tx, empty_slot}
use bbdd.Bpf.State.{Env, Bpf, BSession, BData, BState}
use bbdd.Bpf.Packet.{make_packet}
use bbdd.Bpf.Invariant.{IsValid}
use bbdd.Bpf.Handlers.{IsEnding}
use bbdd.Examples.Lists.{list_dl}

-- The kernel does what it is asked to, and has let go of no packet yet.
abbrev pub willing : Env
willing = record { accepts = λ log c. true; released = λ log. 0; tx_capacity = 0; dl = list_dl }

abbrev pub no_flags : SessFlags
no_flags = record { multihop = false; cpi = false; passive = false; shutdown = false }

abbrev pub timing_300ms : Timing
timing_300ms = record { detect_mult = 3; min_tx_us = 300000; min_rx_us = 300000 }

abbrev pub timing_1s : Timing
timing_1s = record { detect_mult = 3; min_tx_us = 1000000; min_rx_us = 1000000 }

abbrev pub at_state : PktState → StateEnd
at_state s = record { state = s; diag = 0 }

abbrev pub side : ℕ → PktState → SessData
side discr s = record { flags = no_flags; discr = discr; timing = timing_300ms; end = at_state s }

-- 10.0.0.1 and 10.0.0.2, as a little-endian host has them.
abbrev pub addr_a : SockAddr
addr_a = record {
  family = af_inet;
  port = record { value = 192 };
  w0 = 16777226;
  w1 = 0;
  w2 = 0;
  w3 = 0;
}

abbrev pub addr_b : SockAddr
addr_b = record {
  family = af_inet;
  port = record { value = 51214 };
  w0 = 33554442;
  w1 = 0;
  w2 = 0;
  w3 = 0;
}

abbrev pub dsession : PktState → PktState → DSession
dsession local remote = record {
  src = addr_a;
  dst = addr_b;
  name = [];
  hold_time_us = 0;
  ttl = 255;
  ifindex = 0;
  vrf_ifindex = 0;
  user_remote_discr = 0;
  vrf_table = 0;
  local = side 7 local;
  remote = side 9 remote;
}

abbrev pub bdata : Timing → BData
bdata t = record { timing = t; shutdown = false }

abbrev pub bsession : BState → Timing → BSession
bsession s t = record {
  discr = 7;
  gen_id = 4;
  bstate = s;
  eff_data = bdata t;
  dfr_data = bdata timing_1s;
  qd_change = false;
  shwait = true;
  lost = 0;
  hold = true;
  timer_period_us = 0;
  stats = record { rx_packets = 0; rx_bytes = 0 };
  diag_stats = record {
    rx_admin_down = 0;
    rx_ttl_low = 0;
    rx_unsupported = 0;
    rx_multipoint_not_0 = 0;
    rx_detection_multiplier_0 = 0;
    rx_my_discr_0 = 0;
    rx_your_discr_0_not_down = 0;
  };
  final_slot = 100;
  periodic_slot = 101;
}

abbrev pub empty_tx : Tx
empty_tx = record {
  finals = [];
  periodics = [];
  nfinals = 0;
  nperiodics = 0;
  slot = λ a. empty_slot;
}

-- The daemon with room for `capacity` packets.
abbrev pub daemon : ℕ → Bpf
daemon capacity = record {
  veth_rx_ifindex = 11;
  veth_tx_ifindex = 12;
  tx = empty_tx;
  tx_capacity = capacity;
  tx_pollout_registered = false;
  sk_sent_count = 0;
  sk_enq_count = 0;
  sk_deq_count = 0;
  rx_no_unique_session = 0;
  log = [];
}

-- What the other end sends in the state `s`, with the flags `f`.
abbrev pub packet : PktState → ℕ → BfdPkt
packet s f = make_packet 9 timing_300ms (at_state s) 7 f

pub session-IsValid :
    (l r : PktState) (s : BState) → IsValid (dsession l r) (bsession s timing_300ms)
session-IsValid l r s = record {
  has_shwait = λ h. refl;
  has_hold = λ h. refl;
  queued = λ h. ground arith;
  eff_mult = λ h. ground arith;
  dfr_mult = λ h k. ground arith;
  waits = λ h. ground arith;
  local_mult = ground arith;
  remote_mult = ground arith;
}

pub session-IsEnding :
    (l r : PktState) (s : BState) → IsEnding (dsession l r) (bsession s timing_300ms)
session-IsEnding l r s = record {
  dfr_mult = ground arith;
  local_mult = ground arith;
  remote_mult = ground arith;
}
