-- ===== src/Bfdd/Message.antt =====
-- src/bfddp_packet.h as src/bbdd-bfdd.c uses it: the messages of the protocol between bfdd and the
-- dataplane, their lengths, and the check of the length of a message that came in.
--
-- The union of the payloads is a data type whose constructor is the type of the header. The name of
-- an interface is the list of the characters before the NUL.
use bbdd.Base.{ℕ, ◌+◌, Bool, false, ltb, not, if◌then◌else◌, []}
use bbdd.Wire.{Be16, Be32, Be64, hton16, ntoh16, hton32, hton64}
use bbdd.Wire.Packet.{state_num}
use bbdd.Session.{DSession}
use bbdd.Bpf.Discr0.{BpfAddr}
use bbdd.Control.State.{Str}

pub record FEcho : Type 0 where
  pub dp_time : Be64
  pub bfdd_time : Be64

pub record FSession : Type 0 where
  pub flags : Be32
  pub src : BpfAddr
  pub dst : BpfAddr
  pub lid : Be32
  pub min_tx : Be32
  pub min_rx : Be32
  pub min_echo_tx : Be32
  pub min_echo_rx : Be32
  pub hold_time : Be32
  pub ttl : ℕ
  pub detect_mult : ℕ
  pub ifindex : Be32
  pub ifname : Str

pub record FCumulus : Type 0 where
  pub session : FSession
  pub vrf_id : Be32
  pub vrfname : Str

pub record FState : Type 0 where
  pub lid : Be32
  pub rid : Be32
  pub remote_flags : Be32
  pub desired_tx : Be32
  pub required_rx : Be32
  pub required_echo_rx : Be32
  pub state : ℕ
  pub diagnostics : ℕ
  pub detection_multiplier : ℕ

-- The counters of echo packets are always 0.
pub record FCounters : Type 0 where
  pub lid : Be32
  pub control_input_bytes : Be64
  pub control_input_packets : Be64
  pub control_output_bytes : Be64
  pub control_output_packets : Be64

pub data Payload : Type 0 where
  echo_request echo_reply : FEcho → Payload
  dp_add_session dp_delete_session : FCumulus → Payload
  bfd_state_change : FState → Payload
  dp_request_session_counters : Be32 → Payload
  bfd_session_counters : FCounters → Payload
  unknown_type : ℕ → Payload

pub record Message : Type 0 where
  pub version : ℕ
  pub id : Be16
  pub length : Be16
  pub payload : Payload

abbrev pub header_size : ℕ
header_size = 8

abbrev pub echo_size : ℕ
echo_size = 16

abbrev pub session_size : ℕ
session_size = 132

abbrev pub cumulus_size : ℕ
cumulus_size = 172

abbrev pub state_size : ℕ
state_size = 28

abbrev pub counters_req_size : ℕ
counters_req_size = 4

abbrev pub session_counters_size : ℕ
session_counters_size = 72

-- `false` is the error.
unfoldable pub msg_len_ck : Message → ℕ → Bool
msg_len_ck msg min_payload_len = not (ltb (ntoh16 msg.length) (min_payload_len + header_size))

unfoldable pub msg_len_validate : Message → Bool
msg_len_validate msg = elim msg.payload [
  | echo_request m ↦ msg_len_ck msg echo_size
  | echo_reply m ↦ msg_len_ck msg echo_size
  | dp_add_session m ↦ msg_len_ck msg session_size
  | dp_delete_session m ↦ msg_len_ck msg session_size
  | bfd_state_change m ↦ msg_len_ck msg state_size
  | dp_request_session_counters m ↦ msg_len_ck msg counters_req_size
  | bfd_session_counters m ↦ msg_len_ck msg session_counters_size
  | unknown_type n ↦ false
]

abbrev pub be16_0 : Be16
be16_0 = record { value = 0 }

abbrev pub be32_0 : Be32
be32_0 = record { value = 0 }

abbrev pub be64_0 : Be64
be64_0 = record { value = 0 }

abbrev pub no_in6 : BpfAddr
no_in6 = record { w0 = 0; w1 = 0; w2 = 0; w3 = 0 }

abbrev pub no_fsession : FSession
no_fsession = record {
  flags = be32_0;
  src = no_in6;
  dst = no_in6;
  lid = be32_0;
  min_tx = be32_0;
  min_rx = be32_0;
  min_echo_tx = be32_0;
  min_echo_rx = be32_0;
  hold_time = be32_0;
  ttl = 0;
  detect_mult = 0;
  ifindex = be32_0;
  ifname = [];
}

pub record SessionStats : Type 0 where
  pub rx_bytes : ℕ
  pub rx_packets : ℕ
  pub tx_bytes : ℕ
  pub tx_packets : ℕ

-- The message of `bbdd_bfdd_c_reply_counters`.
unfoldable pub counters_msg : ℕ → ℕ → SessionStats → Message
counters_msg msg_id discr stats = record {
  version = 1;
  id = hton16 msg_id;
  length = hton16 (header_size + session_counters_size);
  payload = bfd_session_counters (record {
    lid = hton32 discr;
    control_input_bytes = hton64 stats.rx_bytes;
    control_input_packets = hton64 stats.rx_packets;
    control_output_bytes = hton64 stats.tx_bytes;
    control_output_packets = hton64 stats.tx_packets;
  });
}

-- Of `bbdd_bfdd_send_echo`.
unfoldable pub echo_msg : ℕ → ℕ → Bool → Message
echo_msg msg_id time_us is_dp = record {
  version = 1;
  id = hton16 msg_id;
  length = hton16 (header_size + echo_size);
  payload = echo_request (record {
    dp_time = if is_dp then hton64 time_us else hton64 0;
    bfdd_time = if is_dp then hton64 0 else hton64 time_us;
  });
}

-- Of `bbdd_bfdd_reply_echo`, at the time `now`.
unfoldable pub echo_reply_msg : ℕ → ℕ → FEcho → Bool → Message
echo_reply_msg now msg_id in_echo is_dp = record {
  version = 1;
  id = hton16 msg_id;
  length = hton16 (header_size + echo_size);
  payload = echo_reply (record {
    dp_time = if is_dp then hton64 now else in_echo.dp_time;
    bfdd_time = if is_dp then in_echo.bfdd_time else hton64 now;
  });
}

-- Of `bbdd_bfdd_c_send_state_change`.
unfoldable pub state_change_msg : DSession → Message
state_change_msg dsess = record {
  version = 1;
  id = be16_0;
  length = hton16 (header_size + state_size);
  payload = bfd_state_change (record {
    lid = hton32 dsess.local.discr;
    rid = hton32 dsess.remote.discr;
    remote_flags = hton32 (if dsess.remote.flags.cpi then 1 else 0);
    desired_tx = hton32 dsess.remote.timing.min_tx_us;
    required_rx = hton32 dsess.remote.timing.min_rx_us;
    required_echo_rx = be32_0;
    state = state_num dsess.remote.end.state;
    diagnostics = dsess.remote.end.diag;
    detection_multiplier = dsess.remote.timing.detect_mult;
  });
}

-- Of `bbdd_bfdd_d_del_session`.
unfoldable pub del_session_msg : ℕ → ℕ → Message
del_session_msg msg_id discr = record {
  version = 1;
  id = hton16 msg_id;
  length = hton16 (header_size + session_size);
  payload = dp_delete_session (record {
    session = record no_fsession { lid = hton32 discr };
    vrf_id = be32_0;
    vrfname = [];
  });
}

-- Of `bbdd_bfdd_d_request_counters`.
unfoldable pub request_counters_msg : ℕ → ℕ → Message
request_counters_msg msg_id discr = record {
  version = 1;
  id = hton16 msg_id;
  length = hton16 (header_size + counters_req_size);
  payload = dp_request_session_counters (hton32 discr);
}
