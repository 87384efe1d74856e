-- ===== src/Bfdd/Requests.antt =====
-- src/bbdd-d.c, src/bbdd-bfdd.c: the daemon is told by bfdd to add and delete sessions, to send
-- counters, and to answer echoes. The error of a message is what is reported to the monitors.
use bbdd.Base.{
  ℕ, ◌+◌, Bool, true, false, not, ◌||◌, Option, none, some, List, [], ◌∷◌, ◌++◌, ◌==◌,
  if◌then◌else◌, ◌>>=◌, HashSet,
}
use bbdd.Base.Words.{u64}
use bbdd.Wire.{ntoh16, ntoh32, ntoh64}
use bbdd.Bpf.State.{Env}
use bbdd.Bpf.Directory.{sdir_get_session, find_session}
use bbdd.Control.State.{CError, CSession, Libs, no_local_discr, invalid_length}
use bbdd.Control.Validate.{Checked, refused, fine, and_then, validate_netif, validate_vrf}
use bbdd.Control.Members.{Daemon, Answer, done, failed, d_session_add, del_one}
use bbdd.Control.Requests.{set_one}
use bbdd.Bfdd.Message.{
  Message, Payload, FEcho, FCumulus, SessionStats, counters_msg, echo_reply_msg, echo_request,
  echo_reply, dp_add_session, dp_delete_session, bfd_state_change, dp_request_session_counters,
  bfd_session_counters, unknown_type, msg_len_validate,
}
use bbdd.Bfdd.Convert.{session_msg_to_c}
use bbdd.Bfdd.State.{
  DpError, wrong_version, bad_type, bad_length, unknown_session, no_stats, peer_full, bad_session,
  request_failed, EchoPeer, EchoAnswer, echo_times, Line, Bfdd, Outcome,
}

abbrev pub is_seen {ℓ} : {A : Type ℓ} → Option A → Bool
is_seen none = false
is_seen (some x) = true

-- Interfaces and VRFs that are given are validated.
unfoldable pub validated : Libs → CSession → Checked CSession
validated l csess =
    let n = csess.netif in
    let v = csess.vrf in
    and_then (if is_seen n.ifindex || is_seen n.name then validate_netif l n else fine n) (λ netif.
      and_then
        (if is_seen v.table || is_seen v.netif.ifindex || is_seen v.netif.name
          then validate_vrf l v
          else fine v)
        (λ vrf. fine (record csess { netif = netif; vrf = vrf })))

module _ (h : HashSet) where
  unfoldable pub bump_invalid_message : Bfdd h → Bfdd h
  bump_invalid_message b = record b {
    dp = record (b.dp) { invalid_message = u64 (b.dp.invalid_message + 1) };
  }

  unfoldable pub bump_internal_error : Bfdd h → Bfdd h
  bump_internal_error b = record b {
    dp = record (b.dp) { internal_error = u64 (b.dp.internal_error + 1) };
  }

  unfoldable pub bump_no_session : Bfdd h → Bfdd h
  bump_no_session b = record b { dp = record (b.dp) { no_session = u64 (b.dp.no_session + 1) } }

  -- bbdd_bfdd_write_enqueue
  unfoldable pub write_enqueue : Line → Bfdd h → Message → Bfdd h × Bool
  write_enqueue p b msg =
      if p.takes b.sent msg then (record b { sent = b.sent ++ msg ∷ [] }, true) else (b, false)

  -- After bbdd_d_session_add.
  unfoldable pub added : Bfdd h → Daemon h × Answer → Outcome h
  added b (d, done) = (record b { daemon = d }, none)
  added b (d, failed x) = (bump_no_session (record b { daemon = d }), some (request_failed x))

  -- After the update of a session that is there.
  unfoldable pub updated : Bfdd h → Daemon h × Answer → Outcome h
  updated b (d, done) = (record b { daemon = d }, none)
  updated b (d, failed x) = (bump_internal_error (record b { daemon = d }), some (request_failed x))

  unfoldable pub add_or_update : Libs → Env → Line → Bfdd h → ℕ → CSession → Option (Outcome h)
  add_or_update l e p b discr csess = elim (find_session h b.daemon.world discr) [
    | none ↦ d_session_add h l e p.room b.daemon csess p.final_slot p.periodic_slot >>= λ r.
        some (added b r)
    | some dsess ↦ set_one h l e b.daemon csess dsess >>= λ r. some (updated b r)
  ]

  -- bbdd_d_bfdd_handle_add_session_vrf
  unfoldable pub add_session_vrf : Libs → Env → Line → Bfdd h → CSession → Option (Outcome h)
  add_session_vrf l e p b csess = elim csess.discr [
    | none ↦ some (bump_invalid_message b, some (bad_session no_local_discr))
    | some discr ↦ elim (validated l csess) [
      | refused x ↦ some (bump_invalid_message b, some (bad_session x))
      | fine csess' ↦ add_or_update l e p b discr csess'
    ]
  ]

  abbrev pub is_invalid_length : CError → Bool
  is_invalid_length invalid_length = true
  is_invalid_length x = false

  unfoldable pub bump_invalid_length : CError → Bfdd h → Bfdd h
  bump_invalid_length x b =
      if is_invalid_length x
      then record b {
        dp = record (b.dp) { sess_add_invalid_length = u64 (b.dp.sess_add_invalid_length + 1) };
      }
      else b

  unfoldable pub bfdd_add_session : Libs → Env → Line → Bfdd h → ℕ → FCumulus → Option (Outcome h)
  bfdd_add_session l e p b length cmsess = elim (session_msg_to_c l length cmsess) [
    | refused x ↦ some (bump_invalid_length x b, some (bad_session x))
    | fine csess ↦ add_session_vrf l e p b csess
  ]

  unfoldable pub bfdd_delete_session : Env → Bfdd h → ℕ → Option (Outcome h)
  bfdd_delete_session e b discr = del_one h e b.daemon discr >>= λ r. elim r.1 [
    | done ↦ some (record b { daemon = r.0 }, none)
    | failed x ↦ some (bump_no_session (record b { daemon = r.0 }), some (request_failed x))
  ]

  -- UINT64_MAX / 2 everywhere.
  abbrev pub nonsense : SessionStats
  nonsense =
      let most : ℕ = 9223372036854775807 in
      record { rx_bytes = most; rx_packets = most; tx_bytes = most; tx_packets = most }

  -- bbdd_bpf_session_stats_fill; the session's own counters of what was sent stay 0.
  unfoldable pub session_stats_fill : Line → Bfdd h → ℕ → Option SessionStats
  session_stats_fill p b discr = sdir_get_session h b.daemon.world discr >>= λ s.
      p.stats discr >>= λ kernel. some (record {
        rx_bytes = u64 (kernel.rx_bytes + s.stats.rx_bytes);
        rx_packets = u64 (kernel.rx_packets + s.stats.rx_packets);
        tx_bytes = kernel.tx_bytes;
        tx_packets = kernel.tx_packets;
      })

  -- The label `reply`, with the error so far.
  unfoldable pub reply_counters : Line → Bfdd h → ℕ → ℕ → SessionStats → Option DpError → Outcome h
  reply_counters p b id discr stats x =
      let (b', sent) = write_enqueue p b (counters_msg id discr stats) in
      if sent then (b', x) else (
        record b' { dp = record (b'.dp) { buffer_error = u64 (b'.dp.buffer_error + 1) } },
        elim x [ none ↦ some peer_full | some y ↦ some y ],
      )

  unfoldable pub bfdd_session_counters : Line → Bfdd h → ℕ → ℕ → Outcome h
  bfdd_session_counters p b id discr = elim (find_session h b.daemon.world discr) [
    | none ↦ reply_counters p (bump_no_session b) id discr nonsense (some unknown_session)
    | some dsess ↦ elim (session_stats_fill p b discr) [
      | none ↦ reply_counters p (bump_internal_error b) id discr nonsense (some no_stats)
      | some stats ↦ reply_counters p b id discr stats none
    ]
  ]

  -- The daemon is the dataplane.
  unfoldable pub handle_echo_request : Line → Bfdd h → ℕ → FEcho → Outcome h
  handle_echo_request p b id echo =
      let (b', sent) = write_enqueue p b (echo_reply_msg p.now id echo true) in
      (b', if sent then none else some peer_full)

  abbrev pub echo_answer : FEcho → EchoPeer → ℕ × EchoAnswer
  echo_answer echo q =
      let own = if q.is_dp then ntoh64 echo.dp_time else ntoh64 echo.bfdd_time in
      let other = if q.is_dp then ntoh64 echo.bfdd_time else ntoh64 echo.dp_time in
      (q.peer, echo_times own other)

  abbrev pub answer_all : (EchoPeer → ℕ × EchoAnswer) → List EchoPeer → List (ℕ × EchoAnswer)
  answer_all f [] = []
  answer_all f (q ∷ qs) = f q ∷ answer_all f qs

  -- Every client is answered, and none waits any more.
  unfoldable pub handle_echo_reply : Bfdd h → FEcho → Bfdd h
  handle_echo_reply b echo = record b {
    waiting = [];
    answers = b.answers ++ answer_all (echo_answer echo) b.waiting;
  }

  unfoldable pub bad_message_type : Bfdd h → Outcome h
  bad_message_type b = (
    record b { dp = record (b.dp) { invalid_message_type = u64 (b.dp.invalid_message_type + 1) } },
    some bad_type,
  )

  -- The switch, with the id and the length of the header.
  unfoldable pub handle_payload : Libs → Env → Line → Bfdd h → ℕ → ℕ → Payload → Option (Outcome h)
  handle_payload l e p b id length (dp_add_session m) = bfdd_add_session l e p b length m
  handle_payload l e p b id length (dp_delete_session m) =
      bfdd_delete_session e b (ntoh32 m.session.lid)
  handle_payload l e p b id length (dp_request_session_counters lid) =
      some (bfdd_session_counters p b id (ntoh32 lid))
  handle_payload l e p b id length (echo_request m) = some (handle_echo_request p b id m)
  handle_payload l e p b id length (echo_reply m) = some (handle_echo_reply b m, none)
  handle_payload l e p b id length (bfd_session_counters m) = some (bad_message_type b)
  handle_payload l e p b id length (bfd_state_change m) = some (bad_message_type b)
  handle_payload l e p b id length (unknown_type n) = some (bad_message_type b)

  -- bbdd_d_bfdd_message_cb; the report of the message to the monitors is left out.
  unfoldable pub message_cb : Libs → Env → Line → Bfdd h → Message → Option (Outcome h)
  message_cb l e p b msg =
      if not (msg.version == 1)
      then some (
        record b {
          dp = record (b.dp) { wrong_version_number = u64 (b.dp.wrong_version_number + 1) };
        },
        some wrong_version,
      )
      else handle_payload l e p b (ntoh16 msg.id) (ntoh16 msg.length) msg.payload

  -- bbdd_bfdd_dispatch_message; a message that is too short closes the connection.
  unfoldable pub dispatch_message : Libs → Env → Line → Bfdd h → Message → Option (Outcome h × Bool)
  dispatch_message l e p b msg =
      if not (msg_len_validate msg)
      then some ((b, some bad_length), false)
      else message_cb l e p b msg >>= λ r. some (r, true)
