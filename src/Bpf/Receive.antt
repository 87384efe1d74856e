-- ===== src/Bpf/Receive.antt =====
-- src/bbdd-bpf.c: a received packet, the session state machine (RFC 5880, 6.8.6), the poll
-- sequence, the detection timeout, and the callbacks of the hold and shwait timers.
use bbdd.Base.{ℕ, ◌+◌, Bool, true, false, not, ◌||◌, Option, none, some, ltb, if◌then◌else◌, ◌>>=◌}
use bbdd.Base.Words.{u64}
use bbdd.Wire.Packet.{
  BfdPkt, PktState, admindown, down, init, up, state_eq, diag_nothing, diag_time_expired, diag_down,
  bit_final,
}
use bbdd.Session.{DSession, SessData, StateEnd, sess_data_eq}
use bbdd.Tx
use bbdd.Bpf.State.{
  Env, Bpf, BSession, BState, on_hold, stable, await_final, await_non_final, shutting_down, Rc, ok,
  err, note, send_error, qd_change_failed, rearm_timer_failed, final_failed, tx_have_capacity,
}
use bbdd.Bpf.Packet.{dropped, parsed, parse_packet}
use bbdd.Bpf.Inject.{session_inject_pkt, inject_rearm_packet, tx_pollout_arm}
use bbdd.Bpf.Config.{
  set_local, set_remote, user_bdata, call_update, session_state_changed, shwait_stop, hold_stop,
  handle_session_update,
}

-- An error is reported, and dropped.
abbrev pub report_rc : Rc → Bpf → (Bpf → Bpf) → Bpf
report_rc ok bpf f = bpf
report_rc (err x) bpf f = f bpf

unfoldable pub got_final : Env → Bpf → DSession → BSession → Option (Bpf × BSession)
got_final e bpf dsess bsess = call_update e bpf dsess (record bsess { bstate = await_non_final })

-- A change that was queued during the poll sequence is looked at.
unfoldable pub take_queued : Env → Bpf → DSession → BSession → Option (Bpf × DSession × BSession)
take_queued e bpf dsess bsess =
    if bsess.qd_change
    then (handle_session_update e bpf dsess (record bsess { qd_change = false }) >>= λ r.
        some (report_rc r.3 r.0 (λ b. note b (send_error qd_change_failed)), r.1, r.2))
    else some (bpf, dsess, bsess)

-- The poll sequence is over, and its data take effect.
unfoldable pub got_non_final : Env → Bpf → DSession → BSession → Option (Bpf × DSession × BSession)
got_non_final e bpf dsess bsess = do
  s ← take_queued e bpf dsess (record bsess { eff_data = bsess.dfr_data; bstate = stable })
  t ← call_update e s.0 s.1 s.2
  some (t.0, s.1, t.1)

-- The new state and diagnostic of the local end: by its state, and the state that came in.
unfoldable pub next_end : PktState → PktState → StateEnd → StateEnd
next_end down admindown local = local
next_end _ admindown local = record { state = down; diag = diag_down }
next_end down down local = record { state = init; diag = diag_nothing }
next_end down init local = record { state = up; diag = diag_nothing }
next_end init init local = record { state = up; diag = diag_nothing }
next_end init up local = record { state = up; diag = diag_nothing }
next_end up down local = record { state = down; diag = diag_down }
next_end _ _ local = local

-- The answer to a poll: a final packet now, or queued when there is no room.
unfoldable pub answer_poll : Env → Bpf → DSession → BSession → Bool → Option Bpf
answer_poll e bpf dsess bsess false = some bpf
answer_poll e bpf dsess bsess true =
    if not (tx_have_capacity e bpf)
    then (let (tx', fresh) =
          Tx.enqueue e.dl bpf.tx bsess.final_slot true dsess.local.discr bpf.veth_tx_ifindex
            bit_final in
        some (
          tx_pollout_arm e (record bpf {
            tx = tx';
            sk_enq_count = (if fresh then u64 (bpf.sk_enq_count + 1) else bpf.sk_enq_count);
          })))
    else (session_inject_pkt e bpf dsess bsess bpf.veth_tx_ifindex bit_final >>= λ r.
        some (report_rc r.1 r.0 (λ b. note b (send_error final_failed))))

-- The last switch: a final packet answers our poll, and a packet without the bit ends the sequence.
unfoldable pub advance_poll :
    BState → Env → Bpf → DSession → BSession → Bool → Option (Bpf × DSession × BSession)
advance_poll on_hold e bpf dsess bsess final = none
advance_poll await_final e bpf dsess bsess true =
    got_final e bpf dsess bsess >>= λ r. some (r.0, dsess, r.1)
advance_poll await_non_final e bpf dsess bsess false = got_non_final e bpf dsess bsess
advance_poll _ e bpf dsess bsess final = some (bpf, dsess, bsess)

unfoldable pub notify_change :
    Env → Bpf → DSession → BSession → SessData → SessData → Option (Bpf × BSession)
notify_change e bpf dsess bsess old_local old_remote =
    if not (sess_data_eq old_local dsess.local) || not (sess_data_eq old_remote dsess.remote)
    then session_state_changed e bpf dsess bsess
    else some (bpf, bsess)

-- A packet that was read: `remote` is what it told of the other end.
unfoldable pub process_packet :
    Env → Bpf → DSession → BSession → SessData → Bool → Bool → Option (Bpf × DSession × BSession)
process_packet e bpf dsess bsess remote poll final = do
  let dsess₁ = record dsess { remote = remote }
  r ← inject_rearm_packet e bpf dsess₁ bsess
  let bpf₁ = report_rc r.1 r.0 (λ b. note b (send_error rearm_timer_failed))
  let new_end = next_end dsess.local.end.state remote.end.state dsess.local.end
  let dsess₂ = record dsess₁ { local = record (dsess.local) { end = new_end } }
  s ← notify_change e bpf₁ dsess₂ bsess dsess.local dsess.remote
  bpf₃ ← answer_poll e s.0 dsess₂ s.1 poll
  advance_poll (s.1).bstate e bpf₃ dsess₂ s.1 final

abbrev pub is_receiving : BState → Bool
is_receiving on_hold = false
is_receiving shutting_down = false
is_receiving _ = true

abbrev pub count_rx : BSession → ℕ → BSession
count_rx b wire_len = record b {
  stats = record {
    rx_packets = u64 (b.stats.rx_packets + 1);
    rx_bytes = u64 (b.stats.rx_bytes + wire_len);
  };
}

unfoldable pub take_packet :
    Env → Bpf → DSession → BSession → BfdPkt → Option (Bpf × DSession × BSession)
take_packet e bpf dsess bsess packet = elim (parse_packet bsess.diag_stats packet dsess.remote) [
  | dropped stats ↦ some (bpf, dsess, record bsess { diag_stats = stats })
  | parsed remote poll final ↦ process_packet e bpf dsess bsess remote poll final
]

-- `bbdd_bpf_handle_packet`, of a session that was found.
unfoldable pub handle_packet :
    Env → Bpf → DSession → BSession → BfdPkt → ℕ → ℕ → Option (Bpf × DSession × BSession)
handle_packet e bpf dsess bsess packet wire_len ttl =
    if not (is_receiving bsess.bstate)
    then some (bpf, dsess, bsess)
    else let bsess₁ = count_rx bsess wire_len in
      let stats = bsess₁.diag_stats in
      if state_eq dsess.local.end.state admindown
      then some (
        bpf,
        dsess,
        record bsess₁ {
          diag_stats = record stats { rx_admin_down = u64 (stats.rx_admin_down + 1) };
        },
      )
      else if ltb ttl dsess.ttl
      then some (
        bpf,
        dsess,
        record bsess₁ { diag_stats = record stats { rx_ttl_low = u64 (stats.rx_ttl_low + 1) } },
      )
      else take_packet e bpf dsess bsess₁ packet

-- What a timeout does to the poll sequence; aborts on hold.
unfoldable pub timeout_poll :
    BState → Env → Bpf → DSession → BSession → Option (Bpf × DSession × BSession)
timeout_poll on_hold e bpf dsess bsess = none
timeout_poll stable e bpf dsess bsess = some (bpf, dsess, bsess)
timeout_poll shutting_down e bpf dsess bsess =
    shwait_stop e bpf bsess >>= λ r. got_non_final e r.0 dsess r.1
timeout_poll await_final e bpf dsess bsess = got_non_final e bpf dsess bsess
timeout_poll await_non_final e bpf dsess bsess = got_non_final e bpf dsess bsess

abbrev pub is_alive : PktState → Bool
is_alive init = true
is_alive up = true
is_alive _ = false

abbrev pub expire : DSession → DSession
expire d =
    let d' = set_remote (set_local d down diag_time_expired) down diag_time_expired in
    record d' { remote = record (d'.remote) { discr = d.user_remote_discr } }

-- `bbdd_bpf_rb_handle_timeout`, of a session that was found.
unfoldable pub handle_timeout : Env → Bpf → DSession → BSession → Option (Bpf × DSession × BSession)
handle_timeout e bpf dsess bsess = do
  r ← timeout_poll bsess.bstate e bpf dsess bsess
  (if is_alive (r.1).local.end.state
      then (session_state_changed e r.0 (expire r.1) r.2 >>= λ s. some (s.0, expire r.1, s.1))
      else some (r.0, r.1, r.2))

unfoldable pub shwait_timer_cb :
    Env → Bpf → DSession → BSession → Option (Bpf × DSession × BSession)
shwait_timer_cb e bpf dsess bsess = shwait_stop e bpf bsess >>= λ r. got_non_final e r.0 dsess r.1

unfoldable pub hold_timer_cb : Env → Bpf → DSession → BSession → Option (Bpf × DSession × BSession)
hold_timer_cb e bpf dsess bsess = do
  let dsess₁ = record dsess { hold_time_us = 0 }
  r ←
      session_state_changed e bpf dsess₁
        (record bsess { eff_data = user_bdata dsess; bstate = stable })
  s ← hold_stop e r.0 r.1
  some (s.0, dsess₁, s.1)
