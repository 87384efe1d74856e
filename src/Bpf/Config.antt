-- ===== src/Bpf/Config.antt =====
-- src/bbdd-bpf.c: changes of a session's configuration, the poll sequence that makes them
-- effective, the wait before a shutdown (shwait) and the hold of a new session.
use bbdd.Base.{
  ◌+◌, ℕ, Bool, true, false, not, ◌&&◌, ◌||◌, Option, none, some, ltb, ◌==◌, if◌then◌else◌, ◌>>=◌,
}
use bbdd.Wire.Packet.{PktState, admindown, down, up, state_eq, diag_down, diag_admin_down}
use bbdd.Session.{DSession}
use bbdd.Bpf.State.{
  Env, Bpf, BSession, BData, BState, on_hold, stable, await_final, await_non_final, shutting_down,
  Rc, ok, err, shwait_alloc_failed, hold_alloc_failed, timer_alloc_failed, call, note,
  malloc_shwait, malloc_hold, set_shwait_timer, set_hold_timer, cancel_shwait_timer,
  cancel_hold_timer, state_changed, send_error, session_update_failed,
}
use bbdd.Bpf.Inject.{pick_bdata}
use bbdd.Bpf.Update.{session_update, session_detect_time_us}

abbrev pub set_local : DSession → PktState → ℕ → DSession
set_local d s g = record d { local = record (d.local) { end = record { state = s; diag = g } } }

abbrev pub set_remote : DSession → PktState → ℕ → DSession
set_remote d s g = record d { remote = record (d.remote) { end = record { state = s; diag = g } } }

unfoldable pub user_bdata : DSession → BData
user_bdata dsess = record { timing = dsess.local.timing; shutdown = dsess.local.flags.shutdown }

-- `bbdd_bpf_session_call_update`: an error is reported, and dropped.
unfoldable pub call_update : Env → Bpf → DSession → BSession → Option (Bpf × BSession)
call_update e bpf dsess bsess = session_update e bpf dsess bsess >>= λ r.
    some (elim r.2 [ ok ↦ (r.0, r.1) | err x ↦ (note r.0 (send_error session_update_failed), r.1) ])

-- `bbdd_bpf_session_state_changed`, with the daemon's callback.
unfoldable pub session_state_changed : Env → Bpf → DSession → BSession → Option (Bpf × BSession)
session_state_changed e bpf dsess bsess = call_update e bpf dsess bsess >>= λ r.
    some (note r.0 (state_changed dsess.local.discr dsess.local), r.1)

-- Aborts if there is no shwait, whose timer would be read through a null pointer.
unfoldable pub shwait_stop : Env → Bpf → BSession → Option (Bpf × BSession)
shwait_stop e bpf bsess =
    if bsess.shwait
    then some ((call e bpf (cancel_shwait_timer bsess.discr)).0, record bsess { shwait = false })
    else none

-- A pointer that is set is overwritten, and its timer goes on.
unfoldable pub shwait_start : Env → Bpf → DSession → BSession → Option (Bpf × BSession × Rc)
shwait_start e bpf dsess bsess = do
  detect_us ← session_detect_time_us bsess.eff_data dsess.remote
  let (bpf₁, room) = call e bpf (malloc_shwait dsess.local.discr)
  let (bpf₂, timer) = call e bpf₁ (set_shwait_timer dsess.local.discr detect_us)
  some (
      if not room
      then (bpf₁, bsess, err shwait_alloc_failed)
      else if not timer
      then (bpf₂, bsess, err timer_alloc_failed)
      else (
        bpf₂,
        record bsess { shwait = true; lost = if bsess.shwait then bsess.lost + 1 else bsess.lost },
        ok,
      ))

unfoldable pub hold_stop : Env → Bpf → BSession → Option (Bpf × BSession)
hold_stop e bpf bsess =
    if bsess.hold
    then some ((call e bpf (cancel_hold_timer bsess.discr)).0, record bsess { hold = false })
    else none

unfoldable pub hold_start : Env → Bpf → DSession → BSession → Bpf × BSession × Rc
hold_start e bpf dsess bsess =
    let (bpf₁, room) = call e bpf (malloc_hold dsess.local.discr) in
    let (bpf₂, timer) = call e bpf₁ (set_hold_timer dsess.local.discr dsess.hold_time_us) in
    if not room
    then (bpf₁, bsess, err hold_alloc_failed)
    else if not timer
    then (bpf₂, bsess, err timer_alloc_failed)
    else (bpf₂, record bsess { hold = true }, ok)

-- What a change of the configuration calls for.
pub record Plan : Type 0 where
  pub need_shwait : Bool
  pub stop_shwait : Bool
  pub need_poll : Bool
  pub apply_imm : Bool

unfoldable pub make_plan : PktState → BData → BData → Plan
make_plan local udata bdata =
    if udata.shutdown && not bdata.shutdown
    then record { need_shwait = true; stop_shwait = false; need_poll = false; apply_imm = false }
    else record {
      need_shwait = false;
      stop_shwait = not udata.shutdown && bdata.shutdown;
      need_poll =
          not (udata.timing.min_tx_us == bdata.timing.min_tx_us)
          || not (udata.timing.min_rx_us == bdata.timing.min_rx_us);
      apply_imm = not (
          state_eq local up
          && (ltb bdata.timing.min_tx_us udata.timing.min_tx_us
              || ltb udata.timing.min_rx_us bdata.timing.min_rx_us));
    }

-- `*bdata = udata`, where `bdata` points to what is in effect or to what is being polled.
unfoldable pub store_bdata : BSession → BData → BSession
store_bdata bsess udata = elim bsess.bstate [
  | stable ↦ record bsess { eff_data = udata }
  | _ ↦ record bsess { dfr_data = udata }
]

-- The case of a stable session, which one that shuts down falls through to.
unfoldable pub apply_stable :
    Env → Bpf → DSession → BSession → BData → Plan → Option (Bpf × DSession × BSession × Rc)
apply_stable e bpf dsess bsess udata p =
    let dsess₁ = if p.stop_shwait then set_local dsess down diag_down else dsess in
    if p.need_poll
    then (if p.need_shwait
        then none
        else some (bpf, dsess₁, record bsess { dfr_data = udata; bstate = await_final }, ok))
    else if p.need_shwait
    then (shwait_start e bpf dsess₁ bsess >>= λ r. some (elim r.2 [
      | err x ↦ (r.0, dsess₁, r.1, err x)
      | ok ↦ (
        r.0,
        set_remote (set_local dsess₁ admindown diag_admin_down) down diag_down,
        record (r.1) { dfr_data = udata; bstate = shutting_down },
        ok,
      )
    ]))
    else some (bpf, dsess₁, bsess, ok)

unfoldable pub apply_shutting_down :
    Env → Bpf → DSession → BSession → BData → Plan → Option (Bpf × DSession × BSession × Rc)
apply_shutting_down e bpf dsess bsess udata p =
    if p.stop_shwait
    then (shwait_stop e bpf bsess >>= λ r.
        apply_stable e r.0 dsess (record (r.1) { bstate = await_final }) udata p)
    else apply_stable e bpf dsess bsess udata p

-- The change waits for the end of the poll sequence.
abbrev queue_change : BSession → Plan → BSession
queue_change bsess p =
    if p.need_poll || p.need_shwait || p.stop_shwait
    then record bsess { qd_change = true }
    else bsess

unfoldable pub apply_plan :
    BState
    → Env
    → Bpf
    → DSession
    → BSession
    → BData
    → Plan
    → Option (Bpf × DSession × BSession × Rc)
apply_plan on_hold e bpf dsess bsess udata p = none
apply_plan shutting_down e bpf dsess bsess udata p = apply_shutting_down e bpf dsess bsess udata p
apply_plan stable e bpf dsess bsess udata p = apply_stable e bpf dsess bsess udata p
apply_plan await_final e bpf dsess bsess udata p = some (bpf, dsess, queue_change bsess p, ok)
apply_plan await_non_final e bpf dsess bsess udata p = some (bpf, dsess, queue_change bsess p, ok)

-- Compare the user's data with `bdata`, and act on the difference.
unfoldable pub update_from :
    Env → Bpf → DSession → BSession → BData → Option (Bpf × DSession × BSession × Rc)
update_from e bpf dsess bsess bdata =
    let udata = user_bdata dsess in
    let p = make_plan dsess.local.end.state udata bdata in
    let bsess₁ = if p.apply_imm then store_bdata bsess udata else bsess in
    if (p.stop_shwait && p.need_shwait) || (p.need_poll && p.need_shwait)
    then none
    else apply_plan bsess.bstate e bpf dsess bsess₁ udata p

-- `bbdd_bpf_handle_session_update`
unfoldable pub handle_session_update :
    Env → Bpf → DSession → BSession → Option (Bpf × DSession × BSession × Rc)
handle_session_update e bpf dsess bsess =
    pick_bdata bsess.bstate bsess.eff_data bsess.dfr_data >>= λ bdata.
    update_from e bpf dsess bsess bdata
