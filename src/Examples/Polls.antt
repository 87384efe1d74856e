-- ===== src/Examples/Polls.antt =====
-- Changes of the configuration, and the poll sequence, at a concrete session.
use bbdd.Base.{◌≡◌, ◌⊎◌, inl, inr, refl, true, some, arith}
use bbdd.Wire.Packet.{up}
use bbdd.Session.{DSession}
use bbdd.Bpf.State.{BSession, ok, tx_have_capacity, tx_pinned, stable, await_final, shutting_down}
use bbdd.Bpf.Inject.{pick_bdata}
use bbdd.Bpf.Config.{
  user_bdata, handle_session_update, update_from, make_plan, apply_plan, apply_stable, store_bdata,
}
use bbdd.Bpf.Receive.{advance_poll}
use bbdd.Bpf.Update.{session_update, should_inject}
use bbdd.Bpf.Invariant.{IsValid, IsValid-IsReady}
use bbdd.Bpf.PollSequence.{
  MayApply, IsPolling, IsWaiting, handle_session_update-eff, handle_session_update-polls,
  shutting_down_polls,
}
use bbdd.Bpf.Settle.{IsCompleting, advance_poll-completes}
use bbdd.Bpf.Deferral.{IsDeferred, session_update-defers, IsBumped, session_update-bumps}
use bbdd.Examples.Inputs.{
  willing, daemon, dsession, bsession, bdata, timing_300ms, timing_1s, no_flags, session-IsEnding,
  session-IsValid,
}

-- The user asks for another pair of intervals.
abbrev retimed : DSession
retimed = record (dsession up up) { local = record ((dsession up up).local) { timing = timing_1s } }

-- And for a shutdown.
abbrev shut : DSession
shut = record retimed {
  local = record (retimed.local) { flags = record no_flags { shutdown = true } };
}

abbrev polling : BSession
polling = record (bsession stable timing_300ms) { bstate = await_final; dfr_data = bdata timing_1s }

abbrev closing : BSession
closing = record (bsession shutting_down timing_300ms) {
  dfr_data = record { timing = timing_300ms; shutdown = true };
}

-- What a change does to a session that is up and stable.
change_run :
    handle_session_update willing (daemon 8) retimed (bsession stable timing_300ms)
    ≡ some (daemon 8, retimed, polling, ok)
unfolding handle_session_update pick_bdata update_from make_plan apply_plan apply_stable user_bdata
    store_bdata
change_run = refl

retimed-IsValid : IsValid retimed (bsession stable timing_300ms)
retimed-IsValid = record {
  has_shwait = λ h. refl;
  has_hold = λ h. refl;
  queued = λ h. ground arith;
  eff_mult = λ h. ground arith;
  dfr_mult = λ h k. ground arith;
  waits = λ h. ground arith;
  local_mult = ground arith;
  remote_mult = ground arith;
}

handle_session_update-eff_example :
    (polling.eff_data ≡ (bsession stable timing_300ms).eff_data)
    ⊎ (((bsession stable timing_300ms).bstate ≡ stable)
        × (polling.eff_data ≡ user_bdata retimed)
        × MayApply up (user_bdata retimed) (bdata timing_300ms))
handle_session_update-eff_example =
    handle_session_update-eff willing (daemon 8) (daemon 8) retimed retimed
      (bsession stable timing_300ms) polling ok change_run

handle_session_update-polls_example :
    IsPolling
      (user_bdata retimed)
      (handle_session_update willing (daemon 8) retimed (bsession stable timing_300ms))
unfolding user_bdata
handle_session_update-polls_example =
    handle_session_update-polls willing (daemon 8) retimed (bsession stable timing_300ms) refl
      (λ h. cc) (inl (ground arith))

queue_run :
    handle_session_update willing (daemon 8) shut polling
    ≡ some (daemon 8, shut, record polling { qd_change = true }, ok)
unfolding handle_session_update pick_bdata update_from make_plan apply_plan user_bdata store_bdata
queue_run = refl

shutting_down_polls_example :
    IsPolling (user_bdata shut) (handle_session_update willing (daemon 8) shut closing)
    × IsWaiting (handle_session_update willing (daemon 8) shut closing)
unfolding user_bdata
shutting_down_polls_example =
    shutting_down_polls willing (daemon 8) shut closing refl refl refl (inl (ground arith)) refl

session_update-defers_example :
    IsDeferred
      (daemon 0)
      (dsession up up)
      (bsession stable timing_300ms)
      (session_update willing (daemon 0) (dsession up up) (bsession stable timing_300ms))
unfolding should_inject tx_have_capacity tx_pinned
session_update-defers_example =
    session_update-defers willing (daemon 0) (dsession up up) (bsession stable timing_300ms)
      (λ h. cc) refl refl

session_update-bumps_example :
    IsBumped
      (bsession stable timing_300ms)
      (session_update willing (daemon 8) (dsession up up) (bsession stable timing_300ms))
unfolding should_inject tx_have_capacity tx_pinned
session_update-bumps_example =
    session_update-bumps willing (daemon 8) (dsession up up) (bsession stable timing_300ms)
      (IsValid-IsReady _ _ (session-IsValid up up stable) (λ h. cc)) (inr refl)

advance_poll-completes_example : IsCompleting (dsession up up) (bsession await_final timing_300ms) (
    advance_poll await_final willing
      (daemon 8)
      (dsession up up)
      (bsession await_final timing_300ms)
      true)
unfolding should_inject tx_have_capacity tx_pinned
advance_poll-completes_example =
    advance_poll-completes willing (daemon 8) (dsession up up) (bsession await_final timing_300ms)
      (session-IsEnding up up await_final) refl (inr refl)
