-- ===== src/Bpf/Timeouts.antt =====
-- The detection timeout and the callbacks of the shwait and hold timers.
use bbdd.Base.{
  ◌≡◌, ◌≢◌, inl, inr, refl, true, false, Option, none, some, arith, if◌then◌else◌, ◌>>=◌,
  Option-cases, Bool-cases,
}
use bbdd.Session.{DSession}
use bbdd.Bpf.State.{
  Env, Bpf, BSession, BState, on_hold, stable, await_final, await_non_final, shutting_down, call,
  cancel_shwait_timer,
}
use bbdd.Bpf.Config.{user_bdata, session_state_changed, shwait_stop, hold_stop}
use bbdd.Bpf.Receive.{
  got_non_final, is_alive, expire, timeout_poll, handle_timeout, shwait_timer_cb, hold_timer_cb,
}
use bbdd.Bpf.Frame.{IsReady}
use bbdd.Bpf.Invariant.{IsValid, IsValid-IsReady}
use bbdd.Bpf.Handlers.{
  IsEnding, IsKept, SameBut-IsValid, state_changed-ne-none, state_changed-frame,
  got_non_final-IsKept,
}
use bbdd.Bpf.Safety.{IsFine, IsKept-IsFine}

-- The shwait goes, and the rest of the session is ended.
stop_and_end-IsKept :
    (e : Env) (bpf : Bpf) (d : DSession) (b : BSession)
    → IsEnding d b
    → b.shwait ≡ true
    → IsKept (shwait_stop e bpf b >>= λ r. got_non_final e r.0 d r.1)
unfolding shwait_stop
stop_and_end-IsKept e bpf d b v h = rw h (
    got_non_final-IsKept e (call e bpf (cancel_shwait_timer b.discr)).0 d
      (record b { shwait = false })
      (record { dfr_mult = v.dfr_mult; local_mult = v.local_mult; remote_mult = v.remote_mult }))

IsValid-IsEnding :
    (d : DSession) (b : BSession)
    → IsValid d b
    → b.bstate ≢ on_hold
    → b.bstate ≢ stable
    → IsEnding d b
IsValid-IsEnding d b v off ns = record {
  dfr_mult = v.dfr_mult off ns;
  local_mult = v.local_mult;
  remote_mult = v.remote_mult;
}

timeout_poll-IsKept :
    (s : BState) (e : Env) (bpf : Bpf) (d : DSession) (b : BSession)
    → b.bstate ≡ s
    → s ≢ on_hold
    → IsValid d b
    → IsKept (timeout_poll s e bpf d b)
unfolding timeout_poll
timeout_poll-IsKept on_hold e bpf d b q off v = absurd (off refl)
timeout_poll-IsKept stable e bpf d b q off v = (v, ground arith)
timeout_poll-IsKept shutting_down e bpf d b q off v =
    stop_and_end-IsKept e bpf d b (IsValid-IsEnding d b v (ground arith) (ground arith))
      (v.has_shwait q)
timeout_poll-IsKept await_final e bpf d b q off v =
    got_non_final-IsKept e bpf d b (IsValid-IsEnding d b v (ground arith) (ground arith))
timeout_poll-IsKept await_non_final e bpf d b q off v =
    got_non_final-IsKept e bpf d b (IsValid-IsEnding d b v (ground arith) (ground arith))

-- The last part of a timeout, for a session that was alive.
expire-IsFine :
    (e : Env) (m : Option (Bpf × DSession × BSession))
    → IsKept m
    → IsFine (
        m >>= λ r.
        if is_alive (r.1).local.end.state
        then (session_state_changed e r.0 (expire r.1) r.2 >>= λ s. some (s.0, expire r.1, s.1))
        else some (r.0, r.1, r.2))
expire-IsFine e none k = k
expire-IsFine e (some (bpf, d, b)) (v, off) = elim (Bool-cases (is_alive d.local.end.state)) [
  | inr q ↦ rw q v
  | inl q ↦
      let v₁ : IsValid (expire d) b = ground arith in
      elim (Option-cases (session_state_changed e bpf (expire d) b)) [
        | inl n ↦
            absurd
              (state_changed-ne-none e bpf (expire d) b (IsValid-IsReady (expire d) b v₁ off) n)
        | inr (s, t) ↦
            rw (q, t)
              (SameBut-IsValid (expire d) b s.1 v₁
                (state_changed-frame e bpf s.0 (expire d) b s.1 t))
      ]
]

-- A detection timeout of a valid session that is off hold does not abort, and leaves it valid.
pub handle_timeout-IsFine :
    (e : Env) (bpf : Bpf) (d : DSession) (b : BSession)
    → IsValid d b
    → b.bstate ≢ on_hold
    → IsFine (handle_timeout e bpf d b)
unfolding handle_timeout
handle_timeout-IsFine e bpf d b v off =
    expire-IsFine e _ (timeout_poll-IsKept b.bstate e bpf d b refl off v)

-- While there is a shwait, the callback of its timer does not abort, and leaves a valid session.
pub shwait_timer_cb-IsFine :
    (e : Env) (bpf : Bpf) (d : DSession) (b : BSession)
    → IsEnding d b
    → b.shwait ≡ true
    → IsFine (shwait_timer_cb e bpf d b)
unfolding shwait_timer_cb
shwait_timer_cb-IsFine e bpf d b v h = IsKept-IsFine _ (stop_and_end-IsKept e bpf d b v h)

-- The end of the hold does not abort, and leaves a valid session.
pub hold_timer_cb-IsFine :
    (e : Env) (bpf : Bpf) (d : DSession) (b : BSession)
    → IsValid d b
    → b.bstate ≡ on_hold
    → IsFine (hold_timer_cb e bpf d b)
unfolding hold_timer_cb hold_stop user_bdata
hold_timer_cb-IsFine e bpf d b v h =
    let d₁ = record d { hold_time_us = 0 } in
    let b₁ = record b { eff_data = user_bdata d; bstate = stable } in
    let r₁ : IsReady d₁ b₁ = record {
      off_hold = λ q. cc;
      eff_mult = λ q. v.local_mult;
      dfr_mult = λ ns. absurd (ns refl);
      remote_mult = v.remote_mult;
    } in
    elim (Option-cases (session_state_changed e bpf d₁ b₁)) [
      | inl n ↦ absurd (state_changed-ne-none e bpf d₁ b₁ r₁ n)
      | inr (r, q) ↦
          let same = state_changed-frame e bpf r.0 d₁ b₁ r.1 q in ground (arith, v.has_hold h)
    ]
