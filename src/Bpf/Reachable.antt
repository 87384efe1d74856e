-- ===== src/Bpf/Reachable.antt =====
-- The events of a session of src/bbdd-bpf.c, one after the other, and the sessions that they lead to.
use bbdd.Base.{
  ℕ, ◌-◌, ◌≡◌, ◌≢◌, inl, inr, refl, Bool, true, false, not, Option, none, some, arith, ◌>>=◌,
  Option-cases,
}
use bbdd.Wire.Packet.{BfdPkt}
use bbdd.Session.{DSession}
use bbdd.Bpf.State.{
  Env, Bpf, BSession, BState, on_hold, stable, await_final, await_non_final, shutting_down, Rc, ok,
  err,
}
use bbdd.Bpf.Update.{session_update}
use bbdd.Bpf.Config.{handle_session_update, hold_start, shwait_stop}
use bbdd.Bpf.Receive.{handle_packet, timeout_poll, handle_timeout, shwait_timer_cb, hold_timer_cb}
use bbdd.Bpf.Frame.{session_update-frame, session_update-ne-none}
use bbdd.Bpf.Invariant.{
  IsValid, IsValid-IsReady, handle_session_update-ne-none, handle_session_update-IsValid,
  handle_session_update-off_hold,
}
use bbdd.Bpf.Handlers.{SameBut-IsValid}
use bbdd.Bpf.Safety.{IsFine, handle_packet-IsFine}
use bbdd.Bpf.Timeouts.{handle_timeout-IsFine, shwait_timer_cb-IsFine, hold_timer_cb-IsFine}
use bbdd.Bpf.Members.{fresh_bsess, zero_bdata}
use bbdd.Bpf.Events.{update_session, update_running, update_rest}

-- What can happen to a session: a packet of so many bytes with a TTL, the detection timeout, the end
-- of the shwait that the session points to, of one that it has lost the pointer to, and of the hold,
-- and a change of the configuration to a new one.
pub data Event : Type 0 where
  got_packet : BfdPkt → ℕ → ℕ → Event
  timed_out shwait_ended lost_ended hold_ended : Event
  changed : DSession → Event

-- A timer fires while it is set. A change is of the daemon's side, with a multiplier that the daemon
-- has checked.
abbrev pub IsPossible : Event → DSession → BSession → Type 0
IsPossible (got_packet packet wire_len ttl) d b = Unit
IsPossible timed_out d b = Unit
IsPossible shwait_ended d b = b.shwait ≡ true
IsPossible lost_ended d b = b.lost ≢ 0
IsPossible hold_ended d b = b.bstate ≡ on_hold
IsPossible (changed d₁) d b = (d₁.remote ≡ d.remote) × (d₁.local.timing.detect_mult ≢ 0)

abbrev pub handle_event :
    Event → Env → Bpf → DSession → BSession → Option (Bpf × DSession × BSession)
handle_event (got_packet packet wire_len ttl) e bpf d b =
    handle_packet e bpf d b packet wire_len ttl
handle_event timed_out e bpf d b = handle_timeout e bpf d b
handle_event shwait_ended e bpf d b = shwait_timer_cb e bpf d b
handle_event lost_ended e bpf d b = shwait_timer_cb e bpf d (record b { lost = b.lost - 1 })
handle_event hold_ended e bpf d b = hold_timer_cb e bpf d b
handle_event (changed d₁) e bpf d b =
    update_session b.bstate e bpf d₁ b >>= λ r. some (r.0, r.1, r.2)

abbrev is_on_hold : BState → Bool
is_on_hold on_hold = true
is_on_hold _ = false

-- The two events that end the daemon: a timeout of a session on hold, which the code takes for
-- impossible, and the end of a lost shwait while the session points to none.
abbrev pub is_fatal : Event → BSession → Bool
is_fatal timed_out b = is_on_hold b.bstate
is_fatal lost_ended b = not b.shwait
is_fatal _ b = false

-- The sessions that events lead to, one after the other, from a new session.
pub data Reachable (e : Env) : Bpf → DSession → BSession → Type 0 where
  added :
      (bpf bpf₁ : Bpf) (d : DSession) (b : BSession) (discr final_slot periodic_slot : ℕ)
      → d.local.timing.detect_mult ≢ 0
      → d.remote.timing.detect_mult ≢ 0
      → hold_start e bpf d (fresh_bsess discr zero_bdata final_slot periodic_slot) ≡ (bpf₁, b, ok)
      → Reachable e bpf₁ d b
  after :
      (ev : Event) (bpf bpf₁ : Bpf) (d d₁ : DSession) (b b₁ : BSession)
      → Reachable e bpf d b
      → IsPossible ev d b
      → handle_event ev e bpf d b ≡ some (bpf₁, d₁, b₁)
      → Reachable e bpf₁ d₁ b₁

update_rest-IsFine :
    (rc : Rc) (e : Env) (bpf : Bpf) (d : DSession) (b : BSession)
    → IsValid d b
    → b.bstate ≢ on_hold
    → IsFine (update_rest rc e bpf d b >>= λ r. some (r.0, r.1, r.2))
unfolding update_rest
update_rest-IsFine (err x) e bpf d b v off = v
update_rest-IsFine ok e bpf d b v off = elim (Option-cases (session_update e bpf d b)) [
  | inl n ↦ absurd (session_update-ne-none e bpf d b (IsValid-IsReady d b v off) n)
  | inr (r, q) ↦ rw q (SameBut-IsValid d b r.1 v (session_update-frame e bpf r.0 d b r.1 r.2 q))
]

update_running-IsFine :
    (e : Env) (bpf : Bpf) (d : DSession) (b : BSession)
    → IsValid d b
    → b.bstate ≢ on_hold
    → IsFine (update_running e bpf d b >>= λ r. some (r.0, r.1, r.2))
unfolding update_running
update_running-IsFine e bpf d b v off = elim (Option-cases (handle_session_update e bpf d b)) [
  | inl n ↦ absurd (handle_session_update-ne-none e bpf d b v off n)
  | inr (r, q) ↦ rw q (
      update_rest-IsFine r.3 e r.0 r.1 r.2
        (handle_session_update-IsValid e bpf r.0 d r.1 b r.2 r.3 v q)
        (handle_session_update-off_hold e bpf r.0 d r.1 b r.2 r.3 q))
]

pub update_session-IsFine :
    (s : BState) (e : Env) (bpf : Bpf) (d : DSession) (b : BSession)
    → IsValid d b
    → b.bstate ≡ s
    → IsFine (update_session s e bpf d b >>= λ r. some (r.0, r.1, r.2))
unfolding update_session
update_session-IsFine on_hold e bpf d b v q = v
update_session-IsFine stable e bpf d b v q = update_running-IsFine e bpf d b v (ground arith)
update_session-IsFine shutting_down e bpf d b v q = update_running-IsFine e bpf d b v (ground arith)
update_session-IsFine await_final e bpf d b v q = update_running-IsFine e bpf d b v (ground arith)
update_session-IsFine await_non_final e bpf d b v q =
    update_running-IsFine e bpf d b v (ground arith)

-- An abort if the event is fatal, and otherwise a valid session.
abbrev pub IsOutcome : Bool → Option (Bpf × DSession × BSession) → Type 0
IsOutcome true m = m ≡ none
IsOutcome false m = IsFine m

timed_out-IsOutcome :
    (s : BState) (e : Env) (bpf : Bpf) (d : DSession) (b : BSession)
    → b.bstate ≡ s
    → IsValid d b
    → IsOutcome (is_on_hold s) (handle_timeout e bpf d b)
unfolding handle_timeout timeout_poll
timed_out-IsOutcome on_hold e bpf d b q v = rw (q, handle_timeout, timeout_poll) refl
timed_out-IsOutcome stable e bpf d b q v = handle_timeout-IsFine e bpf d b v (ground arith)
timed_out-IsOutcome shutting_down e bpf d b q v = handle_timeout-IsFine e bpf d b v (ground arith)
timed_out-IsOutcome await_final e bpf d b q v = handle_timeout-IsFine e bpf d b v (ground arith)
timed_out-IsOutcome await_non_final e bpf d b q v = handle_timeout-IsFine e bpf d b v (ground arith)

-- The callback of a shwait's timer, by the pointer that it finds in the session.
ended-IsOutcome :
    (p : Bool) (e : Env) (bpf : Bpf) (d : DSession) (b : BSession)
    → b.shwait ≡ p
    → IsValid d b
    → IsOutcome (not p) (shwait_timer_cb e bpf d b)
unfolding shwait_timer_cb shwait_stop
ended-IsOutcome false e bpf d b q v = rw (q, shwait_timer_cb, shwait_stop) refl
ended-IsOutcome true e bpf d b q v =
    shwait_timer_cb-IsFine e bpf d b
      (record { dfr_mult = v.waits q; local_mult = v.local_mult; remote_mult = v.remote_mult }) q

event-IsOutcome :
    (ev : Event) (e : Env) (bpf : Bpf) (d : DSession) (b : BSession)
    → IsValid d b
    → IsPossible ev d b
    → IsOutcome (is_fatal ev b) (handle_event ev e bpf d b)
event-IsOutcome (got_packet packet wire_len ttl) e bpf d b v may =
    handle_packet-IsFine e bpf d b packet wire_len ttl v
event-IsOutcome timed_out e bpf d b v may = timed_out-IsOutcome b.bstate e bpf d b refl v
event-IsOutcome shwait_ended e bpf d b v may = ended-IsOutcome true e bpf d b may v
event-IsOutcome lost_ended e bpf d b v may =
    ended-IsOutcome b.shwait e bpf d (record b { lost = b.lost - 1 }) refl
      (record {
        has_shwait = v.has_shwait;
        has_hold = v.has_hold;
        queued = v.queued;
        eff_mult = v.eff_mult;
        dfr_mult = v.dfr_mult;
        waits = v.waits;
        local_mult = v.local_mult;
        remote_mult = v.remote_mult;
      })
event-IsOutcome hold_ended e bpf d b v may = hold_timer_cb-IsFine e bpf d b v may
event-IsOutcome (changed d₁) e bpf d b v (same, mult) =
    update_session-IsFine b.bstate e bpf d₁ b
      (record {
        has_shwait = v.has_shwait;
        has_hold = v.has_hold;
        queued = v.queued;
        eff_mult = v.eff_mult;
        dfr_mult = v.dfr_mult;
        waits = v.waits;
        local_mult = mult;
        remote_mult = rw same v.remote_mult;
      })
      refl

outcome_after :
    (fatal : Bool) (m : Option (Bpf × DSession × BSession)) (bpf : Bpf) (d : DSession)
    (b : BSession)
    → IsOutcome fatal m
    → m ≡ some (bpf, d, b)
    → IsValid d b
outcome_after true m bpf d b v q = absurd (ground arith)
outcome_after false m bpf d b v q = rw q at v

Reachable-IsValid :
    (e : Env) (bpf : Bpf) (d : DSession) (b : BSession) → Reachable e bpf d b → IsValid d b
unfolding hold_start
Reachable-IsValid e _ _ _ (added bpf bpf₁ d b discr final_slot periodic_slot local remote q) =
    ground arith
Reachable-IsValid e _ _ _ (after ev bpf bpf₁ d d₁ b b₁ r may q) =
    outcome_after _ _ bpf₁ d₁ b₁ (event-IsOutcome ev e bpf d b (Reachable-IsValid e bpf d b r) may)
      q

-- A session that was added, with the multipliers of both ends set, and went through any events that
-- did not end the daemon, in any order: packets and detection timeouts at any time, changes that keep
-- what the daemon knows of the other end and a local multiplier other than 0, the end of the hold
-- while the session is on hold, the end of the shwait that it points to, and the ends of shwaits whose
-- pointer was overwritten. Whatever the kernel refuses, the next event ends the daemon in just two
-- cases: a detection timeout on hold, and the end of an overwritten shwait while the session points
-- to none. In all other cases the session that is left is valid.
pub Reachable-IsOutcome :
    (e : Env) (bpf : Bpf) (d : DSession) (b : BSession) (ev : Event)
    → Reachable e bpf d b
    → IsPossible ev d b
    → IsOutcome (is_fatal ev b) (handle_event ev e bpf d b)
Reachable-IsOutcome e bpf d b ev r may =
    event-IsOutcome ev e bpf d b (Reachable-IsValid e bpf d b r) may
