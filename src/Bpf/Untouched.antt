-- ===== src/Bpf/Untouched.antt =====
-- What an update of a session leaves of the daemon's side: all but the states of the two ends.
use bbdd.Base.{if◌then◌else◌, ◌≡◌, some, arith, Option-cases, inl, inr}
use bbdd.Session.{DSession}
use bbdd.Bpf.State.{
  Env, Bpf, BSession, BState, BData, Rc, on_hold, stable, await_final, await_non_final,
  shutting_down,
}
use bbdd.Bpf.Inject.{pick_bdata}
use bbdd.Bpf.Config.{
  Plan, make_plan, apply_stable, apply_shutting_down, apply_plan, update_from,
  handle_session_update, shwait_start, shwait_stop, user_bdata, store_bdata,
}
use bbdd.Bpf.Inject.{pick_bdata}
use bbdd.Bpf.Events.{update_session, update_running, update_rest}

abbrev pub SameConfig : DSession → DSession → Type 0
SameConfig d d' = d' ≡ record d {
  local = record (d.local) { end = d'.local.end };
  remote = record (d.remote) { end = d'.remote.end };
}

apply_stable-SameConfig :
    (e : Env) (bpf bpf' : Bpf) (d d' : DSession) (b b' : BSession) (u : BData) (p : Plan) (rc : Rc)
    → apply_stable e bpf d b u p ≡ some (bpf', d', b', rc)
    → SameConfig d d'
unfolding apply_stable shwait_start
apply_stable-SameConfig e bpf bpf' d d' b b' u p rc h = ground arith

apply_plan-SameConfig :
    (s : BState) (e : Env) (bpf bpf' : Bpf) (d d' : DSession) (b b' : BSession) (u : BData)
    (p : Plan) (rc : Rc)
    → apply_plan s e bpf d b u p ≡ some (bpf', d', b', rc)
    → SameConfig d d'
unfolding apply_plan apply_shutting_down apply_stable shwait_start shwait_stop
apply_plan-SameConfig s e bpf bpf' d d' b b' u p rc h = ground arith

update_from-SameConfig :
    (e : Env) (bpf bpf' : Bpf) (d d' : DSession) (b b' : BSession) (bdata : BData) (rc : Rc)
    → update_from e bpf d b bdata ≡ some (bpf', d', b', rc)
    → SameConfig d d'
unfolding update_from
update_from-SameConfig e bpf bpf' d d' b b' bdata rc h =
    let p = make_plan d.local.end.state (user_bdata d) bdata in
    apply_plan-SameConfig b.bstate e bpf bpf' d d'
      (if p.apply_imm then store_bdata b (user_bdata d) else b) b' (user_bdata d) p rc
      (ground arith)

handle_session_update-SameConfig :
    (e : Env) (bpf bpf' : Bpf) (d d' : DSession) (b b' : BSession) (rc : Rc)
    → handle_session_update e bpf d b ≡ some (bpf', d', b', rc)
    → SameConfig d d'
unfolding handle_session_update pick_bdata
handle_session_update-SameConfig e bpf bpf' d d' b b' rc h = ground (
  arith,
  update_from-SameConfig e bpf bpf' d d' b b' b.eff_data rc,
  update_from-SameConfig e bpf bpf' d d' b b' b.dfr_data rc,
)

rest-same :
    (rc rc' : Rc) (e : Env) (bpf bpf' : Bpf) (d d' : DSession) (b b' : BSession)
    → update_rest rc e bpf d b ≡ some (bpf', d', b', rc')
    → d' ≡ d
unfolding update_rest
rest-same rc rc' e bpf bpf' d d' b b' h = ground arith

running-SameConfig :
    (e : Env) (bpf bpf' : Bpf) (d d' : DSession) (b b' : BSession) (rc : Rc)
    → update_running e bpf d b ≡ some (bpf', d', b', rc)
    → SameConfig d d'
unfolding update_running
running-SameConfig e bpf bpf' d d' b b' rc h =
    elim (Option-cases (handle_session_update e bpf d b)) [
      | inl n ↦ absurd (ground arith)
      | inr (r, q) ↦
          let same = handle_session_update-SameConfig e bpf r.0 d r.1 b r.2 r.3 q in
          let left : d' ≡ r.1 = rest-same r.3 rc e r.0 bpf' r.1 d' r.2 b' (rw q at h) in
          rw left same
    ]

pub update_session-SameConfig :
    (s : BState) (e : Env) (bpf bpf' : Bpf) (d d' : DSession) (b b' : BSession) (rc : Rc)
    → update_session s e bpf d b ≡ some (bpf', d', b', rc)
    → SameConfig d d'
unfolding update_session
update_session-SameConfig on_hold e bpf bpf' d d' b b' rc h = ground arith
update_session-SameConfig stable e bpf bpf' d d' b b' rc h =
    running-SameConfig e bpf bpf' d d' b b' rc h
update_session-SameConfig shutting_down e bpf bpf' d d' b b' rc h =
    running-SameConfig e bpf bpf' d d' b b' rc h
update_session-SameConfig await_final e bpf bpf' d d' b b' rc h =
    running-SameConfig e bpf bpf' d d' b b' rc h
update_session-SameConfig await_non_final e bpf bpf' d d' b b' rc h =
    running-SameConfig e bpf bpf' d d' b b' rc h
