-- ===== src/Bpf/Invariant.antt =====
-- The invariant of a session and of what the daemon knows of it, and changes of the configuration.
use bbdd.Base.{◌≡◌, ◌≢◌, ◌⊎◌, refl, Bool, true, false, none, some, arith, if◌then◌else◌}
use bbdd.Wire.Packet.{PktState}
use bbdd.Session.{DSession}
use bbdd.Bpf.State.{
  Env, Bpf, BSession, BData, BState, on_hold, stable, await_final, await_non_final, shutting_down,
  Rc,
}
use bbdd.Bpf.Inject.{pick_bdata}
use bbdd.Bpf.Update.{session_detect_time_us}
use bbdd.Bpf.Config.{
  Plan, user_bdata, make_plan, store_bdata, shwait_start, shwait_stop, apply_stable,
  apply_shutting_down, apply_plan, update_from, handle_session_update,
}
use bbdd.Bpf.Frame.{IsReady}

-- While it shuts down a session has a shwait, on hold it has a hold, a change is only queued during
-- a poll sequence, and the multipliers in use are set.
pub record IsValid (d : DSession) (b : BSession) : Type 0 where
  pub has_shwait : b.bstate ≡ shutting_down → b.shwait ≡ true
  pub has_hold : b.bstate ≡ on_hold → b.hold ≡ true
  pub queued : b.qd_change ≡ true → (b.bstate ≡ await_final) ⊎ (b.bstate ≡ await_non_final)
  pub eff_mult : b.bstate ≢ on_hold → b.eff_data.timing.detect_mult ≢ 0
  pub dfr_mult : b.bstate ≢ on_hold → b.bstate ≢ stable → b.dfr_data.timing.detect_mult ≢ 0
  pub waits : b.shwait ≡ true → b.dfr_data.timing.detect_mult ≢ 0
  pub local_mult : d.local.timing.detect_mult ≢ 0
  pub remote_mult : d.remote.timing.detect_mult ≢ 0

pub IsValid-IsReady : (d : DSession) (b : BSession) → IsValid d b → b.bstate ≢ on_hold → IsReady d b
IsValid-IsReady d b v h = record {
  off_hold = h;
  eff_mult = λ _. v.eff_mult h;
  dfr_mult = λ ns. v.dfr_mult h ns;
  remote_mult = v.remote_mult;
}

apply_stable-IsValid :
    (e : Env) (bpf bpf' : Bpf) (d d' : DSession) (b b' : BSession) (u : BData) (p : Plan) (rc : Rc)
    → IsValid d b
    → b.bstate ≢ on_hold
    → u.timing.detect_mult ≢ 0
    → (p.need_shwait ≡ true → b.qd_change ≡ false)
    → apply_stable e bpf d b u p ≡ some (bpf', d', b', rc)
    → IsValid d' b'
unfolding apply_stable shwait_start
apply_stable-IsValid e bpf bpf' d d' b b' u p rc v off mult single h = ground arith

apply_stable-ne-none :
    (e : Env) (bpf : Bpf) (d : DSession) (b : BSession) (u : BData) (p : Plan)
    → IsValid d b
    → (p.need_shwait ≡ true → p.need_poll ≡ false)
    → apply_stable e bpf d b u p ≢ none
unfolding apply_stable shwait_start session_detect_time_us
apply_stable-ne-none e bpf d b u p v single = ground arith

apply_shutting_down-IsValid :
    (e : Env) (bpf bpf' : Bpf) (d d' : DSession) (b b' : BSession) (u : BData) (p : Plan) (rc : Rc)
    → IsValid d b
    → b.bstate ≡ shutting_down
    → u.timing.detect_mult ≢ 0
    → (p.need_shwait ≡ true → b.qd_change ≡ false)
    → apply_shutting_down e bpf d b u p ≡ some (bpf', d', b', rc)
    → IsValid d' b'
unfolding apply_shutting_down apply_stable shwait_start shwait_stop
apply_shutting_down-IsValid e bpf bpf' d d' b b' u p rc v off mult single h = ground arith

apply_shutting_down-ne-none :
    (e : Env) (bpf : Bpf) (d : DSession) (b : BSession) (u : BData) (p : Plan)
    → IsValid d b
    → b.bstate ≡ shutting_down
    → (p.need_shwait ≡ true → p.need_poll ≡ false)
    → apply_shutting_down e bpf d b u p ≢ none
unfolding apply_shutting_down apply_stable shwait_start shwait_stop session_detect_time_us
apply_shutting_down-ne-none e bpf d b u p v off single = ground arith

apply_plan-IsValid :
    (s : BState) (e : Env) (bpf bpf' : Bpf) (d d' : DSession) (b b' : BSession) (u : BData)
    (p : Plan) (rc : Rc)
    → IsValid d b
    → b.bstate ≡ s
    → u.timing.detect_mult ≢ 0
    → apply_plan s e bpf d b u p ≡ some (bpf', d', b', rc)
    → IsValid d' b'
unfolding apply_plan
apply_plan-IsValid on_hold e bpf bpf' d d' b b' u p rc v q mult h = cc
apply_plan-IsValid stable e bpf bpf' d d' b b' u p rc v q mult h =
    apply_stable-IsValid e bpf bpf' d d' b b' u p rc v (ground arith) mult (ground arith) h
apply_plan-IsValid shutting_down e bpf bpf' d d' b b' u p rc v q mult h =
    apply_shutting_down-IsValid e bpf bpf' d d' b b' u p rc v q mult (ground arith) h
apply_plan-IsValid await_final e bpf bpf' d d' b b' u p rc v q mult h = ground arith
apply_plan-IsValid await_non_final e bpf bpf' d d' b b' u p rc v q mult h = ground arith

apply_plan-ne-none :
    (s : BState) (e : Env) (bpf : Bpf) (d : DSession) (b : BSession) (u : BData) (p : Plan)
    → IsValid d b
    → b.bstate ≡ s
    → s ≢ on_hold
    → (p.need_shwait ≡ true → p.need_poll ≡ false)
    → apply_plan s e bpf d b u p ≢ none
unfolding apply_plan
apply_plan-ne-none on_hold e bpf d b u p v q off single h = off refl
apply_plan-ne-none stable e bpf d b u p v q off single h =
    apply_stable-ne-none e bpf d b u p v single h
apply_plan-ne-none shutting_down e bpf d b u p v q off single h =
    apply_shutting_down-ne-none e bpf d b u p v q single h
apply_plan-ne-none await_final e bpf d b u p v q off single h = cc
apply_plan-ne-none await_non_final e bpf d b u p v q off single h = cc

store_bdata-IsValid :
    (d : DSession) (b : BSession) (now : Bool)
    → IsValid d b
    → let b₁ = if now then store_bdata b (user_bdata d) else b in
      IsValid d b₁ × (b₁.bstate ≡ b.bstate)
unfolding store_bdata user_bdata
store_bdata-IsValid d b now v = ground arith

-- The plan never asks for a shwait together with anything else.
pub plan_single :
    (local : PktState) (u b : BData)
    → (make_plan local u b).need_shwait ≡ true
    → ((make_plan local u b).need_poll ≡ false) × ((make_plan local u b).stop_shwait ≡ false)
unfolding make_plan
plan_single local u b h = ground arith

update_from-ne-none :
    (e : Env) (bpf : Bpf) (d : DSession) (b : BSession) (bdata : BData)
    → IsValid d b
    → b.bstate ≢ on_hold
    → update_from e bpf d b bdata ≢ none
unfolding update_from
update_from-ne-none e bpf d b bdata v off =
    let p = make_plan d.local.end.state (user_bdata d) bdata in
    let (v₁, same) = store_bdata-IsValid d b p.apply_imm v in
    let single = plan_single d.local.end.state (user_bdata d) bdata in
    ground (
      arith,
      single,
      apply_plan-ne-none b.bstate e bpf d (if p.apply_imm then store_bdata b (user_bdata d) else b)
          (user_bdata d) p v₁ same off,
    )

update_from-IsValid :
    (e : Env) (bpf bpf' : Bpf) (d d' : DSession) (b b' : BSession) (bdata : BData) (rc : Rc)
    → IsValid d b
    → update_from e bpf d b bdata ≡ some (bpf', d', b', rc)
    → IsValid d' b'
unfolding update_from
update_from-IsValid e bpf bpf' d d' b b' bdata rc v h =
    let p = make_plan d.local.end.state (user_bdata d) bdata in
    let (v₁, same) = store_bdata-IsValid d b p.apply_imm v in
    apply_plan-IsValid b.bstate e bpf bpf' d d'
      (if p.apply_imm then store_bdata b (user_bdata d) else b) b' (user_bdata d) p rc v₁ same
      (unfold user_bdata in v.local_mult) (ground arith)

-- A change of the configuration does not abort off hold: no assertion fails, and the shwait is only
-- stopped where there is one.
pub handle_session_update-ne-none :
    (e : Env) (bpf : Bpf) (d : DSession) (b : BSession)
    → IsValid d b
    → b.bstate ≢ on_hold
    → handle_session_update e bpf d b ≢ none
unfolding handle_session_update pick_bdata
handle_session_update-ne-none e bpf d b v off = ground (
  arith,
  update_from-ne-none e bpf d b b.eff_data v off,
  update_from-ne-none e bpf d b b.dfr_data v off,
)

-- A change of the configuration keeps the invariant.
pub handle_session_update-IsValid :
    (e : Env) (bpf bpf' : Bpf) (d d' : DSession) (b b' : BSession) (rc : Rc)
    → IsValid d b
    → handle_session_update e bpf d b ≡ some (bpf', d', b', rc)
    → IsValid d' b'
unfolding handle_session_update pick_bdata
handle_session_update-IsValid e bpf bpf' d d' b b' rc v h = ground (
  arith,
  update_from-IsValid e bpf bpf' d d' b b' b.eff_data rc v,
  update_from-IsValid e bpf bpf' d d' b b' b.dfr_data rc v,
)

apply_plan-off_hold :
    (s : BState) (e : Env) (bpf bpf' : Bpf) (d d' : DSession) (b b' : BSession) (u : BData)
    (p : Plan) (rc : Rc)
    → b.bstate ≡ s
    → apply_plan s e bpf d b u p ≡ some (bpf', d', b', rc)
    → b'.bstate ≢ on_hold
unfolding apply_plan apply_stable apply_shutting_down shwait_start shwait_stop
apply_plan-off_hold on_hold e bpf bpf' d d' b b' u p rc q h = cc
apply_plan-off_hold stable e bpf bpf' d d' b b' u p rc q h = ground arith
apply_plan-off_hold shutting_down e bpf bpf' d d' b b' u p rc q h = ground arith
apply_plan-off_hold await_final e bpf bpf' d d' b b' u p rc q h = ground arith
apply_plan-off_hold await_non_final e bpf bpf' d d' b b' u p rc q h = ground arith

update_from-off_hold :
    (e : Env) (bpf bpf' : Bpf) (d d' : DSession) (b b' : BSession) (bdata : BData) (rc : Rc)
    → update_from e bpf d b bdata ≡ some (bpf', d', b', rc)
    → b'.bstate ≢ on_hold
unfolding update_from store_bdata
update_from-off_hold e bpf bpf' d d' b b' bdata rc h =
    let p = make_plan d.local.end.state (user_bdata d) bdata in
    let b₁ = if p.apply_imm then store_bdata b (user_bdata d) else b in
    let same : b₁.bstate ≡ b.bstate = ground arith in
    apply_plan-off_hold b.bstate e bpf bpf' d d' b₁ b' (user_bdata d) p rc same (ground arith)

pub handle_session_update-off_hold :
    (e : Env) (bpf bpf' : Bpf) (d d' : DSession) (b b' : BSession) (rc : Rc)
    → handle_session_update e bpf d b ≡ some (bpf', d', b', rc)
    → b'.bstate ≢ on_hold
unfolding handle_session_update pick_bdata
handle_session_update-off_hold e bpf bpf' d d' b b' rc h = ground (
  arith,
  update_from-off_hold e bpf bpf' d d' b b' b.eff_data rc,
  update_from-off_hold e bpf bpf' d d' b b' b.dfr_data rc,
)
