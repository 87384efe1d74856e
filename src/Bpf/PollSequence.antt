-- ===== src/Bpf/PollSequence.antt =====
-- When a change of the configuration takes effect: RFC 5880, section 6.8.3.
use bbdd.Base.{◌≡◌, ◌≢◌, ◌≤◌, ◌⊎◌, true, Option, none, some, arith, if◌then◌else◌}
use bbdd.Wire.Packet.{PktState, up}
use bbdd.Session.{DSession}
use bbdd.Bpf.State.{
  Env, Bpf, BSession, BData, BState, on_hold, stable, await_final, await_non_final, shutting_down,
  Rc, ok,
}
use bbdd.Bpf.Inject.{pick_bdata}
use bbdd.Bpf.Config.{
  Plan, user_bdata, make_plan, store_bdata, shwait_start, shwait_stop, apply_stable,
  apply_shutting_down, apply_plan, update_from, handle_session_update,
}

-- What may take effect at once: anything while the session is not up; a send interval that is not
-- longer, and a receive interval that is not shorter, while it is.
pub record MayApply (local : PktState) (new old : BData) : Type 0 where
  pub tx : local ≡ up → new.timing.min_tx_us ≤ old.timing.min_tx_us
  pub rx : local ≡ up → old.timing.min_rx_us ≤ new.timing.min_rx_us

apply_imm-MayApply :
    (local : PktState) (u b : BData) → (make_plan local u b).apply_imm ≡ true → MayApply local u b
unfolding make_plan
apply_imm-MayApply local u b h = record { tx = ground arith; rx = ground arith }

apply_stable-eff :
    (e : Env) (bpf bpf' : Bpf) (d d' : DSession) (b b' : BSession) (u : BData) (p : Plan) (rc : Rc)
    → apply_stable e bpf d b u p ≡ some (bpf', d', b', rc)
    → b'.eff_data ≡ b.eff_data
unfolding apply_stable shwait_start
apply_stable-eff e bpf bpf' d d' b b' u p rc h = ground arith

apply_plan-eff :
    (s : BState) (e : Env) (bpf bpf' : Bpf) (d d' : DSession) (b b' : BSession) (u : BData)
    (p : Plan) (rc : Rc)
    → apply_plan s e bpf d b u p ≡ some (bpf', d', b', rc)
    → b'.eff_data ≡ b.eff_data
unfolding apply_plan apply_shutting_down apply_stable shwait_start shwait_stop
apply_plan-eff on_hold e bpf bpf' d d' b b' u p rc h = ground arith
apply_plan-eff stable e bpf bpf' d d' b b' u p rc h = ground arith
apply_plan-eff shutting_down e bpf bpf' d d' b b' u p rc h = ground arith
apply_plan-eff await_final e bpf bpf' d d' b b' u p rc h = ground arith
apply_plan-eff await_non_final e bpf bpf' d d' b b' u p rc h = ground arith

update_from-eff :
    (e : Env) (bpf bpf' : Bpf) (d d' : DSession) (b b' : BSession) (bdata : BData) (rc : Rc)
    → update_from e bpf d b bdata ≡ some (bpf', d', b', rc)
    → (b'.eff_data ≡ b.eff_data)
      ⊎ ((b.bstate ≡ stable)
          × (b'.eff_data ≡ user_bdata d)
          × MayApply d.local.end.state (user_bdata d) bdata)
unfolding update_from store_bdata
update_from-eff e bpf bpf' d d' b b' bdata rc h =
    let p = make_plan d.local.end.state (user_bdata d) bdata in
    let b₁ = if p.apply_imm then store_bdata b (user_bdata d) else b in
    let same = apply_plan-eff b.bstate e bpf bpf' d d' b₁ b' (user_bdata d) p rc (ground arith) in
    ground (arith, same, apply_imm-MayApply d.local.end.state (user_bdata d) bdata)

-- A change of the configuration leaves what is in effect, or puts the user's values into effect: the
-- latter only outside a poll sequence and a shutdown, and, while the session is up, only when the
-- send interval does not grow and the receive interval does not shrink.
pub handle_session_update-eff :
    (e : Env) (bpf bpf' : Bpf) (d d' : DSession) (b b' : BSession) (rc : Rc)
    → handle_session_update e bpf d b ≡ some (bpf', d', b', rc)
    → (b'.eff_data ≡ b.eff_data)
      ⊎ ((b.bstate ≡ stable)
          × (b'.eff_data ≡ user_bdata d)
          × MayApply d.local.end.state (user_bdata d) b.eff_data)
unfolding handle_session_update pick_bdata
handle_session_update-eff e bpf bpf' d d' b b' rc h = ground (
  arith,
  update_from-eff e bpf bpf' d d' b b' b.eff_data rc,
  update_from-eff e bpf bpf' d d' b b' b.dfr_data rc,
)

-- The user's timing differs from the timing `b`.
abbrev pub IsRetimed : BData → BData → Type 0
IsRetimed u b =
    (u.timing.min_tx_us ≢ b.timing.min_tx_us) ⊎ (u.timing.min_rx_us ≢ b.timing.min_rx_us)

-- The change succeeded, and left the session polling with the data `u`.
abbrev pub IsPolling : BData → Option (Bpf × DSession × BSession × Rc) → Type 0
IsPolling u none = ⊥
IsPolling u (some (bpf, d, b, rc)) = (b.bstate ≡ await_final) × (b.dfr_data ≡ u) × (rc ≡ ok)

-- The wait before the shutdown goes on.
abbrev pub IsWaiting : Option (Bpf × DSession × BSession × Rc) → Type 0
IsWaiting none = ⊥
IsWaiting (some (bpf, d, b, rc)) = b.shwait ≡ true

-- A new timing starts a poll sequence: outside one, when no shutdown starts, the session begins to
-- poll with the user's values, and the change succeeds.
pub handle_session_update-polls :
    (e : Env) (bpf : Bpf) (d : DSession) (b : BSession)
    → b.bstate ≡ stable
    → (d.local.flags.shutdown ≡ true → b.eff_data.shutdown ≡ true)
    → IsRetimed (user_bdata d) b.eff_data
    → IsPolling (user_bdata d) (handle_session_update e bpf d b)
unfolding handle_session_update pick_bdata update_from make_plan apply_plan apply_stable user_bdata
    store_bdata
handle_session_update-polls e bpf d b s keep new = ground arith

-- During a poll sequence a change only queues: nothing is called, the session goes on polling, and
-- its look at the queue is asked for when the timing or the shutdown flag is new.
pub handle_session_update-queues :
    (e : Env) (bpf bpf' : Bpf) (d d' : DSession) (b b' : BSession) (rc : Rc)
    → (b.bstate ≡ await_final) ⊎ (b.bstate ≡ await_non_final)
    → handle_session_update e bpf d b ≡ some (bpf', d', b', rc)
    → (bpf' ≡ bpf)
      × (d' ≡ d)
      × (rc ≡ ok)
      × (b'.bstate ≡ b.bstate)
      × (b'.eff_data ≡ b.eff_data)
      × (IsRetimed (user_bdata d) b.dfr_data ⊎ (d.local.flags.shutdown ≢ b.dfr_data.shutdown)
          → b'.qd_change ≡ true)
unfolding handle_session_update pick_bdata update_from make_plan apply_plan store_bdata user_bdata
handle_session_update-queues e bpf bpf' d d' b b' rc s h = ground arith

-- A session that waits to be shut down, and stays to be, starts to poll when its timing changes; its
-- wait is not stopped.
pub shutting_down_polls :
    (e : Env) (bpf : Bpf) (d : DSession) (b : BSession)
    → b.bstate ≡ shutting_down
    → d.local.flags.shutdown ≡ true
    → b.dfr_data.shutdown ≡ true
    → IsRetimed (user_bdata d) b.dfr_data
    → b.shwait ≡ true
    → IsPolling (user_bdata d) (handle_session_update e bpf d b)
      × IsWaiting (handle_session_update e bpf d b)
unfolding handle_session_update pick_bdata update_from make_plan apply_plan apply_shutting_down
    apply_stable store_bdata user_bdata
shutting_down_polls e bpf d b s sd dsd new wait = ground arith
