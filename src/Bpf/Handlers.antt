-- ===== src/Bpf/Handlers.antt =====
-- The invariant under the updates that the handlers make, and at the end of a poll sequence.
use bbdd.Base.{
  ◌≡◌, ◌≢◌, inl, inr, refl, Bool, true, false, Option, none, some, arith, ◌>>=◌, Option-cases,
}
use bbdd.Session.{DSession}
use bbdd.Bpf.State.{
  Env, Bpf, BSession, BState, on_hold, stable, await_final, await_non_final, shutting_down,
}
use bbdd.Bpf.Update.{session_update}
use bbdd.Bpf.Config.{call_update, session_state_changed, handle_session_update}
use bbdd.Bpf.Receive.{got_final, take_queued, got_non_final, advance_poll}
use bbdd.Bpf.Frame.{IsReady, SameBut, session_update-frame, session_update-ne-none}
use bbdd.Bpf.Invariant.{
  IsValid, IsValid-IsReady, handle_session_update-ne-none, handle_session_update-IsValid,
  handle_session_update-off_hold,
}

pub SameBut-IsValid : (d : DSession) (b b' : BSession) → IsValid d b → SameBut b b' → IsValid d b'
SameBut-IsValid d b b' v s = ground arith

pub call_update-ne-none :
    (e : Env) (bpf : Bpf) (d : DSession) (b : BSession) → IsReady d b → call_update e bpf d b ≢ none
unfolding call_update
call_update-ne-none e bpf d b v = ground (arith, session_update-ne-none e bpf d b v)

pub call_update-frame :
    (e : Env) (bpf bpf' : Bpf) (d : DSession) (b b' : BSession)
    → call_update e bpf d b ≡ some (bpf', b')
    → SameBut b b'
unfolding call_update
call_update-frame e bpf bpf' d b b' h = elim (Option-cases (session_update e bpf d b)) [
  | inl n ↦ absurd (ground arith)
  | inr (r, s) ↦ let same = session_update-frame e bpf r.0 d b r.1 r.2 s in ground arith
]

pub state_changed-ne-none :
    (e : Env) (bpf : Bpf) (d : DSession) (b : BSession)
    → IsReady d b
    → session_state_changed e bpf d b ≢ none
unfolding session_state_changed
state_changed-ne-none e bpf d b v = ground (arith, call_update-ne-none e bpf d b v)

pub state_changed-frame :
    (e : Env) (bpf bpf' : Bpf) (d : DSession) (b b' : BSession)
    → session_state_changed e bpf d b ≡ some (bpf', b')
    → SameBut b b'
unfolding session_state_changed
state_changed-frame e bpf bpf' d b b' h = elim (Option-cases (call_update e bpf d b)) [
  | inl n ↦ absurd (ground arith)
  | inr (r, s) ↦ let same = call_update-frame e bpf r.0 d b r.1 s in ground arith
]

-- A handler did not abort, and left a session that is valid and off hold.
abbrev pub IsKept : Option (Bpf × DSession × BSession) → Type 0
IsKept none = ⊥
IsKept (some (bpf, d, b)) = IsValid d b × (b.bstate ≢ on_hold)

-- What remains of the invariant when a poll sequence or a shutdown ends.
pub record IsEnding (d : DSession) (b : BSession) : Type 0 where
  pub dfr_mult : b.dfr_data.timing.detect_mult ≢ 0
  pub local_mult : d.local.timing.detect_mult ≢ 0
  pub remote_mult : d.remote.timing.detect_mult ≢ 0

take_queued-IsKept :
    (e : Env) (bpf : Bpf) (d : DSession) (b : BSession)
    → IsEnding d b
    → IsKept (take_queued e bpf d (record b { eff_data = b.dfr_data; bstate = stable }))
unfolding take_queued
take_queued-IsKept e bpf d b v =
    let b₂ = record b { eff_data = b.dfr_data; bstate = stable; qd_change = false } in
    let v₂ : IsValid d b₂ = record {
      has_shwait = λ h. cc;
      has_hold = λ h. cc;
      queued = λ h. cc;
      eff_mult = λ h. v.dfr_mult;
      dfr_mult = λ h k. v.dfr_mult;
      waits = λ h. v.dfr_mult;
      local_mult = v.local_mult;
      remote_mult = v.remote_mult;
    } in
    elim (Option-cases (handle_session_update e bpf d b₂)) [
      | inl n ↦ absurd (handle_session_update-ne-none e bpf d b₂ v₂ (λ h. cc) n)
      | inr (r, s) ↦
          let kept = handle_session_update-IsValid e bpf r.0 d r.1 b₂ r.2 r.3 v₂ s in
          let off = handle_session_update-off_hold e bpf r.0 d r.1 b₂ r.2 r.3 s in ground arith
    ]

-- A step that ends by an update keeps what the state before the update had.
update_last-IsKept :
    (e : Env) (m : Option (Bpf × DSession × BSession))
    → IsKept m
    → IsKept (m >>= λ s. call_update e s.0 s.1 s.2 >>= λ t. some (t.0, s.1, t.1))
update_last-IsKept e none k = k
update_last-IsKept e (some (bpf, d, b)) (v, off) = elim (Option-cases (call_update e bpf d b)) [
  | inl n ↦ absurd (call_update-ne-none e bpf d b (IsValid-IsReady d b v off) n)
  | inr (r, s) ↦
      let same = call_update-frame e bpf r.0 d b r.1 s in
      let kept = SameBut-IsValid d b r.1 v same in rw s (kept, ground arith)
]

pub got_non_final-IsKept :
    (e : Env) (bpf : Bpf) (d : DSession) (b : BSession)
    → IsEnding d b
    → IsKept (got_non_final e bpf d b)
unfolding got_non_final
got_non_final-IsKept e bpf d b v = update_last-IsKept e _ (take_queued-IsKept e bpf d b v)

got_final-IsKept :
    (e : Env) (bpf : Bpf) (d : DSession) (b : BSession)
    → IsValid d b
    → b.bstate ≡ await_final
    → IsKept (got_final e bpf d b >>= λ r. some (r.0, d, r.1))
unfolding got_final
got_final-IsKept e bpf d b v q =
    update_last-IsKept e (some (bpf, d, record b { bstate = await_non_final })) (ground arith)

pub advance_poll-IsKept :
    (s : BState) (e : Env) (bpf : Bpf) (d : DSession) (b : BSession) (final : Bool)
    → b.bstate ≡ s
    → IsValid d b
    → s ≢ on_hold
    → IsKept (advance_poll s e bpf d b final)
unfolding advance_poll
advance_poll-IsKept on_hold e bpf d b final q v off = absurd (off refl)
advance_poll-IsKept stable e bpf d b final q v off = (v, ground arith)
advance_poll-IsKept shutting_down e bpf d b final q v off = (v, ground arith)
advance_poll-IsKept await_final e bpf d b true q v off = got_final-IsKept e bpf d b v q
advance_poll-IsKept await_final e bpf d b false q v off = (v, ground arith)
advance_poll-IsKept await_non_final e bpf d b true q v off = (v, ground arith)
advance_poll-IsKept await_non_final e bpf d b false q v off =
    got_non_final-IsKept e bpf d b
      (record { dfr_mult = ground arith; local_mult = v.local_mult; remote_mult = v.remote_mult })
