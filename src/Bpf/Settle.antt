-- ===== src/Bpf/Settle.antt =====
-- The end of a poll sequence.
use bbdd.Base.{
  ◌+◌, ◌≡◌, ◌⊎◌, ◌∙◌, ap, sym, subst, refl, true, false, Option, none, some, arith, Option-cases,
  inl, inr,
}
use bbdd.Base.Words.{u32}
use bbdd.Session.{DSession}
use bbdd.Bpf.State.{
  Env, Bpf, BSession, BData, stable, await_final, await_non_final, tx_have_capacity,
}
use bbdd.Bpf.Update.{should_inject, session_update}
use bbdd.Bpf.Deferral.{session_update-bumps}
use bbdd.Bpf.Config.{call_update}
use bbdd.Bpf.Receive.{got_final, take_queued, got_non_final, advance_poll}
use bbdd.Bpf.Frame.{IsReady, session_update-frame}
use bbdd.Bpf.Handlers.{IsEnding, call_update-ne-none, call_update-frame}

-- Nothing aborted, and the session is stable with the data `u` in effect.
abbrev pub IsSettled : BData → Option (Bpf × DSession × BSession) → Type 0
IsSettled u none = ⊥
IsSettled u (some (bpf, d, b)) = (b.bstate ≡ stable) × (b.eff_data ≡ u)

-- A session that polls, and has no change queued, settles when a packet without the final bit comes
-- in: what was polled takes effect.
pub advance_poll-settles :
    (e : Env) (bpf : Bpf) (d : DSession) (b : BSession)
    → IsEnding d b
    → b.qd_change ≡ false
    → IsSettled b.dfr_data (advance_poll await_non_final e bpf d b false)
unfolding advance_poll got_non_final take_queued
advance_poll-settles e bpf d b v q =
    let b₁ = record b { eff_data = b.dfr_data; bstate = stable } in
    let ready : IsReady d b₁ = record {
      off_hold = λ h. cc;
      eff_mult = λ h. v.dfr_mult;
      dfr_mult = λ h. v.dfr_mult;
      remote_mult = v.remote_mult;
    } in
    elim (Option-cases (call_update e bpf d b₁)) [
      | inl n ↦ absurd (call_update-ne-none e bpf d b₁ ready n)
      | inr (r, s) ↦ let same = call_update-frame e bpf r.0 d b₁ r.1 s in ground arith
    ]

-- The session waits for a packet without the final bit. Its packets are of a new generation, and its
-- data are as before.
pub record IsAwaiting (b b' : BSession) : Type 0 where
  pub bstate : b'.bstate ≡ await_non_final
  pub eff_data : b'.eff_data ≡ b.eff_data
  pub dfr_data : b'.dfr_data ≡ b.dfr_data
  pub qd_change : b'.qd_change ≡ b.qd_change
  pub gen_id : b'.gen_id ≡ u32 (b.gen_id + 1)

-- Nothing aborted, the session waits, and whenever the packet comes that it waits for, it settles.
abbrev pub IsCompleting : DSession → BSession → Option (Bpf × DSession × BSession) → Type 0
IsCompleting d b none = ⊥
IsCompleting d b (some (bpf', d', b')) =
    (d' ≡ d)
    × IsAwaiting b b'
    × ((e : Env) (bpf : Bpf) → IsSettled b.dfr_data (advance_poll b'.bstate e bpf d' b' false))

bumped-IsAwaiting :
    (e : Env) (bpf bpf' : Bpf) (d : DSession) (b b' : BSession)
    → IsReady d (record b { bstate = await_non_final })
    → (should_inject d await_non_final ≡ false) ⊎ (tx_have_capacity e bpf ≡ true)
    → call_update e bpf d (record b { bstate = await_non_final }) ≡ some (bpf', b')
    → IsAwaiting b b'
unfolding call_update
bumped-IsAwaiting e bpf bpf' d b b' ready room h =
    let b₁ = record b { bstate = await_non_final } in
    let bumps = session_update-bumps e bpf d b₁ ready room in
    elim (Option-cases (session_update e bpf d b₁)) [
      | inl n ↦ absurd (ground arith)
      | inr (r, q) ↦
          let same = session_update-frame e bpf r.0 d b₁ r.1 r.2 q in
          let bumped : (r.1).gen_id ≡ u32 (b.gen_id + 1) = rw q at bumps in
          let e₁ : r.1 ≡ b' = ground arith in
          rw⁻¹ e₁ (record {
            bstate = ap (λ x. x.bstate) same;
            eff_data = ap (λ x. x.eff_data) same;
            dfr_data = ap (λ x. x.dfr_data) same;
            qd_change = ap (λ x. x.qd_change) same;
            gen_id = bumped;
          })
    ]

settles-after :
    (d : DSession) (b b' : BSession)
    → IsEnding d b
    → b.qd_change ≡ false
    → IsAwaiting b b'
    → (e : Env) (bpf : Bpf) → IsSettled b.dfr_data (advance_poll b'.bstate e bpf d b' false)
settles-after d b b' v q w e bpf =
    let v' : IsEnding d b' = record {
      dfr_mult = rw w.dfr_data v.dfr_mult;
      local_mult = v.local_mult;
      remote_mult = v.remote_mult;
    } in
    let settled = advance_poll-settles e bpf d b' v' (w.qd_change ∙ q) in
    subst (λ s. IsSettled b.dfr_data (advance_poll s e bpf d b' false)) (sym w.bstate)
      (subst (λ u. IsSettled u (advance_poll await_non_final e bpf d b' false)) w.dfr_data settled)

-- The end of a poll sequence, of a session whose multipliers are set and that has no change queued.
-- When the packet with the final bit comes in, and there is room on the socket or nothing to inject,
-- the session starts a new generation of packets and goes on to await a packet without the bit,
-- with the data in effect that it had. What was polled takes effect when that packet comes in,
-- and not before: the session is stable then. This differs from the comment on the
-- session's structure at src/bbdd-bpf.c:151, by which it takes effect with the final packet.
pub advance_poll-completes :
    (e : Env) (bpf : Bpf) (d : DSession) (b : BSession)
    → IsEnding d b
    → b.qd_change ≡ false
    → (should_inject d await_non_final ≡ false) ⊎ (tx_have_capacity e bpf ≡ true)
    → IsCompleting d b (advance_poll await_final e bpf d b true)
unfolding advance_poll got_final
advance_poll-completes e bpf d b v q room =
    let b₁ = record b { bstate = await_non_final } in
    let ready : IsReady d b₁ = record {
      off_hold = λ h. cc;
      eff_mult = λ h. cc;
      dfr_mult = λ h. v.dfr_mult;
      remote_mult = v.remote_mult;
    } in
    elim (Option-cases (call_update e bpf d b₁)) [
      | inl n ↦ absurd (call_update-ne-none e bpf d b₁ ready n)
      | inr ((bpf', b'), s) ↦
          let w = bumped-IsAwaiting e bpf bpf' d b b' ready room s in
          rw s (refl, w, settles-after d b b' v q w)
    ]
