-- ===== src/Bpf/Sending.antt =====
-- The packets that an injection and an update hand to the socket.
use bbdd.Base.{
  ℕ, suc, ◌+◌, ◌≤◌, ◌≡◌, inl, inr, Bool, true, false, some, [], ◌∷◌, arith, Option-cases,
}
use bbdd.Base.Words.{u32}
use bbdd.Session.{DSession}
use bbdd.Tx.Invariant.{one_if}
use bbdd.Bpf.State.{
  Env, Bpf, BSession, Rc, ok, err, Call, sendmsg, send_error, drain_failed, Log, tx_have_capacity,
}
use bbdd.Bpf.Packet.{inject_flags}
use bbdd.Bpf.Inject.{session_inject_pkt, inject_rearm_packet, inject_bdata, session_send}
use bbdd.Bpf.Update.{
  should_inject, session_detect_time_us, session_update, update_now, update_inject, update_timer,
  session_conf_update,
}
use bbdd.Bpf.TxFrame.{update_end}

-- What a call counts for: a packet that the socket was given, taken or refused, and, if `reports`
-- asks for it, a report that a drain failed.
abbrev weight : Bool → Call → ℕ
weight reports (sendmsg mark ifindex frame) = 1
weight reports (send_error drain_failed) = one_if reports
weight reports _ = 0

abbrev pub tally : Bool → Log → ℕ
tally r [] = 0
tally r ((c, done) ∷ log) = weight r c + tally r log

abbrev pub sends : Log → ℕ
sends = tally false

abbrev pub tries : Log → ℕ
tries = tally true

-- What a failure will add to the log, when it is reported.
abbrev pub to_report : Rc → ℕ
to_report ok = 0
to_report (err x) = 1

module _ (w : Bool) where
  inject-tally :
      (e : Env) (bpf bpf' : Bpf) (d : DSession) (b : BSession) (ifindex flags : ℕ) (rc : Rc)
      → session_inject_pkt e bpf d b ifindex flags ≡ some (bpf', rc)
      → tally w bpf'.log ≡ suc (tally w bpf.log)
  unfolding session_inject_pkt inject_bdata session_send
  inject-tally e bpf bpf' d b ifindex flags rc h = ground arith

  conf_update-tally :
      (e : Env) (bpf : Bpf) (d : DSession) (b : BSession) (i t f m x u : ℕ) (r : Bool)
      → tally w (session_conf_update e bpf d b i t f m x u r).0.log ≡ tally w bpf.log
  unfolding session_conf_update
  conf_update-tally e bpf d b i t f m x u r = ground arith

  update_inject-tally :
      (e : Env) (bpf bpf' : Bpf) (d : DSession) (b : BSession) (inject : Bool) (rc : Rc)
      → update_inject e bpf d b inject ≡ some (bpf', rc)
      → tally w bpf'.log ≡ one_if inject + tally w bpf.log
  unfolding update_inject
  update_inject-tally e bpf bpf' d b inject rc h = elim (Option-cases (inject_flags d b)) [
    | inl n ↦ ground arith
    | inr (f, q) ↦ ground (arith, inject-tally e bpf bpf' d b bpf.veth_tx_ifindex f rc)
  ]

  update_timer-tally :
      (e : Env) (bpf bpf' : Bpf) (d : DSession) (b b' : BSession) (rearm : Bool) (t : ℕ) (rc : Rc)
      → update_timer e bpf d b rearm t ≡ some (bpf', b', rc)
      → tally w bpf.log ≤ tally w bpf'.log
  unfolding update_timer inject_rearm_packet
  update_timer-tally e bpf bpf' d b b' rearm t rc h =
      elim (Option-cases (session_inject_pkt e bpf d b bpf.veth_rx_ifindex 0)) [
        | inl n ↦ ground arith
        | inr (r, q) ↦ ground (arith, inject-tally e bpf r.0 d b bpf.veth_rx_ifindex 0 r.1 q)
      ]

  update_end-tally :
      (e : Env) (bpf' : Bpf) (d : DSession) (b b' : BSession) (inject rearm : Bool) (t : ℕ)
      (c : Bpf × Rc) (rc : Rc)
      → update_end e d b inject rearm t c ≡ some (bpf', b', rc)
      → (one_if inject + tally w (c.0).log ≤ tally w bpf'.log + to_report rc)
        × (tally w (c.0).log ≤ tally w bpf'.log)
  update_end-tally e bpf' d b b' inject rearm t (bpf, err x) rc h = ground arith
  update_end-tally e bpf' d b b' inject rearm t (bpf, ok) rc h =
      elim (Option-cases (update_inject e bpf d b inject)) [
        | inl n ↦ absurd (ground arith)
        | inr ((bpf₁, err x), q) ↦
            ground (arith, update_inject-tally e bpf bpf₁ d b inject (err x) q)
        | inr ((bpf₁, ok), q) ↦ ground (
          arith,
          update_inject-tally e bpf bpf₁ d b inject ok q,
          update_timer-tally e bpf₁ bpf' d b b' rearm t rc,
        )
      ]

  update_now-tally :
      (e : Env) (bpf bpf' : Bpf) (d : DSession) (b b' : BSession) (inject : Bool) (rc : Rc)
      → update_now e bpf d b inject ≡ some (bpf', b', rc)
      → (one_if inject + tally w bpf.log ≤ tally w bpf'.log + to_report rc)
        × (tally w bpf.log ≤ tally w bpf'.log)
  unfolding update_now
  update_now-tally e bpf bpf' d b b' inject rc h =
      elim (Option-cases (session_detect_time_us b.eff_data d.remote)) [
        | inl n ↦ absurd (ground arith)
        | inr (t, q) ↦
            let end = update_end-tally e bpf' d b b' inject _ t _ rc (rw q at h) in
            rw (conf_update-tally e bpf d b _ _ _ _ _ _ _) at end
      ]

  session_update-tally :
      (e : Env) (bpf bpf' : Bpf) (d : DSession) (b b' : BSession) (rc : Rc)
      → tx_have_capacity e bpf ≡ true
      → session_update e bpf d b ≡ some (bpf', b', rc)
      → (one_if (should_inject d b.bstate) + tally w bpf.log ≤ tally w bpf'.log + to_report rc)
        × (tally w bpf.log ≤ tally w bpf'.log)
  unfolding session_update
  session_update-tally e bpf bpf' d b b' rc room h = ground (
    arith,
    update_now-tally e bpf bpf' d (record b { gen_id = u32 (b.gen_id + 1) }) b'
        (should_inject d b.bstate) rc,
  )

-- A packet that is injected is handed to the socket.
pub inject-sends :
    (e : Env) (bpf bpf' : Bpf) (d : DSession) (b : BSession) (ifindex flags : ℕ) (rc : Rc)
    → session_inject_pkt e bpf d b ifindex flags ≡ some (bpf', rc)
    → (tries bpf'.log ≡ suc (tries bpf.log)) × (sends bpf'.log ≡ suc (sends bpf.log))
inject-sends e bpf bpf' d b ifindex flags rc h = (
  inject-tally true e bpf bpf' d b ifindex flags rc h,
  inject-tally false e bpf bpf' d b ifindex flags rc h,
)

-- With room on the socket, an update that has a packet to inject hands it to the socket or fails.
pub session_update-sends :
    (e : Env) (bpf bpf' : Bpf) (d : DSession) (b b' : BSession) (rc : Rc)
    → tx_have_capacity e bpf ≡ true
    → session_update e bpf d b ≡ some (bpf', b', rc)
    → (one_if (should_inject d b.bstate) + tries bpf.log ≤ tries bpf'.log + to_report rc)
      × (sends bpf.log ≤ sends bpf'.log)
session_update-sends e bpf bpf' d b b' rc room h = (
  (session_update-tally true e bpf bpf' d b b' rc room h).0,
  (session_update-tally false e bpf bpf' d b b' rc room h).1,
)
