-- ===== src/Bpf/TxFrame.antt =====
-- The TX queue under packets that are injected, and updates that find room.
use bbdd.Base.{ℕ, ◌+◌, ◌≡◌, ◌∙◌, inl, inr, Bool, true, Option, some, arith, ◌>>=◌, Option-cases}
use bbdd.Base.Words.{u32}
use bbdd.Session.{DSession}
use bbdd.Bpf.State.{Env, Bpf, BSession, Rc, ok, err, tx_have_capacity}
use bbdd.Bpf.Packet.{inject_flags}
use bbdd.Bpf.Inject.{session_inject_pkt, inject_rearm_packet, inject_bdata, session_send}
use bbdd.Bpf.Update.{
  should_inject, session_detect_time_us, session_update, update_now, update_inject, update_timer,
  session_conf_update,
}

pub inject-tx :
    (e : Env) (bpf bpf' : Bpf) (d : DSession) (b : BSession) (ifindex flags : ℕ) (rc : Rc)
    → session_inject_pkt e bpf d b ifindex flags ≡ some (bpf', rc)
    → bpf'.tx ≡ bpf.tx
unfolding session_inject_pkt inject_bdata session_send
inject-tx e bpf bpf' d b ifindex flags rc h = ground arith

conf_update-tx :
    (e : Env) (bpf : Bpf) (d : DSession) (b : BSession) (i t f m x u : ℕ) (r : Bool)
    → (session_conf_update e bpf d b i t f m x u r).0.tx ≡ bpf.tx
unfolding session_conf_update
conf_update-tx e bpf d b i t f m x u r = ground arith

update_inject-tx :
    (e : Env) (bpf bpf' : Bpf) (d : DSession) (b : BSession) (inject : Bool) (rc : Rc)
    → update_inject e bpf d b inject ≡ some (bpf', rc)
    → bpf'.tx ≡ bpf.tx
unfolding update_inject
update_inject-tx e bpf bpf' d b inject rc h = elim (Option-cases (inject_flags d b)) [
  | inl n ↦ ground arith
  | inr (f, q) ↦ ground (arith, inject-tx e bpf bpf' d b bpf.veth_tx_ifindex f rc)
]

update_timer-tx :
    (e : Env) (bpf bpf' : Bpf) (d : DSession) (b b' : BSession) (rearm : Bool) (t : ℕ) (rc : Rc)
    → update_timer e bpf d b rearm t ≡ some (bpf', b', rc)
    → bpf'.tx ≡ bpf.tx
unfolding update_timer inject_rearm_packet
update_timer-tx e bpf bpf' d b b' rearm t rc h =
    elim (Option-cases (session_inject_pkt e bpf d b bpf.veth_rx_ifindex 0)) [
      | inl n ↦ ground arith
      | inr (r, q) ↦ ground (arith, inject-tx e bpf r.0 d b bpf.veth_rx_ifindex 0 r.1 q)
    ]

-- What follows the configuration map's update `c`.
abbrev pub update_end :
    Env → DSession → BSession → Bool → Bool → ℕ → Bpf × Rc → Option (Bpf × BSession × Rc)
update_end e d b inject rearm t (bpf, err x) = some (bpf, b, err x)
update_end e d b inject rearm t (bpf, ok) = update_inject e bpf d b inject >>= λ r. elim r.1 [
  | err x ↦ some (r.0, b, err x)
  | ok ↦ update_timer e r.0 d b rearm t
]

update_end-tx :
    (e : Env) (bpf' : Bpf) (d : DSession) (b b' : BSession) (inject rearm : Bool) (t : ℕ)
    (c : Bpf × Rc) (rc : Rc)
    → update_end e d b inject rearm t c ≡ some (bpf', b', rc)
    → bpf'.tx ≡ c.0.tx
update_end-tx e bpf' d b b' inject rearm t (bpf, err x) rc h = ground arith
update_end-tx e bpf' d b b' inject rearm t (bpf, ok) rc h =
    elim (Option-cases (update_inject e bpf d b inject)) [
      | inl n ↦ ground arith
      | inr ((bpf₁, err x), q) ↦ ground (arith, update_inject-tx e bpf bpf₁ d b inject (err x) q)
      | inr ((bpf₁, ok), q) ↦ ground (
        arith,
        update_inject-tx e bpf bpf₁ d b inject ok q,
        update_timer-tx e bpf₁ bpf' d b b' rearm t rc,
      )
    ]

update_now-tx :
    (e : Env) (bpf bpf' : Bpf) (d : DSession) (b b' : BSession) (inject : Bool) (rc : Rc)
    → update_now e bpf d b inject ≡ some (bpf', b', rc)
    → bpf'.tx ≡ bpf.tx
unfolding update_now
update_now-tx e bpf bpf' d b b' inject rc h =
    elim (Option-cases (session_detect_time_us b.eff_data d.remote)) [
      | inl n ↦ absurd (ground arith)
      | inr (t, q) ↦
          update_end-tx e bpf' d b b' inject _ t _ rc (rw q at h)
          ∙ conf_update-tx e bpf d b _ _ _ _ _ _ _
    ]

-- With room on the socket, an update queues nothing.
pub session_update-tx :
    (e : Env) (bpf bpf' : Bpf) (d : DSession) (b b' : BSession) (rc : Rc)
    → tx_have_capacity e bpf ≡ true
    → session_update e bpf d b ≡ some (bpf', b', rc)
    → bpf'.tx ≡ bpf.tx
unfolding session_update
session_update-tx e bpf bpf' d b b' rc room h = ground (
  arith,
  update_now-tx e bpf bpf' d (record b { gen_id = u32 (b.gen_id + 1) }) b'
      (should_inject d b.bstate) rc,
)
