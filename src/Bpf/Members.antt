-- ===== src/Bpf/Members.antt =====
-- src/bbdd-bpf.c: adding and deleting a session.
use bbdd.Base.{ℕ, Bool, true, false, not, Option, none, some, if◌then◌else◌, ◌>>=◌, HashSet}
use bbdd.Session.{DSession}
use bbdd.Tx
use bbdd.Tx.{empty_slot, set_slot}
use bbdd.Bpf.State.{
  Env, Bpf, BSession, BData, on_hold, Rc, ok, err, call, note, malloc_session, session_alloc_failed,
  send_error, session_del_resize_failed,
}
use bbdd.Bpf.Update.{session_conf_add, session_conf_delete}
use bbdd.Bpf.Config.{hold_start, hold_stop, shwait_stop}
use bbdd.Bpf.Directory.{World, store, sdir_get_session, tx_resize}

-- A session that was just allocated, with its slots at the addresses given.
abbrev pub fresh_bsess : ℕ → BData → ℕ → ℕ → BSession
fresh_bsess discr zeros final_slot periodic_slot = record {
  discr = discr;
  gen_id = 0;
  bstate = on_hold;
  eff_data = zeros;
  dfr_data = zeros;
  qd_change = false;
  shwait = false;
  lost = 0;
  hold = false;
  timer_period_us = 0;
  stats = record { rx_packets = 0; rx_bytes = 0 };
  diag_stats = record {
    rx_admin_down = 0;
    rx_ttl_low = 0;
    rx_unsupported = 0;
    rx_multipoint_not_0 = 0;
    rx_detection_multiplier_0 = 0;
    rx_my_discr_0 = 0;
    rx_your_discr_0_not_down = 0;
  };
  final_slot = final_slot;
  periodic_slot = periodic_slot;
}

abbrev pub zero_bdata : BData
zero_bdata = record {
  timing = record { detect_mult = 0; min_tx_us = 0; min_rx_us = 0 };
  shutdown = false;
}

-- The first half of `__bbdd_bpf_session_del`.
unfoldable pub stop_waits : Env → Bpf → BSession → Option (Bpf × BSession)
stop_waits e bpf b = do
  r ← if b.hold then hold_stop e bpf b else some (bpf, b)
  (if (r.1).shwait then shwait_stop e r.0 r.1 else some r)

module _ (h : HashSet) where
  -- The label `hold_stop`: stop the hold, and free the session.
  abbrev pub give_up : Env → World h → BSession → Rc → Option (World h × Rc)
  give_up e w b rc = hold_stop e w.bpf b >>= λ r. some (record w { bpf = r.0 }, rc)

  -- The rest of `bbdd_bpf_session_add`, when there is memory for the session.
  unfoldable pub add_fresh : Env → World h → DSession → BSession → Option (World h × Rc)
  add_fresh e w d b =
      let (bpf₁, b₁, rc₁) = hold_start e w.bpf d b in
      let w₁ = record w { bpf = bpf₁ } in
      let (w₂, rc₂) = tx_resize h e w₁ true in
      let (bpf₃, rc₃) = session_conf_add e w₂.bpf d b₁ in
      let w₃ = record w₂ { bpf = bpf₃ } in
      elim rc₁ [
        | err x ↦ some (w₁, err x)
        | ok ↦ elim rc₂ [
          | err x ↦ give_up e w₂ b₁ (err x)
          | ok ↦ elim rc₃ [
            | err x ↦ give_up e w₃ b₁ (err x)
            | ok ↦ some (
              record w₃ { sdir = h.add b₁.discr w₃.sdir; bsess = store w₃.bsess b₁.discr b₁ },
              ok,
            )
          ]
        ]
      ]

  -- The two slots of the session are in fresh memory at the addresses given.
  unfoldable pub session_add : Env → World h → DSession → ℕ → ℕ → Option (World h × Rc)
  session_add e w d final_slot periodic_slot =
      let (bpf₁, room) = call e w.bpf (malloc_session d.local.discr) in
      let slot₁ = set_slot (set_slot bpf₁.tx.slot final_slot empty_slot) periodic_slot empty_slot in
      if not room
      then some (record w { bpf = bpf₁ }, err session_alloc_failed)
      else add_fresh e (record w { bpf = record bpf₁ { tx = record (bpf₁.tx) { slot = slot₁ } } }) d
          (fresh_bsess d.local.discr zero_bdata final_slot periodic_slot)

  unfoldable pub del_found : Env → World h → ℕ → BSession → Option (World h)
  del_found e w discr b = stop_waits e w.bpf b >>= λ r.
      let bpf₁ = record (r.0) {
        tx = Tx.unlink e.dl (Tx.unlink e.dl (r.0).tx b.final_slot) b.periodic_slot;
      } in
      let w₁ = record w { bpf = session_conf_delete e bpf₁ b.discr; sdir = h.del discr w.sdir } in
      let (w₂, rc) = tx_resize h e w₁ false in
      some (elim rc [
        | ok ↦ w₂
        | err x ↦ record w₂ { bpf = note w₂.bpf (send_error session_del_resize_failed) }
      ])

  unfoldable pub session_del : Env → World h → ℕ → Option (World h)
  session_del e w discr = elim (sdir_get_session h w discr) [
    | none ↦ some w
    | some b ↦ del_found e w discr b
  ]

  unfoldable pub session_is_on_hold : World h → ℕ → Bool
  session_is_on_hold w discr = elim (sdir_get_session h w discr) [
    | none ↦ false
    | some b ↦ elim b.bstate [ on_hold ↦ true | _ ↦ false ]
  ]
