-- ===== src/Bpf/Membership.antt =====
-- Sessions that are added and deleted, and the capacity that follows their number.
use bbdd.Base.{
  ℕ, suc, ◌+◌, ◌*◌, ◌≡◌, ◌≢◌, ◌⊎◌, ◌∙◌, sym, refl, inl, inr, Bool, true, false, not, Option, none,
  some, arith, if◌then◌else◌, ◌==◌, HashSet,
}
use bbdd.Base.Words.{u32}
use bbdd.Session.{DSession}
use bbdd.Tx.{set_slot, empty_slot}
use bbdd.Bpf.State.{
  Env, Bpf, BSession, on_hold, Rc, ok, err, Error, session_alloc_failed, malloc_session, call,
}
use bbdd.Bpf.Update.{session_conf_add, session_conf_update}
use bbdd.Bpf.Config.{hold_start, hold_stop}
use bbdd.Bpf.Directory.{World, store, tx_dyn_capacity, tx_apply_capacity, tx_resize}
use bbdd.Bpf.Members.{fresh_bsess, zero_bdata, give_up, add_fresh, session_add}

conf_add-capacity :
    (e : Env) (bpf : Bpf) (d : DSession) (b : BSession)
    → (session_conf_add e bpf d b).0.tx_capacity ≡ bpf.tx_capacity
unfolding session_conf_add session_conf_update
conf_add-capacity e bpf d b = ground arith

pub Rc-cases : (rc : Rc) → (rc ≡ ok) ⊎ ((x : Error) × (rc ≡ err x))
Rc-cases ok = inl refl
Rc-cases (err x) = inr (x, refl)

hold_start-held :
    (e : Env) (bpf : Bpf) (d : DSession) (b : BSession)
    → (hold_start e bpf d b).2 ≡ ok
    → (hold_start e bpf d b).1 ≡ record b { hold = true }
unfolding hold_start
hold_start-held e bpf d b q = ground arith

module _ (h : HashSet) where
  -- The capacity for `n` sessions: what the user gave, or two packets for each session.
  abbrev pub capacity_for : Env → ℕ → ℕ
  capacity_for e n = if e.tx_capacity == 0 then u32 (u32 n * 2) else e.tx_capacity

  -- A resize that succeeds leaves the capacity for the sessions there are, and the one to be added.
  resize-capacity :
      (e : Env) (w : World h) (add : Bool)
      → let (w', rc) = tx_resize h e w add in
        (w'.sdir ≡ w.sdir)
        × (w'.bsess ≡ w.bsess)
        × (rc ≡ ok → w'.bpf.tx_capacity ≡ capacity_for e (h.size w.sdir + (if add then 1 else 0)))
  unfolding tx_resize tx_dyn_capacity tx_apply_capacity
  resize-capacity e w add = ground arith

  -- What an attempt to add the session `d` did: the session is there, on hold, no other is touched,
  -- and the capacity counts it; or nothing was added.
  abbrev pub IsAdded : Env → World h → DSession → Option (World h × Rc) → Type 0
  IsAdded e w d none = ⊥
  IsAdded e w d (some (w', err x)) = (w'.sdir ≡ w.sdir) × (w'.bsess ≡ w.bsess)
  IsAdded e w d (some (w', ok)) =
      (h.has d.local.discr w'.sdir ≡ true)
      × ((w'.bsess d.local.discr).bstate ≡ on_hold)
      × ((w'.bsess d.local.discr).hold ≡ true)
      × (h.size w'.sdir ≡ suc (h.size w.sdir))
      × ((j : ℕ) → j ≢ d.local.discr → h.has j w'.sdir ≡ h.has j w.sdir)
      × ((j : ℕ) → j ≢ d.local.discr → w'.bsess j ≡ w.bsess j)
      × (w'.bpf.tx_capacity ≡ capacity_for e (h.size w'.sdir))

  give_up-IsAdded :
      (e : Env) (w w₂ : World h) (d : DSession) (b : BSession) (rc : Rc)
      → b.hold ≡ true
      → rc ≢ ok
      → w₂.sdir ≡ w.sdir
      → w₂.bsess ≡ w.bsess
      → IsAdded e w d (give_up h e w₂ b rc)
  unfolding hold_stop
  give_up-IsAdded e w w₂ d b ok q fails s t = absurd (fails refl)
  give_up-IsAdded e w w₂ d b (err x) q fails s t = ground arith

  -- The last step.
  insert-IsAdded :
      (e : Env) (w w₃ : World h) (d : DSession) (b : BSession)
      → h.has d.local.discr w.sdir ≡ false
      → b.discr ≡ d.local.discr
      → b.bstate ≡ on_hold
      → b.hold ≡ true
      → w₃.sdir ≡ w.sdir
      → w₃.bsess ≡ w.bsess
      → w₃.bpf.tx_capacity ≡ capacity_for e (h.size w.sdir + 1)
      → IsAdded e w d
          (some (record w₃ { sdir = h.add b.discr w₃.sdir; bsess = store w₃.bsess b.discr b }, ok))
  insert-IsAdded e w w₃ d b new key held hold s t c =
      let grown = h.size_add d.local.discr w.sdir new in
      rw (s, t, key)
        (
          ground (arith, h.has_add d.local.discr d.local.discr w.sdir new),
          ground arith,
          ground arith,
          grown,
          λ j ne. ground (arith, h.has_add d.local.discr j w.sdir new),
          λ j ne. ground arith,
          ground arith,
        )

  add_fresh-IsAdded :
      (e : Env) (w₀ w : World h) (d : DSession) (b : BSession)
      → w.sdir ≡ w₀.sdir
      → w.bsess ≡ w₀.bsess
      → b.discr ≡ d.local.discr
      → b.bstate ≡ on_hold
      → h.has d.local.discr w₀.sdir ≡ false
      → IsAdded e w₀ d (add_fresh h e w d b)
  unfolding add_fresh
  add_fresh-IsAdded e w₀ w d b s₀ t₀ key held new =
      let w₁ = record w { bpf = (hold_start e w.bpf d b).0 } in
      let b₁ = (hold_start e w.bpf d b).1 in
      let w₂ = (tx_resize h e w₁ true).0 in
      let w₃ = record w₂ { bpf = (session_conf_add e w₂.bpf d b₁).0 } in
      let (s, t, c) = resize-capacity e w₁ true in
      let fails = give_up-IsAdded e w₀ in
      elim (Rc-cases (hold_start e w.bpf d b).2) [
        | inr (x, q) ↦ rw (q, add_fresh) (s₀, t₀)
        | inl q ↦
            let same = hold_start-held e w.bpf d b q in
            let held₁ : b₁.hold ≡ true = ground arith in
            elim (Rc-cases (tx_resize h e w₁ true).1) [
              | inr (x, r) ↦
                  rw (q, r, add_fresh) (fails w₂ d b₁ (err x) held₁ (λ f. cc) (s ∙ s₀) (t ∙ t₀))
              | inl r ↦ elim (Rc-cases (session_conf_add e w₂.bpf d b₁).1) [
                | inr (x, u) ↦
                    rw (q, r, u, add_fresh)
                      (fails w₃ d b₁ (err x) held₁ (λ f. cc) (s ∙ s₀) (t ∙ t₀))
                | inl u ↦
                    rw (q, r, u, add_fresh)
                      (insert-IsAdded e w₀ w₃ d b₁ new (ground arith) (ground arith) held₁ (s ∙ s₀)
                        (t ∙ t₀) (rw (sym s₀) (conf_add-capacity e w₂.bpf d b₁ ∙ c r)))
              ]
            ]
      ]

  -- By whether there is memory for the session.
  add_room-IsAdded :
      (e : Env) (w₀ w : World h) (bpf : Bpf) (d : DSession) (b : BSession) (x : Error) (room : Bool)
      → w.sdir ≡ w₀.sdir
      → w.bsess ≡ w₀.bsess
      → b.discr ≡ d.local.discr
      → b.bstate ≡ on_hold
      → h.has d.local.discr w₀.sdir ≡ false
      → IsAdded e w₀ d
          (if not room then some (record w₀ { bpf = bpf }, err x) else add_fresh h e w d b)
  add_room-IsAdded e w₀ w bpf d b x false s t key held new = (refl, refl)
  add_room-IsAdded e w₀ w bpf d b x true s t key held new =
      add_fresh-IsAdded e w₀ w d b s t key held new

  -- Adding a session that is not there does not abort. When it succeeds the session is there and on
  -- hold, every other session is as it was, and the capacity is that for the new number of sessions;
  -- when it fails, no session was added or changed.
  pub session_add-IsAdded :
      (e : Env) (w : World h) (d : DSession) (final_slot periodic_slot : ℕ)
      → h.has d.local.discr w.sdir ≡ false
      → IsAdded e w d (session_add h e w d final_slot periodic_slot)
  unfolding session_add
  session_add-IsAdded e w d final_slot periodic_slot new =
      let (bpf₁, room) = call e w.bpf (malloc_session d.local.discr) in
      let slot₁ = set_slot (set_slot bpf₁.tx.slot final_slot empty_slot) periodic_slot empty_slot in
      add_room-IsAdded e w
        (record w { bpf = record bpf₁ { tx = record (bpf₁.tx) { slot = slot₁ } } }) bpf₁ d
        (fresh_bsess d.local.discr zero_bdata final_slot periodic_slot) session_alloc_failed room
        refl refl refl refl new
