-- ===== src/Control/Dirs.antt =====
-- The dataplane leaves the daemon's directory alone when a session is added to it.
use bbdd.Base.{
  ℕ, ◌≡◌, refl, Bool, true, false, not, Option, none, some, arith, if◌then◌else◌, HashSet,
}
use bbdd.Session.{DSession}
use bbdd.Tx.{set_slot, empty_slot}
use bbdd.Bpf.State.{
  call, malloc_session, session_alloc_failed, Error, Env, Bpf, BSession, Rc, ok, err,
}
use bbdd.Bpf.Config.{hold_start, hold_stop}
use bbdd.Bpf.Directory.{World, tx_resize}
use bbdd.Bpf.Members.{session_add, add_fresh, fresh_bsess, zero_bdata}

module _ (h : HashSet) where
  resize-dirs :
      (e : Env) (w : World h) (add : Bool)
      → let (w', rc) = tx_resize h e w add in (w'.sessions ≡ w.sessions) × (w'.dsess ≡ w.dsess)
  unfolding tx_resize
  resize-dirs e w add = ground arith

  -- The daemon's directory is not the dataplane's to change.
  abbrev pub SameDirs : World h → BSession → Option (World h × Rc) → Type 0
  SameDirs w b none = ⊥
  SameDirs w b (some (w', rc)) =
      (w'.sessions ≡ w.sessions)
      × (w'.dsess ≡ w.dsess)
      × (rc ≡ ok → w'.bsess b.discr ≡ record b { hold = true })

  add_fresh-dirs :
      (e : Env) (w : World h) (d : DSession) (b : BSession) → SameDirs w b (add_fresh h e w d b)
  unfolding add_fresh hold_start hold_stop
  add_fresh-dirs e w d b =
      let (bpf₁, b₁, rc₁) = hold_start e w.bpf d b in
      let (s, t) = resize-dirs e (record w { bpf = bpf₁ }) true in ground (arith, s, t)

  add_room-dirs :
      (e : Env) (w₀ w : World h) (bpf : Bpf) (d : DSession) (b : BSession) (x : Error) (room : Bool)
      → w.sessions ≡ w₀.sessions
      → w.dsess ≡ w₀.dsess
      → SameDirs w₀ b
          (if not room then some (record w₀ { bpf = bpf }, err x) else add_fresh h e w d b)
  add_room-dirs e w₀ w bpf d b x false s t = (refl, refl, λ q. cc)
  add_room-dirs e w₀ w bpf d b x true s t = ground (arith, add_fresh-dirs e w d b)

  -- What the dataplane does to the daemon when it adds a session: nothing to its directory, and a
  -- new session of its own, on hold.
  pub session_add-dirs :
      (e : Env) (w : World h) (d : DSession) (final_slot periodic_slot : ℕ)
      → SameDirs w
          (fresh_bsess d.local.discr zero_bdata final_slot periodic_slot)
          (session_add h e w d final_slot periodic_slot)
  unfolding session_add
  session_add-dirs e w d final_slot periodic_slot =
      let (bpf₁, room) = call e w.bpf (malloc_session d.local.discr) in
      let slot₁ = set_slot (set_slot bpf₁.tx.slot final_slot empty_slot) periodic_slot empty_slot in
      add_room-dirs e w (record w { bpf = record bpf₁ { tx = record (bpf₁.tx) { slot = slot₁ } } })
        bpf₁ d (fresh_bsess d.local.discr zero_bdata final_slot periodic_slot) session_alloc_failed
        room refl refl
