-- ===== src/Control/Deleting.antt =====
-- A session is deleted with its port, and the others stay as they are.
use bbdd.Base.{
  ℕ, ◌≤◌, ◌≡◌, ◌≢◌, inl, inr, refl, ap, sym, ◌∙◌, Bool, true, false, Option, none, some, List,
  arith, ◌==◌, if◌then◌else◌, HashSet, Bool-cases, Option-cases,
}
use bbdd.Wire.{hton16}
use bbdd.Bpf.State.{Env, BSession}
use bbdd.Bpf.Config.{hold_stop, shwait_stop}
use bbdd.Bpf.Directory.{World, tx_resize, sdir_get_session, find_session}
use bbdd.Bpf.Members.{session_del, del_found, stop_waits}
use bbdd.Bpf.Deletion.{session_del-IsGone}
use bbdd.Daemon.Sport.{Word}
use bbdd.Daemon.Ports.{IsBitmap, taken, sport_put-frees}
use bbdd.Control.Sound.{IsKept, IsSound, IsSoundAfter, keep-IsKept, port_read}
use bbdd.Control.Members.{Daemon, del_one, sess_dir_del}

module _ (h : HashSet) where
  abbrev SameSess : World h → Option (World h) → Type 0
  SameSess w none = ⊥
  SameSess w (some w') = (w'.sessions ≡ w.sessions) × (w'.dsess ≡ w.dsess) × (w'.bsess ≡ w.bsess)

  del_found-SameSess :
      (e : Env) (w : World h) (discr : ℕ) (b : BSession) → SameSess w (del_found h e w discr b)
  unfolding del_found stop_waits hold_stop shwait_stop tx_resize
  del_found-SameSess e w discr b = ground arith

  session_del-SameSess : (e : Env) (w : World h) (discr : ℕ) → SameSess w (session_del h e w discr)
  unfolding session_del sdir_get_session
  session_del-SameSess e w discr = ground (arith, del_found-SameSess e w discr (w.bsess discr))

  -- A key that is still there after another is removed.
  still :
      (k j : ℕ) (t : h.Table)
      → h.has k t ≡ true
      → h.has j (h.del k t) ≡ true
      → (j ≢ k) × (h.has j t ≡ true)
  still k j t on q = elim (Bool-cases (k == j)) [
    | inl e ↦ absurd (ground (arith, h.has_del k j t on))
    | inr e ↦ (ground arith, ground (arith, h.has_del k j t on))
  ]

  mirror_del :
      (k j : ℕ) (t s s' : h.Table)
      → h.has k t ≡ true
      → h.has k s' ≡ false
      → (j ≢ k → h.has j s' ≡ h.has j s)
      → h.has j s ≡ h.has j t
      → h.has j s' ≡ h.has j (h.del k t)
  mirror_del k j t s s' on gone off same = elim (Bool-cases (k == j)) [
    | inl q ↦
        let e : k ≡ j = ground arith in
        ap (λ x. h.has x s') (sym e) ∙ gone ∙ sym (rw q at (h.has_del k j t on))
    | inr q ↦ off (ground arith) ∙ same ∙ sym (rw q at (h.has_del k j t on))
  ]

  ports_differ :
      (d : Daemon h) (k discr : ℕ) (v : IsKept h d k) (u : IsKept h d discr)
      → IsSound h d
      → h.has k d.world.sessions ≡ true
      → h.has discr d.world.sessions ≡ true
      → k ≢ discr
      → (v.port == u.port) ≡ false
  ports_differ d k discr v u sound hk hd ne =
      let apart : v.port ≢ u.port =
        λ e. ne (sound.distinct k discr hk hd (v.is_port ∙ ap hton16 e ∙ sym u.is_port)) in
      ground arith

  other_taken : (same was : Bool) → same ≡ false → was ≡ true → (if same then false else was) ≡ true
  other_taken same was q r = rw (q, r) refl

  removed-IsSound :
      (d : Daemon h) (w : World h) (occ : List Word) (discr : ℕ) (v : IsKept h d discr)
      → IsSound h d
      → h.has discr d.world.sessions ≡ true
      → w.sessions ≡ d.world.sessions
      → w.dsess ≡ d.world.dsess
      → w.bsess ≡ d.world.bsess
      → h.has discr w.sdir ≡ false
      → ((j : ℕ) → j ≢ discr → h.has j w.sdir ≡ h.has j d.world.sdir)
      → IsBitmap occ
      → ((q : ℕ) → 49152 ≤ q → taken occ q ≡ (if q == v.port then false else taken d.spa q))
      → IsSound h (record { world = sess_dir_del h w discr; spa = occ })
  unfolding sess_dir_del
  removed-IsSound d w occ discr v sound on s t u gone others b m =
      let there : (j : ℕ)
          → h.has j (h.del discr w.sessions) ≡ true
          → (j ≢ discr) × (h.has j d.world.sessions ≡ true) =
        λ j q. still discr j d.world.sessions on (rw s at q) in
      record {
        bitmap = b;
        mirrored = λ k. rw s (
            mirror_del discr k d.world.sessions d.world.sdir w.sdir on gone (others k)
              (sound.mirrored k));
        sessions = λ k q.
            let (ne, has) = there k q in
            let kept = sound.sessions k has in
            keep-IsKept h d (record { world = sess_dir_del h w discr; spa = occ }) k kept
              (ap (λ f. f k) t) (ap (λ f. f k) u)
              (m kept.port kept.low
                ∙ other_taken (kept.port == v.port) (taken d.spa kept.port)
                    (ports_differ d k discr kept v sound has on ne) kept.is_taken);
        distinct = λ j k hj hk e. sound.distinct j k (there j hj).1 (there k hk).1 (rw t at e);
      }

  -- Deleting a session by its discriminator does not abort, and keeps the daemon sound: the port
  -- that is given back is one that was given out, and no other session has it.
  pub del_one-IsSound :
      (e : Env) (d : Daemon h) (discr : ℕ) → IsSound h d → IsSoundAfter h (del_one h e d discr)
  unfolding del_one find_session
  del_one-IsSound e d discr sound = elim (Bool-cases (h.has discr d.world.sessions)) [
    | inr off ↦ rw (off, del_one, find_session) sound
    | inl on ↦
        let v = sound.sessions discr on in
        let gone = session_del-IsGone h e d.world discr (sound.mirrored discr ∙ on) in
        let same = session_del-SameSess e d.world discr in
        let (occ, p, b, m) = sport_put-frees d.spa v.port sound.bitmap v.low v.high in
        elim (Option-cases (session_del h e d.world discr)) [
          | inl n ↦ absurd (rw n at gone)
          | inr (w, q) ↦
              let gone' = rw q at gone in
              let same' = rw q at same in
              rw (on, del_one, find_session, q, port_read h d discr v, p)
                (removed-IsSound d w occ discr v sound on same'.0 same'.1 same'.2 gone'.0 gone'.1 b
                  m)
        ]
  ]
