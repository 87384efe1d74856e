-- ===== src/Control/Setting.antt =====
-- A change of sessions leaves the daemon sound.
use bbdd.Base.{
  ℕ, ◌≡◌, inl, inr, refl, ◌∙◌, Bool, true, false, Option, none, some, arith, ◌==◌, if◌then◌else◌,
  HashSet, Bool-cases, Option-cases,
}
use bbdd.Session.{DSession}
use bbdd.Bpf.State.{Env, Bpf, BSession, Rc}
use bbdd.Bpf.Directory.{keep, World, store, sdir_get_session}
use bbdd.Bpf.Invariant.{IsValid}
use bbdd.Control.Configured.{IsConfigured}
use bbdd.Bpf.Membership.{Rc-cases}
use bbdd.Bpf.Events.{bpf_session_update, update_session}
use bbdd.Bpf.Reachable.{update_session-IsFine}
use bbdd.Bpf.Untouched.{SameConfig, update_session-SameConfig}
use bbdd.Control.Requests.{update_changed}
use bbdd.Control.Sound.{IsSound}
use bbdd.Control.Members.{Daemon, Answer}
use bbdd.Control.Replacing.{IsReplaced, replaced-IsSound}

SameConfig-IsConfigured :
    (d d' : DSession)
    → SameConfig d d'
    → IsConfigured d
    → IsConfigured d' × (d'.src.port ≡ d.src.port) × (d'.local.discr ≡ d.local.discr)
SameConfig-IsConfigured d d' q c = rw q (
  record {
    discr_set = c.discr_set;
    mult_set = c.mult_set;
    min_tx_set = c.min_tx_set;
    min_rx_set = c.min_rx_set;
    has_dst = c.has_dst;
    same_family = c.same_family;
    dst_port = c.dst_port;
  },
  refl,
  refl,
)

-- A session of the dataplane stays valid under a change of the daemon's.
pub changed-IsValid :
    (d d' : DSession) (b : BSession)
    → IsValid d b
    → IsConfigured d'
    → d'.remote.timing ≡ d.remote.timing
    → IsValid d' b
changed-IsValid d d' b v c same = record {
  has_shwait = v.has_shwait;
  has_hold = v.has_hold;
  queued = v.queued;
  eff_mult = v.eff_mult;
  dfr_mult = v.dfr_mult;
  waits = v.waits;
  local_mult = c.mult_set;
  remote_mult = rw same v.remote_mult;
}

store_same : {A : Type 0} (f : ℕ → A) (k : ℕ) (v : A) → store f k v k ≡ v
store_same f k v = elim (Bool-cases (k == k)) [ inl q ↦ rw q refl | inr q ↦ absurd (ground arith) ]

module _ (h : HashSet) where
  -- The world with the new configuration `dsess` of the session `k`.
  abbrev reconfigured : Daemon h → ℕ → DSession → World h
  reconfigured d k dsess = record (d.world) { dsess = store d.world.dsess k dsess }

  updated-IsReplaced :
      (d : Daemon h) (k : ℕ) (dsess d' : DSession) (b' : BSession) (bpf : Bpf)
      → IsConfigured dsess
      → dsess.local.discr ≡ k
      → dsess.src.port ≡ (d.world.dsess k).src.port
      → IsValid d' b'
      → SameConfig dsess d'
      → IsReplaced h d (keep h (reconfigured d k dsess) k bpf d' b') k
  updated-IsReplaced d k dsess d' b' bpf c key port valid same =
      let (c', port', key') = SameConfig-IsConfigured dsess d' same c in
      let now = store_same (store d.world.dsess k dsess) k d' in
      let now_b = store_same d.world.bsess k b' in
      record {
        sessions = refl;
        sdir = refl;
        dsess = λ j ne. ground arith;
        bsess = λ j ne. ground arith;
        key = rw now (key' ∙ key);
        configured = rw now c';
        valid = rw (now, now_b) valid;
        port = rw now (port' ∙ port);
      }

  -- The dataplane's update of a session that is there.
  update_sound :
      (e : Env) (d : Daemon h) (dsess : DSession)
      → IsSound h d
      → h.has dsess.local.discr d.world.sessions ≡ true
      → IsConfigured dsess
      → dsess.src.port ≡ (d.world.dsess dsess.local.discr).src.port
      → IsValid dsess (d.world.bsess dsess.local.discr)
      → (w : World h) × (rc : Rc) × (bpf_session_update h e
            (reconfigured d dsess.local.discr dsess)
            dsess
          ≡ some (w, rc))
        × IsReplaced h d w dsess.local.discr
  unfolding bpf_session_update sdir_get_session
  update_sound e d dsess sound on c port valid =
      let k = dsess.local.discr in
      let w = reconfigured d k dsess in
      let b = d.world.bsess k in
      let known : h.has k d.world.sdir ≡ true = sound.mirrored k ∙ on in
      let is_fine = update_session-IsFine b.bstate e w.bpf dsess b valid refl in
      elim (Option-cases (update_session b.bstate e w.bpf dsess b)) [
        | inl n ↦ absurd (rw n at is_fine)
        | inr ((bpf, d', b', rc), q) ↦
            let valid' : IsValid d' b' = rw q at is_fine in
            let same = update_session-SameConfig b.bstate e w.bpf bpf dsess d' b b' rc q in
            (
              keep h w k bpf d' b',
              rc,
              rw (known, bpf_session_update, sdir_get_session, q) refl,
              updated-IsReplaced d k dsess d' b' bpf c refl port valid' same,
            )
      ]

  -- The round did not abort, left the daemon sound, and every session where it was.
  abbrev pub IsRound : Daemon h → Option (Daemon h × Answer) → Type 0
  IsRound d none = ⊥
  IsRound d (some (d', answer)) = IsSound h d' × (d'.world.sessions ≡ d.world.sessions)

  replaced-IsRound :
      (d : Daemon h) (w : World h) (k : ℕ)
      → IsSound h d
      → h.has k d.world.sessions ≡ true
      → IsReplaced h d w k
      → (bpf : Bpf) → IsSound h (record d { world = record w { bpf = bpf } })
  replaced-IsRound d w k sound on r bpf =
      replaced-IsSound h d (record w { bpf = bpf }) k sound on
        (record {
          sessions = r.sessions;
          sdir = r.sdir;
          dsess = r.dsess;
          bsess = r.bsess;
          key = r.key;
          configured = r.configured;
          valid = r.valid;
          port = r.port;
        })

  either : (P : World h → Type 0) (b : Bool) (w w' : World h) → P w → P w' → P (if b then w else w')
  either P true w w' p q = p
  either P false w w' p q = q

  pub update_changed-IsRound :
      (e : Env) (d : Daemon h) (old dsess : DSession)
      → IsSound h d
      → h.has dsess.local.discr d.world.sessions ≡ true
      → IsConfigured dsess
      → dsess.src.port ≡ (d.world.dsess dsess.local.discr).src.port
      → IsValid dsess (d.world.bsess dsess.local.discr)
      → IsRound d (update_changed h e d old dsess)
  unfolding update_changed
  update_changed-IsRound e d old dsess sound on c port valid =
      let (w, rc, q, r) = update_sound e d dsess sound on c port valid in
      let still = replaced-IsRound d w dsess.local.discr sound on r in
      elim (Rc-cases rc) [
        | inr (x, f) ↦ rw (q, f, update_changed) (still w.bpf, r.sessions)
        | inl f ↦
            rw (q, f, update_changed)
              (either (λ x. IsSound h (record d { world = x }) × (x.sessions ≡ d.world.sessions)) _
                _ w (still _, r.sessions) (still w.bpf, r.sessions))
      ]
