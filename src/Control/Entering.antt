-- ===== src/Control/Entering.antt =====
-- What a session that was added is, and what a failure leaves.
use bbdd.Base.{
  ℕ, ◌≤◌, ◌≡◌, ◌≢◌, inl, inr, refl, ap, sym, ◌∙◌, true, false, Option, none, some, List, arith,
  ◌==◌, if◌then◌else◌, HashSet, Bool-cases,
}
use bbdd.Wire.{hton16}
use bbdd.Session.{DSession}
use bbdd.Bpf.State.{Env, BSession, ok, on_hold}
use bbdd.Bpf.Directory.{World, store}
use bbdd.Bpf.Members.{fresh_bsess, zero_bdata}
use bbdd.Bpf.Membership.{IsAdded}
use bbdd.Daemon.Sport.{Word, sport_put}
use bbdd.Daemon.Ports.{IsBitmap, IsGiven, taken, sport_put-frees}
use bbdd.Control.Configured.{IsConfigured}
use bbdd.Bpf.Invariant.{IsValid}
use bbdd.Control.Dirs.{SameDirs}
use bbdd.Control.Members.{Daemon, Answer, done, failed, Failure, undo_add, sess_dir_del}

module _ (h : HashSet) where
  -- Nothing was added: the directories and the ports are as before, and so are the sessions.
  pub record IsUndone (d d' : Daemon h) (discr : ℕ) : Type 0 where
    pub sessions : (j : ℕ) → h.has j d'.world.sessions ≡ h.has j d.world.sessions
    pub sdir : d'.world.sdir ≡ d.world.sdir
    pub dsess : (j : ℕ) → j ≢ discr → d'.world.dsess j ≡ d.world.dsess j
    pub bsess : d'.world.bsess ≡ d.world.bsess
    pub ports : (q : ℕ) → 49152 ≤ q → taken d'.spa q ≡ taken d.spa q
    pub bitmap : IsBitmap d'.spa

  -- The session is there, in both directories, with a port of its own.
  pub record IsThere (d d' : Daemon h) (discr port : ℕ) : Type 0 where
    pub sessions :
        (j : ℕ)
        → h.has j d'.world.sessions ≡ (if discr == j then true else h.has j d.world.sessions)
    pub sdir : (j : ℕ) → h.has j d'.world.sdir ≡ (if discr == j then true else h.has j d.world.sdir)
    pub configured : IsConfigured (d'.world.dsess discr)
    pub key : (d'.world.dsess discr).local.discr ≡ discr
    pub on_hold : (d'.world.bsess discr).bstate ≡ on_hold
    pub valid : IsValid (d'.world.dsess discr) (d'.world.bsess discr)
    pub dsess : (j : ℕ) → j ≢ discr → d'.world.dsess j ≡ d.world.dsess j
    pub bsess : (j : ℕ) → j ≢ discr → d'.world.bsess j ≡ d.world.bsess j
    pub own_port : (d'.world.dsess discr).src.port ≡ hton16 port
    pub given : IsGiven d.spa d'.spa port

  abbrev pub IsAtomic : Daemon h → ℕ → Option (Daemon h × Answer) → Type 0
  IsAtomic d discr none = ⊥
  IsAtomic d discr (some (d', done)) = (port : ℕ) × IsThere d d' discr port
  IsAtomic d discr (some (d', failed x)) = IsUndone d d' discr

  -- What a port that was given back leaves.
  pub put_back :
      (occ occ₁ : List Word) (port : ℕ)
      → IsBitmap occ
      → IsGiven occ occ₁ port
      → (occ₂ : List Word) × (sport_put occ₁ port ≡ some occ₂)
        × ((q : ℕ) → 49152 ≤ q → taken occ₂ q ≡ taken occ q)
        × IsBitmap occ₂
  put_back occ occ₁ port b g =
      let (occ₂, p, b₂, m) = sport_put-frees occ₁ port g.bitmap g.low g.high in
      (occ₂, p, λ q lo. ground (arith, m q lo, g.marked q lo, g.was_free), b₂)

  del-add : (k j : ℕ) (t : h.Table) → h.has k t ≡ false → h.has j (h.del k (h.add k t)) ≡ h.has j t
  del-add k j t new =
      let there = h.has_add k k t new in
      let on : h.has k (h.add k t) ≡ true = ground arith in
      ground (arith, h.has_add k j t new, h.has_del k j (h.add k t) on)

  pub undo_add-IsUndone :
      (d d₁ : Daemon h) (discr port : ℕ) (x : Failure)
      → IsBitmap d.spa
      → IsGiven d.spa d₁.spa port
      → h.has discr d.world.sessions ≡ false
      → d₁.world.sessions ≡ h.add discr d.world.sessions
      → d₁.world.sdir ≡ d.world.sdir
      → ((j : ℕ) → j ≢ discr → d₁.world.dsess j ≡ d.world.dsess j)
      → d₁.world.bsess ≡ d.world.bsess
      → IsAtomic d discr (undo_add h d₁ discr port x)
  unfolding undo_add sess_dir_del
  undo_add-IsUndone d d₁ discr port x b g new s t ds bs =
      let (occ, p, m, b₂) = put_back d.spa d₁.spa port b g in
      rw p (record {
        sessions = λ j. rw s (del-add discr j d.world.sessions new);
        sdir = t;
        dsess = ds;
        bsess = bs;
        ports = m;
        bitmap = b₂;
      })

  -- What is known of the daemon when the new session is in its directory.
  pub record IsEntered (d d₁ : Daemon h) (discr port : ℕ) : Type 0 where
    pub bitmap : IsBitmap d.spa
    pub has_port : IsGiven d.spa d₁.spa port
    pub new : h.has discr d.world.sessions ≡ false
    pub added : d₁.world.sessions ≡ h.add discr d.world.sessions
    pub sdir : d₁.world.sdir ≡ d.world.sdir
    pub unknown : h.has discr d.world.sdir ≡ false
    pub same : (j : ℕ) → j ≢ discr → d₁.world.dsess j ≡ d.world.dsess j
    pub same_bpf : d₁.world.bsess ≡ d.world.bsess

  abbrev pub entered : Daemon h → DSession → ℕ → World h
  entered d dsess discr = record (d.world) { dsess = store d.world.dsess discr dsess }

  pub stored :
      (d d' : Daemon h) (dsess : DSession) (discr j : ℕ)
      → d'.world.dsess ≡ (entered d dsess discr).dsess
      → (d'.world.dsess discr ≡ dsess) × (j ≢ discr → d'.world.dsess j ≡ d.world.dsess j)
  stored d d' dsess discr j q = (rw q (ground arith), λ ne. rw q (ground arith))

  -- A session of the dataplane that is on hold, and fresh but for that.
  held-IsValid :
      (dsess : DSession) (b : BSession) (discr final_slot periodic_slot : ℕ)
      → IsConfigured dsess
      → dsess.remote.timing.detect_mult ≢ 0
      → b ≡ record (fresh_bsess discr zero_bdata final_slot periodic_slot) { hold = true }
      → IsValid dsess b × (b.bstate ≡ on_hold)
  held-IsValid dsess b discr final_slot periodic_slot c mult q = rw q (
    record {
      has_shwait = λ z. cc;
      has_hold = λ z. refl;
      queued = λ z. cc;
      eff_mult = λ z. absurd (z refl);
      dfr_mult = λ z. absurd (z refl);
      waits = λ z. cc;
      local_mult = c.mult_set;
      remote_mult = mult;
    },
    refl,
  )

  there_or :
      (k j : ℕ) (t t' : h.Table)
      → h.has k t' ≡ true
      → (j ≢ k → h.has j t' ≡ h.has j t)
      → h.has j t' ≡ (if k == j then true else h.has j t)
  there_or k j t t' on off = elim (Bool-cases (k == j)) [
    | inl q ↦ let e : k ≡ j = ground arith in rw (q, sym e) on
    | inr q ↦ rw q (off (ground arith))
  ]

  pub added-IsThere :
      (d d₁ : Daemon h) (e : Env) (dsess : DSession) (discr port final_slot periodic_slot : ℕ)
      (w : World h)
      → IsEntered d d₁ discr port
      → IsConfigured dsess
      → dsess.remote.timing.detect_mult ≢ 0
      → dsess.src.port ≡ hton16 port
      → dsess.local.discr ≡ discr
      → IsAdded h e (entered d₁ dsess discr) dsess (some (w, ok))
      → SameDirs h
          (entered d₁ dsess discr)
          (fresh_bsess dsess.local.discr zero_bdata final_slot periodic_slot)
          (some (w, ok))
      → IsThere d (record d₁ { world = w }) discr port
  added-IsThere d d₁ e dsess discr port final_slot periodic_slot w v c mult p key
        (a₁, a₂, a₃, a₄, a₅, a₆, a₇) (s, t, u) =
      let new = stored d₁ (record d₁ { world = w }) dsess discr discr t in
      let (valid, held) =
        held-IsValid dsess (w.bsess discr) discr final_slot periodic_slot c mult
          (rw key at (u refl)) in
      record {
        sessions = λ j. rw (s ∙ v.added) (h.has_add discr j d.world.sessions v.new);
        sdir = λ j.
            there_or discr j d.world.sdir w.sdir (rw key at a₁)
              (λ ne. a₅ j (rw key ne) ∙ ap (h.has j) v.sdir);
        configured = rw new.0 c;
        key = rw new.0 key;
        on_hold = held;
        valid = rw new.0 valid;
        dsess = λ j ne. (stored d₁ (record d₁ { world = w }) dsess discr j t).1 ne ∙ v.same j ne;
        bsess = λ j ne. a₆ j (rw key ne) ∙ ap (λ f. f j) v.same_bpf;
        own_port = rw new.0 p;
        given = v.has_port;
      }
