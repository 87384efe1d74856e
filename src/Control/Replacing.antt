-- ===== src/Control/Replacing.antt =====
-- One session of a sound daemon is replaced.
use bbdd.Base.{ℕ, ◌≡◌, ◌≢◌, inl, inr, ap, sym, ◌∙◌, true, arith, ◌==◌, HashSet, Bool-cases}
use bbdd.Bpf.Directory.{World}
use bbdd.Bpf.Invariant.{IsValid}
use bbdd.Control.Configured.{IsConfigured}
use bbdd.Control.Sound.{IsKept, IsSound, keep-IsKept}
use bbdd.Control.Members.{Daemon}

module _ (h : HashSet) where
  -- One session is replaced, and keeps its port.
  pub record IsReplaced (d : Daemon h) (w : World h) (k : ℕ) : Type 0 where
    pub sessions : w.sessions ≡ d.world.sessions
    pub sdir : w.sdir ≡ d.world.sdir
    pub dsess : (j : ℕ) → j ≢ k → w.dsess j ≡ d.world.dsess j
    pub bsess : (j : ℕ) → j ≢ k → w.bsess j ≡ d.world.bsess j
    pub key : (w.dsess k).local.discr ≡ k
    pub configured : IsConfigured (w.dsess k)
    pub valid : IsValid (w.dsess k) (w.bsess k)
    pub port : (w.dsess k).src.port ≡ (d.world.dsess k).src.port

  same_port :
      (d : Daemon h) (w : World h) (k j : ℕ)
      → IsReplaced d w k
      → (w.dsess j).src.port ≡ (d.world.dsess j).src.port
  same_port d w k j r = elim (Bool-cases (j == k)) [
    | inl e ↦ let same : j ≡ k = ground arith in rw same r.port
    | inr e ↦ ap (λ x. x.src.port) (r.dsess j (ground arith))
  ]

  pub replaced-IsSound :
      (d : Daemon h) (w : World h) (k : ℕ)
      → IsSound h d
      → h.has k d.world.sessions ≡ true
      → IsReplaced d w k
      → IsSound h (record d { world = w })
  replaced-IsSound d w k sound on r =
      let has : (j : ℕ) → h.has j w.sessions ≡ true → h.has j d.world.sessions ≡ true =
        λ j q. sym (ap (h.has j) r.sessions) ∙ q in
      let v = sound.sessions k on in
      record {
        bitmap = sound.bitmap;
        mirrored = λ j. ap (h.has j) r.sdir ∙ sound.mirrored j ∙ sym (ap (h.has j) r.sessions);
        sessions = λ j q. elim (Bool-cases (j == k)) [
          | inl e ↦
              let same : j ≡ k = ground arith in
              let new : IsKept h (record d { world = w }) k = record {
                key = r.key;
                configured = r.configured;
                valid = r.valid;
                port = v.port;
                low = v.low;
                high = v.high;
                is_port = r.port ∙ v.is_port;
                is_taken = v.is_taken;
              } in
              rw same new
          | inr e ↦
              let u = sound.sessions j (has j q) in
              keep-IsKept h d (record d { world = w }) j u (r.dsess j (ground arith))
                (r.bsess j (ground arith)) u.is_taken
        ];
        distinct = λ i j hi hj e.
            sound.distinct i j (has i hi) (has j hj)
              (sym (same_port d w k i r) ∙ e ∙ same_port d w k j r);
      }
