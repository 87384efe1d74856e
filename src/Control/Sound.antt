-- ===== src/Control/Sound.antt =====
-- What holds of the daemon between requests.
use bbdd.Base.{ℕ, ◌≤◌, ◌≡◌, ap, ◌∙◌, true, Option, none, some, arith, HashSet}
use bbdd.Wire.{hton16, ntoh16}
use bbdd.Wire.Swap.{ntoh-hton}
use bbdd.Bpf.Invariant.{IsValid}
use bbdd.Daemon.Ports.{IsBitmap, taken}
use bbdd.Control.Configured.{IsConfigured}
use bbdd.Control.Members.{Daemon, Answer}

module _ (h : HashSet) where
  -- A session of the directory, with a port that is taken.
  pub record IsKept (d : Daemon h) (k : ℕ) : Type 0 where
    pub key : (d.world.dsess k).local.discr ≡ k
    pub configured : IsConfigured (d.world.dsess k)
    pub valid : IsValid (d.world.dsess k) (d.world.bsess k)
    pub port : ℕ
    pub low : 49152 ≤ port
    pub high : port ≤ 65535
    pub is_port : (d.world.dsess k).src.port ≡ hton16 port
    pub is_taken : taken d.spa port ≡ true

  -- Every session of the daemon is fit to run, the dataplane has the same sessions, and no two of
  -- them have the same source port.
  pub record IsSound (d : Daemon h) : Type 0 where
    pub bitmap : IsBitmap d.spa
    pub mirrored : (k : ℕ) → h.has k d.world.sdir ≡ h.has k d.world.sessions
    pub sessions : (k : ℕ) → h.has k d.world.sessions ≡ true → IsKept d k
    pub distinct :
        (j k : ℕ)
        → h.has j d.world.sessions ≡ true
        → h.has k d.world.sessions ≡ true
        → (d.world.dsess j).src.port ≡ (d.world.dsess k).src.port
        → j ≡ k

  -- The request did not abort, and left the daemon sound.
  abbrev pub IsSoundAfter : Option (Daemon h × Answer) → Type 0
  IsSoundAfter none = ⊥
  IsSoundAfter (some (d, answer)) = IsSound d

  pub keep-IsKept :
      (d d' : Daemon h) (k : ℕ) (v : IsKept d k)
      → d'.world.dsess k ≡ d.world.dsess k
      → d'.world.bsess k ≡ d.world.bsess k
      → taken d'.spa v.port ≡ true
      → IsKept d' k
  keep-IsKept d d' k v ds bs t = record {
    key = rw ds v.key;
    configured = rw ds v.configured;
    valid = rw (ds, bs) v.valid;
    port = v.port;
    low = v.low;
    high = v.high;
    is_port = rw ds v.is_port;
    is_taken = t;
  }

  pub port_read :
      (d : Daemon h) (k : ℕ) (v : IsKept d k) → ntoh16 (d.world.dsess k).src.port ≡ v.port
  port_read d k v = ap ntoh16 v.is_port ∙ (ntoh-hton v.port).0 (omega (arith, v.high))
