-- ===== src/Control/Growing.antt =====
-- A request to add a session leaves the daemon sound.
use bbdd.Base.{
  ℕ, ◌<◌, ◌≡◌, ◌≢◌, ◌⊎◌, inl, inr, ap, sym, ◌∙◌, Bool, true, false, Option, none, some, arith, ◌==◌,
  if◌then◌else◌, HashSet, Bool-cases,
}
use bbdd.Wire.{hton16, ntoh16}
use bbdd.Wire.Swap.{ntoh-hton}
use bbdd.Bpf.State.{Env}
use bbdd.Daemon.Ports.{taken}
use bbdd.Control.State.{CSession, Libs}
use bbdd.Control.Apply.{given}
use bbdd.Control.Adding.{d_session_add-IsAtomic}
use bbdd.Control.Entering.{IsAtomic, IsUndone, IsThere}
use bbdd.Control.Sound.{IsKept, IsSound, IsSoundAfter, keep-IsKept}
use bbdd.Control.Members.{Daemon, Answer, done, failed, d_session_add}

module _ (h : HashSet) where
  undone-IsSound :
      (d d' : Daemon h) (discr : ℕ)
      → IsSound h d
      → h.has discr d.world.sessions ≡ false
      → IsUndone h d d' discr
      → IsSound h d'
  undone-IsSound d d' discr sound new u =
      let ne : (k : ℕ) → h.has k d.world.sessions ≡ true → k ≢ discr =
        λ k q e. ground (arith, rw e at q) in
      record {
        bitmap = u.bitmap;
        mirrored = λ k. ap (h.has k) u.sdir ∙ sound.mirrored k ∙ sym (u.sessions k);
        sessions = λ k q.
            let has = sym (u.sessions k) ∙ q in
            let v = sound.sessions k has in
            keep-IsKept h d d' k v (u.dsess k (ne k has)) (ap (λ f. f k) u.bsess)
              (u.ports v.port v.low ∙ v.is_taken);
        distinct = λ j k hj hk e.
            let hj' = sym (u.sessions j) ∙ hj in
            let hk' = sym (u.sessions k) ∙ hk in
            sound.distinct j k hj' hk' (
              sym (ap (λ x. x.src.port) (u.dsess j (ne j hj')))
              ∙ e
              ∙ ap (λ x. x.src.port) (u.dsess k (ne k hk')));
      }

  -- A session of before, and the new one.
  old_or_new :
      (d d' : Daemon h) (discr port k : ℕ)
      → IsThere h d d' discr port
      → h.has k d'.world.sessions ≡ true
      → (k ≡ discr) ⊎ ((k ≢ discr) × (h.has k d.world.sessions ≡ true))
  old_or_new d d' discr port k t q = elim (Bool-cases (discr == k)) [
    | inl e ↦ inl (ground arith)
    | inr e ↦ inr (ground arith, ground (arith, t.sessions k))
  ]

  -- No session of before has the new port.
  not_new :
      (d d' : Daemon h) (discr port k : ℕ)
      → IsThere h d d' discr port
      → IsKept h d k
      → k ≢ discr
      → (d'.world.dsess k).src.port ≢ hton16 port
  not_new d d' discr port k t v ne e =
      let same : hton16 v.port ≡ hton16 port =
        sym v.is_port ∙ sym (ap (λ x. x.src.port) (t.dsess k ne)) ∙ e in
      let high : port < 65536 = omega (arith, t.given.high) in
      let high' : v.port < 65536 = omega (arith, v.high) in
      let read : v.port ≡ port =
        sym ((ntoh-hton v.port).0 high') ∙ ap ntoh16 same ∙ (ntoh-hton port).0 high in
      let clash : taken d.spa port ≡ true = rw read at v.is_taken in
      ground (arith, t.given.was_free)

  new-IsKept : (d d' : Daemon h) (discr port : ℕ) → IsThere h d d' discr port → IsKept h d' discr
  new-IsKept d d' discr port t = record {
    key = t.key;
    configured = t.configured;
    valid = t.valid;
    port = port;
    low = t.given.low;
    high = t.given.high;
    is_port = t.own_port;
    is_taken = ground (arith, t.given.marked port t.given.low);
  }

  old-IsKept :
      (d d' : Daemon h) (discr port k : ℕ)
      → IsThere h d d' discr port
      → IsKept h d k
      → k ≢ discr
      → IsKept h d' k
  old-IsKept d d' discr port k t v ne =
      keep-IsKept h d d' k v (t.dsess k ne) (t.bsess k ne)
        (ground (arith, t.given.marked v.port v.low, v.is_taken))

  there-IsSound :
      (d d' : Daemon h) (discr port : ℕ) → IsSound h d → IsThere h d d' discr port → IsSound h d'
  there-IsSound d d' discr port sound t = record {
    bitmap = t.given.bitmap;
    mirrored = λ k.
        t.sdir k ∙ ap (λ x. if discr == k then true else x) (sound.mirrored k) ∙ sym (t.sessions k);
    sessions = λ k q. elim (old_or_new d d' discr port k t q) [
      | inl e ↦ rw e (new-IsKept d d' discr port t)
      | inr (ne, has) ↦ old-IsKept d d' discr port k t (sound.sessions k has) ne
    ];
    distinct = λ j k hj hk e. elim (old_or_new d d' discr port j t hj) [
      | inl a ↦ elim (old_or_new d d' discr port k t hk) [
        | inl b ↦ a ∙ sym b
        | inr (ne, has) ↦ absurd (
            not_new d d' discr port k t (sound.sessions k has) ne
              (sym e ∙ ap (λ x. (d'.world.dsess x).src.port) a ∙ t.own_port))
      ]
      | inr (ne, has) ↦ elim (old_or_new d d' discr port k t hk) [
        | inl b ↦ absurd (
            not_new d d' discr port j t (sound.sessions j has) ne
              (e ∙ ap (λ x. (d'.world.dsess x).src.port) b ∙ t.own_port))
        | inr (ne', has') ↦
            sound.distinct j k has has'
              (sym (ap (λ x. x.src.port) (t.dsess j ne)) ∙ e ∙ ap (λ x. x.src.port) (t.dsess k ne'))
      ]
    ];
  }

  atomic-IsSound :
      (d : Daemon h) (discr : ℕ) (m : Option (Daemon h × Answer))
      → IsSound h d
      → h.has discr d.world.sessions ≡ false
      → IsAtomic h d discr m
      → IsSoundAfter h m
  atomic-IsSound d discr none sound new a = a
  atomic-IsSound d discr (some (d', failed x)) sound new a = undone-IsSound d d' discr sound new a
  atomic-IsSound d discr (some (d', done)) sound new (port, a) =
      there-IsSound d d' discr port sound a

  pub d_session_add-IsSound :
      (l : Libs) (e : Env) (room : Bool) (d : Daemon h) (c : CSession)
      (final_slot periodic_slot : ℕ)
      → IsSound h d
      → h.has (given c.discr 0) d.world.sessions ≡ false
      → c.dst.unset ≡ false
      → IsSoundAfter h (d_session_add h l e room d c final_slot periodic_slot)
  d_session_add-IsSound l e room d c final_slot periodic_slot sound new set =
      atomic-IsSound d (given c.discr 0) _ sound new (
        d_session_add-IsAtomic h l e room d c final_slot periodic_slot sound.bitmap new
          (sound.mirrored (given c.discr 0) ∙ new) set)
