-- ===== src/Control/Adding.antt =====
-- A session is added as a whole, or not at all.
use bbdd.Base.{
  ℕ, ◌≡◌, ◌≢◌, inl, inr, refl, ap, ◌∙◌, Bool, true, false, Option, none, some, List, arith, ◌>>=◌,
  HashSet, Option-cases,
}
use bbdd.Wire.{hton16}
use bbdd.Session.{DSession}
use bbdd.Bpf.State.{Env, Rc, ok, err}
use bbdd.Bpf.Directory.{World}
use bbdd.Bpf.Members.{session_add, fresh_bsess, zero_bdata}
use bbdd.Bpf.Membership.{session_add-IsAdded, IsAdded}
use bbdd.Daemon.Sport.{Word}
use bbdd.Daemon.Ports.{IsBitmap, IsGiven, sport_get-gives}
use bbdd.Control.State.{CSession, Libs}
use bbdd.Control.Validate.{refused, fine}
use bbdd.Control.Apply.{apply_c, apply_fields, given}
use bbdd.Control.Configured.{IsConfigured, apply_c-IsConfigured}
use bbdd.Control.Dirs.{SameDirs, session_add-dirs}
use bbdd.Control.Applied.{apply_c-Applied, apply_c-ne-none}
use bbdd.Control.Members.{
  Daemon, done, bpf_failed, bad_request, d_session_add, add_with_port, add_applied, undo_add,
  sess_dir_add, new_dsess,
}
use bbdd.Control.Entering.{
  IsAtomic, IsEntered, added-IsThere, entered, put_back, stored, undo_add-IsUndone,
}

twice : (q : Option ℕ) → given q (given q 0) ≡ given q 0
twice none = refl
twice (some x) = refl

module _ (h : HashSet) where
  added-IsAtomic :
      (d d₁ : Daemon h) (e : Env) (dsess : DSession) (discr port final_slot periodic_slot : ℕ)
      (m : Option (World h × Rc))
      → IsEntered h d d₁ discr port
      → dsess.local.discr ≡ discr
      → IsConfigured dsess
      → dsess.remote.timing.detect_mult ≢ 0
      → dsess.src.port ≡ hton16 port
      → IsAdded h e (entered h d₁ dsess discr) dsess m
      → SameDirs h
          (entered h d₁ dsess discr)
          (fresh_bsess dsess.local.discr zero_bdata final_slot periodic_slot)
          m
      → IsAtomic h d discr (
          m >>= λ r. elim r.1 [
            | err x ↦ undo_add h (record d₁ { world = r.0 }) discr port (bpf_failed x)
            | ok ↦ some (record d₁ { world = r.0 }, done)
          ])
  added-IsAtomic d d₁ e dsess discr port fs ps none v key c mult p a s = a
  added-IsAtomic d d₁ e dsess discr port fs ps (some (w, err x)) v key c mult p (a, a')
        (s, s', s'') =
      undo_add-IsUndone h d (record d₁ { world = w }) discr port (bpf_failed x) v.bitmap v.has_port
        v.new (s ∙ v.added) (a ∙ v.sdir)
        (λ j ne. (stored h d₁ (record d₁ { world = w }) dsess discr j s').1 ne ∙ v.same j ne)
        (a' ∙ v.same_bpf)
  added-IsAtomic d d₁ e dsess discr port fs ps (some (w, ok)) v key c mult p a s =
      (port, added-IsThere h d d₁ e dsess discr port fs ps w v c mult p key a s)

  add_applied-IsAtomic :
      (d d₁ : Daemon h) (e : Env) (dsess : DSession) (discr port final_slot periodic_slot : ℕ)
      → IsEntered h d d₁ discr port
      → dsess.local.discr ≡ discr
      → IsConfigured dsess
      → dsess.remote.timing.detect_mult ≢ 0
      → dsess.src.port ≡ hton16 port
      → IsAtomic h d discr (add_applied h e d₁ dsess discr port final_slot periodic_slot)
  unfolding add_applied
  add_applied-IsAtomic d d₁ e dsess discr port final_slot periodic_slot v key c mult p =
      let w = entered h d₁ dsess discr in
      added-IsAtomic d d₁ e dsess discr port final_slot periodic_slot
        (session_add h e w dsess final_slot periodic_slot) v key c mult p
        (session_add-IsAdded h e w dsess final_slot periodic_slot (rw (key, v.sdir) v.unknown))
        (session_add-dirs h e w dsess final_slot periodic_slot)

  applied_discr :
      (l : Libs) (port : ℕ) (c : CSession) (dsess : DSession)
      → apply_c l (new_dsess (given c.discr 0) port) c ≡ some (fine dsess)
      → dsess.local.discr ≡ given c.discr 0
  unfolding new_dsess apply_fields
  applied_discr l port c dsess q =
      let v = apply_c-Applied l (new_dsess (given c.discr 0) port) c dsess q in
      ap (λ x. x.local.discr) v.result ∙ twice c.discr

  add_with_port-IsAtomic :
      (l : Libs) (e : Env) (room : Bool) (d : Daemon h) (occ : List Word) (c : CSession)
      (port final_slot periodic_slot : ℕ)
      → IsBitmap d.spa
      → IsGiven d.spa occ port
      → h.has (given c.discr 0) d.world.sessions ≡ false
      → h.has (given c.discr 0) d.world.sdir ≡ false
      → c.dst.unset ≡ false
      → IsAtomic h d
          (given c.discr 0)
          (add_with_port h l e room (record d { spa = occ }) c port final_slot periodic_slot)
  unfolding add_with_port sess_dir_add new_dsess
  add_with_port-IsAtomic l e false d occ c port final_slot periodic_slot b g new unknown set =
      let (occ₂, p, m, b₂) = put_back h d.spa occ port b g in
      rw p (record {
        sessions = λ j. refl;
        sdir = refl;
        dsess = λ j ne. refl;
        bsess = refl;
        ports = m;
        bitmap = b₂;
      })
  add_with_port-IsAtomic l e true d occ c port final_slot periodic_slot b g new unknown set =
      let discr = given c.discr 0 in
      let fresh = new_dsess discr port in
      let d₁ : Daemon h = record { world = sess_dir_add h d.world fresh; spa = occ } in
      let v : IsEntered h d d₁ discr port = record {
        bitmap = b;
        has_port = g;
        new = new;
        added = refl;
        sdir = refl;
        unknown = unknown;
        same = λ j ne. ground arith;
        same_bpf = refl;
      } in
      elim (Option-cases (apply_c l fresh c)) [
        | inl n ↦ absurd (apply_c-ne-none l fresh c set n)
        | inr (refused x, q) ↦
            rw q (undo_add-IsUndone h d d₁ discr port (bad_request x) b g new refl refl v.same refl)
        | inr (fine dsess, q) ↦
            let (conf, kin) = apply_c-IsConfigured l fresh c dsess q in
            rw q (
              add_applied-IsAtomic d d₁ e dsess discr port final_slot periodic_slot v
                (applied_discr l port c dsess q) conf (rw kin.remote_timing (ground arith))
                kin.src_port)
      ]

  -- A request to add a session, with a discriminator that neither directory has and a destination that
  -- is not to be removed, while the ports are a bitmap of the right size, is carried out as a whole
  -- or not at all, and does not abort: when it is done, the session is in both directories, on hold,
  -- with all its values set and a source port that was free; when it fails, at whatever step, the
  -- directories and the ports that are taken are as before.
  pub d_session_add-IsAtomic :
      (l : Libs) (e : Env) (room : Bool) (d : Daemon h) (c : CSession)
      (final_slot periodic_slot : ℕ)
      → IsBitmap d.spa
      → h.has (given c.discr 0) d.world.sessions ≡ false
      → h.has (given c.discr 0) d.world.sdir ≡ false
      → c.dst.unset ≡ false
      → IsAtomic h d (given c.discr 0) (d_session_add h l e room d c final_slot periodic_slot)
  unfolding d_session_add
  d_session_add-IsAtomic l e room d c final_slot periodic_slot b new unknown set =
      elim (sport_get-gives d.spa b) [
        | inl (n, full) ↦
            rw (n, d_session_add)
              (record {
                sessions = λ j. refl;
                sdir = refl;
                dsess = λ j ne. refl;
                bsess = refl;
                ports = λ q lo. refl;
                bitmap = b;
              })
        | inr (occ, port, q, g) ↦
            rw (q, d_session_add)
              (add_with_port-IsAtomic l e room d occ c port final_slot periodic_slot b g new unknown
                set)
      ]
