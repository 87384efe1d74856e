-- ===== src/Control/Serving.antt =====
-- The requests, one after the other.
use bbdd.Base.{
  length, [], ◌∷◌, ◌+◌, ℕ, ◌≡◌, ◌≢◌, ◌⊎◌, inl, inr, refl, ap, sym, ◌∙◌, Bool, true, false, Option,
  none, some, List, HashSet, Bool-cases, Option-cases,
}
use bbdd.Session.{DSession}
use bbdd.Bpf.State.{Env}
use bbdd.Bpf.Directory.{find_session}
use bbdd.Control.Select.{select_sessions}
use bbdd.Control.State.{CError, CSession, Libs}
use bbdd.Control.Apply.{apply_c}
use bbdd.Control.Applied.{apply_c-ne-none}
use bbdd.Control.Validate.{Checked, refused, fine}
use bbdd.Control.Configured.{IsKin, apply_c-IsConfigured}
use bbdd.Control.Requests.{
  set_one, set_loop, check_bulk, handle_session_set, del_loop, handle_session_del,
}
use bbdd.Control.Deleting.{del_one-IsSound}
use bbdd.Control.Setting.{IsRound, update_changed-IsRound, changed-IsValid}
use bbdd.Control.Sound.{IsSound, IsSoundAfter}
use bbdd.Control.Members.{Daemon, Answer, done, failed, del_one}

same_key :
    (d d' : DSession) (k : ℕ)
    → d.local.discr ≡ k
    → d.local.discr ≢ 0
    → IsKin d d'
    → d'.local.discr ≡ k
same_key d d' k q set kin = elim kin.discr [ inl z ↦ absurd (set z) | inr e ↦ e ∙ q ]

pub Checked-cases :
    {A : Type 0} (m : Checked A) → ((x : CError) × (m ≡ refused x)) ⊎ ((a : A) × (m ≡ fine a))
Checked-cases (refused x) = inl (x, refl)
Checked-cases (fine a) = inr (a, refl)

module _ (h : HashSet) where
  round-IsSound : (d : Daemon h) (m : Option (Daemon h × Answer)) → IsRound h d m → IsSoundAfter h m
  round-IsSound d none r = r
  round-IsSound d (some (d', answer)) r = r.0

  pub set_one-IsRound :
      (l : Libs) (e : Env) (d : Daemon h) (change : CSession) (k : ℕ)
      → IsSound h d
      → h.has k d.world.sessions ≡ true
      → change.dst.unset ≡ false
      → IsRound h d (set_one h l e d change (d.world.dsess k))
  unfolding set_one
  set_one-IsRound l e d change k sound on set =
      let old = d.world.dsess k in
      let v = sound.sessions k on in
      elim (Option-cases (apply_c l old change)) [
        | inl n ↦ absurd (apply_c-ne-none l old change set n)
        | inr (refused x, q) ↦ rw (q, set_one) (sound, refl)
        | inr (fine dsess, q) ↦
            let (conf, kin) = apply_c-IsConfigured l old change dsess q in
            let key : dsess.local.discr ≡ k =
              same_key old dsess k v.key v.configured.discr_set kin in
            rw (q, set_one)
              (update_changed-IsRound h e d old dsess sound (rw key on) conf
                (kin.src_port ∙ ap (λ x. (d.world.dsess x).src.port) (sym key))
                (changed-IsValid old dsess (d.world.bsess dsess.local.discr) (rw key v.valid) conf
                  kin.remote_timing))
      ]

  set_loop-IsSound :
      (l : Libs) (e : Env) (change : CSession) (discrs : List ℕ) (set : Bool) (d : Daemon h)
      → IsSound h d
      → change.dst.unset ≡ false
      → IsSoundAfter h (set_loop h l e change discrs set d)
  unfolding set_loop find_session
  set_loop-IsSound l e change [] set d sound addr = sound
  set_loop-IsSound l e change (k ∷ discrs) set d sound addr =
      elim (Bool-cases (h.has k d.world.sessions)) [
        | inr off ↦
            rw (off, set_loop, find_session) (set_loop-IsSound l e change discrs set d sound addr)
        | inl on ↦
            let round = set_one-IsRound l e d change k sound on addr in
            elim (Option-cases (set_one h l e d change (d.world.dsess k))) [
              | inl n ↦ absurd (rw n at round)
              | inr ((d', failed x), q) ↦ rw (on, set_loop, find_session, q) (rw q at round).0
              | inr ((d', done), q) ↦
                  rw (on, set_loop, find_session, q)
                    (set_loop-IsSound l e change discrs true d' (rw q at round).0 addr)
            ]
      ]

  pub handle_session_set-IsSound :
      (l : Libs) (e : Env) (d : Daemon h) (select change : CSession) (bulk : Bool)
      → IsSound h d
      → change.dst.unset ≡ false
      → IsSoundAfter h (handle_session_set h l e d select change bulk)
  unfolding handle_session_set
  handle_session_set-IsSound l e d select change bulk sound addr =
      elim (Checked-cases (select_sessions h l select d.world)) [
        | inl (x, q) ↦ rw (q, handle_session_set) sound
        | inr (discrs, q) ↦ elim (Option-cases (check_bulk bulk (length discrs))) [
          | inr (x, r) ↦ rw (q, r, handle_session_set) sound
          | inl r ↦
              rw (q, r, handle_session_set) (set_loop-IsSound l e change discrs false d sound addr)
        ]
      ]

  abbrev StaysSound : Option (Daemon h × ℕ) → Type 0
  StaysSound none = ⊥
  StaysSound (some (d, errors)) = IsSound h d

  del_loop-IsSound :
      (e : Env) (discrs : List ℕ) (errors : ℕ) (d : Daemon h)
      → IsSound h d
      → StaysSound (del_loop h e discrs errors d)
  unfolding del_loop
  del_loop-IsSound e [] errors d sound = sound
  del_loop-IsSound e (k ∷ discrs) errors d sound =
      let one = del_one-IsSound h e d k sound in
      elim (Option-cases (del_one h e d k)) [
        | inl n ↦ absurd (rw n at one)
        | inr ((d', failed x), q) ↦
            rw (q, del_loop) (del_loop-IsSound e discrs (errors + 1) d' (rw q at one))
        | inr ((d', done), q) ↦ rw (q, del_loop) (del_loop-IsSound e discrs errors d' (rw q at one))
      ]

  pub handle_session_del-IsSound :
      (l : Libs) (e : Env) (d : Daemon h) (select : CSession) (bulk : Bool)
      → IsSound h d
      → IsSoundAfter h (handle_session_del h l e d select bulk)
  unfolding handle_session_del
  handle_session_del-IsSound l e d select bulk sound =
      elim (Checked-cases (select_sessions h l select d.world)) [
        | inl (x, q) ↦ rw (q, handle_session_del) sound
        | inr (discrs, q) ↦ elim (Option-cases (check_bulk bulk (length discrs))) [
          | inr (x, r) ↦ rw (q, r, handle_session_del) sound
          | inl r ↦
              let loop = del_loop-IsSound e discrs 0 d sound in
              elim (Option-cases (del_loop h e discrs 0 d)) [
                | inl n ↦ absurd (rw n at loop)
                | inr (s, u) ↦ rw (q, r, u, handle_session_del) (rw u at loop)
              ]
        ]
      ]
