-- ===== src/Control/Requests.antt =====
-- src/bbdd-d.c: changing and deleting the sessions that a request describes, and the requests of
-- bfdd. A request has been dissected; what is told to the peer is the answer.
use bbdd.Base.{
  ℕ, ◌+◌, Bool, true, false, not, ◌&&◌, Option, none, some, List, [], ◌∷◌, ◌==◌, if◌then◌else◌,
  ◌>>=◌, HashSet, length, ltb,
}
use bbdd.Session.{DSession}
use bbdd.Bpf.State.{Env, ok, err, note, state_changed}
use bbdd.Bpf.Directory.{store, find_session}
use bbdd.Bpf.Members.{session_is_on_hold}
use bbdd.Bpf.Events.{bpf_session_update}
use bbdd.Control.State.{CSession, Libs}
use bbdd.Control.Validate.{refused, fine}
use bbdd.Control.Apply.{apply_c, is_changed}
use bbdd.Control.Select.{select_sessions}
use bbdd.Control.Members.{
  Daemon, Answer, done, failed, Failure, no_match, too_many, went_away, bad_request, bpf_failed,
  deletes_failed, del_one,
}

unfoldable pub check_bulk : Bool → ℕ → Option Failure
check_bulk bulk n =
    if n == 0 then some no_match else if ltb 1 n && not bulk then some too_many else none

module _ (h : HashSet) where
  -- bbdd_bpf_session_update for the session as it now is, and the notice of the change.
  unfoldable pub update_changed : Env → Daemon h → DSession → DSession → Option (Daemon h × Answer)
  update_changed e d old dsess =
      let discr = dsess.local.discr in
      let w = record (d.world) { dsess = store d.world.dsess discr dsess } in
      bpf_session_update h e w dsess >>= λ r. elim r.1 [
        | err x ↦ some (record d { world = r.0 }, failed (bpf_failed x))
        | ok ↦
            let w₁ = r.0 in
            some (
              record d {
                world =
                    if is_changed old dsess && not (session_is_on_hold h w₁ discr)
                    then record w₁ {
                      bpf = note w₁.bpf (state_changed discr (w₁.dsess discr).local);
                    }
                    else w₁;
              },
              done,
            )
      ]

  -- One round of the loop for a session that is there.
  unfoldable pub set_one : Libs → Env → Daemon h → CSession → DSession → Option (Daemon h × Answer)
  set_one l e d change dsess = apply_c l dsess change >>= λ r. elim r [
    | refused x ↦ some (d, failed (bad_request x))
    | fine dsess' ↦ update_changed e d dsess dsess'
  ]

  -- The loop; `set` is whether a session was changed.
  unfoldable pub set_loop :
      Libs → Env → CSession → List ℕ → Bool → Daemon h → Option (Daemon h × Answer)
  set_loop l e change [] set d = some (d, if set then done else failed went_away)
  set_loop l e change (discr ∷ discrs) set d = elim (find_session h d.world discr) [
    | none ↦ set_loop l e change discrs set d
    | some dsess ↦ set_one l e d change dsess >>= λ r. elim r.1 [
      | failed x ↦ some r
      | done ↦ set_loop l e change discrs true r.0
    ]
  ]

  unfoldable pub handle_session_set :
      Libs → Env → Daemon h → CSession → CSession → Bool → Option (Daemon h × Answer)
  handle_session_set l e d select change bulk = elim (select_sessions h l select d.world) [
    | refused x ↦ some (d, failed (bad_request x))
    | fine discrs ↦ elim (check_bulk bulk (length discrs)) [
      | some x ↦ some (d, failed x)
      | none ↦ set_loop l e change discrs false d
    ]
  ]

  -- All the sessions are tried; the number of those that failed.
  unfoldable pub del_loop : Env → List ℕ → ℕ → Daemon h → Option (Daemon h × ℕ)
  del_loop e [] errors d = some (d, errors)
  del_loop e (discr ∷ discrs) errors d = del_one h e d discr >>= λ r. elim r.1 [
    | failed x ↦ del_loop e discrs (errors + 1) r.0
    | done ↦ del_loop e discrs errors r.0
  ]

  unfoldable pub handle_session_del :
      Libs → Env → Daemon h → CSession → Bool → Option (Daemon h × Answer)
  handle_session_del l e d select bulk = elim (select_sessions h l select d.world) [
    | refused x ↦ some (d, failed (bad_request x))
    | fine discrs ↦ elim (check_bulk bulk (length discrs)) [
      | some x ↦ some (d, failed x)
      | none ↦ del_loop e discrs 0 d >>= λ r.
          some (r.0, if r.1 == 0 then done else failed (deletes_failed r.1))
    ]
  ]
