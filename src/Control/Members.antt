-- ===== src/Control/Members.antt =====
-- src/bbdd-d.c, src/bbdd-sess.c: sessions are added, changed and deleted on request.
--
-- The daemon has the directories, the map of the source ports that are taken, and what it has told
-- the peer that asked. Draws of random numbers, the answers of malloc and the addresses of new slots
-- are arguments. `none` is an abort.
use bbdd.Base.{
  ℕ, Bool, true, false, not, ◌&&◌, Option, none, some, List, [], ◌∷◌, ◌==◌, if◌then◌else◌, ◌>>=◌,
  HashSet,
}
use bbdd.Wire.{hton16, ntoh16}
use bbdd.Wire.Packet.{down, diag_nothing, diag_down}
use bbdd.Session.{DSession, SessFlags, Timing}
use bbdd.Bpf.State.{Env, Error, ok, err}
use bbdd.Bpf.Update.{slow_interval_us}
use bbdd.Bpf.Directory.{World, store, find_session}
use bbdd.Bpf.Members
use bbdd.Daemon.Sport.{Word, sport_get, sport_put}
use bbdd.Control.State.{CSession, Libs, CError}
use bbdd.Control.Validate.{refused, fine}
use bbdd.Control.Apply.{apply_c, no_addr, given}

-- Why a request failed, and what it is answered.
pub data Failure : Type 0 where
  duplicate_session no_session no_port no_memory no_match too_many went_away no_discr : Failure
  deletes_failed : ℕ → Failure
  bad_request : CError → Failure
  bpf_failed : Error → Failure

pub data Answer : Type 0 where
  done : Answer
  failed : Failure → Answer

-- The loop that draws a discriminator, over the draws that it makes.
unfoldable pub get_unique_discr : (ℕ → Bool) → List ℕ → Option ℕ
get_unique_discr has [] = none
get_unique_discr has (draw ∷ draws) =
    let rest = get_unique_discr has draws in if not (draw == 0) && has draw then rest else some draw

abbrev pub no_flags : SessFlags
no_flags = record { multihop = false; cpi = false; passive = false; shutdown = false }

-- A new session before the request is applied.
unfoldable pub new_dsess : ℕ → ℕ → DSession
new_dsess discr sport =
    let timing : Timing = record {
      detect_mult = 1;
      min_tx_us = slow_interval_us;
      min_rx_us = slow_interval_us;
    } in
    record {
      src = record no_addr { port = hton16 sport };
      dst = no_addr;
      name = [];
      hold_time_us = 0;
      ttl = 255;
      ifindex = 0;
      vrf_ifindex = 0;
      user_remote_discr = 0;
      vrf_table = 0;
      local = record {
        flags = no_flags;
        discr = discr;
        timing = timing;
        end = record { state = down; diag = diag_down };
      };
      remote = record {
        flags = no_flags;
        discr = 0;
        timing = timing;
        end = record { state = down; diag = diag_nothing };
      };
    }

module _ (h : HashSet) where
  pub record Daemon : Type 0 where
    pub world : World h
    pub spa : List Word

  -- bbdd_sess_dir_add_session, when there is memory
  unfoldable pub sess_dir_add : World h → DSession → World h
  sess_dir_add w dsess = record w {
    sessions = h.add dsess.local.discr w.sessions;
    dsess = store w.dsess dsess.local.discr dsess;
  }

  unfoldable pub sess_dir_del : World h → ℕ → World h
  sess_dir_del w discr = record w { sessions = h.del discr w.sessions }

  -- The labels `sess_dir_del_session` and `put_port`.
  unfoldable pub undo_add : Daemon → ℕ → ℕ → Failure → Option (Daemon × Answer)
  undo_add d discr sport x = sport_put d.spa sport >>= λ spa.
      some (record { world = sess_dir_del d.world discr; spa = spa }, failed x)

  -- The session is in the directory, and the request has been applied to it.
  unfoldable pub add_applied : Env → Daemon → DSession → ℕ → ℕ → ℕ → ℕ → Option (Daemon × Answer)
  add_applied e d dsess discr sport final_slot periodic_slot =
      let w = record (d.world) { dsess = store d.world.dsess discr dsess } in
      Members.session_add h e w dsess final_slot periodic_slot >>= λ r. elim r.1 [
        | err x ↦ undo_add (record d { world = r.0 }) discr sport (bpf_failed x)
        | ok ↦ some (record d { world = r.0 }, done)
      ]

  unfoldable pub add_with_port :
      Libs → Env → Bool → Daemon → CSession → ℕ → ℕ → ℕ → Option (Daemon × Answer)
  add_with_port l e false d csess sport final_slot periodic_slot =
      sport_put d.spa sport >>= λ spa. some (record d { spa = spa }, failed no_memory)
  add_with_port l e true d csess sport final_slot periodic_slot =
      let discr = given csess.discr 0 in
      let fresh = new_dsess discr sport in
      let d₁ = record d { world = sess_dir_add d.world fresh } in
      apply_c l fresh csess >>= λ r. elim r [
        | refused x ↦ undo_add d₁ discr sport (bad_request x)
        | fine dsess ↦ add_applied e d₁ dsess discr sport final_slot periodic_slot
      ]

  -- `bbdd_d_session_add`
  unfoldable pub d_session_add :
      Libs → Env → Bool → Daemon → CSession → ℕ → ℕ → Option (Daemon × Answer)
  d_session_add l e room d csess final_slot periodic_slot = elim (sport_get d.spa) [
    | none ↦ some (d, failed no_port)
    | some (spa, sport) ↦
        add_with_port l e room (record d { spa = spa }) csess sport final_slot periodic_slot
  ]

  -- The request has been dissected. `none` also when the draws run out.
  unfoldable pub handle_session_add :
      Libs → Env → Bool → List ℕ → Daemon → CSession → ℕ → ℕ → Option (Daemon × Answer)
  handle_session_add l e room draws d csess final_slot periodic_slot = elim csess.discr [
    | none ↦ get_unique_discr (λ k. h.has k d.world.sessions) draws >>= λ discr.
        d_session_add l e room d (record csess { discr = some discr }) final_slot periodic_slot
    | some discr ↦
        if h.has discr d.world.sessions
        then some (d, failed duplicate_session)
        else d_session_add l e room d csess final_slot periodic_slot
  ]

  unfoldable pub del_one : Env → Daemon → ℕ → Option (Daemon × Answer)
  del_one e d discr = elim (find_session h d.world discr) [
    | none ↦ some (d, failed no_session)
    | some dsess ↦ Members.session_del h e d.world discr >>= λ w.
        sport_put d.spa (ntoh16 dsess.src.port) >>= λ spa.
        some (record { world = sess_dir_del w discr; spa = spa }, done)
  ]
