-- ===== src/Bpf/Events.antt =====
-- src/bbdd-bpf.c: changes of a session, and the events of the ring buffer, for the session they name.
use bbdd.Base.{ℕ, Option, none, some, ◌>>=◌, HashSet}
use bbdd.Wire.{ntoh32}
use bbdd.Wire.Packet.{BfdPkt}
use bbdd.Session.{DSession}
use bbdd.Bpf.State.{Env, Bpf, BSession, BState, on_hold, Rc, ok, err, no_bpf_session}
use bbdd.Bpf.Update.{session_update}
use bbdd.Bpf.Config.{handle_session_update}
use bbdd.Bpf.Receive.{handle_packet, handle_timeout}
use bbdd.Bpf.Directory.{World, sdir_get_session, find_session, keep}

-- `bbdd_bpf_session_update`, after the call that takes over the configuration.
unfoldable pub update_rest :
    Rc → Env → Bpf → DSession → BSession → Option (Bpf × DSession × BSession × Rc)
update_rest (err x) e bpf d b = some (bpf, d, b, err x)
update_rest ok e bpf d b = session_update e bpf d b >>= λ s. some (s.0, d, s.1, s.2)

unfoldable pub update_running :
    Env → Bpf → DSession → BSession → Option (Bpf × DSession × BSession × Rc)
update_running e bpf d b = handle_session_update e bpf d b >>= λ r. update_rest r.3 e r.0 r.1 r.2

-- On hold the configuration stays with the daemon.
unfoldable pub update_session :
    BState → Env → Bpf → DSession → BSession → Option (Bpf × DSession × BSession × Rc)
update_session on_hold e bpf d b = some (bpf, d, b, ok)
update_session _ e bpf d b = update_running e bpf d b

module _ (h : HashSet) where
  unfoldable pub bpf_session_update : Env → World h → DSession → Option (World h × Rc)
  bpf_session_update e w d = elim (sdir_get_session h w d.local.discr) [
    | none ↦ some (w, err no_bpf_session)
    | some b ↦
        update_session b.bstate e w.bpf d b >>= λ r. some (keep h w d.local.discr r.0 r.1 r.2, r.3)
  ]

  -- `bbdd_bpf_handle_packet`: a session of the daemon that BPF does not know is an abort.
  unfoldable pub rb_packet : Env → World h → ℕ → BfdPkt → ℕ → ℕ → Option (World h)
  rb_packet e w discr packet wire_len ttl = elim (find_session h w discr) [
    | none ↦ some w
    | some d ↦ sdir_get_session h w d.local.discr >>= λ b.
        handle_packet e w.bpf d b packet wire_len ttl >>= λ r. some (keep h w discr r.0 r.1 r.2)
  ]

  unfoldable pub rb_handle_unx_pkt : Env → World h → BfdPkt → ℕ → ℕ → Option (World h)
  rb_handle_unx_pkt e w packet wire_len ttl =
      rb_packet e w (ntoh32 packet.your_disc) packet wire_len ttl

  unfoldable pub rb_handle_timeout : Env → World h → ℕ → Option (World h)
  rb_handle_timeout e w discr = elim (find_session h w discr) [
    | none ↦ some w
    | some d ↦ sdir_get_session h w discr >>= λ b.
        handle_timeout e w.bpf d b >>= λ r. some (keep h w discr r.0 r.1 r.2)
  ]
