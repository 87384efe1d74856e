-- ===== src/Bpf/Frame.antt =====
-- An update of a session: its frame, and its assertions.
use bbdd.Base.{ℕ, ◌+◌, ◌≡◌, ◌≢◌, Bool, true, false, none, some, arith, Option-cases, inl, inr}
use bbdd.Base.Words.{u32}
use bbdd.Session.{DSession}
use bbdd.Bpf.State.{Env, Bpf, BSession, on_hold, stable, Rc}
use bbdd.Bpf.Inject.{session_inject_pkt, inject_rearm_packet, inject_bdata, pick_bdata}
use bbdd.Bpf.Packet.{inject_flags, inject_flags_bstate}
use bbdd.Bpf.Update.{
  should_inject, session_update, update_deferred, update_now, update_timer, update_inject,
  session_detect_time_us,
}

-- All of a session but its generation and the period of its timer.
abbrev pub SameBut : BSession → BSession → Type 0
SameBut b b' = b' ≡ record b { gen_id = b'.gen_id; timer_period_us = b'.timer_period_us }

update_deferred-frame :
    (e : Env) (bpf bpf' : Bpf) (d : DSession) (b b' : BSession) (rc : Rc)
    → update_deferred e bpf d b ≡ some (bpf', b', rc)
    → b' ≡ b
unfolding update_deferred
update_deferred-frame e bpf bpf' d b b' rc h = ground arith

update_timer-frame :
    (e : Env) (bpf bpf' : Bpf) (d : DSession) (b b' : BSession) (rearm : Bool) (t : ℕ) (rc : Rc)
    → update_timer e bpf d b rearm t ≡ some (bpf', b', rc)
    → b' ≡ record b { timer_period_us = b'.timer_period_us }
unfolding update_timer
update_timer-frame e bpf bpf' d b b' rearm t rc h = ground arith

pub update_now-frame :
    (e : Env) (bpf bpf' : Bpf) (d : DSession) (b b' : BSession) (inject : Bool) (rc : Rc)
    → update_now e bpf d b inject ≡ some (bpf', b', rc)
    → b' ≡ record b { timer_period_us = b'.timer_period_us }
unfolding update_now update_timer
update_now-frame e bpf bpf' d b b' inject rc h = ground arith

pub session_update-frame :
    (e : Env) (bpf bpf' : Bpf) (d : DSession) (b b' : BSession) (rc : Rc)
    → session_update e bpf d b ≡ some (bpf', b', rc)
    → SameBut b b'
unfolding session_update
session_update-frame e bpf bpf' d b b' rc h =
    let bumped = record b { gen_id = u32 (b.gen_id + 1) } in
    let inject = should_inject d b.bstate in
    ground (
      arith,
      update_deferred-frame e bpf bpf' d b b' rc,
      update_now-frame e bpf bpf' d bumped b' inject rc,
    )

-- What an update needs so that it does not abort: it is off hold, and the multipliers are set.
pub record IsReady (d : DSession) (b : BSession) : Type 0 where
  pub off_hold : b.bstate ≢ on_hold
  pub eff_mult : b.bstate ≡ stable → b.eff_data.timing.detect_mult ≢ 0
  pub dfr_mult : b.bstate ≢ stable → b.dfr_data.timing.detect_mult ≢ 0
  pub remote_mult : d.remote.timing.detect_mult ≢ 0

pub inject-ne-none :
    (e : Env) (bpf : Bpf) (d : DSession) (b : BSession) (ifindex flags : ℕ)
    → IsReady d b
    → session_inject_pkt e bpf d b ifindex flags ≢ none
unfolding session_inject_pkt inject_bdata pick_bdata
inject-ne-none e bpf d b ifindex flags v = ground arith

pub rearm-ne-none :
    (e : Env) (bpf : Bpf) (d : DSession) (b : BSession)
    → IsReady d b
    → inject_rearm_packet e bpf d b ≢ none
unfolding inject_rearm_packet
rearm-ne-none e bpf d b v = inject-ne-none e bpf d b bpf.veth_rx_ifindex 0 v

pub flags-ne-none : (d : DSession) (b : BSession) → b.bstate ≢ on_hold → inject_flags d b ≢ none
unfolding inject_flags inject_flags_bstate
flags-ne-none d b h = ground arith

update_timer-ne-none :
    (e : Env) (bpf : Bpf) (d : DSession) (b : BSession) (rearm : Bool) (t : ℕ)
    → IsReady d b
    → update_timer e bpf d b rearm t ≢ none
unfolding update_timer
update_timer-ne-none e bpf d b rearm t v = ground (arith, rearm-ne-none e bpf d b v)

update_inject-ne-none :
    (e : Env) (bpf : Bpf) (d : DSession) (b : BSession) (inject : Bool)
    → IsReady d b
    → update_inject e bpf d b inject ≢ none
unfolding update_inject
update_inject-ne-none e bpf d b true v h = elim (Option-cases (inject_flags d b)) [
  | inl n ↦ flags-ne-none d b v.off_hold n
  | inr (f, s) ↦ inject-ne-none e bpf d b bpf.veth_tx_ifindex f v (ground arith)
]
update_inject-ne-none e bpf d b false v h = cc

update_now-ne-none :
    (e : Env) (bpf : Bpf) (d : DSession) (b : BSession) (inject : Bool)
    → IsReady d b
    → update_now e bpf d b inject ≢ none
unfolding update_now session_detect_time_us
update_now-ne-none e bpf d b inject v = grind (arith, update_inject-ne-none, update_timer-ne-none)

update_deferred-ne-none :
    (e : Env) (bpf : Bpf) (d : DSession) (b : BSession)
    → IsReady d b
    → update_deferred e bpf d b ≢ none
unfolding update_deferred
update_deferred-ne-none e bpf d b v = ground (arith, flags-ne-none d b v.off_hold)

pub session_update-ne-none :
    (e : Env) (bpf : Bpf) (d : DSession) (b : BSession)
    → IsReady d b
    → session_update e bpf d b ≢ none
unfolding session_update
session_update-ne-none e bpf d b v = ground (
  arith,
  update_deferred-ne-none e bpf d b v,
  update_now-ne-none e bpf d (record b { gen_id = u32 (b.gen_id + 1) }) (should_inject d b.bstate)
      (record {
        off_hold = v.off_hold;
        eff_mult = v.eff_mult;
        dfr_mult = v.dfr_mult;
        remote_mult = v.remote_mult;
      }),
)
