-- ===== src/Bpf/Update.antt =====
-- src/bbdd-bpf.c: the intervals of a session, its entry in the BPF maps, and
-- `__bbdd_bpf_session_update`, which starts a new generation of packets.
use bbdd.Base.{
  ℕ, ◌+◌, ◌*◌, ◌/◌, Bool, true, false, not, ◌&&◌, ◌||◌, Option, none, some, ltb, ◌==◌,
  if◌then◌else◌, max, ◌>>=◌,
}
use bbdd.Base.Words.{u32, u64, uint32_max}
use bbdd.Wire.{n16v}
use bbdd.Wire.Packet.{admindown, down, state_eq, has_final}
use bbdd.Session.{DSession, SessData, af_inet, af_inet6}
use bbdd.Tx
use bbdd.Bpf.State.{
  Env, Bpf, BSession, BData, BState, stable, Rc, ok, err, family_mismatch, unsupported_family,
  config_insert_failed, data_insert_failed, SessionConfig, config_update, config_delete,
  data_insert, data_delete, call, tx_have_capacity,
}
use bbdd.Bpf.Packet.{make_packet, rx_expect_flags, inject_flags}
use bbdd.Bpf.Inject.{session_inject_pkt, inject_rearm_packet, tx_pollout_arm}

-- The source family, or else the destination's (`?:`).
abbrev session_family : DSession → ℕ
session_family dsess = if dsess.src.family == 0 then dsess.dst.family else dsess.src.family

abbrev pub ip_proto_udp : ℕ
ip_proto_udp = 17

unfoldable pub session_config : DSession → BSession → ℕ → ℕ → ℕ → ℕ → ℕ → ℕ → Bool → SessionConfig
session_config dsess bsess ifindex tbid fib_flags min_us max_us detect_us rearm = record {
  fib_lookup = record {
    family = session_family dsess;
    l4_protocol = ip_proto_udp;
    sport = n16v dsess.src.port;
    dport = n16v dsess.dst.port;
    ifindex = ifindex;
    tbid = tbid;
    mark = bsess.gen_id;
    tot_len = 0;
    src = dsess.src;
    dst = dsess.dst;
  };
  bpf_fib_lookup_flags = fib_flags;
  min_interval_us = min_us;
  max_interval_us = max_us;
  detect_time_us = detect_us;
  gen_id = bsess.gen_id;
  admin_down = state_eq dsess.local.end.state admindown;
  rearm_timer = rearm;
  ttl = dsess.ttl;
  rx_expect =
      make_packet dsess.remote.discr dsess.remote.timing dsess.remote.end dsess.local.discr
        (rx_expect_flags dsess bsess);
}

unfoldable pub session_conf_update :
    Env → Bpf → DSession → BSession → ℕ → ℕ → ℕ → ℕ → ℕ → ℕ → Bool → Bpf × Rc
session_conf_update e bpf dsess bsess ifindex tbid fib_flags min_us max_us detect_us rearm =
    let af = session_family dsess in
    if not (af == dsess.dst.family)
    then (bpf, err family_mismatch)
    else if not (af == af_inet || af == af_inet6)
    then (bpf, err unsupported_family)
    else let config =
        session_config dsess bsess ifindex tbid fib_flags min_us max_us detect_us rearm in
      let (bpf', done) = call e bpf (config_update dsess.local.discr config) in
      if done then (bpf', ok) else (bpf', err config_insert_failed)

unfoldable pub session_conf_add : Env → Bpf → DSession → BSession → Bpf × Rc
session_conf_add e bpf dsess bsess =
    let (bpf₁, rc) = session_conf_update e bpf dsess bsess 0 0 0 0 0 0 false in
    elim rc [
      | err x ↦ (bpf₁, err x)
      | ok ↦
          let (bpf₂, done) = call e bpf₁ (data_insert dsess.local.discr) in
          if done
          then (bpf₂, ok)
          else ((call e bpf₂ (config_delete dsess.local.discr)).0, err data_insert_failed)
    ]

-- A failure is only printed.
unfoldable pub session_conf_delete : Env → Bpf → ℕ → Bpf
session_conf_delete e bpf discr =
    (call e (call e bpf (config_delete discr)).0 (data_delete discr)).0

-- The detection time, clamped to 32 bits. Asserts that the remote multiplier is set.
unfoldable pub session_detect_time_us : BData → SessData → Option ℕ
session_detect_time_us eff remote =
    if remote.timing.detect_mult == 0
    then none
    else let t = max eff.timing.min_rx_us remote.timing.min_tx_us in
      some (
        if ltb (uint32_max / remote.timing.detect_mult) t
        then uint32_max
        else u32 (t * remote.timing.detect_mult))

abbrev pub slow_interval_us : ℕ
slow_interval_us = 1000000

-- The bounds between which the send interval is drawn.
unfoldable pub tx_intervals : Bool → BData → SessData → ℕ × ℕ
tx_intervals is_down eff remote =
    if is_down
    then (slow_interval_us, slow_interval_us)
    else let interval_us = max eff.timing.min_tx_us remote.timing.min_rx_us in
      (
        u32 (interval_us * 75) / 100,
        if eff.timing.detect_mult == 1 then u32 (interval_us * 90) / 100 else interval_us,
      )

abbrev is_stable : BState → Bool
is_stable stable = true
is_stable _ = false

-- What an update computes before it touches anything.
unfoldable pub should_inject : DSession → BState → Bool
should_inject dsess bstate =
    not (state_eq dsess.local.end.state admindown && is_stable bstate)
    && not (dsess.remote.discr == 0 && dsess.local.flags.passive)

-- No room: leave the packet to the queue, and the old generation running.
unfoldable pub update_deferred : Env → Bpf → DSession → BSession → Option (Bpf × BSession × Rc)
update_deferred e bpf dsess bsess = do
  bfd_flags ← inject_flags dsess bsess
  let is_final = has_final bfd_flags
  let slot = if is_final then bsess.final_slot else bsess.periodic_slot
  let (tx', fresh) =
      Tx.enqueue e.dl bpf.tx slot is_final dsess.local.discr bpf.veth_tx_ifindex bfd_flags
  let bpf₁ = record bpf {
    tx = tx';
    sk_enq_count = if fresh then u64 (bpf.sk_enq_count + 1) else bpf.sk_enq_count;
  }
  some (tx_pollout_arm e bpf₁, bsess, ok)

-- The last part of an update: arm the detection timer if its period changed.
unfoldable pub update_timer :
    Env → Bpf → DSession → BSession → Bool → ℕ → Option (Bpf × BSession × Rc)
update_timer e bpf dsess bsess rearm detect_us =
    if rearm && not (bsess.timer_period_us == detect_us)
    then (inject_rearm_packet e bpf dsess bsess >>= λ r. some (elim r.1 [
      | err x ↦ (r.0, bsess, err x)
      | ok ↦ (r.0, record bsess { timer_period_us = detect_us }, ok)
    ]))
    else some (bpf, record bsess { timer_period_us = 0 }, ok)

-- Inject the first packet of the generation, whose flags are worked out only then.
unfoldable pub update_inject : Env → Bpf → DSession → BSession → Bool → Option (Bpf × Rc)
update_inject e bpf dsess bsess inject =
    if inject
    then (inject_flags dsess bsess >>= λ bfd_flags.
        session_inject_pkt e bpf dsess bsess bpf.veth_tx_ifindex bfd_flags)
    else some (bpf, ok)

abbrev fib_lookup_direct : ℕ
fib_lookup_direct = 1

abbrev fib_lookup_output : ℕ
fib_lookup_output = 2

abbrev fib_lookup_tbid : ℕ
fib_lookup_tbid = 8

abbrev fib_lookup_src : ℕ
fib_lookup_src = 16

-- The flags of the kernel's route lookup are different bits, so that `|` is a sum.
unfoldable pub session_fib_flags : DSession → ℕ
session_fib_flags dsess =
    (if dsess.vrf_table == 0 then 0 else fib_lookup_direct + fib_lookup_tbid)
    + (if dsess.ifindex == 0 then 0 else fib_lookup_output)
    + (if dsess.src.family == 0 then fib_lookup_src else 0)

-- `gen_id` has been bumped: publish the configuration, inject, and arm the timer.
unfoldable pub update_now : Env → Bpf → DSession → BSession → Bool → Option (Bpf × BSession × Rc)
update_now e bpf dsess bsess inject = do
  let is_down = state_eq dsess.local.end.state down
  let rearm = not (is_down || state_eq dsess.local.end.state admindown)
  detect_us ← session_detect_time_us bsess.eff_data dsess.remote
  let (min_us, max_us) = tx_intervals is_down bsess.eff_data dsess.remote
  let fwd_ifindex = if dsess.ifindex == 0 then bpf.veth_tx_ifindex else dsess.ifindex
  let (bpf₁, rc) =
      session_conf_update e bpf dsess bsess fwd_ifindex dsess.vrf_table (session_fib_flags dsess)
        min_us max_us detect_us rearm
  elim rc [
    | err x ↦ some (bpf₁, bsess, err x)
    | ok ↦ update_inject e bpf₁ dsess bsess inject >>= λ r. elim r.1 [
      | err x ↦ some (r.0, bsess, err x)
      | ok ↦ update_timer e r.0 dsess bsess rearm detect_us
    ]
  ]

-- `__bbdd_bpf_session_update`
unfoldable pub session_update : Env → Bpf → DSession → BSession → Option (Bpf × BSession × Rc)
session_update e bpf dsess bsess =
    let inject = should_inject dsess bsess.bstate in
    if inject && not (tx_have_capacity e bpf)
    then update_deferred e bpf dsess bsess
    else update_now e bpf dsess (record bsess { gen_id = u32 (bsess.gen_id + 1) }) inject
