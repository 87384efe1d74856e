-- ===== src/Prog/Stuck.antt =====
-- Two systems that have timed out at the same time, and that know each other's discriminators from
-- their configuration.
use bbdd.Base.{ℕ, ◌<◌, ◌≡◌, ◌≢◌, ◌∙◌, refl, Bool, true, false, some, ◌∷◌, arith, ltb, ◌==◌}
use bbdd.Wire.{ntoh32, hton32}
use bbdd.Wire.Swap.{swap32_swap}
use bbdd.Wire.Packet.{BfdPkt, bfd_pkt_version, sizeof_bfd_pkt}
use bbdd.Session.{DSession, Timing}
use bbdd.Bpf.State.{Env, Bpf, BSession, SessionConfig, stable, Rc, Frame, sendmsg}
use bbdd.Bpf.Packet.{
  make_packet, rx_expect_flags, rx_expect_flags_bstate, session_flags, inject_flags,
  inject_flags_bstate,
}
use bbdd.Bpf.Inject.{session_inject_pkt, pick_bdata, inject_bdata, session_send, make_frame}
use bbdd.Bpf.Update.{session_config}
use bbdd.Bpf.Receive.{expire}
use bbdd.Prog.State.{Prog, Skb, Kernel, emit, bump_sess, rx_packets, add_rx_bytes}
use bbdd.Prog.Receive.{RxDigest, pkt_eq, recv, recv_get_bfd, recv_bfd, recv_known, rearm_timer}

-- Each end knows the other: the timing that it sends, the CPI flag, and the discriminator by
-- configuration.
pub record Knows (d : DSession) (t : Timing) (other : DSession) : Type 0 where
  pub timing : d.remote.timing ≡ t
  pub cpi : d.remote.flags.cpi ≡ other.local.flags.cpi
  pub to_other : d.user_remote_discr ≡ other.local.discr
  pub to_us : other.user_remote_discr ≡ d.local.discr

-- The packet that an end sends after it has timed out.
abbrev pub expired_packet : DSession → Timing → ℕ → BfdPkt
expired_packet other t flags =
    make_packet (expire other).local.discr t (expire other).local.end (expire other).remote.discr
      flags

expired-expects :
    (d other : DSession) (b b' : BSession) (t : Timing)
    → (ifindex tbid fib_flags min_us max_us detect_us flags : ℕ) (rearm : Bool) → Knows d t other
    → b.bstate ≡ stable
    → b'.bstate ≡ stable
    → inject_flags (expire other) b' ≡ some flags
    → expired_packet other t flags
      ≡ (session_config (expire d) b ifindex tbid fib_flags min_us max_us detect_us rearm).rx_expect
unfolding session_config rx_expect_flags rx_expect_flags_bstate session_flags inject_flags
    inject_flags_bstate
expired-expects d other b b' t ifindex tbid fib_flags min_us max_us detect_us flags rearm v s s' f =
    ground arith

pkt_eq_refl : (a : BfdPkt) → pkt_eq a a ≡ true
unfolding pkt_eq
pkt_eq_refl a = ground arith

send-log :
    (e : Env) (bpf : Bpf) (mark tx_ifindex : ℕ) (frame : Frame)
    → (session_send e bpf mark tx_ifindex frame).0.log
      ≡ (sendmsg mark tx_ifindex frame, e.accepts bpf.log (sendmsg mark tx_ifindex frame)) ∷ bpf.log
unfolding session_send
send-log e bpf mark tx_ifindex frame = ground arith

-- The end that has timed out sends the packet.
abbrev pub IsSender : Env → Bpf → DSession → BSession → ℕ → ℕ → Type 0
IsSender e bpf other b' tx_ifindex flags =
    let frame = make_frame (expire other) (expired_packet other b'.eff_data.timing flags) in
    (bpf' : Bpf) × (rc : Rc) × (done : Bool) × (session_inject_pkt e bpf (expire other) b'
        tx_ifindex flags
      ≡ some (bpf', rc))
    × (bpf'.log ≡ (sendmsg b'.gen_id tx_ifindex frame, done) ∷ bpf.log)

stable-IsSender :
    (e : Env) (bpf : Bpf) (other : DSession) (b' : BSession) (tx_ifindex flags : ℕ)
    → b'.bstate ≡ stable
    → b'.eff_data.timing.detect_mult ≢ 0
    → IsSender e bpf other b' tx_ifindex flags
unfolding session_inject_pkt pick_bdata inject_bdata
stable-IsSender e bpf other b' tx_ifindex flags s m =
    let frame = make_frame (expire other) (expired_packet other b'.eff_data.timing flags) in
    let sent = session_send e bpf b'.gen_id tx_ifindex frame in
    let zero_mult : (b'.eff_data.timing.detect_mult == 0) ≡ false = ground arith in
    (
      sent.0,
      sent.1,
      e.accepts bpf.log (sendmsg b'.gen_id tx_ifindex frame),
      rw (s, zero_mult) refl,
      send-log e bpf b'.gen_id tx_ifindex frame,
    )

-- What the program does with a packet that is expected of a session whose timer is not to be armed.
absorbed :
    (k : Kernel) (p : Prog) (discr : ℕ) (d : DSession) (b : BSession)
    → (ifindex tbid fib_flags min_us max_us detect_us : ℕ) (initd : Bool) (bfd : BfdPkt)
      (digest : RxDigest)
    → bfd
      ≡ (session_config (expire d) b ifindex tbid fib_flags min_us max_us detect_us false).rx_expect
    → ltb digest.ttl d.ttl ≡ false
    → recv_known k p discr
        (session_config (expire d) b ifindex tbid fib_flags min_us max_us detect_us false)
        initd
        bfd
        digest
      ≡ emit (emit p (bump_sess discr rx_packets)) (add_rx_bytes discr digest.wire_len)
unfolding recv_known rearm_timer session_config
absorbed k p discr d b ifindex tbid fib_flags min_us max_us detect_us initd bfd digest same ttl =
    rw (same, ttl, pkt_eq_refl _) refl

-- The words of the packet that the program looks at before it knows the session.
expired_packet-fields :
    (d other : DSession) (t : Timing) (flags : ℕ)
    → other.user_remote_discr ≡ d.local.discr
    → d.local.discr < 4294967296
    → let bfd = expired_packet other t flags in
      (bfd_pkt_version bfd ≡ 1)
      × (bfd.length ≡ sizeof_bfd_pkt)
      × (ntoh32 bfd.your_disc ≡ d.local.discr)
unfolding make_packet bfd_pkt_version ntoh32 hton32
expired_packet-fields d other t flags to_us fits =
    (refl, refl, rw to_us (swap32_swap d.local.discr fits))

-- A packet that gets past the first checks, and names a session that both maps have.
recv-known :
    (k : Kernel) (p : Prog) (skb : Skb) (bfd : BfdPkt) (digest : RxDigest) (discr : ℕ)
    (config : SessionConfig) (initd : Bool)
    → recv_get_bfd skb ≡ some (bfd, digest)
    → bfd_pkt_version bfd ≡ 1
    → bfd.length ≡ sizeof_bfd_pkt
    → ntoh32 bfd.your_disc ≡ discr
    → discr ≢ 0
    → p.timer_initd discr ≡ some initd
    → p.config discr ≡ some config
    → (recv k p skb).0 ≡ recv_known k p discr config initd bfd digest
unfolding recv recv_bfd
recv-known k p skb bfd digest discr config initd got version length names set entry conf =
    ground arith

-- Two ends, both stable, have timed out, with each other's discriminators, timing and CPI flag as
-- they are, and the discriminators configured on both. One of them hands a packet to its socket, which
-- says down. When that packet reaches the program of the other, whose map has what that end publishes
-- in the state down, with a TTL that is high enough, then the program counts it and does nothing else:
-- nothing goes into the ring buffer, so that the daemon is not told.
pub expired-absorbs :
    (k : Kernel) (p : Prog) (skb : Skb) (digest : RxDigest) (e : Env) (bpf : Bpf)
    (d other : DSession) (b b' : BSession)
    → (ifindex tbid fib_flags min_us max_us detect_us tx_ifindex flags : ℕ) (initd : Bool)
    → Knows d b'.eff_data.timing other
    → b.bstate ≡ stable
    → b'.bstate ≡ stable
    → b'.eff_data.timing.detect_mult ≢ 0
    → inject_flags (expire other) b' ≡ some flags
    → d.local.discr ≢ 0
    → d.local.discr < 4294967296
    → p.timer_initd d.local.discr ≡ some initd
    → p.config d.local.discr
      ≡ some (session_config (expire d) b ifindex tbid fib_flags min_us max_us detect_us false)
    → recv_get_bfd skb ≡ some (expired_packet other b'.eff_data.timing flags, digest)
    → ltb digest.ttl d.ttl ≡ false
    → IsSender e bpf other b' tx_ifindex flags
      × ((recv k p skb).0
          ≡ emit
              (emit p (bump_sess d.local.discr rx_packets))
              (add_rx_bytes d.local.discr digest.wire_len))
expired-absorbs k p skb digest e bpf d other b b' ifindex tbid fib_flags min_us max_us detect_us
      tx_ifindex flags initd v s s' m f set fits entry config got ttl =
    let t = b'.eff_data.timing in
    let (version, length, names) = expired_packet-fields d other t flags v.to_us fits in
    let same =
      expired-expects d other b b' t ifindex tbid fib_flags min_us max_us detect_us flags false v s
        s' f in
    (
      stable-IsSender e bpf other b' tx_ifindex flags s' m,
      recv-known k p skb _ digest d.local.discr _ initd got version length names set entry config
          ∙ absorbed k p d.local.discr d b ifindex tbid fib_flags min_us max_us detect_us initd _
              digest same ttl,
    )
