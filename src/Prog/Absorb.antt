-- ===== src/Prog/Absorb.antt =====
-- The packets that the program keeps from the daemon, and what the daemon would have made of them.
use bbdd.Base.{
  ℕ, ◌+◌, ◌<◌, ◌≡◌, ◌≢◌, ◌∙◌, ap, sym, refl, inl, inr, Bool, true, false, some, List, [], ◌∷◌,
  arith, Bool-cases, ltb, ◌==◌, Option-cases,
}
use bbdd.Wire.{ntoh32}
use bbdd.Wire.Packet.{BfdPkt, bfd_pkt_version, sizeof_bfd_pkt, admindown, down, init, state_eq}
use bbdd.Session.{DSession}
use bbdd.Bpf.State.{
  Env, Bpf, BSession, BState, on_hold, stable, await_final, await_non_final, shutting_down,
  SessionConfig,
}
use bbdd.Bpf.Frame.{SameBut}
use bbdd.Bpf.Update.{session_config}
use bbdd.Bpf.Receive.{handle_packet, next_end, is_receiving, count_rx}
use bbdd.Bpf.Receiving.{received, poll_after, IsUnended, IsAdvanced, handle_packet-received}
use bbdd.Bpf.Invariant.{IsValid}
use bbdd.Bpf.Roundtrip.{IsKnown, MayOmit, awaits_non_final, parse-rx_expect}
use bbdd.Prog.State.{Prog, Skb, Kernel, Effect, bump_sess, rx_packets, RbElem, notify}
use bbdd.Prog.Receive.{RxDigest, pkt_eq, recv, recv_get_bfd, recv_bfd, recv_discr_0, recv_known}

-- How many packets the program has counted for the sessions.
abbrev pub is_received : Effect → ℕ
is_received (bump_sess discr rx_packets) = 1
is_received _ = 0

abbrev pub received_count : List Effect → ℕ
received_count [] = 0
received_count (e ∷ es) = is_received e + received_count es

pub pkt_eq_sound : (a b : BfdPkt) → pkt_eq a b ≡ true → a ≡ b
unfolding pkt_eq
pkt_eq_sound a b h = ground arith

notify-received_count :
    (k : Kernel) (p : Prog) (elem : RbElem)
    → received_count (notify k p elem).log ≡ received_count p.log
unfolding notify
notify-received_count k p elem = ground arith

-- What a counted packet tells: it is the expected one, with a TTL that is high enough, and the
-- session is not administratively down.
counted_packet :
    (k : Kernel) (p : Prog) (discr : ℕ) (config : SessionConfig) (initd : Bool) (bfd : BfdPkt)
    (digest : RxDigest)
    → received_count (recv_known k p discr config initd bfd digest).log ≢ received_count p.log
    → (config.admin_down ≡ false) × (ltb digest.ttl config.ttl ≡ false) × (bfd ≡ config.rx_expect)
unfolding recv_known
counted_packet k p discr config initd bfd digest h = elim (Bool-cases config.admin_down) [
  | inl q ↦ absurd (h (rw q (omega arith)))
  | inr q ↦ elim (Bool-cases (ltb digest.ttl config.ttl)) [
    | inl r ↦ absurd (h (rw (q, r) (omega arith)))
    | inr r ↦ elim (Bool-cases (pkt_eq bfd config.rx_expect)) [
      | inl s ↦ (q, r, pkt_eq_sound bfd config.rx_expect s)
      | inr s ↦ absurd (h (rw (q, r, s) (notify-received_count k p _)))
    ]
  ]
]

-- A packet that is counted has got past the other checks.
counted_known :
    (k : Kernel) (p : Prog) (skb : Skb) (bfd : BfdPkt) (digest : RxDigest) (config : SessionConfig)
    → recv_get_bfd skb ≡ some (bfd, digest)
    → p.config (ntoh32 bfd.your_disc) ≡ some config
    → received_count (recv k p skb).0.log ≢ received_count p.log
    → (initd : Bool) × (received_count
          (recv_known k p (ntoh32 bfd.your_disc) config initd bfd digest).log
        ≢ received_count p.log)
unfolding recv recv_bfd recv_discr_0
counted_known k p skb bfd digest config g c h = elim (Bool-cases (bfd_pkt_version bfd == 1)) [
  | inr q ↦ absurd (h (rw (g, recv, q) (omega arith)))
  | inl q ↦ elim (Bool-cases (bfd.length == sizeof_bfd_pkt)) [
    | inr r ↦ absurd (h (rw (g, recv, q, r) (omega arith)))
    | inl r ↦ elim (Bool-cases (ntoh32 bfd.your_disc == 0)) [
      | inl s ↦ absurd (
          h (
            rw (g, recv, q, r, recv_bfd, s, recv_discr_0)
              (notify-received_count k _ _ ∙ omega arith)))
      | inr s ↦ elim (Option-cases (p.timer_initd (ntoh32 bfd.your_disc))) [
        | inl n ↦ absurd (h (rw (g, recv, q, r, recv_bfd, s, n) (omega arith)))
        | inr (initd, n) ↦ (initd, λ e. h (rw (g, recv, q, r, recv_bfd, s, n, c) e))
      ]
    ]
  ]
]

-- The packet that is expected does not end a poll sequence, and leaves its state as it is: while the
-- session awaits a packet without the final bit, the one that is expected has it.
expected-IsUnended : (s : BState) → IsUnended s (awaits_non_final s)
expected-IsUnended on_hold = inl (λ h. cc)
expected-IsUnended stable = inl (λ h. cc)
expected-IsUnended await_final = inl (λ h. cc)
expected-IsUnended await_non_final = inr refl
expected-IsUnended shutting_down = inl (λ h. cc)

poll_after-expected : (s : BState) → poll_after s (awaits_non_final s) ≡ s
poll_after-expected on_hold = refl
poll_after-expected stable = refl
poll_after-expected await_final = refl
poll_after-expected await_non_final = refl
poll_after-expected shutting_down = refl

expected-SameBut : (b b' : BSession) → IsAdvanced b (awaits_non_final b.bstate) b' → SameBut b b'
expected-SameBut b b' (rest, state) = let q = poll_after-expected b.bstate in ground arith

-- The session is one that a packet like those it has seen leaves as it is.
abbrev pub IsSettled : DSession → Type 0
IsSettled d = next_end d.local.end.state d.remote.end.state d.local.end ≡ d.local.end

module _ (d : DSession) (b : BSession) (ifindex tbid fib_flags min_us max_us detect_us : ℕ)
    (rearm : Bool) where
  abbrev pub published : SessionConfig
  published = session_config d b ifindex tbid fib_flags min_us max_us detect_us rearm

  published_fields :
      (published.ttl ≡ d.ttl) × (published.admin_down ≡ state_eq d.local.end.state admindown)
  unfolding session_config
  published_fields = (refl, refl)

  recv_known-received :
      (k : Kernel) (p : Prog) (initd : Bool) (bfd : BfdPkt) (digest : RxDigest) (e : Env)
      (bpf : Bpf)
      → received_count (recv_known k p d.local.discr published initd bfd digest).log
        ≢ received_count p.log
      → IsValid d b
      → is_receiving b.bstate ≡ true
      → IsKnown d.remote
      → d.local.discr < 4294967296
      → MayOmit d.remote.end d.local.discr
      → (bpf' : Bpf) × (b' : BSession) × (handle_packet e bpf d b bfd digest.wire_len digest.ttl
          ≡ some (bpf', received d d.remote, b'))
        × SameBut (count_rx b digest.wire_len) b'
  recv_known-received k p initd bfd digest e bpf h v rx known fits may =
      let (up, high, same) = counted_packet k p d.local.discr published initd bfd digest h in
      let (t, a) = published_fields in
      let (bpf', b', q, end) =
        handle_packet-received e bpf d b bfd digest.wire_len digest.ttl d.remote false
          (awaits_non_final b.bstate) v rx (expected-IsUnended b.bstate) (sym a ∙ up) (rw t at high)
          (rw same (
            unfold session_config in
            parse-rx_expect b.diag_stats d b ifindex tbid fib_flags min_us max_us detect_us rearm
              known fits may)) in
      (bpf', b', q, expected-SameBut (count_rx b digest.wire_len) b' end)

  -- What the daemon has to know of a session for the packet that it tells the program to expect.
  pub record IsWatched (p : Prog) (bfd : BfdPkt) : Type 0 where
    pub to_session : ntoh32 bfd.your_disc ≡ d.local.discr
    pub config : p.config d.local.discr ≡ some published
    pub valid : IsValid d b
    pub receiving : is_receiving b.bstate ≡ true
    pub known : IsKnown d.remote
    pub discr_u32 : d.local.discr < 4294967296
    pub named : MayOmit d.remote.end d.local.discr

  recv-received :
      (k : Kernel) (p : Prog) (skb : Skb) (bfd : BfdPkt) (digest : RxDigest) (e : Env) (bpf : Bpf)
      → IsWatched p bfd
      → recv_get_bfd skb ≡ some (bfd, digest)
      → received_count (recv k p skb).0.log ≢ received_count p.log
      → (bpf' : Bpf) × (b' : BSession) × (handle_packet e bpf d b bfd digest.wire_len digest.ttl
          ≡ some (bpf', received d d.remote, b'))
        × SameBut (count_rx b digest.wire_len) b'
  recv-received k p skb bfd digest e bpf v g h =
      let (initd, h') = counted_known k p skb bfd digest published g (rw v.to_session v.config) h in
      recv_known-received k p initd bfd digest e bpf (rw v.to_session at h') v.valid v.receiving
        v.known v.discr_u32 v.named

  -- The short way of the BPF program agrees with the long way of the daemon. Take a valid session that
  -- receives, that knows the other end's discriminator and multiplier and that fits its fields, that
  -- names itself or has seen the other end down, and whose published configuration is the one in the
  -- map under its discriminator, which the packet names. If the session is settled, that is, if the
  -- state that it has seen of the other end moves it no further, then a packet that the program counts
  -- and keeps to itself would not have made the daemon abort, and would have left what the daemon
  -- keeps as it is. On the BPF side, the state of the poll sequence and all else would have stayed but
  -- for the count of packets, the generation and the period of the timer, in every state of the poll
  -- sequence: also while the first packet without the final bit is awaited, where it is one with the
  -- bit that the program keeps.
  pub recv-refines :
      (k : Kernel) (p : Prog) (skb : Skb) (bfd : BfdPkt) (digest : RxDigest) (e : Env) (bpf : Bpf)
      → IsWatched p bfd
      → IsSettled d
      → recv_get_bfd skb ≡ some (bfd, digest)
      → received_count (recv k p skb).0.log ≢ received_count p.log
      → (bpf' : Bpf) × (b' : BSession) × (handle_packet e bpf d b bfd digest.wire_len digest.ttl
          ≡ some (bpf', d, b'))
        × SameBut (count_rx b digest.wire_len) b'
  recv-refines k p skb bfd digest e bpf v settled g h =
      let (bpf', b', q, same) = recv-received k p skb bfd digest e bpf v g h in
      (
        bpf',
        b',
        q
            ∙ ap (λ end. some (bpf', record d { local = record (d.local) { end = end } }, b'))
                settled,
        same,
      )

  -- With both ends down the two ways differ: the program keeps a packet to itself that would have
  -- moved the daemon's session to the init state, which RFC 5880 asks for.
  pub recv-keeps_down :
      (k : Kernel) (p : Prog) (skb : Skb) (bfd : BfdPkt) (digest : RxDigest) (e : Env) (bpf : Bpf)
      → IsWatched p bfd
      → d.local.end.state ≡ down
      → d.remote.end.state ≡ down
      → recv_get_bfd skb ≡ some (bfd, digest)
      → received_count (recv k p skb).0.log ≢ received_count p.log
      → (bpf' : Bpf) × (d' : DSession) × (b' : BSession) × (handle_packet e bpf d b bfd
            digest.wire_len digest.ttl
          ≡ some (bpf', d', b'))
        × (d'.local.end.state ≡ init)
  unfolding next_end
  recv-keeps_down k p skb bfd digest e bpf v l r g h =
      let (bpf', b', q, same) = recv-received k p skb bfd digest e bpf v g h in
      (bpf', received d d.remote, b', q, rw (l, r, next_end) refl)
