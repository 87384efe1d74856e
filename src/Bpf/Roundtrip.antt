-- ===== src/Bpf/Roundtrip.antt =====
-- Packets that are made from one end and read by the other, and the packet that the kernel is told
-- to expect.
use Prim.Native.Nat.{bit_or}
use bbdd.Base.{ℕ, ◌*◌, ◌/◌, ◌%◌, ◌<◌, ◌≡◌, ◌≢◌, ◌⊎◌, refl, Bool, true, false, ◌&&◌, arith, ◌==◌}
use bbdd.Base.Table.{passes, passes_at}
use bbdd.Wire.{ntoh32, hton32}
use bbdd.Wire.Swap.{swap32_swap}
use bbdd.Wire.Packet.{
  BfdPkt, PktState, admindown, down, init, up, state_num, bfd_pkt_diag, bfd_pkt_state, bfd_pkt_bits,
  bfd_pkt_version, has_cpi, has_poll, has_final,
}
use bbdd.Session.{StateEnd, Timing, SessData, DSession}
use bbdd.Bpf.State.{BState, BSession, DiagStats, await_non_final}
use bbdd.Bpf.Update.{session_config}
use bbdd.Bpf.Packet.{
  make_packet, parsed, parse_packet, rx_expect_flags, rx_expect_flags_bstate, session_flags,
}

-- The state and the flags share a byte, for each of the four states.
byte_ok : ℕ → ℕ → Bool
byte_ok s f = let b = bit_or (s * 64) f % 256 in b / 64 == s && b % 64 == f

byte_table :
    (passes (byte_ok 0) 64
      && passes (byte_ok 1) 64
      && passes (byte_ok 2) 64
      && passes (byte_ok 3) 64)
    ≡ true
unfolding passes byte_ok
byte_table = refl

diag_ok : ℕ → Bool
diag_ok d = bit_or 32 (d % 256) / 32 == 1 && bit_or 32 (d % 256) % 32 == d

diag_table : passes diag_ok 32 ≡ true
unfolding passes diag_ok
diag_table = refl

diag_fields : (d : ℕ) → d < 32 → (bit_or 32 (d % 256) / 32 ≡ 1) × (bit_or 32 (d % 256) % 32 ≡ d)
unfolding diag_ok
diag_fields d h = ground (arith, passes_at diag_ok 32 d h diag_table)

state_bits :
    (s : PktState) (f : ℕ)
    → f < 64
    → (bit_or (state_num s * 64) f % 256 / 64 ≡ state_num s)
      × (bit_or (state_num s * 64) f % 256 % 64 ≡ f)
unfolding byte_ok
state_bits admindown f h = ground (arith, passes_at (byte_ok 0) 64 f h, byte_table)
state_bits down f h = ground (arith, passes_at (byte_ok 1) 64 f h, byte_table)
state_bits init f h = ground (arith, passes_at (byte_ok 2) 64 f h, byte_table)
state_bits up f h = ground (arith, passes_at (byte_ok 3) 64 f h, byte_table)

-- The values that fit the fields of a packet, and flags without multipoint, demand and
-- authentication.
pub record IsWire (my_disc : ℕ) (t : Timing) (s : StateEnd) (your_disc flags : ℕ) : Type 0 where
  pub my_disc_set : my_disc ≢ 0
  pub my_disc_u32 : my_disc < 4294967296
  pub your_disc_u32 : your_disc < 4294967296
  pub mult_set : t.detect_mult ≢ 0
  pub tx_u32 : t.min_tx_us < 4294967296
  pub rx_u32 : t.min_rx_us < 4294967296
  pub diag_5 : s.diag < 32
  pub flags_6 : flags < 64
  pub flags_plain : flags % 8 ≡ 0

-- A session that the sender does not know yet is only named while the state is down.
abbrev pub MayOmit : StateEnd → ℕ → Type 0
MayOmit s your_disc = (your_disc ≢ 0) ⊎ ((s.state ≡ down) ⊎ (s.state ≡ admindown))

module _ (my_disc : ℕ) (t : Timing) (s : StateEnd) (your_disc flags : ℕ) where
  abbrev made : BfdPkt
  made = make_packet my_disc t s your_disc flags

  made_bytes :
      IsWire my_disc t s your_disc flags
      → (bfd_pkt_bits made ≡ flags)
        × (bfd_pkt_state made ≡ s.state)
        × (bfd_pkt_diag made ≡ s.diag)
        × (bfd_pkt_version made ≡ 1)
  unfolding bfd_pkt_bits bfd_pkt_state bfd_pkt_diag bfd_pkt_version make_packet
  made_bytes w = ground (arith, state_bits s.state flags w.flags_6, diag_fields s.diag w.diag_5)

  made_words :
      IsWire my_disc t s your_disc flags
      → (ntoh32 made.my_disc ≡ my_disc)
        × (ntoh32 made.your_disc ≡ your_disc)
        × (ntoh32 made.desired_tx ≡ t.min_tx_us)
        × (ntoh32 made.required_rx ≡ t.min_rx_us)
        × (ntoh32 made.required_echo_rx ≡ 0)
        × (made.detection_multiplier ≡ t.detect_mult)
  unfolding ntoh32 hton32 make_packet
  made_words w = (
    swap32_swap my_disc w.my_disc_u32,
    swap32_swap your_disc w.your_disc_u32,
    swap32_swap t.min_tx_us w.tx_u32,
    swap32_swap t.min_rx_us w.rx_u32,
    refl,
    refl,
  )

  -- A packet made from one end is accepted by the other, which reads the sender's discriminator,
  -- timing, state and diagnostic as they were, and its poll, final and CPI bits. The packet must
  -- name the receiver's session unless the sender is down.
  pub parse-make :
      (stats : DiagStats) (remote : SessData)
      → IsWire my_disc t s your_disc flags
      → MayOmit s your_disc
      → parse_packet stats (make_packet my_disc t s your_disc flags) remote
        ≡ parsed
            (record {
              flags = record (remote.flags) { cpi = has_cpi flags };
              discr = my_disc;
              timing = t;
              end = s;
            })
            (has_poll flags)
            (has_final flags)
  unfolding parse_packet
  parse-make stats remote w may = ground (arith, made_bytes w, made_words w)

abbrev pub awaits_non_final : BState → Bool
awaits_non_final await_non_final = true
awaits_non_final _ = false

expect_flags :
    (d : DSession) (b : BSession)
    → let f = rx_expect_flags d b in
      (f < 64)
      × (f % 8 ≡ 0)
      × (has_cpi f ≡ d.remote.flags.cpi)
      × (has_poll f ≡ false)
      × (has_final f ≡ awaits_non_final b.bstate)
unfolding rx_expect_flags rx_expect_flags_bstate session_flags
expect_flags d b = ground arith

-- The remote end is one that a packet can describe.
pub record IsKnown (remote : SessData) : Type 0 where
  pub discr_set : remote.discr ≢ 0
  pub discr_u32 : remote.discr < 4294967296
  pub mult_set : remote.timing.detect_mult ≢ 0
  pub tx_u32 : remote.timing.min_tx_us < 4294967296
  pub rx_u32 : remote.timing.min_rx_us < 4294967296
  pub diag_5 : remote.end.diag < 32

-- The packet that the kernel program takes as expected, and keeps from the daemon, would have been
-- read as the remote end that the daemon already has, with no poll bit, and with the final bit just
-- while the daemon waits for the first packet without it. This is so once the session has heard its
-- peer, that is, if the remote discriminator and multiplier are not 0, if the values of the remote
-- end fit the fields of a packet and the local discriminator 32 bits, and if the local
-- discriminator is not 0 or the remote end is down.
pub parse-rx_expect :
    (stats : DiagStats) (d : DSession) (b : BSession)
    → (ifindex tbid fib_flags min_us max_us detect_us : ℕ) (rearm : Bool) → IsKnown d.remote
    → d.local.discr < 4294967296
    → MayOmit d.remote.end d.local.discr
    → parse_packet stats
        (session_config d b ifindex tbid fib_flags min_us max_us detect_us rearm).rx_expect
        d.remote
      ≡ parsed d.remote false (awaits_non_final b.bstate)
unfolding session_config
parse-rx_expect stats d b ifindex tbid fib_flags min_us max_us detect_us rearm k local may =
    let f = rx_expect_flags d b in
    let w : IsWire d.remote.discr d.remote.timing d.remote.end d.local.discr f = record {
      my_disc_set = k.discr_set;
      my_disc_u32 = k.discr_u32;
      your_disc_u32 = local;
      mult_set = k.mult_set;
      tx_u32 = k.tx_u32;
      rx_u32 = k.rx_u32;
      diag_5 = k.diag_5;
      flags_6 = (expect_flags d b).0;
      flags_plain = (expect_flags d b).1;
    } in
    ground (
      arith,
      parse-make d.remote.discr d.remote.timing d.remote.end d.local.discr f stats d.remote w may,
      expect_flags d b,
    )
