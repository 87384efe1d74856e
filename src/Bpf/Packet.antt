-- ===== src/Bpf/Packet.antt =====
-- src/bbdd-bpf.c: making a BFD packet from a session, reading one into its remote end, and the
-- flags that packets are sent with and expected to have.
use Prim.Native.Nat.{bit_or}
use bbdd.Base.{ℕ, ◌+◌, ◌*◌, Bool, not, ◌&&◌, ◌||◌, Option, none, some, ◌==◌, if◌then◌else◌}
use bbdd.Base.Words.{u8, u64}
use bbdd.Wire.{hton32, ntoh32}
use bbdd.Wire.Packet.{
  BfdPkt, admindown, down, state_num, state_eq, sizeof_bfd_pkt, bit_cpi, bit_final, bit_poll,
  has_multi, has_demand, has_auth, has_cpi, has_final, has_poll, bfd_pkt_diag, bfd_pkt_state,
  bfd_pkt_bits,
}
use bbdd.Session.{StateEnd, Timing, SessData, DSession}
use bbdd.Bpf.State.{
  BState, on_hold, stable, await_final, await_non_final, shutting_down, BSession, DiagStats,
}

unfoldable pub make_packet : ℕ → Timing → StateEnd → ℕ → ℕ → BfdPkt
make_packet my_disc timing state your_disc flags = record {
  version_diag = bit_or 32 (u8 state.diag);
  state_bits = u8 (bit_or (state_num state.state * 64) flags);
  detection_multiplier = timing.detect_mult;
  length = sizeof_bfd_pkt;
  my_disc = hton32 my_disc;
  your_disc = hton32 your_disc;
  desired_tx = hton32 timing.min_tx_us;
  required_rx = hton32 timing.min_rx_us;
  required_echo_rx = record { value = 0 };
}

-- A packet is dropped with the counter bumped, or read into the remote end; then the poll and the
-- final bit are handed on.
pub data Parsed : Type 0 where
  dropped : DiagStats → Parsed
  parsed : SessData → Bool → Bool → Parsed

unfoldable pub parse_packet : DiagStats → BfdPkt → SessData → Parsed
parse_packet diag_stats packet remote =
    let bits = bfd_pkt_bits packet in
    let remote_discr = ntoh32 packet.my_disc in
    let local_discr = ntoh32 packet.your_disc in
    let state = bfd_pkt_state packet in
    if not (ntoh32 packet.required_echo_rx == 0) || (has_auth bits || has_demand bits)
    then dropped (record diag_stats { rx_unsupported = u64 (diag_stats.rx_unsupported + 1) })
    else if has_multi bits
    then dropped
        (record diag_stats { rx_multipoint_not_0 = u64 (diag_stats.rx_multipoint_not_0 + 1) })
    else if packet.detection_multiplier == 0
    then dropped (record diag_stats {
      rx_detection_multiplier_0 = u64 (diag_stats.rx_detection_multiplier_0 + 1);
    })
    else if remote_discr == 0
    then dropped (record diag_stats { rx_my_discr_0 = u64 (diag_stats.rx_my_discr_0 + 1) })
    else if local_discr == 0 && not (state_eq state admindown) && not (state_eq state down)
    then dropped (record diag_stats {
      rx_your_discr_0_not_down = u64 (diag_stats.rx_your_discr_0_not_down + 1);
    })
    else parsed
        (record remote {
          discr =
              if not (remote_discr == 0) && not (remote.discr == remote_discr)
              then remote_discr
              else remote.discr;
          timing = record {
            detect_mult = packet.detection_multiplier;
            min_tx_us = ntoh32 packet.desired_tx;
            min_rx_us = ntoh32 packet.required_rx;
          };
          end = record { state = state; diag = bfd_pkt_diag packet };
          flags = record (remote.flags) { cpi = has_cpi bits };
        })
        (has_poll bits) (has_final bits)

unfoldable pub rx_expect_flags_bstate : BState → ℕ
rx_expect_flags_bstate await_non_final = bit_final
rx_expect_flags_bstate _ = 0

unfoldable pub session_flags : SessData → ℕ
session_flags d = if d.flags.cpi then bit_cpi else 0

unfoldable pub rx_expect_flags : DSession → BSession → ℕ
rx_expect_flags dsess bsess =
    bit_or (rx_expect_flags_bstate bsess.bstate) (session_flags dsess.remote)

-- Aborts for a session on hold.
unfoldable pub inject_flags_bstate : BState → Option ℕ
inject_flags_bstate on_hold = none
inject_flags_bstate stable = some 0
inject_flags_bstate await_final = some bit_poll
inject_flags_bstate await_non_final = some 0
inject_flags_bstate shutting_down = some 0

unfoldable pub inject_flags : DSession → BSession → Option ℕ
inject_flags dsess bsess = elim (inject_flags_bstate bsess.bstate) [
  | none ↦ none
  | some f ↦ some (bit_or f (session_flags dsess.local))
]
