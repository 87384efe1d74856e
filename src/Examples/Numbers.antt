-- ===== src/Examples/Numbers.antt =====
-- Bytes, packets, intervals and checksums at concrete values.
use bbdd.Base.{ℕ, ◌+◌, ◌*◌, ◌≤◌, ◌≡◌, inl, refl, true, false, arith}
use bbdd.Wire.Packet.{init, up}
use bbdd.Session.{Timing}
use bbdd.Bpf.State.{DiagStats, await_non_final, stable}
use bbdd.Bpf.Packet.{make_packet, parse_packet, parsed}
use bbdd.Bpf.Update.{session_config, tx_intervals}
use bbdd.Bpf.Cksum.{inet_cksum, iphdr_bytes}
use bbdd.Bpf.Roundtrip.{IsWire, IsKnown, parse-make, parse-rx_expect}
use bbdd.Bpf.Intervals.{agreed_us, tx_intervals_wrap}
use bbdd.Bpf.Checksum.{inet_cksum-verifies}
use bbdd.Examples.Inputs.{bdata, timing_300ms, at_state, side, dsession, bsession, addr_a, addr_b}

packet-IsWire : IsWire 9 timing_300ms (at_state up) 7 32
packet-IsWire = record {
  my_disc_set = ground arith;
  my_disc_u32 = omega arith;
  your_disc_u32 = omega arith;
  mult_set = ground arith;
  tx_u32 = omega arith;
  rx_u32 = omega arith;
  diag_5 = omega arith;
  flags_6 = omega arith;
  flags_plain = refl;
}

abbrev no_drops : DiagStats
no_drops = (bsession stable timing_300ms).diag_stats

parse-make_example :
    parse_packet no_drops (make_packet 9 timing_300ms (at_state up) 7 32) (side 9 init)
    ≡ parsed (side 9 up) true false
parse-make_example =
    parse-make 9 timing_300ms (at_state up) 7 32 no_drops (side 9 init) packet-IsWire
      (inl (ground arith))

side-IsKnown : IsKnown (side 9 up)
side-IsKnown = record {
  discr_set = ground arith;
  discr_u32 = omega arith;
  mult_set = ground arith;
  tx_u32 = omega arith;
  rx_u32 = omega arith;
  diag_5 = omega arith;
}

parse-rx_expect_example :
    parse_packet no_drops
      (session_config
        (dsession up up)
        (bsession await_non_final timing_300ms)
        3
        0
        0
        225000
        300000
        900000
        true).rx_expect
      (side 9 up)
    ≡ parsed (side 9 up) false true
parse-rx_expect_example =
    parse-rx_expect no_drops (dsession up up) (bsession await_non_final timing_300ms) 3 0 0 225000
      300000 900000 true side-IsKnown (omega arith) (inl (ground arith))

-- A packet each minute.
abbrev timing_minute : Timing
timing_minute = record { detect_mult = 3; min_tx_us = 60000000; min_rx_us = 60000000 }

tx_intervals_wrap_example :
    100 * (tx_intervals false (bdata timing_minute) (side 9 up)).0 + 4294967296
    ≤ 75 * agreed_us (bdata timing_minute) (side 9 up)
tx_intervals_wrap_example = tx_intervals_wrap (bdata timing_minute) (side 9 up) (omega arith)

abbrev two_ffff : ℕ
two_ffff = 131070

inet_cksum-verifies_example :
    inet_cksum (iphdr_bytes 52 255 (inet_cksum (iphdr_bytes 52 255 0 addr_a addr_b)) addr_a addr_b)
    ≡ 0
inet_cksum-verifies_example = inet_cksum-verifies 52 255 addr_a addr_b (omega arith)
