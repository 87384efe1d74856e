-- ===== src/Bpf/Intervals.antt =====
-- The send interval and the detection time, in 32 bits.
use bbdd.Base.{ℕ, ◌+◌, ◌*◌, ◌/◌, ◌≤◌, ◌<◌, ◌≡◌, ◌≢◌, false, some, arith, max, min}
use bbdd.Base.Words.{uint32_max}
use bbdd.Session.{SessData}
use bbdd.Bpf.State.{BData}
use bbdd.Bpf.Update.{tx_intervals, session_detect_time_us}

-- What the RFC calls the negotiated interval.
abbrev pub agreed_us : BData → SessData → ℕ
agreed_us eff remote = max eff.timing.min_tx_us remote.timing.min_rx_us

-- The largest interval whose 75-fold, and the largest whose 90-fold, fits 32 bits.
abbrev pub jitter_limit : ℕ
jitter_limit = 57266230

abbrev pub jitter_limit_single : ℕ
jitter_limit_single = 47721858

-- Up to `jitter_limit` the jitter stays within 75 % and 100 % of the agreed interval.
pub tx_intervals_jitter :
    (eff : BData) (remote : SessData)
    → eff.timing.detect_mult ≢ 1
    → agreed_us eff remote ≤ jitter_limit
    → let (lo, hi) = tx_intervals false eff remote in
      (lo ≤ hi) × (hi ≡ agreed_us eff remote) × (100 * lo ≤ 75 * hi) × (75 * hi < 100 * lo + 100)
unfolding tx_intervals
tx_intervals_jitter eff remote one small = ground arith

-- With a multiplier of 1 the interval is drawn from 75 % to 90 %.
pub tx_intervals_single :
    (eff : BData) (remote : SessData)
    → eff.timing.detect_mult ≡ 1
    → agreed_us eff remote ≤ jitter_limit_single
    → let (lo, hi) = tx_intervals false eff remote in
      let i = agreed_us eff remote in
      (lo ≤ hi) × (100 * hi ≤ 90 * i) × (90 * i < 100 * hi + 100) × (75 * i < 100 * lo + 100)
unfolding tx_intervals
tx_intervals_single eff remote one small = ground arith

-- Beyond `jitter_limit` the product wraps, and the lower bound falls short of 75 % by 42 seconds
-- at least.
pub tx_intervals_wrap :
    (eff : BData) (remote : SessData)
    → jitter_limit < agreed_us eff remote
    → 100 * (tx_intervals false eff remote).0 + 4294967296 ≤ 75 * agreed_us eff remote
unfolding tx_intervals
tx_intervals_wrap eff remote big = ground arith

fits_quotient : (t m : ℕ) → m ≢ 0 → t ≤ uint32_max / m → t * m ≤ uint32_max
fits_quotient t m pos h = grind arith

above_quotient : (t m : ℕ) → m ≢ 0 → uint32_max / m < t → uint32_max < t * m
above_quotient t m pos h = grind arith

-- The detection time is the product of the multiplier and the agreed interval of the remote end,
-- clamped to 32 bits.
pub session_detect_time_us_exact :
    (eff : BData) (remote : SessData)
    → remote.timing.detect_mult ≢ 0
    → session_detect_time_us eff remote
      ≡ some (
          min uint32_max
            (max eff.timing.min_rx_us remote.timing.min_tx_us * remote.timing.detect_mult))
unfolding session_detect_time_us
session_detect_time_us_exact eff remote pos =
    let t = max eff.timing.min_rx_us remote.timing.min_tx_us in
    ground (
      arith,
      fits_quotient t remote.timing.detect_mult pos,
      above_quotient t remote.timing.detect_mult pos,
    )
