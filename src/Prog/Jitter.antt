-- ===== src/Prog/Jitter.antt =====
-- When a periodic packet goes out again.
use native.Mathlib.Nat.{mul-le-mul_right}
use bbdd.Base.{ℕ, ◌+◌, ◌-◌, ◌*◌, ◌/◌, ◌≤◌, ◌≡◌, arith}
use bbdd.Base.Words.{uint32_max, u32_mod, u32}
use bbdd.Bpf.State.{SessionConfig}
use bbdd.Prog.Send.{next_interval_us}

-- r * x / M ≤ x, for r ≤ M = 2 ^ 32 - 1; the product fits 64 bits.
scaled : (r x : ℕ) → r ≤ uint32_max → (r * x / uint32_max ≤ x) × (r * x ≤ uint32_max * x)
scaled r x h = let m = mul-le-mul_right x h in (omega (arith, m), m)

-- The delay lies between the bounds that the daemon has set, whatever number is drawn.
pub next_interval_us_bounds :
    (config : SessionConfig) (prandom : ℕ)
    → prandom ≤ uint32_max
    → config.min_interval_us ≤ config.max_interval_us
    → config.max_interval_us ≤ uint32_max
    → let t = next_interval_us config prandom in
      (config.min_interval_us ≤ t) × (t ≤ config.max_interval_us)
unfolding next_interval_us
next_interval_us_bounds config prandom r le fits =
    let x = config.max_interval_us - config.min_interval_us in
    let range : u32 (config.max_interval_us + u32_mod - config.min_interval_us) ≡ x = omega arith in
    let (q, m) = scaled prandom x r in rw range (omega (arith, q, m), omega (arith, q, m))
