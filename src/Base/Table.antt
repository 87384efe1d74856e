-- ===== src/Base/Table.antt =====
-- Facts about every number below a bound, by evaluation.
use Prim.Native.Nat.{ℕ, zero, suc, ◌<◌}
use mathlib.Core.Path.{◌≡◌}
use mathlib.Core.Bool.{Bool, true, false}
use native.Mathlib.Omega.{arith}
use bbdd.Base.Tests.{if◌then◌else◌}

-- A test passes for each of the first `bound` numbers.
unfoldable pub passes : (ℕ → Bool) → ℕ → Bool
passes test zero = true
passes test (suc bound) = let rest = passes test bound in if test bound then rest else false

pub passes_at :
    (test : ℕ → Bool) (bound k : ℕ) → k < bound → passes test bound ≡ true → test k ≡ true
unfolding passes
passes_at test zero k below all = absurd (omega arith)
passes_at test (suc bound) k below all = ground (arith, passes_at test bound k)
