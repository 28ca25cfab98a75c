-- ===== src/Prelude/Table.antt =====
-- Facts about the numbers under a bound, checked number by number.
use Prim.Native.Nat.{ℕ, zero, suc, ◌<◌}
use mathlib.Core.Path.{◌≡◌}
use mathlib.Core.Bool.{Bool, true, ◌&&◌}
use native.Mathlib.Omega.{arith}

module _ (test : ℕ → Bool) where
  unfoldable pub passes : ℕ → Bool
  passes zero = true
  passes (suc bound) = passes bound && test bound

  pub passes-lt : (k : ℕ) (bound : ℕ) → k < bound → passes bound ≡ true → test k ≡ true
  unfolding passes
  passes-lt k (suc bound) below passed = ground (arith, passes-lt k bound)
  passes-lt k zero below passed = absurd (omega arith)
