-- ===== src/Worker/Slippage.antt =====
-- executor.go, exceedsSlippageTolerance: the arithmetic on whole numbers.
use chain_route.Prelude.{ℕ, ◌+◌, ◌*◌, ◌<◌, ◌≡◌, arith, ltb}
use chain_route.Prelude.Int.{pos, ◌-ℤ◌, ◌*ℤ◌}
use chain_route.Worker.Executor.Checks.{exceeds_baseline}

-- For a fee and a tolerance that are not negative and a baseline above zero, the tolerance is
-- exceeded exactly where fresh / baseline is above 1 + tolerance / 10000.
pub exceeds_baseline_lem :
    (baseline fresh tolerance : ℕ)
    → 0 < baseline
    → exceeds_baseline (pos baseline) (pos fresh) (pos tolerance)
      ≡ ltb (baseline * (10000 + tolerance)) (fresh * 10000)
unfolding exceeds_baseline ◌-ℤ◌ ◌*ℤ◌
exceeds_baseline_lem baseline fresh tolerance h = ground arith
