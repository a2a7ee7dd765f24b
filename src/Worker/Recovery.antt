-- ===== src/Worker/Recovery.antt =====
-- recovery.go: the sweep that completes simulated payments stuck in PROCESSING.
use chain_route.Prelude.{ℕ, ◌+◌, String, none, some, List, [], ◌∷◌}
use chain_route.Payment.{simulated, Time}
use chain_route.Execution.{execute}
use chain_route.World.{M, ok, err, pure, attempt, emit, ◌>>=◌, ◌>>◌, stale_recoveries}
use chain_route.Store.Payments.{complete_payment, stale_payment_ids}
use chain_route.Worker.Processor.{terminal_of, count_completion}

-- One id; the result is how many payments this call completed, 0 or 1.
unfoldable pub recover_one : String → M ℕ
recover_one id = do
  let success = execute id
  outcome ← attempt (complete_payment id (terminal_of success))
  elim outcome [
    | err x ↦ pure 0
    | ok none ↦ pure 0
    | ok (some _) ↦
        emit (stale_recoveries "recovery") >> count_completion simulated success >> pure 1
  ]

unfoldable pub recover_all : List String → ℕ → M ℕ
recover_all [] completed = pure completed
recover_all (id ∷ ids) completed = recover_one id >>= λ k. recover_all ids (completed + k)

unfoldable pub sweep_once : Time → M ℕ
unfolding recover_all
sweep_once staleness = do ids ← stale_payment_ids staleness; recover_all ids 0
