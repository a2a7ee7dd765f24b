-- ===== src/Store/Evolution/Moves.antt =====
-- The statements that move a payment's status, or only read, against the evolution of the database.
use chain_route.Prelude.{String, true, ◌≡◌, arith, refl}
use chain_route.Payment.{Status, Time, Payment}
use chain_route.Store.Payments.{
  claim_row, complete_row, submit_row, fail_row, claim_stmt, complete_stmt, submit_stmt,
  complete_submitted_stmt, fail_stmt, get_payment_stmt, hops_stmt, stale_stmt, stale_testnet_stmt,
}
use chain_route.Store.Executions.{get_execution_stmt, candidates_stmt, lowest_stmt}
use chain_route.Store.Quotes.{get_quote_stmt}
use chain_route.Store.Create.{find_key_stmt}
use chain_route.Store.Evolution.{is_terminal, Evolves-refl}
use chain_route.Store.Evolution.Statements.{Advances, transition-Evolves}

pub claim-Advances : (id : String) → Advances (claim_stmt id)
unfolding claim_stmt
claim-Advances id = record {
  step = λ env n d.
      transition-Evolves id Status.routed (claim_row (env.clock n)) d (λ p e. ground arith)
        (λ p. refl);
}

pub complete-Advances :
    (id : String) (terminal : Status)
    → is_terminal terminal ≡ true
    → Advances (complete_stmt id terminal)
unfolding complete_stmt
complete-Advances id terminal h = record {
  step = λ env n d.
      transition-Evolves id Status.processing (complete_row (env.clock n) terminal) d
        (λ p e. ground arith) (λ p. refl);
}

pub submit-Advances : (id : String) → Advances (submit_stmt id)
unfolding submit_stmt
submit-Advances id = record {
  step = λ env n d.
      transition-Evolves id Status.processing (submit_row (env.clock n)) d (λ p e. ground arith)
        (λ p. refl);
}

pub complete_submitted-Advances :
    (id : String) (terminal : Status)
    → is_terminal terminal ≡ true
    → Advances (complete_submitted_stmt id terminal)
unfolding complete_submitted_stmt
complete_submitted-Advances id terminal h = record {
  step = λ env n d.
      transition-Evolves id Status.submitted (complete_row (env.clock n) terminal) d
        (λ p e. ground arith) (λ p. refl);
}

pub fail-Advances : (id reason : String) → Advances (fail_stmt id reason)
unfolding fail_stmt
fail-Advances id reason = record {
  step = λ env n d.
      transition-Evolves id Status.processing (fail_row (env.clock n) reason) d
        (λ p e. ground arith) (λ p. refl);
}

pub get_payment-Advances : (id : String) → Advances (get_payment_stmt id)
unfolding get_payment_stmt
get_payment-Advances id = record { step = λ env n d. Evolves-refl d }

pub hops-Advances : (id : String) → Advances (hops_stmt id)
unfolding hops_stmt
hops-Advances id = record { step = λ env n d. Evolves-refl d }

pub stale-Advances : (t : Time) → Advances (stale_stmt t)
unfolding stale_stmt
stale-Advances t = record { step = λ env n d. Evolves-refl d }

pub stale_testnet-Advances : (t : Time) → Advances (stale_testnet_stmt t)
unfolding stale_testnet_stmt
stale_testnet-Advances t = record { step = λ env n d. Evolves-refl d }

pub get_execution-Advances : (id : String) → Advances (get_execution_stmt id)
unfolding get_execution_stmt
get_execution-Advances id = record { step = λ env n d. Evolves-refl d }

pub candidates-Advances : (t : Time) → Advances (candidates_stmt t)
unfolding candidates_stmt
candidates-Advances t = record { step = λ env n d. Evolves-refl d }

pub lowest-Advances : (wallet : String) → Advances (lowest_stmt wallet)
unfolding lowest_stmt
lowest-Advances wallet = record { step = λ env n d. Evolves-refl d }

pub get_quote-Advances : (id : String) → Advances (get_quote_stmt id)
unfolding get_quote_stmt
get_quote-Advances id = record { step = λ env n d. Evolves-refl d }

pub find_key-Advances : (p : Payment) → Advances (find_key_stmt p)
unfolding find_key_stmt
find_key-Advances p = record { step = λ env n d. Evolves-refl d }
