-- ===== src/Worker/Processor.antt =====
-- processor.go: one PAYMENT_ROUTED event. The deadlines of its contexts show as failed calls.
use chain_route.Prelude.{String, Bool, true, false, Option, none, some, if◌then◌else◌}
use chain_route.Payment.{Status, ExecutionMode, simulated, testnet, RoutedPayment}
use chain_route.Execution.{execute}
use chain_route.World.{
  M, ok, err, pure, fail, attempt, on_error, emit, ◌>>=◌, ◌>>◌, payments_completed, payments_failed,
  payment_duration, events_consumed, processing_failures, processing_duration,
  executor_not_configured,
}
use chain_route.Store.Payments.{claim_payment, complete_payment}

-- `none`: no executor is wired, BLOCKCHAIN_ENV is not testnet.
pub record Processor : Type 0 where
  pub executor : Option (String → M (Unit {0}))

-- The status in which the simulated execution ends a payment.
abbrev pub terminal_of : Bool → Status
terminal_of true = Status.completed
terminal_of false = Status.failed

abbrev pub outcome_of : Bool → String
outcome_of true = "completed"
outcome_of false = "failed"

-- The metrics of a transition that this call made.
abbrev pub count_completion : ExecutionMode → Bool → M (Unit {0})
count_completion mode success =
    emit (payment_duration mode (outcome_of success))
    >> emit (if success then payments_completed mode else payments_failed mode "execution")

unfoldable pub handle_testnet : Processor → String → M (Unit {0})
handle_testnet p payment_id = elim p.executor [
  | none ↦ emit (processing_failures "testnet" "execution_error") >> fail executor_not_configured
  | some run ↦ do
    outcome ← attempt (run payment_id)
    emit (processing_duration testnet)
    elim outcome [
      | ok _ ↦ pure tt
      | err x ↦ emit (processing_failures "testnet" "execution_error") >> fail x
    ]
]

unfoldable pub handle_simulated : String → M (Unit {0})
handle_simulated payment_id = do
  let success = execute payment_id
  outcome ← attempt (complete_payment payment_id (terminal_of success))
  emit (processing_duration simulated)
  elim outcome [
    | err x ↦ emit (processing_failures "simulated" "execution_error") >> fail x
    | ok none ↦ pure tt
    | ok (some _) ↦ count_completion simulated success
  ]

abbrev pub handle_claimed : Processor → String → ExecutionMode → M (Unit {0})
handle_claimed p payment_id testnet = handle_testnet p payment_id
handle_claimed p payment_id simulated = handle_simulated payment_id

unfoldable pub handle_routed_payment : Processor → RoutedPayment → M (Unit {0})
handle_routed_payment p evt = do
  emit events_consumed
  claimed ←
      on_error (claim_payment evt.payment_id)
        (emit (processing_failures "unknown" "claim_conflict"))
  elim claimed [ none ↦ pure tt | some mode ↦ handle_claimed p evt.payment_id mode ]
