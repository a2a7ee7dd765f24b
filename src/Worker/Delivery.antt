-- ===== src/Worker/Delivery.antt =====
-- processor.go: what one delivery of an event does to a simulated payment, and what a second does.
use chain_route.Prelude.{ℕ, String, false, some, ◌≡◌, arith, inl, inr}
use chain_route.Payment.{routed, RoutedPayment, status_eq}
use chain_route.Db.{Db, PaymentRow}
use chain_route.World.{World, Env, monad}
use chain_route.Store.Payments.{payment_row, claim_row, claim_stmt, claim_payment}
use chain_route.Store.Once.{transition-passed}
use chain_route.Worker.Processor.{Processor, handle_routed_payment}
use chain_route.Worker.Checked.{Quiet}
use chain_route.Worker.Fresh.{fault-cases}

-- An event for a payment that is not ROUTED any more changes nothing in the database, where no other
-- actor writes meanwhile: a redelivery is harmless.
pub handle_routed_payment-passed :
    (p : Processor) (evt : RoutedPayment) (env : Env) (w : World) (row : PaymentRow)
    → Quiet env
    → payment_row evt.payment_id w.db ≡ some row
    → status_eq row.status routed ≡ false
    → (handle_routed_payment p evt env w).1.db ≡ w.db
unfolding handle_routed_payment claim_payment claim_stmt payment_row monad
handle_routed_payment-passed p evt env w row quiet found past =
    let still = quiet.still w.tick w.db in
    let missed =
      transition-passed evt.payment_id routed (claim_row (env.clock w.tick)) w.db row found past in
    elim (fault-cases (env.fault w.tick)) [
      | inr (inl x) ↦ ground (arith, still)
      | inr (inr x) ↦ ground (arith, still, missed)
      | inl x ↦ ground (arith, still, missed)
    ]

-- The two transactions of a simulated payment that is ROUTED.
abbrev claimed : String → Env → ℕ → Db → Db
claimed id env n d = (claim_stmt id env n d).1
