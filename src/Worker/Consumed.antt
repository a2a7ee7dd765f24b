-- ===== src/Worker/Consumed.antt =====
-- processor.go: the payment of an event that was handled without an error.
use chain_route.Prelude.{
  ℕ, String, true, false, Option, none, some, ◌∷◌, ◌≡◌, refl, sym, subst, arith, inl, inr, eq_refl,
  if◌then◌else◌,
}
use chain_route.Payment.{Status, routed, RoutedPayment, ExecutionMode, status_eq}
use chain_route.Db.{Db, PaymentRow}
use chain_route.Db.Table.{find-update_if}
use chain_route.World.{
  World, Env, Fault, fine, rejected, answer_lost, ok, M, answer, on_error, emit, events_consumed,
  processing_failures, pure, ◌>>=◌, ◌>>◌, statement,
}
use chain_route.World.Rules.{Keeps-pure}
use chain_route.Store.Payments.{
  payment_row, payment_key, transition, claim_row, claim_stmt, claim_payment,
}
use chain_route.Store.Evolution.{Evolves, Fair, OnDb-relation, can_reach}
use chain_route.Store.Evolution.Methods.{Safe}
use chain_route.World.Answers.{Result-cases}
use chain_route.World.Answers.{bind-ok}
use chain_route.Worker.Executor.Checks.{Executor}
use chain_route.Worker.Processor.{handle_routed_payment, handle_claimed}
use chain_route.Worker.Service.{processor_of, handle_claimed-Safe}

-- The payment is there, and some worker has claimed it.
abbrev pub Claimed : String → Db → Type 0
Claimed id d =
    (row : PaymentRow) × (payment_row id d ≡ some row) × (status_eq row.status routed ≡ false)

abbrev pub Exists : String → Db → Type 0
Exists id d = (row : PaymentRow) × (payment_row id d ≡ some row)

pub Exists-Evolves : (id : String) (d d' : Db) → Evolves d d' → Exists id d → Exists id d'
unfolding payment_row
Exists-Evolves id d d' e (row, found) = let (q, there, _) = e.payments id row found in (q, there)

forward-claimed :
    (a b : Status) → can_reach a b ≡ true → status_eq a routed ≡ false → status_eq b routed ≡ false
forward-claimed a b h n = ground arith

pub Claimed-Evolves : (id : String) (d d' : Db) → Evolves d d' → Claimed id d → Claimed id d'
unfolding payment_row
Claimed-Evolves id d d' e (row, found, past) =
    let (q, there, le) = e.payments id row found in
    (q, there, forward-claimed row.status q.status le.forward past)

claim-Claimed :
    (id : String) (env : Env) (n : ℕ) (d : Db) → Exists id d → Claimed id (claim_stmt id env n d).1
unfolding claim_stmt transition payment_row
claim-Claimed id env n d (row, found) = (
  if status_eq row.status routed then claim_row (env.clock n) row else row,
  ground (
    arith,
    eq_refl id,
    find-update_if payment_key id id (λ r. status_eq r.status routed) (claim_row (env.clock n))
        d.payments (λ r. refl),
  ),
  ground arith,
)

claim_payment-Claimed :
    (id : String) (env : Env) (w : World) (r : Option ExecutionMode)
    → Fair env
    → Exists id w.db
    → (claim_payment id env w).0 ≡ ok r
    → Claimed id (claim_payment id env w).1.db
unfolding claim_payment statement claim_stmt
claim_payment-Claimed id env w r fair there h = by_fault (env.fault w.tick) h
  where
    d : Db
    d = env.others w.tick w.db

    by_fault :
        (f : Fault)
        → (answer f (claim_stmt id env w.tick d) d).0 ≡ ok r
        → Claimed id (answer f (claim_stmt id env w.tick d) d).1
    by_fault rejected g = absurd (ground arith)
    by_fault answer_lost g = absurd (ground arith)
    by_fault fine g =
        claim-Claimed id env w.tick d
          (Exists-Evolves id w.db d (fair.others_evolve w.tick w.db) there)

-- The error of a claim is not hidden by the metric that is recorded for it.
on_error-ok :
    {A : Type 0} (m : M A) (k : M (Unit {0})) (env : Env) (w : World) (a : A)
    → (on_error m k env w).0 ≡ ok a
    → ((m env w).0 ≡ ok a) × ((on_error m k env w).1 ≡ (m env w).1)
unfolding on_error
on_error-ok m k env w a h = elim (Result-cases (m env w).0) [
  | inl (e, failed) ↦ ground arith
  | inr (b, done) ↦ (ground (arith, done), ground (arith, done))
]

after_claim : Option Executor → String → Option ExecutionMode → M (Unit {0})
after_claim e id none = pure tt
after_claim e id (some mode) = handle_claimed (processor_of e) id mode

after_claim-Safe :
    (e : Option Executor) (id : String) (o : Option ExecutionMode) → Safe (after_claim e id o)
unfolding after_claim
after_claim-Safe e id none = Keeps-pure OnDb-relation tt
after_claim-Safe e id (some mode) = handle_claimed-Safe e id mode

claim_counted : String → M (Option ExecutionMode)
claim_counted id =
    on_error (claim_payment id) (emit (processing_failures "unknown" "claim_conflict"))

claim_counted-Claimed :
    (e : Option Executor) (id : String) (env : Env) (w : World)
    → Fair env
    → Exists id w.db
    → ((claim_counted id >>= after_claim e id) env w).0 ≡ ok tt
    → Claimed id ((claim_counted id >>= after_claim e id) env w).1.db
unfolding claim_counted
claim_counted-Claimed e id env w fair there h =
    let (o, got, rest) = bind-ok (claim_counted id) (after_claim e id) env w tt h in
    let (done, same) =
      on_error-ok (claim_payment id) (emit (processing_failures "unknown" "claim_conflict")) env w o
        got in
    subst (λ x. Claimed id x.1.db) (sym rest)
      (Claimed-Evolves id _ _ ((after_claim-Safe e id o).at env fair _).evolves (
        subst (λ x. Claimed id x.db) (sym same) (claim_payment-Claimed id env w o fair there done)))

pub handle_routed_payment-Claimed :
    (e : Option Executor) (evt : RoutedPayment) (env : Env) (w : World)
    → Fair env
    → Exists evt.payment_id w.db
    → (handle_routed_payment (processor_of e) evt env w).0 ≡ ok tt
    → Claimed evt.payment_id (handle_routed_payment (processor_of e) evt env w).1.db
unfolding handle_routed_payment claim_counted after_claim emit ◌>>◌ ◌>>=◌
handle_routed_payment-Claimed e evt env w fair there h =
    claim_counted-Claimed e evt.payment_id env (record w { metrics = events_consumed ∷ w.metrics })
      fair there h
