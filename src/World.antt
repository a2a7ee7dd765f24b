-- ===== src/World.antt =====
-- What the Go code runs in: the database, the calls that left the process and the metrics that were
-- recorded; the environment that answers; and the monad of a Go function that returns an error.
--
-- Every statement and every external call takes the next tick, and the environment answers by
-- tick. So an answer, the clock, a fault of the database and what the other actors have committed
-- meanwhile are arbitrary functions, and a theorem over every `Env` is one over every such run.
pub mod Rules
pub mod Answers
use chain_route.Prelude.{ℕ, suc, String, Bool, Option, none, some, List, [], ◌∷◌}
use chain_route.Prelude.Int.{ℤ}
use chain_route.Payment.{Time, Float64, ExecutionMode, RoutedPayment}
use chain_route.Db.{Db}

-- The errors that the modelled functions return. A constructor stands for one `fmt.Errorf` or for
-- the wrapping of one kind of failure.
pub data Error : Type 0 where
  db_error unique_violation check_violation key_vanished invalid_cursor : Error
  quote_row_missing provider_not_configured payment_not_found amount_invalid : Error
  fresh_quote_failed signer_not_configured build_failed : Error
  provider_mismatch chain_id_mismatch contract_mismatch value_mismatch : Error
  wallet_not_seeded gas_price_failed sign_failed marshal_failed unmarshal_failed : Error
  not_signed lookup_failed send_failed : Error
  executor_not_configured checker_not_configured publish_failed : Error

pub data Result (A : Type 0) : Type 0 where
  ok : A → Result A
  err : Error → Result A

-- A legacy transaction (its value a *big.Int) as `types.LegacyTx` lists its fields, and the same with a signature.
pub record LegacyTx : Type 0 where
  pub nonce : ℕ
  pub to : String
  pub value : Option ℤ
  pub gas : ℕ
  pub gas_price : ℕ
  pub input : List ℕ

pub record Transaction : Type 0 where
  pub legacy : LegacyTx
  pub chain_id : ℕ
  pub signature : List ℕ

-- One recording into a Prometheus vector, with its labels. A duration's value is left out.
pub data Metric : Type 0 where
  payments_completed : ExecutionMode → Metric
  payments_failed : ExecutionMode → String → Metric
  payment_duration : ExecutionMode → String → Metric
  executions_completed : String → Metric
  executions_failed : String → String → Metric
  execution_attempts : String → Metric
  execution_duration : String → Metric
  broadcasts : String → Metric
  reconciliations : String → Metric
  reconciliation_duration : String → Metric
  stale_recoveries : String → Metric
  events_consumed events_published : Metric
  processing_failures : String → String → Metric
  processing_duration : ExecutionMode → Metric
  payments_created : ExecutionMode → Metric
  routing_requests routing_duration : ExecutionMode → Metric
  routing_failures : String → Metric
  routing_selected_provider routing_selected_fee : String → Metric
  quote_requests quote_duration quote_selected : String → Metric
  quote_failures : String → String → Metric
  quote_available : String → Bool → Metric

-- A call of the Kafka producer.
pub record Message : Type 0 where
  pub key : String
  pub value : String

pub record World : Type 0 where
  pub db : Db
  pub tick : ℕ
  pub sent : List Transaction  -- SendTransaction calls, the latest first
  pub produced : List Message  -- Publish calls, the latest first
  pub metrics : List Metric  -- the latest first

-- What happens to one statement: it is answered; it fails and changes nothing; or it is committed
-- and the answer is lost (a timeout, a broken connection), so that the caller sees an error.
pub data Fault : Type 0 where
  fine rejected answer_lost : Fault

pub record Env : Type 0 where
  pub fault : ℕ → Fault
  pub clock : ℕ → Time
  pub others : ℕ → Db → Db  -- what other actors commit before the statement of this tick
  pub new_id : ℕ → String  -- gen_random_uuid()
  pub new_event_id : ℕ → String  -- the same, for the second row of a transaction
  pub clock_within : ℕ → Time  -- time.Now() between the statements of a transaction
  pub locked : ℕ → String → Bool  -- outbox rows that another transaction has locked
  pub numeric_text : List ℕ → Option (List ℕ)  -- the cast to NUMERIC(38, 18) and back; none: refused
  pub numeric_0 : List ℕ → Option (List ℕ)  -- the same for NUMERIC(38, 0)
  pub jsonb : String → Option String  -- the cast to JSONB and back
  pub numeric_eq : List ℕ → List ℕ → Bool  -- equality of two numeric texts as NUMERIC
  pub time_text : Time → List ℕ  -- the UTC time in RFC 3339 with nanoseconds
  pub read_time : List ℕ → Option Time  -- a text as timestamptz; none: refused
  pub read_id : List ℕ → Option String  -- a text as uuid, in its canonical form; none: refused
  pub average : List Float64 → Float64  -- AVG, and 0 of no rows
  pub date_trunc : String → Time → Time
  pub of_count : ℕ → Float64
  pub marshal_event : RoutedPayment → String  -- encoding/json on events.RoutedPayment
  pub unmarshal_event : String → Option RoutedPayment

abbrev pub M : Type 0 → Type 0
M A = Env → World → Result A × World

module _ {A : Type 0} where
  unfoldable pub pure : A → M A
  pure a env w = (ok a, w)

  unfoldable pub fail : Error → M A
  fail e env w = (err e, w)

  -- `if err := m; err != nil { ... }` where the function goes on.
  unfoldable pub attempt : M A → M (Result A)
  attempt m env w = let (r, w') = m env w in (ok r, w')

  -- `if err := m; err != nil { handler; return err }`.
  unfoldable pub on_error : M A → M (Unit {0}) → M A
  on_error m handler env w =
      let (r, w') = m env w in elim r [ ok a ↦ (ok a, w') | err e ↦ (err e, (handler env w').1) ]

  -- A call whose failure is wrapped.
  unfoldable pub or_fail : Option A → Error → M A
  unfolding pure fail
  or_fail none e = fail e
  or_fail (some a) _ = pure a

infixl 5 ◌>>=◌ ◌>>◌
unfoldable pub ◌>>=◌ : {A B : Type 0} → M A → (A → M B) → M B
◌>>=◌ m f env w = let (r, w') = m env w in elim r [ ok a ↦ f a env w' | err e ↦ (err e, w') ]

unfoldable pub ◌>>◌ : {A B : Type 0} → M A → M B → M B
unfolding ◌>>=◌
m >> k = m >>= λ _. k

-- One recording of a metric.
unfoldable pub emit : Metric → M (Unit {0})
emit m env w = (ok tt, record w { metrics = m ∷ w.metrics })

-- time.Now().
unfoldable pub now : M Time
now env w = (ok (env.clock w.tick), record w { tick = suc w.tick })

-- A call to something outside of the process whose answer depends on when it is made.
unfoldable pub external : {A : Type 0} → (ℕ → A) → M A
external f env w = (ok (f w.tick), record w { tick = suc w.tick })

-- A statement, or a transaction of several, is one step of the database. An error of its own rolls
-- it back.
abbrev pub Statement : Type 0 → Type 0
Statement A = Env → ℕ → Db → Result A × Db

abbrev pub committed : {A : Type 0} → Result A × Db → Db → Db
committed (ok _, d') d = d'
committed (err _, _) d = d

abbrev pub answer : {A : Type 0} → Fault → Result A × Db → Db → Result A × Db
answer Fault.fine r d = (r.0, committed r d)
answer Fault.rejected r d = (err db_error, d)
answer Fault.answer_lost r d = (err db_error, committed r d)

unfoldable pub statement : {A : Type 0} → Statement A → M A
statement s env w =
    let n = w.tick in
    let d = env.others n w.db in
    let (r, d') = answer (env.fault n) (s env n d) d in (r, record w { db = d'; tick = suc n })

-- `for ... range` whose body only logs its errors: the body is run for each element in turn.
unfoldable pub for_each : {A : Type 0} → (A → M (Unit {0})) → List A → M (Unit {0})
for_each body [] = pure tt
for_each body (x ∷ xs) = attempt (body x) >> for_each body xs

-- To unfold this is to unfold the monad.
unfoldable pub monad : Unit {0}
unfolding pure fail attempt on_error or_fail ◌>>=◌ ◌>>◌ emit now external statement
monad = tt
