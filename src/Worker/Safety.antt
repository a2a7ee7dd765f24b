-- ===== src/Worker/Safety.antt =====
-- executor.go against the evolution of the database.
use chain_route.Prelude.{ℕ, String, false, Option, none, some, List}
use chain_route.Prelude.Int.{ℤ}
use chain_route.Payment.{Execution, Quote}
use chain_route.Bridge.Quote.{Quote as LiveQuote, TxEnvelope}
use chain_route.World.{M, Transaction, external, lookup_failed, not_signed}
use chain_route.World.Rules.{
  Keeps-bind, Keeps-pure, Keeps-fail, Keeps-seq, Keeps-emit, Keeps-attempt, Keeps-result,
}
use chain_route.Store.Evolution.{Evolves-refl, OnDb-relation}
use chain_route.Store.Evolution.Methods.{Safe, store_rules, try_create_execution-Safe}
use chain_route.Worker.Clients.{EthClient, Lookup, known, not_found, unreachable}
use chain_route.Worker.Executor.{
  reject, fresh_terms, sign_and_account, start_execution, check_and_start, execute_testnet_payment,
  drive_signed, check_and_resume, drive_unsigned, drive_execution_forward,
}
use chain_route.Worker.Executor.Checks.{Executor, validate_envelope, build_validated_envelope}
use chain_route.Worker.Executor.Broadcast.{
  send_transaction, send_persisted, broadcast_with_recovery, record_broadcast,
  sign_and_broadcast_fresh,
}

validate_envelope-Safe :
    (e : Executor) (v : TxEnvelope) (q : Quote) (l : LiveQuote) → Safe (validate_envelope e v q l)
unfolding validate_envelope
validate_envelope-Safe e v q l = search store_rules depth 12

build_validated_envelope-Safe :
    (e : Executor) (q : Quote) (l : LiveQuote) → Safe (build_validated_envelope e q l)
unfolding build_validated_envelope
build_validated_envelope-Safe e q l = search (store_rules, validate_envelope-Safe) depth 12

send_transaction-Safe : (c : EthClient) (tx : Transaction) → Safe (send_transaction c tx)
unfolding send_transaction external
send_transaction-Safe c tx = record { at = λ env g w. record { evolves = Evolves-refl w.db } }

send_persisted-Safe :
    (e : Executor) (raw : List ℕ) (found : Lookup) → Safe (send_persisted e raw found)
unfolding send_persisted
send_persisted-Safe e raw known = Keeps-pure OnDb-relation false
send_persisted-Safe e raw unreachable = Keeps-fail OnDb-relation lookup_failed
send_persisted-Safe e raw not_found = search (store_rules, send_transaction-Safe) depth 12

broadcast_with_recovery-Safe :
    (e : Executor) (hash : Option String) (raw : Option (List ℕ))
    → Safe (broadcast_with_recovery e hash raw)
unfolding broadcast_with_recovery
broadcast_with_recovery-Safe e (some hash) (some raw) =
    search (store_rules, send_persisted-Safe) depth 12
broadcast_with_recovery-Safe e none raw = Keeps-fail OnDb-relation not_signed
broadcast_with_recovery-Safe e (some hash) none = Keeps-fail OnDb-relation not_signed

record_broadcast-Safe : (exec : Execution) → Safe (record_broadcast exec)
unfolding record_broadcast
record_broadcast-Safe exec = search store_rules depth 12

sign_and_broadcast_fresh-Safe :
    (e : Executor) (exec : Execution) (v : TxEnvelope) (q : LiveQuote) (label : String)
    → Safe (sign_and_broadcast_fresh e exec v q label)
unfolding sign_and_broadcast_fresh
sign_and_broadcast_fresh-Safe e exec v q label =
    search (store_rules, broadcast_with_recovery-Safe, record_broadcast-Safe) depth 30

reject-Safe : (label why id reason : String) → Safe (reject label why id reason)
unfolding reject
reject-Safe label why id reason = search store_rules depth 12

fresh_terms-Safe : (e : Executor) (id : String) (q : Quote) → Safe (fresh_terms e id q)
unfolding fresh_terms
fresh_terms-Safe e id q = search store_rules depth 20

sign_and_account-Safe :
    (label : String) (m : M (Unit {0})) → Safe m → Safe (sign_and_account label m)
unfolding sign_and_account
sign_and_account-Safe label m k = Keeps-bind OnDb-relation _ _ (Keeps-attempt m k) (λ r.
    Keeps-seq OnDb-relation _ _ (Keeps-emit OnDb-relation _)
      (Keeps-result r _ _ (λ a. Keeps-pure OnDb-relation tt) (λ x. search store_rules)))

start_execution-Safe :
    (e : Executor) (id : String) (q : Quote) (l : LiveQuote) (label : String)
    → Safe (start_execution e id q l label)
unfolding start_execution
start_execution-Safe e id q l label =
    Keeps-bind OnDb-relation _ _ (search (store_rules, build_validated_envelope-Safe)) (λ v.
      Keeps-bind OnDb-relation _ _ (try_create_execution-Safe _) (elim [
        | none ↦ Keeps-pure OnDb-relation tt
        | some exec ↦ search (store_rules, sign_and_account-Safe, sign_and_broadcast_fresh-Safe)
      ]))

check_and_start-Safe :
    (e : Executor) (id : String) (q : Quote) (a : ℤ) (l : LiveQuote) (label : String)
    → Safe (check_and_start e id q a l label)
unfolding check_and_start
check_and_start-Safe e id q a l label =
    search (store_rules, reject-Safe, start_execution-Safe) depth 12

-- Whatever ExecuteTestnetPayment meets, the database evolves.
pub execute_testnet_payment-Safe :
    (e : Executor) (id : String) → Safe (execute_testnet_payment e id)
unfolding execute_testnet_payment
execute_testnet_payment-Safe e id =
    search (store_rules, reject-Safe, fresh_terms-Safe, check_and_start-Safe) depth 20

drive_signed-Safe :
    (e : Executor) (exec : Execution) (label : String) → Safe (drive_signed e exec label)
unfolding drive_signed
drive_signed-Safe e exec label =
    search (store_rules, broadcast_with_recovery-Safe, record_broadcast-Safe) depth 20

check_and_resume-Safe :
    (e : Executor) (exec : Execution) (q : Quote) (a : ℤ) (l : LiveQuote) (label : String)
    → Safe (check_and_resume e exec q a l label)
unfolding check_and_resume
check_and_resume-Safe e exec q a l label =
    search
      (
        store_rules, reject-Safe, build_validated_envelope-Safe, sign_and_account-Safe,
        sign_and_broadcast_fresh-Safe,
      )
      depth 20

drive_unsigned-Safe :
    (e : Executor) (exec : Execution) (label : String) → Safe (drive_unsigned e exec label)
unfolding drive_unsigned
drive_unsigned-Safe e exec label =
    search (store_rules, reject-Safe, fresh_terms-Safe, check_and_resume-Safe) depth 20

pub drive_execution_forward-Safe :
    (e : Executor) (exec : Execution) → Safe (drive_execution_forward e exec)
unfolding drive_execution_forward
drive_execution_forward-Safe e exec = search (store_rules, drive_signed-Safe, drive_unsigned-Safe)
