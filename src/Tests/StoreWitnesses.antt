-- ===== src/Tests/StoreWitnesses.antt =====
-- The theorems on the store and on amounts, at concrete inputs.
use chain_route.Prelude.{◌<◌, none, some, [], ◌∷◌, ◌≡◌, refl, ◌⊎◌}
use chain_route.Payment.{completed, simulated}
use chain_route.Db.{PaymentRow}
use chain_route.Db.Table.{find, modify, update_if}
use chain_route.World.{Error, ok, err}
use chain_route.Store.Payments.{to_payment, claim_stmt, complete_stmt, transition}
use chain_route.Store.Executions.{try_create_stmt, insert_execution, new_execution}
use chain_route.Store.Create.{
  create_or_get_payment, insert_payment_stmt, insert_hops, find_key_stmt, request_matches,
  created_payment,
}
use chain_route.Store.Create.PutIfAbsent.{PutIfAbsent, create_or_get_payment-PutIfAbsent}
use chain_route.Store.Create.Retry.{
  stored_row, insert-find_key, create_or_get_payment-insert, same_request,
}
use chain_route.Store.Quotes.{insert_payment_quotes}
use chain_route.Store.Evolution.{Evolves-refl}
use chain_route.Store.Once.{claim-claim, Settled, complete-Settled}
use chain_route.Store.Nonces.{Allocates, try_create-cases, try_create-try_create}
use chain_route.Money.{decimal_to_base_units, base_units_to_decimal}
use chain_route.Money.RoundTrip.{decimal_to_base_units-base_units_to_decimal}
use chain_route.Prelude.Int.{negsuc}
use chain_route.Payment.{completed}
use chain_route.Store.Payments.{hops_for_payment}
use chain_route.Prelude.{if◌then◌else◌}
use chain_route.Payment.{replayed, conflict, Payment}
use chain_route.Db.{Db}
use chain_route.Tests.{calm_env, calm-Quiet, routed_db, processing_db, world_of, request, params}

-- What the first request leaves.
abbrev stored_payment : Payment
stored_payment = created_payment request "new-id" (b'2' ∷ []) 100

abbrev stored_db : Db
stored_db = (insert_payment_stmt request calm_env 0 routed_db).1

complete-Settled_example :
    Settled "pay-1" (complete_stmt "pay-1" completed calm_env 0 processing_db).1 calm_env 1
unfolding complete_stmt transition update_if find modify
complete-Settled_example =
    complete-Settled "pay-1" completed calm_env 0 processing_db 5 refl refl
      (complete_stmt "pay-1" completed calm_env 0 processing_db).1 (Evolves-refl _) calm_env 1

claim-claim_example :
    claim_stmt "pay-1" calm_env 1 (claim_stmt "pay-1" calm_env 0 routed_db).1
    ≡ (ok none, (claim_stmt "pay-1" calm_env 0 routed_db).1)
unfolding claim_stmt transition update_if find modify
claim-claim_example =
    claim-claim "pay-1" calm_env 0 routed_db simulated refl
      (claim_stmt "pay-1" calm_env 0 routed_db).1 (Evolves-refl _) calm_env 1

try_create-cases_example :
    ((x : Error) × ((try_create_stmt (params "pay-1") calm_env 0 processing_db).0 ≡ err x))
    ⊎ (try_create_stmt (params "pay-1") calm_env 0 processing_db ≡ (ok none, processing_db))
    ⊎ Allocates
        (params "pay-1")
        calm_env
        0
        processing_db
        (try_create_stmt (params "pay-1") calm_env 0 processing_db)
try_create-cases_example = try_create-cases (params "pay-1") calm_env 0 processing_db

try_create-try_create_example :
    (new_execution (params "pay-1") "new-id" 7 100).nonce
    < (new_execution (params "pay-2") "new-id" 8 101).nonce
unfolding try_create_stmt insert_execution find modify
try_create-try_create_example =
    try_create-try_create (params "pay-1") (params "pay-2") calm_env calm_env 0 1 processing_db
      (try_create_stmt (params "pay-1") calm_env 0 processing_db).1
      (new_execution (params "pay-1") "new-id" 7 100)
      (new_execution (params "pay-2") "new-id" 8 101) refl refl (Evolves-refl _) refl

insert-find_key_example :
    (row : PaymentRow) × (row.id ≡ "new-id")
    × (request_matches calm_env.numeric_eq request row
        ≡ same_request calm_env request stored_payment request)
    × (find_key_stmt request calm_env 1 (insert_payment_stmt request calm_env 0 routed_db).1 ≡ (
      ok (some (row, request_matches calm_env.numeric_eq request row)),
      (insert_payment_stmt request calm_env 0 routed_db).1,
    ))
unfolding insert_payment_stmt insert_hops insert_payment_quotes to_payment
insert-find_key_example =
    insert-find_key request request calm_env calm_env 0 1 routed_db stored_payment refl refl

create_or_get_payment-insert_example :
    ((create_or_get_payment request calm_env (world_of stored_db)).0
      ≡ ok (
          if same_request calm_env request stored_payment request
          then replayed (
              to_payment
                (stored_row request calm_env 0 stored_payment)
                (hops_for_payment "new-id" stored_db))
          else conflict))
    × ((create_or_get_payment request calm_env (world_of stored_db)).1.db ≡ stored_db)
unfolding insert_payment_stmt insert_hops insert_payment_quotes to_payment
create_or_get_payment-insert_example =
    create_or_get_payment-insert request request calm_env calm_env 0 (world_of stored_db) routed_db
      stored_payment (λ k x. refl) (λ k. refl) refl refl refl

decimal_to_base_units-base_units_to_decimal_example :
    decimal_to_base_units (base_units_to_decimal (negsuc 1233999) 6) 6 ≡ some (negsuc 1233999)
decimal_to_base_units-base_units_to_decimal_example =
    decimal_to_base_units-base_units_to_decimal (negsuc 1233999) 6

create_or_get_payment-PutIfAbsent_example :
    PutIfAbsent calm_env request 1 routed_db
      (create_or_get_payment request calm_env (world_of routed_db)).1.db
      (create_or_get_payment request calm_env (world_of routed_db)).0
create_or_get_payment-PutIfAbsent_example =
    create_or_get_payment-PutIfAbsent request calm_env (world_of routed_db) calm-Quiet (λ n. refl)
