-- ===== src/Store/Evolution/Methods.antt =====
-- The store's methods, as the workers call them, against the evolution of the database.
use chain_route.Prelude.{ℕ, String, Bool, true, false, Option, none, some, List, ◌≡◌}
use chain_route.Payment.{Status, Time, Payment, ExternalStatus, created, conflict}
use chain_route.World.Rules.{Keeps, rules, Keeps-bind, Keeps-pure, Keeps-fail, Keeps-seq}
use chain_route.Db.{PaymentRow}
use chain_route.World.{M, key_vanished}
use chain_route.Store.Payments.{
  claim_payment, complete_payment, mark_submitted, complete_submitted_payment,
  mark_processing_failed, get_payment, stale_payment_ids,
  stale_testnet_processing_without_execution_ids,
}
use chain_route.Store.Executions.{
  CreateExecutionParams, try_create_execution, seed_wallet_nonce, get_execution_by_payment_id,
  persist_signed_execution, mark_execution_broadcast, update_execution_external_status,
  reconciliation_candidates, lowest_unconfirmed_nonce,
}
use chain_route.Store.Quotes.{get_quote_by_payment_id}
use chain_route.Store.Create.{
  find_by_idempotency_key, replay, insert_payment, settle, create_or_get_payment,
}
use chain_route.Store.Evolution.{is_terminal, OnDb, Fair, OnDb-relation}
use chain_route.Store.Evolution.Statements.{Keeps-statement}
use chain_route.Store.Evolution.Moves.{
  claim-Advances, complete-Advances, submit-Advances, complete_submitted-Advances, fail-Advances,
  get_payment-Advances, hops-Advances, stale-Advances, stale_testnet-Advances,
  get_execution-Advances, candidates-Advances, lowest-Advances, get_quote-Advances,
  find_key-Advances,
}
use chain_route.Store.Evolution.Rows.{
  persist-Advances, broadcast-Advances, outcome-Advances, try_create-Advances, seed-Advances,
  insert_payment-Advances,
}

-- An action in fair company, seen at the database.
abbrev pub Safe : {A : Type 0} → M A → Type 0
Safe m = Keeps Fair OnDb m

pub claim_payment-Safe : (id : String) → Safe (claim_payment id)
unfolding claim_payment
claim_payment-Safe id = Keeps-statement _ (claim-Advances id)

pub complete_payment-Safe :
    (id : String) (terminal : Status)
    → is_terminal terminal ≡ true
    → Safe (complete_payment id terminal)
unfolding complete_payment
complete_payment-Safe id terminal h = Keeps-statement _ (complete-Advances id terminal h)

pub mark_submitted-Safe : (id : String) → Safe (mark_submitted id)
unfolding mark_submitted
mark_submitted-Safe id = Keeps-statement _ (submit-Advances id)

pub complete_submitted_payment-Safe :
    (id : String) (terminal : Status)
    → is_terminal terminal ≡ true
    → Safe (complete_submitted_payment id terminal)
unfolding complete_submitted_payment
complete_submitted_payment-Safe id terminal h =
    Keeps-statement _ (complete_submitted-Advances id terminal h)

pub mark_processing_failed-Safe : (id reason : String) → Safe (mark_processing_failed id reason)
unfolding mark_processing_failed
mark_processing_failed-Safe id reason = Keeps-statement _ (fail-Advances id reason)

pub get_payment-Safe : (id : String) → Safe (get_payment id)
unfolding get_payment
get_payment-Safe id =
    Keeps-bind OnDb-relation _ _ (Keeps-statement _ (get_payment-Advances id)) (elim [
      | none ↦ Keeps-pure OnDb-relation none
      | some p ↦
          Keeps-bind OnDb-relation _ _ (Keeps-statement _ (hops-Advances p.id))
            (λ hs. Keeps-pure OnDb-relation _)
    ])

pub stale_payment_ids-Safe : (t : Time) → Safe (stale_payment_ids t)
unfolding stale_payment_ids
stale_payment_ids-Safe t = Keeps-statement _ (stale-Advances t)

pub stale_testnet-Safe : (t : Time) → Safe (stale_testnet_processing_without_execution_ids t)
unfolding stale_testnet_processing_without_execution_ids
stale_testnet-Safe t = Keeps-statement _ (stale_testnet-Advances t)

pub try_create_execution-Safe : (p : CreateExecutionParams) → Safe (try_create_execution p)
unfolding try_create_execution
try_create_execution-Safe p = Keeps-statement _ (try_create-Advances p)

pub seed_wallet_nonce-Safe : (wallet : String) (n : ℕ) → Safe (seed_wallet_nonce wallet n)
unfolding seed_wallet_nonce
seed_wallet_nonce-Safe wallet n = Keeps-statement _ (seed-Advances wallet n)

pub get_execution-Safe : (id : String) → Safe (get_execution_by_payment_id id)
unfolding get_execution_by_payment_id
get_execution-Safe id = Keeps-statement _ (get_execution-Advances id)

pub persist_signed_execution-Safe :
    (id : String) (raw : List ℕ) (hash : String) (ref : Option String)
    → Safe (persist_signed_execution id raw hash ref)
unfolding persist_signed_execution
persist_signed_execution-Safe id raw hash ref = Keeps-statement _ (persist-Advances id raw hash ref)

pub mark_execution_broadcast-Safe : (id : String) → Safe (mark_execution_broadcast id)
unfolding mark_execution_broadcast
mark_execution_broadcast-Safe id = Keeps-statement _ (broadcast-Advances id)

pub update_external_status-Safe :
    (id : String) (s : ExternalStatus) (raw : String) (t : Option Time)
    → Safe (update_execution_external_status id s raw t)
unfolding update_execution_external_status
update_external_status-Safe id s raw t = Keeps-statement _ (outcome-Advances id s raw t)

pub reconciliation_candidates-Safe : (t : Time) → Safe (reconciliation_candidates t)
unfolding reconciliation_candidates
reconciliation_candidates-Safe t = Keeps-statement _ (candidates-Advances t)

pub lowest_unconfirmed_nonce-Safe : (wallet : String) → Safe (lowest_unconfirmed_nonce wallet)
unfolding lowest_unconfirmed_nonce
lowest_unconfirmed_nonce-Safe wallet = Keeps-statement _ (lowest-Advances wallet)

pub get_quote-Safe : (id : String) → Safe (get_quote_by_payment_id id)
unfolding get_quote_by_payment_id
get_quote-Safe id = Keeps-statement _ (get_quote-Advances id)

pub replay-Safe : (row : PaymentRow) (matches : Bool) → Safe (replay row matches)
unfolding replay
replay-Safe row false = Keeps-pure OnDb-relation conflict
replay-Safe row true = search (rules, OnDb-relation, Keeps-statement, hops-Advances)

pub find_by_idempotency_key-Safe : (p : Payment) → Safe (find_by_idempotency_key p)
unfolding find_by_idempotency_key
find_by_idempotency_key-Safe p = Keeps-statement _ (find_key-Advances p)

settle-Safe : (p : Payment) (o : Option Payment) → Safe (settle p o)
unfolding settle
settle-Safe p none = Keeps-bind OnDb-relation _ _ (find_by_idempotency_key-Safe p) (elim [
  | none ↦ Keeps-fail OnDb-relation key_vanished
  | some (row, matches) ↦ replay-Safe row matches
])
settle-Safe p (some q) = Keeps-pure OnDb-relation (created q)

pub create_or_get_payment-Safe : (p : Payment) → Safe (create_or_get_payment p)
unfolding create_or_get_payment insert_payment
create_or_get_payment-Safe p = Keeps-bind OnDb-relation _ _ (find_by_idempotency_key-Safe p) (elim [
  | none ↦
      Keeps-bind OnDb-relation _ _ (Keeps-statement _ (insert_payment-Advances p)) (settle-Safe p)
  | some (row, matches) ↦ replay-Safe row matches
])

pub ruleset store_rules = (
  rules, OnDb-relation, claim_payment-Safe, complete_payment-Safe, mark_submitted-Safe,
  complete_submitted_payment-Safe, mark_processing_failed-Safe, get_payment-Safe,
  stale_payment_ids-Safe, stale_testnet-Safe, try_create_execution-Safe, get_execution-Safe,
  persist_signed_execution-Safe, mark_execution_broadcast-Safe, update_external_status-Safe,
  reconciliation_candidates-Safe, lowest_unconfirmed_nonce-Safe, get_quote-Safe,
)
