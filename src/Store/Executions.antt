-- ===== src/Store/Executions.antt =====
-- execution_store.go: the wallets' nonces and the rows of payment_executions.
use chain_route.Prelude.{
  ℕ, ◌+◌, String, Bool, true, false, ◌&&◌, Option, none, some, List, [], ◌∷◌, ◌++◌, ◌==◌, eqb, ltb,
  if◌then◌else◌, is_some, select,
}
use chain_route.Payment.{Time, Execution, ExternalStatus}
use chain_route.Db.{Db, NonceRow, PaymentRow}
use chain_route.Db.Table.{find, modify, exists}
use chain_route.World.{
  Result, ok, err, wallet_not_seeded, check_violation, unique_violation, Statement, M, statement,
}

abbrev pub wallet_key : NonceRow → String
wallet_key r = r.wallet_address

abbrev pub execution_key : Execution → String
execution_key e = e.id

abbrev pub execution_payment : Execution → String
execution_payment e = e.payment_id

-- INSERT ... ON CONFLICT (wallet_address) DO NOTHING.
unfoldable pub seed_stmt : String → ℕ → Statement (Unit {0})
seed_stmt wallet n env _ d = (
  ok tt,
  elim (find wallet_key wallet d.wallet_nonces) [
    | some _ ↦ d
    | none ↦ record d {
      wallet_nonces = d.wallet_nonces ++ record { wallet_address = wallet; next_nonce = n } ∷ [];
    }
  ],
)

unfoldable pub seed_wallet_nonce : String → ℕ → M (Unit {0})
seed_wallet_nonce wallet n = statement (seed_stmt wallet n)

pub record CreateExecutionParams : Type 0 where
  pub payment_id : String
  pub wallet_address : String
  pub bridge_provider : String
  pub origin_chain_id : ℕ
  pub destination_chain_id : ℕ

-- The row that the INSERT adds, its defaults included.
abbrev pub new_execution : CreateExecutionParams → String → ℕ → Time → Execution
new_execution p id nonce t = record {
  id = id;
  payment_id = p.payment_id;
  bridge_provider = p.bridge_provider;
  origin_chain_id = p.origin_chain_id;
  destination_chain_id = p.destination_chain_id;
  wallet_address = p.wallet_address;
  nonce = nonce;
  signed_tx_hash = none;
  raw_signed_tx = none;
  broadcast_at = none;
  provider_reference_id = none;
  external_status = ExternalStatus.pending;
  raw_external_status = none;
  confirmed_at = none;
  created_at = t;
  updated_at = t;
}

abbrev pub bump_nonce : NonceRow → NonceRow
bump_nonce r = record r { next_nonce = r.next_nonce + 1 }

abbrev pub has_nonce : String → ℕ → Execution → Bool
has_nonce wallet n e = e.wallet_address == wallet && eqb e.nonce n

abbrev pub is_of_payment : String → Execution → Bool
is_of_payment id e = e.payment_id == id

-- INSERT INTO payment_executions, after the nonce is allocated. The indexes are checked in the order
-- in which the table declares them, the reference to payments last. `ok none` is the violation of
-- payment_executions_payment_id_key.
unfoldable pub insert_execution : Execution → Db → Result (Option Execution) × Db
insert_execution e d =
    if exists (has_nonce e.wallet_address e.nonce) d.executions
    then (err unique_violation, d)
    else if exists (is_of_payment e.payment_id) d.executions
    then (ok none, d)
    else if exists (λ (p : PaymentRow). p.id == e.payment_id) d.payments
    then (ok (some e), record d { executions = d.executions ++ e ∷ [] })
    else (err check_violation, d)

-- A lost race rolls the allocation of the nonce back with the rest.
abbrev pub unless_lost : Db → Result (Option Execution) × Db → Result (Option Execution) × Db
unless_lost d (ok none, _) = (ok none, d)
unless_lost d r = r

unfoldable pub try_create_stmt : CreateExecutionParams → Statement (Option Execution)
unfolding insert_execution
try_create_stmt p env n d = elim (find wallet_key p.wallet_address d.wallet_nonces) [
  | none ↦ (err wallet_not_seeded, d)
  | some row ↦
      let allocated = record d {
        wallet_nonces = modify wallet_key p.wallet_address bump_nonce d.wallet_nonces;
      } in
      unless_lost d
        (insert_execution (new_execution p (env.new_id n) row.next_nonce (env.clock n)) allocated)
]

-- `none`: another actor created the payment's execution row first.
unfoldable pub try_create_execution : CreateExecutionParams → M (Option Execution)
try_create_execution p = statement (try_create_stmt p)

unfoldable pub execution_of : String → Db → Option Execution
execution_of id d = find execution_payment id d.executions

unfoldable pub get_execution_stmt : String → Statement (Option Execution)
get_execution_stmt id env n d = (ok (execution_of id d), d)

unfoldable pub get_execution_by_payment_id : String → M (Option Execution)
get_execution_by_payment_id id = statement (get_execution_stmt id)

-- UPDATE payment_executions SET ... WHERE id = $1.
unfoldable pub update_execution : String → (Execution → Execution) → Db → Db
update_execution id f d = record d { executions = modify execution_key id f d.executions }

abbrev pub signed_row : List ℕ → String → Option String → Time → Execution → Execution
signed_row raw hash ref t e = record e {
  raw_signed_tx = some raw;
  signed_tx_hash = some hash;
  provider_reference_id = ref;
  updated_at = t;
}

abbrev pub broadcast_row : Time → Execution → Execution
broadcast_row t e = record e { broadcast_at = some t; updated_at = t }

abbrev pub outcome_row : ExternalStatus → String → Option Time → Time → Execution → Execution
outcome_row s raw confirmed t e = record e {
  external_status = s;
  raw_external_status = some raw;
  confirmed_at = confirmed;
  updated_at = t;
}

unfoldable pub persist_stmt : String → List ℕ → String → Option String → Statement (Unit {0})
persist_stmt id raw hash ref env n d =
    (ok tt, update_execution id (signed_row raw hash ref (env.clock n)) d)

unfoldable pub broadcast_stmt : String → Statement (Unit {0})
broadcast_stmt id env n d = (ok tt, update_execution id (broadcast_row (env.clock n)) d)

unfoldable pub outcome_stmt : String → ExternalStatus → String → Option Time → Statement (Unit {0})
outcome_stmt id s raw confirmed env n d =
    (ok tt, update_execution id (outcome_row s raw confirmed (env.clock n)) d)

unfoldable pub persist_signed_execution : String → List ℕ → String → Option String → M (Unit {0})
persist_signed_execution id raw hash ref = statement (persist_stmt id raw hash ref)

unfoldable pub mark_execution_broadcast : String → M (Unit {0})
mark_execution_broadcast id = statement (broadcast_stmt id)

unfoldable pub update_execution_external_status :
    String → ExternalStatus → String → Option Time → M (Unit {0})
update_execution_external_status id s raw confirmed = statement (outcome_stmt id s raw confirmed)

-- Broadcast and unconfirmed, or not broadcast and not updated for longer than `staleness`.
abbrev pub is_candidate : Time → Time → Execution → Bool
is_candidate t staleness e =
    if is_some e.broadcast_at
    then (if is_some e.confirmed_at then false else true)
    else ltb (e.updated_at + staleness) t

unfoldable pub candidates_stmt : Time → Statement (List Execution)
candidates_stmt staleness env n d =
    (ok (select (is_candidate (env.clock n) staleness) d.executions), d)

unfoldable pub reconciliation_candidates : Time → M (List Execution)
reconciliation_candidates staleness = statement (candidates_stmt staleness)

-- SELECT MIN(nonce).
abbrev pub min_nonce : List Execution → Option ℕ
min_nonce [] = none
min_nonce (e ∷ es) = elim (min_nonce es) [
  | none ↦ some e.nonce
  | some n ↦ some (if ltb e.nonce n then e.nonce else n)
]

abbrev pub is_unconfirmed : String → Execution → Bool
is_unconfirmed wallet e =
    e.wallet_address == wallet && (if is_some e.confirmed_at then false else true)

unfoldable pub lowest_stmt : String → Statement (Option ℕ)
lowest_stmt wallet env n d = (ok (min_nonce (select (is_unconfirmed wallet) d.executions)), d)

unfoldable pub lowest_unconfirmed_nonce : String → M (Option ℕ)
lowest_unconfirmed_nonce wallet = statement (lowest_stmt wallet)
