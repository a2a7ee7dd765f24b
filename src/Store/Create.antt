-- ===== src/Store/Create.antt =====
-- store.go: LookupByIdempotencyKey and CreateOrGetPayment, which saves a payment with its hops, its
-- quotes and its outbox event in one transaction.
pub mod Outcomes
pub mod Retry
pub mod PutIfAbsent
use chain_route.Prelude.{
  ℕ, String, Bool, true, false, ◌&&◌, Option, none, some, List, [], ◌∷◌, ◌++◌, ◌==◌, eqb,
  if◌then◌else◌,
}
use chain_route.Payment.{
  Status, Time, Hop, Payment, CreateResult, created, replayed, conflict, RoutedPayment,
  routed_payment_event_type, mode_eq,
}
use chain_route.Db.{PaymentRow, HopRow, OutboxRow}
use chain_route.Db.Table.{find, exists}
use chain_route.World.{
  Env, Result, ok, err, check_violation, unique_violation, key_vanished, Statement, M, pure, fail,
  ◌>>=◌, statement,
}
use chain_route.Store.Payments.{hops_stmt, to_payment}
use chain_route.Store.Quotes.{insert_payment_quotes}

abbrev pub idempotency_key_of : PaymentRow → String
idempotency_key_of r = r.idempotency_key

-- The column request_matches of the query.
unfoldable pub request_matches : (List ℕ → List ℕ → Bool) → Payment → PaymentRow → Bool
request_matches numeric_eq p r =
    r.source_chain == p.source_chain
    && (r.destination_chain == p.destination_chain
        && (r.asset == p.asset
            && (numeric_eq r.amount p.amount && mode_eq r.execution_mode p.execution_mode)))

abbrev matched : Env → Payment → Option PaymentRow → Option (PaymentRow × Bool)
matched env p none = none
matched env p (some r) = some (r, request_matches env.numeric_eq p r)

unfoldable pub find_key_stmt : Payment → Statement (Option (PaymentRow × Bool))
find_key_stmt p env n d =
    (ok (matched env p (find idempotency_key_of p.idempotency_key d.payments)), d)

unfoldable pub find_by_idempotency_key : Payment → M (Option (PaymentRow × Bool))
find_by_idempotency_key p = statement (find_key_stmt p)

-- A row under the key: the same request is replayed with its hops, any other is a conflict.
unfoldable pub replay : PaymentRow → Bool → M CreateResult
replay row false = pure conflict
replay row true = do hs ← statement (hops_stmt row.id); pure (replayed (to_payment row hs))

-- `none`: no row exists yet.
unfoldable pub lookup_by_idempotency_key : Payment → M (Option CreateResult)
unfolding replay
lookup_by_idempotency_key p = do
  hit ← find_by_idempotency_key p
  elim hit [
    | none ↦ pure none
    | some (row, matches) ↦ do outcome ← replay row matches; pure (some outcome)
  ]

abbrev pub new_row : Payment → String → List ℕ → Time → PaymentRow
new_row p id amount t = record {
  id = id;
  idempotency_key = p.idempotency_key;
  source_chain = p.source_chain;
  destination_chain = p.destination_chain;
  asset = p.asset;
  amount = amount;
  status = Status.routed;
  total_fee = p.total_fee;
  execution_mode = p.execution_mode;
  bridge_provider = p.bridge_provider;
  failure_reason = none;
  completed_at = none;
  created_at = t;
  updated_at = t;
}

abbrev pub is_hop : String → ℕ → HopRow → Bool
is_hop id i r = r.payment_id == id && eqb r.hop.hop_index i

-- One INSERT for each hop, until one breaks PRIMARY KEY (payment_id, hop_index).
unfoldable pub insert_hops : String → List Hop → List HopRow → Result (List HopRow)
insert_hops id [] rows = ok rows
insert_hops id (h ∷ hs) rows =
    let rest = insert_hops id hs (rows ++ record { payment_id = id; hop = h } ∷ []) in
    if exists (is_hop id h.hop_index) rows then err unique_violation else rest

abbrev pub routed_event : String → Time → RoutedPayment
routed_event id t = record {
  payment_id = id;
  event_type = routed_payment_event_type;
  occurred_at = t;
}

abbrev pub new_outbox_row : Env → ℕ → String → Time → OutboxRow
new_outbox_row env n id t = record {
  id = env.new_event_id n;
  payment_id = id;
  event_type = routed_payment_event_type;
  payload = env.marshal_event (routed_event id (env.clock_within n));
  created_at = t;
  published_at = none;
}

-- The payment that is returned: what was stored, and the hops as given.
abbrev pub created_payment : Payment → String → List ℕ → Time → Payment
created_payment p id amount t = to_payment (new_row p id amount t) p.hops

-- The transaction. `ok none`: ON CONFLICT (idempotency_key) DO NOTHING returned no row.
unfoldable pub insert_payment_stmt : Payment → Statement (Option Payment)
insert_payment_stmt p env n d = elim (env.numeric_text p.amount) [
  | none ↦ (err check_violation, d)
  | some amount ↦
      let id = env.new_id n in
      let t = env.clock n in
      if p.source_chain == p.destination_chain
      then (err check_violation, d)
      else if exists (λ r. r.idempotency_key == p.idempotency_key) d.payments
      then (ok none, d)
      else if exists (λ r. r.id == id) d.payments
      then (err unique_violation, d)
      else elim (insert_hops id p.hops d.hops) [
        | err e ↦ (err e, d)
        | ok hs ↦ elim (insert_payment_quotes env id t p.quotes d.quotes) [
          | err e ↦ (err e, d)
          | ok qs ↦ (
            ok (some (created_payment p id amount t)),
            record d {
              payments = d.payments ++ new_row p id amount t ∷ [];
              hops = hs;
              quotes = qs;
              outbox = d.outbox ++ new_outbox_row env n id t ∷ [];
            },
          )
        ]
      ]
]

unfoldable pub insert_payment : Payment → M (Option Payment)
insert_payment p = statement (insert_payment_stmt p)

-- After the transaction: it was inserted, or the race was lost and the row is read again.
unfoldable pub settle : Payment → Option Payment → M CreateResult
unfolding replay
settle p (some q) = pure (created q)
settle p none = do
  hit ← find_by_idempotency_key p
  elim hit [ none ↦ fail key_vanished | some (row, matches) ↦ replay row matches ]

unfoldable pub create_or_get_payment : Payment → M CreateResult
unfolding settle replay
create_or_get_payment p = do
  hit ← find_by_idempotency_key p
  elim hit [
    | some (row, matches) ↦ replay row matches
    | none ↦ do inserted ← insert_payment p; settle p inserted
  ]
