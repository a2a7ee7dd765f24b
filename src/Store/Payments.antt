-- ===== src/Store/Payments.antt =====
-- The payments table: store.go's reads and the guarded UPDATEs of store.go, execution_store.go and
-- quote_store.go that move a payment from one status to the next.
use chain_route.Prelude.{
  ◌+◌, String, Bool, true, false, ◌&&◌, Option, none, some, List, [], map, ◌==◌, ltb, if◌then◌else◌,
  is_some, select,
}
use mathlib.Core.Option
use chain_route.Payment.{Status, ExecutionMode, Time, Hop, Payment, status_eq, mode_eq}
use chain_route.Db.{Db, PaymentRow, HopRow}
use chain_route.Db.Table.{find, update_if, order_by, exists}
use chain_route.World.{ok, Statement, M, pure, ◌>>=◌, statement}

abbrev pub payment_key : PaymentRow → String
payment_key r = r.id

-- UPDATE payments SET ... WHERE id = $1 AND status = $from RETURNING.
unfoldable pub transition :
    String → Status → (PaymentRow → PaymentRow) → Db → Option PaymentRow × Db
transition id from f d =
    let (r, ps) = update_if payment_key id (λ p. status_eq p.status from) f d.payments in
    (r, record d { payments = ps })

-- The assignments of the five UPDATEs.
abbrev pub claim_row : Time → PaymentRow → PaymentRow
claim_row t p = record p { status = Status.processing; updated_at = t }

abbrev pub complete_row : Time → Status → PaymentRow → PaymentRow
complete_row t terminal p = record p { status = terminal; completed_at = some t; updated_at = t }

abbrev pub submit_row : Time → PaymentRow → PaymentRow
submit_row t p = record p { status = Status.submitted; updated_at = t }

abbrev pub fail_row : Time → String → PaymentRow → PaymentRow
fail_row t reason p = record p {
  status = Status.failed;
  failure_reason = some reason;
  updated_at = t;
}

abbrev row_mode : PaymentRow → ExecutionMode
row_mode p = p.execution_mode

abbrev row_created_at : PaymentRow → Time
row_created_at p = p.created_at

-- `none`: the payment was not ROUTED.
unfoldable pub claim_stmt : String → Statement (Option ExecutionMode)
claim_stmt id env n d =
    let (r, d') = transition id Status.routed (claim_row (env.clock n)) d in
    (ok (Option.map row_mode r), d')

-- The result is created_at; `none`: the payment was not PROCESSING.
unfoldable pub complete_stmt : String → Status → Statement (Option Time)
complete_stmt id terminal env n d =
    let (r, d') = transition id Status.processing (complete_row (env.clock n) terminal) d in
    (ok (Option.map row_created_at r), d')

unfoldable pub submit_stmt : String → Statement Bool
submit_stmt id env n d =
    let (r, d') = transition id Status.processing (submit_row (env.clock n)) d in
    (ok (is_some r), d')

unfoldable pub complete_submitted_stmt : String → Status → Statement (Option Time)
complete_submitted_stmt id terminal env n d =
    let (r, d') = transition id Status.submitted (complete_row (env.clock n) terminal) d in
    (ok (Option.map row_created_at r), d')

unfoldable pub fail_stmt : String → String → Statement Bool
fail_stmt id reason env n d =
    let (r, d') = transition id Status.processing (fail_row (env.clock n) reason) d in
    (ok (is_some r), d')

unfoldable pub claim_payment : String → M (Option ExecutionMode)
claim_payment id = statement (claim_stmt id)

unfoldable pub complete_payment : String → Status → M (Option Time)
complete_payment id terminal = statement (complete_stmt id terminal)

unfoldable pub mark_submitted : String → M Bool
mark_submitted id = statement (submit_stmt id)

unfoldable pub complete_submitted_payment : String → Status → M (Option Time)
complete_submitted_payment id terminal = statement (complete_submitted_stmt id terminal)

unfoldable pub mark_processing_failed : String → String → M Bool
mark_processing_failed id reason = statement (fail_stmt id reason)

abbrev hop_of : HopRow → Hop
hop_of r = r.hop

abbrev hop_before : Hop → Hop → Bool
hop_before a b = ltb a.hop_index b.hop_index

-- ORDER BY hop_index.
unfoldable pub hops_for_payment : String → Db → List Hop
hops_for_payment id d =
    order_by hop_before (map hop_of (select (λ (h : HopRow). h.payment_id == id) d.hops))

-- The columns that are scanned, with the hops; the quotes stay empty.
unfoldable pub to_payment : PaymentRow → List Hop → Payment
to_payment p hs = record {
  id = p.id;
  idempotency_key = p.idempotency_key;
  source_chain = p.source_chain;
  destination_chain = p.destination_chain;
  asset = p.asset;
  amount = p.amount;
  status = p.status;
  total_fee = p.total_fee;
  hops = hs;
  execution_mode = p.execution_mode;
  bridge_provider = p.bridge_provider;
  failure_reason = p.failure_reason;
  quotes = [];
  created_at = p.created_at;
  updated_at = p.updated_at;
  completed_at = p.completed_at;
}

unfoldable pub payment_row : String → Db → Option PaymentRow
payment_row id d = find payment_key id d.payments

unfoldable pub get_payment_stmt : String → Statement (Option PaymentRow)
get_payment_stmt id env n d = (ok (payment_row id d), d)

unfoldable pub hops_stmt : String → Statement (List Hop)
hops_stmt id env n d = (ok (hops_for_payment id d), d)

-- Two queries: the row, then its hops.
unfoldable pub get_payment : String → M (Option Payment)
get_payment id = do
  row ← statement (get_payment_stmt id)
  elim row [
    | none ↦ pure none
    | some p ↦ do hs ← statement (hops_stmt p.id); pure (some (to_payment p hs))
  ]

-- PROCESSING, simulated and not updated for longer than `staleness`.
abbrev pub is_stale_simulated : Time → Time → PaymentRow → Bool
is_stale_simulated t staleness p =
    status_eq p.status Status.processing
    && (mode_eq p.execution_mode ExecutionMode.simulated && ltb (p.updated_at + staleness) t)

unfoldable pub stale_stmt : Time → Statement (List String)
stale_stmt staleness env n d =
    (ok (map payment_key (select (is_stale_simulated (env.clock n) staleness) d.payments)), d)

unfoldable pub stale_payment_ids : Time → M (List String)
stale_payment_ids staleness = statement (stale_stmt staleness)

-- PROCESSING, testnet, not updated for longer than `staleness`, and with no execution row.
abbrev pub is_stale_testnet : Db → Time → Time → PaymentRow → Bool
is_stale_testnet d t staleness p =
    mode_eq p.execution_mode ExecutionMode.testnet
    && (status_eq p.status Status.processing
        && (ltb (p.updated_at + staleness) t
            && (if exists (λ e. e.payment_id == p.id) d.executions then false else true)))

unfoldable pub stale_testnet_stmt : Time → Statement (List String)
stale_testnet_stmt staleness env n d =
    (ok (map payment_key (select (is_stale_testnet d (env.clock n) staleness) d.payments)), d)

unfoldable pub stale_testnet_processing_without_execution_ids : Time → M (List String)
stale_testnet_processing_without_execution_ids staleness = statement (stale_testnet_stmt staleness)
