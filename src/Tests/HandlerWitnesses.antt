-- ===== src/Tests/HandlerWitnesses.antt =====
-- The theorems on the handlers, the listing and the consume loop, at concrete inputs.
use chain_route.Prelude.{
  ◌+◌, ◌*◌, ◌≤◌, true, some, List, [], ◌∷◌, map, ◌≡◌, refl, ◌⊎◌, ltb, arith, if◌then◌else◌, select,
  length, All, none, eq_iff, and_then,
}
use chain_route.Prelude.Int.{pos}
use mathlib.Core.List.{Permᴰ}
use mathlib.Core.Bool.{false≢true}
use chain_route.Payment.{Payment, testnet, RoutedPayment, DashboardStats, ListFilter}
use chain_route.Payment as Payment
use chain_route.Payment.Cursor.{encode_cursor, decode_cursor}
use chain_route.Payment.Cursor.RoundTrip.{IsByte, decode_cursor-encode_cursor}
use chain_route.Db.{Db, PaymentRow}
use chain_route.Db.Table.{find, update_if, modify, order_by}
use chain_route.World.{Env, ok, monad}
use chain_route.Store.Payments.{
  to_payment, claim_stmt, transition, complete_stmt, claim_payment, complete_payment,
}
use chain_route.Store.Create.{
  created_payment, insert_payment_stmt, insert_hops, find_key_stmt, find_by_idempotency_key,
  lookup_by_idempotency_key, create_or_get_payment, insert_payment,
}
use chain_route.Store.Quotes.{cast_quote, insert_payment_quotes}
use chain_route.Store.Evolution.{Evolves-refl}
use chain_route.Execution.{codes}
use chain_route.Store.Listing.{passes, newer, scanned}
use chain_route.Store.Listing.Order.{DistinctIds}
use chain_route.Store.Listing.Pages.{all_pages, Readable}
use chain_route.Store.Listing.Complete.{all_pages_complete}
use chain_route.Store.Dashboard.{get_dashboard_stats}
use chain_route.Store.Dashboard.Totals.{sum_counts, sum_usage, get_dashboard_stats-total}
use chain_route.Money.{decimal_to_base_units, digits_value}
use chain_route.Worker.Processor.{handle_routed_payment, handle_simulated}
use chain_route.Worker.Service.{processor_of}
use chain_route.Worker.Consumer.{
  fetched, cancelled, Consumer, Round, stopped, committed_after, run_consume_loop,
}
use chain_route.Worker.Committed.{Honest, run_consume_loop-Honest}
use chain_route.Handler.Routing.{
  ethereum, base, eth, FindRouteResponse, replied, call_failed, unavailable, Runtime, Handler,
  testnet_chain_id_by_chain, bridged_asset_symbol,
}
use chain_route.Handler.Response.{Response, write_created}
use chain_route.Handler.Request.{PostRequest, ValidRequest}
use chain_route.Handler.Request.Valid.{AcceptsRequest, post_payments-validated}
use chain_route.Handler.Quotes.{QuoteResult, count_results, empty_tally}
use chain_route.Handler.Winner.{last_answer, Quoted, count_results-Quoted, selected-quote_of}
use chain_route.Handler.Create.{candidate, hops_from, quote_of, post_valid, post_payments}
use chain_route.Handler.Retry.{retried, post_valid-retry}
use chain_route.Handler.Stored.{Saves, post_valid-201}
use chain_route.Tests.{
  calm_env, calm-Quiet, routed_row, routed_db, world_of, live_quote, provider, executor,
}

abbrev runtime : Runtime
runtime = record {
  to_lower = λ s. s;
  parse_float = λ s. (7, true);
  positive = λ x. ltb 0 x;
  seconds_to_ms = λ n. n * 1000;
  one = 1;
  format_time = λ t. "time";
  format_bucket = λ t. "bucket";
  map_order = λ n qs. qs;
}

abbrev route : FindRouteResponse
route = record {
  route_found = true;
  hops =
      record {
        from_chain = ethereum;
        to_chain = base;
        bridge_name = "across";
        fee = 1;
        latency_ms = 2;
        liquidity = 3;
        reliability = 4;
      }
      ∷ [];
  total_fee = 1;
}

abbrev handler : Handler
handler = record {
  client = record { find_route = λ n r. replied route };
  blockchain_env = "testnet";
  max_testnet_amount_wei = some (pos 5000000000000000000);
  quote_registry = some (
      record {
        key = record { source_chain_id = 11155111; destination_chain_id = 84532; asset = "WETH" };
        providers = provider ∷ [];
      }
      ∷ []);
  runtime = runtime;
}

abbrev sent_request : PostRequest
sent_request = record {
  idempotency_key = " key-9 ";
  body = some (record {
    source_chain = "ethereum";
    destination_chain = "base";
    asset = "eth";
    amount = b'1' ∷ b'.' ∷ b'5' ∷ [];
    execution_mode = "testnet";
  });
}

abbrev valid_request : ValidRequest
valid_request = record {
  idempotency_key = "key-9";
  source_chain = ethereum;
  dest_chain = base;
  asset = eth;
  asset_name = "eth";
  amount = b'1' ∷ b'.' ∷ b'5' ∷ [];
  mode = testnet;
  amount_for_routing = 7;
}

post_payments-validated_example :
    ((resp : Response) × (resp.status ≡ 400)
      × (post_payments handler sent_request calm_env (world_of routed_db)
          ≡ (ok resp, world_of routed_db)))
    ⊎ ((v : ValidRequest) × AcceptsRequest runtime sent_request v
        × (post_payments handler sent_request calm_env (world_of routed_db)
            ≡ post_valid handler v calm_env (world_of routed_db)))
post_payments-validated_example =
    post_payments-validated handler sent_request calm_env (world_of routed_db)

abbrev results : List QuoteResult
results = record { provider = provider; answer = some live_quote } ∷ []

count_results-Quoted_example : Quoted (count_results runtime 7 empty_tally results)
count_results-Quoted_example = count_results-Quoted runtime 7 results

selected-quote_of_example :
    select
      (λ (x : Payment.Quote). x.selected)
      (map (quote_of "across") (("across", live_quote) ∷ []))
    ≡ quote_of "across" ("across", live_quote) ∷ []
unfolding last_answer count_results
selected-quote_of_example =
    selected-quote_of runtime 7 results "across" live_quote (("across", live_quote) ∷ []) refl
      (Permᴰ.cons refl Permᴰ.nil)

decode_cursor-encode_cursor_example :
    decode_cursor (encode_cursor (b'1' ∷ b'9' ∷ []) (b'a' ∷ b'b' ∷ b',' ∷ []))
    ≡ some (b'1' ∷ b'9' ∷ [], b'a' ∷ b'b' ∷ b',' ∷ [])
decode_cursor-encode_cursor_example =
    decode_cursor-encode_cursor (b'1' ∷ b'9' ∷ []) (b'a' ∷ b'b' ∷ b',' ∷ [])
      (omega arith, (omega arith, tt)) (omega arith, (omega arith, (omega arith, tt)))
      (refl, (refl, tt))

abbrev stored_request : Payment
stored_request = candidate valid_request route (some "across") []

abbrev answered : Payment
answered = created_payment stored_request "new-id" valid_request.amount 105

post_valid-201_example :
    Saves valid_request calm_env
      (post_valid handler valid_request calm_env (world_of routed_db)).1.db
unfolding post_valid monad lookup_by_idempotency_key create_or_get_payment insert_payment_stmt
    find_by_idempotency_key find_key_stmt to_payment find testnet_chain_id_by_chain
    bridged_asset_symbol decimal_to_base_units digits_value insert_payment insert_hops hops_from
    insert_payment_quotes cast_quote and_then
post_valid-201_example =
    post_valid-201 handler valid_request calm_env (world_of routed_db)
      (write_created runtime answered) refl refl

-- What is stored by the request, and the same request again, to a server whose routing fails.
abbrev after_post : Db
after_post = (insert_payment_stmt stored_request calm_env 0 routed_db).1

abbrev stored_payment : Payment
stored_payment = created_payment stored_request "new-id" valid_request.amount 100

abbrev broken_handler : Handler
broken_handler = record handler {
  client = record { find_route = λ n r. call_failed unavailable "down" };
}

post_valid-retry_example :
    (row : PaymentRow) × (row.id ≡ "new-id")
    × ((post_valid broken_handler valid_request calm_env (world_of after_post)).0
        ≡ ok (
            retried broken_handler calm_env stored_request stored_payment valid_request row
              after_post))
    × ((post_valid broken_handler valid_request calm_env (world_of after_post)).1.db ≡ after_post)
unfolding insert_payment_stmt insert_hops insert_payment_quotes to_payment hops_from
post_valid-retry_example =
    post_valid-retry broken_handler valid_request stored_request calm_env calm_env 0
      (world_of after_post) routed_db stored_payment (λ k x. refl) (λ k. refl) refl refl refl

abbrev stats : DashboardStats
stats = record {
  total_payments = 1;
  completed_payments = 0;
  processing_payments = 1;
  failed_payments = 0;
  provider_usage = [];
  average_routing_cost = 0;
  network_usage =
      record { source_chain = "ethereum-sepolia"; destination_chain = "base-sepolia"; count = 1 }
      ∷ [];
}

get_dashboard_stats-total_example :
    (1 ≡ length routed_db.payments)
    × (1 ≡ 0 + 1 + 0)
    × (sum_counts stats.network_usage ≡ 1)
    × (sum_usage stats.provider_usage ≤ 1)
unfolding get_dashboard_stats monad
get_dashboard_stats-total_example =
    get_dashboard_stats-total calm_env (world_of routed_db) stats calm-Quiet refl

-- One message, and then the shutdown.
abbrev event_env : Env
event_env = record calm_env {
  unmarshal_event =
      λ s. some (record { payment_id = s; event_type = "PAYMENT_ROUTED"; occurred_at = 5 });
}

abbrev consumer : Consumer
consumer = record {
  fetch_message =
      λ n. if ltb n 1 then fetched (record { offset = 4; value = "pay-1" }) else cancelled;
  commit_messages = λ n o. true;
}

abbrev rounds : List Round
rounds =
    committed_after 4
      (record { payment_id = "pay-1"; event_type = "PAYMENT_ROUTED"; occurred_at = 5 }) true
    ∷ stopped
    ∷ []

run_consume_loop-Honest_example :
    All
      (Honest routed_db
        (run_consume_loop 5
          (processor_of (some executor))
          consumer
          event_env
          (world_of routed_db)).1.db)
      rounds
unfolding run_consume_loop handle_routed_payment handle_simulated transition complete_stmt
    claim_stmt monad claim_payment update_if find complete_payment modify
run_consume_loop-Honest_example =
    run_consume_loop-Honest 5 (some executor) consumer event_env (world_of routed_db) rounds
      (record { others_evolve = λ n d. Evolves-refl d }) refl

-- Two pages of one payment, and one payment that the filter leaves out.
abbrev routed_rows : List PaymentRow
routed_rows =
    routed_row
    ∷ record routed_row { id = "pay-2" }
    ∷ record routed_row { id = "pay-3"; status = Payment.completed }
    ∷ []

abbrev routed_filter : ListFilter
routed_filter = record {
  limit = 1;
  cursor = [];
  status = some "ROUTED";
  provider = none;
  source_chain = none;
  destination_chain = none;
  execution_mode = none;
}

routed_rows-DistinctIds : DistinctIds routed_rows
routed_rows-DistinctIds = (
  (
    λ e. false≢true ((eq_iff "pay-1" "pay-2").1 e),
    (λ e. false≢true ((eq_iff "pay-1" "pay-3").1 e), tt),
  ),
  ((λ e. false≢true ((eq_iff "pay-2" "pay-3").1 e), tt), (tt, tt)),
)

module _ (r : PaymentRow) (time : r.created_at ≡ 5) where
  calm-Readable :
      All IsByte (codes r.id) → calm_env.read_id (codes r.id) ≡ some r.id → Readable calm_env r
  calm-Readable bytes read = record {
    time_bytes = rw time (omega arith, (omega arith, tt));
    no_comma = rw time (refl, (refl, tt));
    id_bytes = bytes;
    time_read = rw time;
    id_read = read;
  }

routed_rows-Readable : All (Readable calm_env) routed_rows
routed_rows-Readable = (
  calm-Readable routed_row refl (omega arith) refl,
  (
    calm-Readable (record routed_row { id = "pay-2" }) refl (omega arith) refl,
    (
      calm-Readable (record routed_row { id = "pay-3"; status = Payment.completed }) refl
          (omega arith) refl,
      tt,
    ),
  ),
)

all_pages_complete_example :
    (all_pages 4 routed_filter calm_env (world_of (record routed_db { payments = routed_rows }))).0
    ≡ ok (map scanned (order_by newer (select (passes routed_filter) routed_rows)))
all_pages_complete_example =
    all_pages_complete calm_env routed_filter
      (world_of (record routed_db { payments = routed_rows })) 4 calm-Quiet (λ n. refl)
      routed_rows-DistinctIds routed_rows-Readable (omega arith)

-- The greater id comes first of two payments of one time.
routed_order :
    map (λ p. p.id) (order_by newer (select (passes routed_filter) routed_rows))
    ≡ ("pay-2" ∷ "pay-1" ∷ [])
unfolding newer passes
routed_order = refl
