-- ===== src/Handler/Create.antt =====
-- handler/payments.go: PostPayments and GetPayment.
use chain_route.Prelude.{
  ℕ, suc, String, Option, none, some, List, [], ◌∷◌, map, ◌==◌, if◌then◌else◌,
}
use chain_route.Payment.{
  ExecutionMode, simulated, testnet, Status, Hop, Payment, CreateResult, created, Quote,
}
use chain_route.Money.{to_string}
use chain_route.Prelude.Int.{ℤ}
use chain_route.World.{
  Result, ok, err, M, pure, attempt, ◌>>=◌, ◌>>◌, emit, external, routing_requests,
  routing_duration, routing_failures, routing_selected_provider, routing_selected_fee,
  quote_selected, payments_created,
}
use chain_route.Bridge.Quote.{Quote as LiveQuote}
use chain_route.Store.Create.{lookup_by_idempotency_key, create_or_get_payment}
use chain_route.Store.Payments.{get_payment}
use chain_route.Store.Executions.{get_execution_by_payment_id}
use chain_route.Worker.Clients.{sanitize_provider_label}
use chain_route.Handler.Routing.{
  CandidateEdge, FindRouteRequest, FindRouteResponse, RouteHop, RouteReply, replied, call_failed,
  StatusCode, invalid_argument, Handler, chain_name_by_value, asset_name_by_value,
}
use chain_route.Handler.Response.{
  Response, payment_body, write_json, write_error, internal_error, write_existing, write_outcome,
  to_payment_response,
}
use chain_route.Handler.Routes.{routing_error}
use chain_route.Handler.Request.{PostRequest, ValidRequest, Validation, refused, accepted, validate}
use chain_route.Handler.Quotes.{Quotes, quote_for, Gathered, stop, candidates, gather_quotes}

-- The fields that the lookup and the creation share; the others are zero.
abbrev pub lookup_candidate : ValidRequest → Payment
lookup_candidate v = record {
  id = "";
  idempotency_key = v.idempotency_key;
  source_chain = chain_name_by_value v.source_chain;
  destination_chain = chain_name_by_value v.dest_chain;
  asset = asset_name_by_value v.asset;
  amount = v.amount;
  status = Status.routed;
  total_fee = 0;
  hops = [];
  execution_mode = v.mode;
  bridge_provider = none;
  failure_reason = none;
  quotes = [];
  created_at = 0;
  updated_at = 0;
  completed_at = none;
}

-- From the index of the first hop on.
unfoldable pub hops_from : ℕ → List RouteHop → List Hop
hops_from i [] = []
hops_from i (hop ∷ rest) =
    record {
      hop_index = i;
      from_chain = chain_name_by_value hop.from_chain;
      to_chain = chain_name_by_value hop.to_chain;
      bridge_name = hop.bridge_name;
      fee = hop.fee;
      latency_ms = hop.latency_ms;
      liquidity = hop.liquidity;
      reliability = hop.reliability;
    }
    ∷ hops_from (suc i) rest

-- (*big.Int).String of a pointer: a nil pointer prints as "<nil>".
abbrev pub amount_text : Option ℤ → List ℕ
amount_text none = b'<' ∷ b'n' ∷ b'i' ∷ b'l' ∷ b'>' ∷ []
amount_text (some n) = to_string n

unfoldable pub quote_of : String → String × LiveQuote → Quote
quote_of winning_bridge_name (bridge_name, q) = record {
  payment_id = "";
  provider = q.provider_name;
  origin_chain_id = q.source_chain_id;
  destination_chain_id = q.destination_chain_id;
  asset = q.asset;
  input_amount = amount_text q.input_amount_base_units;
  output_amount = to_string q.output_amount_base_units;
  fee_amount = to_string q.fee_base_units;
  estimated_fill_time_sec = q.estimated_fill_time_sec;
  quoted_at = q.quoted_at;
  expires_at = q.expires_at;
  raw_provider_payload = q.raw_provider_payload;
  selected = bridge_name == winning_bridge_name;
  created_at = 0;
}

-- Where a route is found.
abbrev pub candidate : ValidRequest → FindRouteResponse → Option String → List Quote → Payment
candidate v resp provider quotes = record (lookup_candidate v) {
  total_fee = resp.total_fee;
  hops = hops_from 0 resp.hops;
  bridge_provider = provider;
  quotes = quotes;
}

unfoldable pub count_created : ExecutionMode → CreateResult → M (Unit {0})
count_created mode (created p) = emit (payments_created mode)
count_created mode _ = pure tt

unfoldable pub save_payment : Handler → ValidRequest → Payment → M Response
unfolding count_created write_outcome
save_payment h v p = do
  outcome ← attempt (create_or_get_payment p)
  elim outcome [
    | err _ ↦ pure internal_error
    | ok result ↦ do count_created v.mode result; pure (write_outcome h.runtime result)
  ]

-- The winner is the bridge of the first hop; the quotes are stored in the order in which the map is
-- visited.
unfoldable pub save_winner :
    Handler → ValidRequest → Quotes → FindRouteResponse → String → Option LiveQuote → M Response
unfolding save_payment quote_of
save_winner h v quotes resp winner none = pure internal_error
save_winner h v quotes resp winner (some q) = do
  emit (routing_selected_provider (sanitize_provider_label q.provider_name))
  emit (quote_selected (sanitize_provider_label q.provider_name))
  emit (routing_selected_fee (sanitize_provider_label q.provider_name))
  visited ← external (λ n. h.runtime.map_order n quotes)
  save_payment h v (candidate v resp (some q.provider_name) (map (quote_of winner) visited))

-- With the mode and the hops of the route.
unfoldable pub save_hops :
    Handler → ValidRequest → Quotes → FindRouteResponse → ExecutionMode → List RouteHop → M Response
unfolding save_winner save_payment quote_for
save_hops h v quotes resp simulated hops = save_payment h v (candidate v resp none [])
save_hops h v quotes resp testnet [] = save_payment h v (candidate v resp none [])
save_hops h v quotes resp testnet (hop ∷ rest) =
    save_winner h v quotes resp hop.bridge_name (quote_for hop.bridge_name quotes)

abbrev failure_reason_of : StatusCode → String
failure_reason_of invalid_argument = "invalid_request"
failure_reason_of _ = "grpc_error"

unfoldable pub settle_route : Handler → ValidRequest → Quotes → RouteReply → M Response
unfolding save_hops routing_error
settle_route h v quotes (call_failed code message) = do
  emit (routing_failures (failure_reason_of code))
  pure (routing_error code message)
settle_route h v quotes (replied resp) =
    if resp.route_found then save_hops h v quotes resp v.mode resp.hops else do
      emit (routing_failures "no_route")
      pure (write_error 422 "no route available for the requested payment")

abbrev pub grpc_request : ValidRequest → List CandidateEdge → FindRouteRequest
grpc_request v edges = record {
  source_chain = v.source_chain;
  destination_chain = v.dest_chain;
  asset = v.asset;
  amount = v.amount_for_routing;
  candidate_edges = edges;
}

unfoldable pub route_payment : Handler → ValidRequest → Gathered → M Response
unfolding settle_route
route_payment h v (stop resp) = pure resp
route_payment h v (candidates edges quotes) = do
  emit (routing_requests v.mode)
  reply ← external (λ n. h.client.find_route n (grpc_request v edges))
  emit (routing_duration v.mode)
  settle_route h v quotes reply

unfoldable pub gather : Handler → ValidRequest → ExecutionMode → M Gathered
unfolding gather_quotes
gather h v simulated = pure (candidates [] [])
gather h v testnet = gather_quotes h v

unfoldable pub post_new : Handler → ValidRequest → M Response
unfolding gather route_payment
post_new h v = do gathered ← gather h v v.mode; route_payment h v gathered

-- What the lookup of the idempotency key returned: an error, a payment or a conflict, or nothing.
unfoldable pub post_looked_up : Handler → ValidRequest → Result (Option CreateResult) → M Response
unfolding post_new write_existing
post_looked_up h v (err _) = pure internal_error
post_looked_up h v (ok (some existing)) = pure (write_existing h.runtime existing)
post_looked_up h v (ok none) = post_new h v

unfoldable pub post_valid : Handler → ValidRequest → M Response
unfolding post_looked_up
post_valid h v = do
  found ← attempt (lookup_by_idempotency_key (lookup_candidate v))
  post_looked_up h v found

unfoldable pub post_validated : Handler → Validation → M Response
unfolding post_valid
post_validated h (refused resp) = pure resp
post_validated h (accepted v) = post_valid h v

unfoldable pub post_payments : Handler → PostRequest → M Response
unfolding post_validated validate
post_payments h r = post_validated h (validate h.runtime r)

-- GetPayment: the payment, then its execution.
unfoldable pub get_payment_response : Handler → String → M Response
get_payment_response h id = do
  found ← attempt (get_payment id)
  elim found [
    | err _ ↦ pure internal_error
    | ok none ↦ pure (write_error 404 "payment not found")
    | ok (some p) ↦ do
      exec ← attempt (get_execution_by_payment_id id)
      pure (elim exec [
        | err _ ↦ internal_error
        | ok x ↦ write_json 200 (payment_body (to_payment_response h.runtime p x))
      ])
  ]
