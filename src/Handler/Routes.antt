-- ===== src/Handler/Routes.antt =====
-- handler/routes.go: PostRoutes, the routing service's answer without a payment.
use chain_route.Prelude.{String, Option, none, some, [], map, if◌then◌else◌}
use chain_route.Payment.{Float64}
use chain_route.World.{M, pure, ◌>>=◌, external}
use chain_route.Handler.Routing.{
  Asset, Chain, RouteHop, RouteReply, replied, call_failed, StatusCode, invalid_argument,
  unavailable, deadline_exceeded, other_code, Handler, chain_by_name, asset_by_name, chain_eq,
  chain_name_by_value,
}
use chain_route.Handler.Response.{
  Response, RouteHopResponse, route_body, write_json, write_error, internal_error,
}

pub record PostRoutesRequest : Type 0 where
  pub source_chain : String
  pub destination_chain : String
  pub asset : String
  pub amount : Float64

-- The switch over the status code of a failed FindRoute.
unfoldable pub routing_error : StatusCode → String → Response
routing_error invalid_argument message = write_error 400 message
routing_error unavailable message = write_error 503 "routing service unavailable"
routing_error deadline_exceeded message = write_error 504 "routing service timed out"
routing_error other_code message = internal_error

abbrev pub concat : String → String → String
concat s t = Prim.Native.String.◌++◌ s t

abbrev to_route_hop : RouteHop → RouteHopResponse
to_route_hop hop = record {
  from_chain = chain_name_by_value hop.from_chain;
  to_chain = chain_name_by_value hop.to_chain;
  bridge_name = hop.bridge_name;
  fee = hop.fee;
  latency_ms = hop.latency_ms;
  liquidity = hop.liquidity;
  reliability = hop.reliability;
}

unfoldable pub write_route : RouteReply → Response
unfolding routing_error
write_route (call_failed code message) = routing_error code message
write_route (replied resp) =
    write_json 200 (route_body resp.route_found (map to_route_hop resp.hops) resp.total_fee)

unfoldable pub ask_route : Handler → Chain → Chain → Asset → Float64 → M Response
unfolding write_route
ask_route h source_chain dest_chain asset amount = do
  reply ← external (λ n. h.client.find_route n (record {
    source_chain = source_chain;
    destination_chain = dest_chain;
    asset = asset;
    amount = amount;
    candidate_edges = [];
  }))
  pure (write_route reply)

-- `none`: the body is not the JSON of a request.
unfoldable pub post_routes : Handler → Option PostRoutesRequest → M Response
unfolding ask_route
post_routes h none = pure (write_error 400 "invalid JSON body")
post_routes h (some req) = elim (chain_by_name (h.runtime.to_lower req.source_chain)) [
  | none ↦ pure (write_error 400 (concat "invalid chain: " req.source_chain))
  | some source_chain ↦ elim (chain_by_name (h.runtime.to_lower req.destination_chain)) [
    | none ↦ pure (write_error 400 (concat "invalid chain: " req.destination_chain))
    | some dest_chain ↦ elim (asset_by_name (h.runtime.to_lower req.asset)) [
      | none ↦ pure (write_error 400 (concat "invalid asset: " req.asset))
      | some asset ↦
          if h.runtime.positive req.amount
          then (if chain_eq source_chain dest_chain
              then pure (write_error 400 "source and destination must differ")
              else ask_route h source_chain dest_chain asset req.amount)
          else pure (write_error 400 "amount must be positive")
    ]
  ]
]
