-- ===== src/Handler/Quotes.antt =====
-- handler/payments.go: the block of PostPayments for execution_mode=testnet, from the checks to the
-- quotes of the providers. The providers are asked by one goroutine each, and the results stand at
-- the providers' indices; here they are asked in that order. As an answer is any function of the
-- tick of its call, any order of the calls is one of these.
use chain_route.Prelude.{
  String, Bool, true, false, Option, none, some, List, [], ◌∷◌, ◌++◌, ◌==◌, if◌then◌else◌,
}
use chain_route.Prelude.Int.{ℤ, ltb_ℤ}
use chain_route.Payment.{Float64}
use chain_route.Money.{decimal_to_base_units, base_units_to_decimal}
use chain_route.World.{
  M, pure, ◌>>=◌, ◌>>◌, emit, external, quote_requests, quote_duration, quote_failures,
  quote_available,
}
use chain_route.Bridge.Quote.{Provider, Quote, Request}
use chain_route.Worker.Clients.{sanitize_provider_label}
use chain_route.Handler.Routing.{
  CandidateEdge, RouteKey, Handler, Runtime, providers_for, testnet_chain_id_by_chain,
  bridged_asset_symbol,
}
use chain_route.Handler.Response.{Response, write_error}
use chain_route.Handler.Request.{ValidRequest}

-- quoteResult: `none` is an error of GetQuote.
pub record QuoteResult : Type 0 where
  pub provider : Provider
  pub answer : Option Quote

-- quotesByBridgeName, one entry for each key.
abbrev pub Quotes : Type 0
Quotes = List (String × Quote)

unfoldable pub put_quote : String → Quote → Quotes → Quotes
put_quote name q [] = (name, q) ∷ []
put_quote name q ((k, x) ∷ rest) =
    let more = put_quote name q rest in if k == name then (name, q) ∷ rest else (k, x) ∷ more

unfoldable pub quote_for : String → Quotes → Option Quote
quote_for name [] = none
quote_for name ((k, x) ∷ rest) = if k == name then some x else quote_for name rest

-- The variables of the loop over the results.
pub record Tally : Type 0 where
  pub any_succeeded : Bool
  pub any_available : Bool
  pub edges : List CandidateEdge
  pub quotes : Quotes

abbrev pub empty_tally : Tally
empty_tally = record { any_succeeded = false; any_available = false; edges = []; quotes = [] }

-- The error of ParseFloat is ignored.
abbrev pub edge_of : Runtime → Float64 → String → Quote → CandidateEdge
edge_of rt amount_for_routing name q = record {
  bridge_name = name;
  fee = (rt.parse_float (base_units_to_decimal q.fee_base_units 18)).0;
  latency_ms = rt.seconds_to_ms q.estimated_fill_time_sec;
  liquidity = amount_for_routing;
  reliability = rt.one;
}

-- The body of the loop, for a provider's name and its answer.
unfoldable pub count_answer : Runtime → Float64 → Tally → String → Option Quote → Tally
unfolding put_quote
count_answer rt amount t name none = t
count_answer rt amount t name (some q) =
    if q.available
    then record {
      any_succeeded = true;
      any_available = true;
      edges = t.edges ++ edge_of rt amount name q ∷ [];
      quotes = put_quote name q t.quotes;
    }
    else record t { any_succeeded = true }

unfoldable pub count_results : Runtime → Float64 → Tally → List QuoteResult → Tally
unfolding count_answer
count_results rt amount t [] = t
count_results rt amount t (r ∷ rs) =
    count_results rt amount (count_answer rt amount t r.provider.name r.answer) rs

-- The goroutine of one provider.
unfoldable pub ask_provider : Request → Provider → M QuoteResult
ask_provider req p = do
  emit (quote_requests (sanitize_provider_label p.name))
  q ← external (λ n. p.get_quote n req)
  emit (quote_duration (sanitize_provider_label p.name))
  emit (elim q [
    | none ↦ quote_failures (sanitize_provider_label p.name) "http_error"
    | some x ↦ quote_available (sanitize_provider_label p.name) x.available
  ])
  pure (record { provider = p; answer = q })

unfoldable pub ask_providers : Request → List Provider → M (List QuoteResult)
unfolding ask_provider
ask_providers req [] = pure []
ask_providers req (p ∷ ps) = do r ← ask_provider req p; rs ← ask_providers req ps; pure (r ∷ rs)

-- What the rest of the handler goes on with, or the response.
pub data Gathered : Type 0 where
  stop : Response → Gathered
  candidates : List CandidateEdge → Quotes → Gathered

unfoldable pub weigh : Tally → Gathered
weigh t =
    if t.any_succeeded
    then (if t.any_available
        then candidates t.edges t.quotes
        else stop (write_error 422 "no route available for the requested payment"))
    else stop (write_error 503 "bridge quote providers unavailable")

abbrev unsupported : Gathered
unsupported = stop (
    write_error 400
      "execution_mode=testnet does not support this source_chain/destination_chain/asset combination")

-- `none` where one of the three lookups fails.
unfoldable pub route_key : Runtime → ValidRequest → Option RouteKey
route_key rt v = elim (testnet_chain_id_by_chain v.source_chain) [
  | none ↦ none
  | some origin ↦ elim (testnet_chain_id_by_chain v.dest_chain) [
    | none ↦ none
    | some dest ↦ elim (bridged_asset_symbol (rt.to_lower v.asset_name)) [
      | none ↦ none
      | some asset ↦
          some (record { source_chain_id = origin; destination_chain_id = dest; asset = asset })
    ]
  ]
]

unfoldable pub registered : Handler → RouteKey → List Provider
unfolding providers_for
registered h key = elim h.quote_registry [ none ↦ [] | some r ↦ providers_for key r ]

abbrev pub exceeds_maximum : Option ℤ → ℤ → Bool
exceeds_maximum none amount = false
exceeds_maximum (some maximum) amount = ltb_ℤ maximum amount

unfoldable pub gather_from : Handler → ValidRequest → RouteKey → ℤ → List Provider → M Gathered
unfolding count_results ask_providers weigh
gather_from h v key amount_wei providers = do
  results ←
      ask_providers
        (record {
          source_chain_id = key.source_chain_id;
          destination_chain_id = key.destination_chain_id;
          asset = key.asset;
          amount_base_units = amount_wei;
        })
        providers
  pure (weigh (count_results h.runtime v.amount_for_routing empty_tally results))

-- With what DecimalToBaseUnits returned; the text of its error, behind the colon, is left out.
unfoldable pub gather_units :
    Handler → ValidRequest → RouteKey → List Provider → Option ℤ → M Gathered
unfolding gather_from
gather_units h v key providers none =
    pure (stop (write_error 400 "invalid amount for testnet execution: "))
gather_units h v key providers (some amount_wei) =
    if exceeds_maximum h.max_testnet_amount_wei amount_wei
    then pure
        (stop (write_error 400 "amount exceeds the configured maximum testnet execution amount"))
    else gather_from h v key amount_wei providers

unfoldable pub gather_amount : Handler → ValidRequest → RouteKey → List Provider → M Gathered
unfolding gather_units
gather_amount h v key [] = pure unsupported
gather_amount h v key (p ∷ ps) = gather_units h v key (p ∷ ps) (decimal_to_base_units v.amount 18)

unfoldable pub gather_key : Handler → ValidRequest → Option RouteKey → M Gathered
unfolding gather_amount registered
gather_key h v none = pure unsupported
gather_key h v (some key) = gather_amount h v key (registered h key)

unfoldable pub gather_quotes : Handler → ValidRequest → M Gathered
unfolding gather_key route_key
gather_quotes h v =
    if h.blockchain_env == "testnet"
    then gather_key h v (route_key h.runtime v)
    else pure (stop (write_error 400 "execution_mode=testnet is not enabled on this server"))
