-- ===== src/Handler/Dashboard.antt =====
-- handler/dashboard.go: the read-only endpoints. A query parameter that is missing is the empty
-- string, as url.Values.Get returns it.
use chain_route.Prelude.{
  ℕ, ◌^◌, String, Bool, true, Option, none, some, List, [], ◌∷◌, map, ◌==◌, ltb, if◌then◌else◌,
}
use chain_route.Prelude.Int.{ℤ, pos, negsuc}
use chain_route.Money.{set_string}
use chain_route.Payment.{Payment, Quote, ListFilter, TimeseriesPoint, status_text, mode_text}
use chain_route.World.{invalid_cursor, Result, ok, err, M, pure, attempt, ◌>>=◌}
use chain_route.Store.Payments.{get_payment}
use chain_route.Store.Quotes.{get_quotes_by_payment_id}
use chain_route.Store.Listing.{list_payments}
use chain_route.Store.Dashboard.{get_dashboard_stats, get_timeseries}
use chain_route.Handler.Routing.{Runtime, Handler}
use chain_route.Handler.Response.{
  Response, PaymentListItem, QuoteItem, TimeseriesItem, list_body, quotes_body, stats_body,
  timeseries_body, write_json, write_error, internal_error,
}
use chain_route.Handler.Routes.{concat}

abbrev pub default_list_limit : ℕ
default_list_limit = 25

abbrev pub max_list_limit : ℕ
max_list_limit = 100

abbrev pub default_timeseries_days : ℕ
default_timeseries_days = 30

abbrev pub max_timeseries_days : ℕ
max_timeseries_days = 90

-- strconv.Atoi of an int of 64 bits: `none` is a syntax or a range error.
abbrev in_range : ℤ → Option ℤ
in_range (pos n) = if ltb n (2 ^ 63) then some (pos n) else none
in_range (negsuc n) = if ltb n (2 ^ 63) then some (negsuc n) else none

abbrev bound : Option ℤ → Option ℤ
bound none = none
bound (some n) = in_range n

unfoldable pub atoi : List ℕ → Option ℤ
unfolding set_string
atoi s = bound (set_string s)

abbrev capped : ℕ → Option ℤ → Option ℕ
capped most none = none
capped most (some (negsuc n)) = none
capped most (some (pos n)) = if ltb n 1 then none else some (if ltb most n then most else n)

-- A positive number, or the default of a missing one, and at most `most`; `none`: it is refused.
unfoldable pub bounded_parameter : ℕ → ℕ → List ℕ → Option ℕ
unfolding atoi
bounded_parameter default most [] = some default
bounded_parameter default most (c ∷ cs) = capped most (atoi (c ∷ cs))

unfoldable pub is_valid_status : String → Bool
is_valid_status s =
    if s == "ROUTED"
    then true
    else if s == "PROCESSING"
    then true
    else if s == "SUBMITTED"
    then true
    else if s == "COMPLETED"
    then true
    else s == "FAILED"

abbrev is_valid_mode : String → Bool
is_valid_mode s = if s == "simulated" then true else s == "testnet"

pub record ListQuery : Type 0 where
  pub limit : List ℕ
  pub cursor : List ℕ
  pub status : String
  pub provider : String
  pub source_chain : String
  pub destination_chain : String
  pub execution_mode : String

-- A pointer that is set where the parameter is not empty.
abbrev pub if_present : String → Option String
if_present s = if s == "" then none else some s

-- What the query asks for, or the response.
pub data ListAsked : Type 0 where
  refused_list : Response → ListAsked
  asked : ListFilter → ListAsked

unfoldable pub list_filter : ListQuery → ℕ → ListFilter
list_filter q limit = record {
  limit = limit;
  cursor = q.cursor;
  status = if_present q.status;
  provider = if_present q.provider;
  source_chain = if_present q.source_chain;
  destination_chain = if_present q.destination_chain;
  execution_mode = if_present q.execution_mode;
}

abbrev acceptable : (String → Bool) → String → Bool
acceptable valid s = if s == "" then true else valid s

unfoldable pub check_list : ListQuery → Option ℕ → ListAsked
unfolding is_valid_status list_filter
check_list q none = refused_list (write_error 400 "limit must be a positive integer")
check_list q (some limit) =
    if acceptable is_valid_status q.status
    then (if acceptable is_valid_mode q.execution_mode
        then asked (list_filter q limit)
        else refused_list (write_error 400 "execution_mode must be \"simulated\" or \"testnet\""))
    else refused_list (write_error 400 (concat "invalid status: " q.status))

abbrev list_item : Runtime → Payment → PaymentListItem
list_item rt p = record {
  id = p.id;
  source_chain = p.source_chain;
  destination_chain = p.destination_chain;
  asset = p.asset;
  amount = p.amount;
  status = status_text p.status;
  execution_mode = mode_text p.execution_mode;
  bridge_provider = p.bridge_provider;
  total_fee = p.total_fee;
  created_at = rt.format_time p.created_at;
}

-- No cursor is written as null.
abbrev next_cursor : List ℕ → Option (List ℕ)
next_cursor [] = none
next_cursor (c ∷ cs) = some (c ∷ cs)

unfoldable pub write_page : Runtime → Result (List Payment × List ℕ) → Response
write_page rt (err invalid_cursor) = write_error 400 "invalid cursor"
write_page rt (err _) = internal_error
write_page rt (ok (payments, cursor)) =
    write_json 200 (list_body (map (list_item rt) payments) (next_cursor cursor))

unfoldable pub list_asked : Handler → ListAsked → M Response
unfolding write_page
list_asked h (refused_list resp) = pure resp
list_asked h (asked f) = do page ← attempt (list_payments f); pure (write_page h.runtime page)

unfoldable pub get_payment_list : Handler → ListQuery → M Response
unfolding list_asked check_list bounded_parameter
get_payment_list h q =
    list_asked h (check_list q (bounded_parameter default_list_limit max_list_limit q.limit))

abbrev quote_item : Runtime → Quote → QuoteItem
quote_item rt q = record {
  provider = q.provider;
  input_amount = q.input_amount;
  output_amount = q.output_amount;
  fee_amount = q.fee_amount;
  estimated_fill_time_sec = q.estimated_fill_time_sec;
  selected = q.selected;
  quoted_at = rt.format_time q.quoted_at;
}

unfoldable pub write_quotes : Runtime → Result (List Quote) → Response
write_quotes rt (err _) = internal_error
write_quotes rt (ok quotes) = write_json 200 (quotes_body (map (quote_item rt) quotes))

unfoldable pub quotes_of_found : Handler → String → Result (Option Payment) → M Response
unfolding write_quotes
quotes_of_found h id (err _) = pure internal_error
quotes_of_found h id (ok none) = pure (write_error 404 "payment not found")
quotes_of_found h id (ok (some _)) = do
  quotes ← attempt (get_quotes_by_payment_id id)
  pure (write_quotes h.runtime quotes)

unfoldable pub get_payment_quotes : Handler → String → M Response
unfolding quotes_of_found
get_payment_quotes h id = do found ← attempt (get_payment id); quotes_of_found h id found

-- GetDashboardStats of the handler.
unfoldable pub get_stats : M Response
get_stats = do
  stats ← attempt get_dashboard_stats
  pure (elim stats [ err _ ↦ internal_error | ok s ↦ write_json 200 (stats_body s) ])

pub record TimeseriesQuery : Type 0 where
  pub metric : String
  pub interval : String
  pub days : List ℕ

abbrev or_default : String → String → String
or_default default s = if s == "" then default else s

abbrev timeseries_item : Runtime → TimeseriesPoint → TimeseriesItem
timeseries_item rt p = record {
  bucket = rt.format_bucket p.bucket;
  value = p.value;
  count = p.count;
}

unfoldable pub timeseries_of : Handler → String → String → Option ℕ → M Response
timeseries_of h metric interval none = pure (write_error 400 "days must be a positive integer")
timeseries_of h metric interval (some days) = do
  points ← attempt (get_timeseries metric interval days)
  pure (elim points [
    | err _ ↦ internal_error
    | ok ps ↦ write_json 200 (timeseries_body metric (map (timeseries_item h.runtime) ps))
  ])

unfoldable pub get_dashboard_timeseries : Handler → TimeseriesQuery → M Response
unfolding timeseries_of bounded_parameter
get_dashboard_timeseries h q =
    let metric = or_default "volume" q.metric in
    let interval = or_default "day" q.interval in
    if (if metric == "volume" then true else metric == "routing_cost")
    then (if (if interval == "hour" then true else interval == "day")
        then timeseries_of h metric interval
            (bounded_parameter default_timeseries_days max_timeseries_days q.days)
        else pure (write_error 400 "interval must be \"hour\" or \"day\""))
    else pure (write_error 400 "metric must be \"volume\" or \"routing_cost\"")
