-- ===== src/Store/Dashboard.antt =====
-- store.go: GetDashboardStats and GetTimeseries, queries that aggregate the payments.
pub mod Totals
use chain_route.Prelude.{
  ℕ, zero, suc, ◌+◌, ◌-◌, ◌*◌, String, Bool, true, false, ◌&&◌, Option, none, some, List, [], ◌∷◌,
  map, ◌==◌, ltb, eqb, if◌then◌else◌, length, select, is_some,
}
use chain_route.Payment.{
  Status, routed, processing, submitted, completed, failed, Time, Float64, DashboardStats,
  NetworkUsageEntry, TimeseriesPoint, status_eq, mode_text,
}
use chain_route.Db.{Db, PaymentRow}
use chain_route.Db.Table.{order_by}
use chain_route.World.{Env, ok, Statement, M, pure, ◌>>=◌, statement}
use chain_route.Store.Listing.{text_lt}

-- COUNT(*) FILTER (WHERE ...).
abbrev pub count_where : {A : Type 0} → (A → Bool) → List A → ℕ
count_where p rows = length (select p rows)

module _ {K : Type 0} (same : K → K → Bool) where
  abbrev pub bump : K → List (K × ℕ) → List (K × ℕ)
  bump k [] = (k, 1) ∷ []
  bump k ((j, n) ∷ rest) =
      let more = bump k rest in if same j k then (j, suc n) ∷ rest else (j, n) ∷ more

  -- SELECT key, COUNT(*) ... GROUP BY key, one entry for each key.
  abbrev pub count_by : {A : Type 0} → (A → K) → List A → List (K × ℕ)
  count_by key [] = []
  count_by key (r ∷ rs) = bump (key r) (count_by key rs)

abbrev pub is_in_flight : PaymentRow → Bool
is_in_flight p = elim p.status [
  | routed ↦ true
  | processing ↦ true
  | submitted ↦ true
  | completed ↦ false
  | failed ↦ false
]

abbrev pub is_completed : PaymentRow → Bool
is_completed p = status_eq p.status completed

abbrev pub is_failed : PaymentRow → Bool
is_failed p = status_eq p.status failed

abbrev pub text_eq : String → String → Bool
text_eq a b = a == b

-- The map of CountInFlightPayments, by the text of the mode.
unfoldable pub in_flight_stmt : Statement (List (String × ℕ))
in_flight_stmt env n d = (
  ok (
      count_by text_eq (λ (p : PaymentRow). mode_text p.execution_mode)
        (select is_in_flight d.payments)),
  d,
)

unfoldable pub count_in_flight_payments : M (List (String × ℕ))
count_in_flight_payments = statement in_flight_stmt

-- The five columns of the first query.
pub record Overview : Type 0 where
  pub total : ℕ
  pub completed_count : ℕ
  pub processing_count : ℕ
  pub failed_count : ℕ
  pub average_fee : Float64

unfoldable pub overview_stmt : Statement Overview
overview_stmt env n d = (
  ok (record {
    total = length d.payments;
    completed_count = count_where is_completed d.payments;
    processing_count = count_where is_in_flight d.payments;
    failed_count = count_where is_failed d.payments;
    average_fee = env.average (map (λ (p : PaymentRow). p.total_fee) d.payments);
  }),
  d,
)

abbrev pub providers_of : List PaymentRow → List String
providers_of [] = []
providers_of (p ∷ ps) = elim p.bridge_provider [
  | none ↦ providers_of ps
  | some s ↦ s ∷ providers_of ps
]

unfoldable pub provider_usage_stmt : Statement (List (String × ℕ))
provider_usage_stmt env n d = (ok (count_by text_eq (λ s. s) (providers_of d.payments)), d)

abbrev pub pair_eq : String × String → String × String → Bool
pair_eq (a, b) (c, d) = a == c && b == d

abbrev pub corridor_of : PaymentRow → String × String
corridor_of p = (p.source_chain, p.destination_chain)

-- ORDER BY COUNT(*) DESC, source_chain, destination_chain.
abbrev pub busier : NetworkUsageEntry → NetworkUsageEntry → Bool
busier a b =
    if ltb b.count a.count
    then true
    else if eqb a.count b.count
    then (if text_lt a.source_chain b.source_chain
        then true
        else if a.source_chain == b.source_chain
        then text_lt a.destination_chain b.destination_chain
        else false)
    else false

abbrev pub entry_of : (String × String) × ℕ → NetworkUsageEntry
entry_of ((source, dest), n) = record { source_chain = source; destination_chain = dest; count = n }

unfoldable pub network_usage_of : List PaymentRow → List NetworkUsageEntry
network_usage_of rows = order_by busier (map entry_of (count_by pair_eq corridor_of rows))

unfoldable pub network_usage_stmt : Statement (List NetworkUsageEntry)
unfolding network_usage_of
network_usage_stmt env n d = (ok (network_usage_of d.payments), d)

abbrev pub stats_of : Overview → List (String × ℕ) → List NetworkUsageEntry → DashboardStats
stats_of o providers networks = record {
  total_payments = o.total;
  completed_payments = o.completed_count;
  processing_payments = o.processing_count;
  failed_payments = o.failed_count;
  provider_usage = providers;
  average_routing_cost = o.average_fee;
  network_usage = networks;
}

-- Three queries, outside of any transaction.
unfoldable pub get_dashboard_stats : M DashboardStats
unfolding overview_stmt provider_usage_stmt network_usage_stmt
get_dashboard_stats = do
  o ← statement overview_stmt
  providers ← statement provider_usage_stmt
  networks ← statement network_usage_stmt
  pure (stats_of o providers networks)

-- Nanoseconds of a day, as make_interval(days => ...) of a UTC session has.
abbrev pub day : ℕ
day = 86400000000000

-- created_at > now() - make_interval(days => $2), which is true of all rows where the window
-- reaches behind the first time.
abbrev pub is_recent : Time → ℕ → PaymentRow → Bool
is_recent now days p = ltb now (p.created_at + days * day)

-- The rows of one bucket, in the order of the table.
pub record Bucket : Type 0 where
  pub start : Time
  pub fees : List Float64

abbrev pub add_to_bucket : Time → Float64 → List Bucket → List Bucket
add_to_bucket t fee [] = record { start = t; fees = fee ∷ [] } ∷ []
add_to_bucket t fee (b ∷ bs) =
    let more = add_to_bucket t fee bs in
    if eqb b.start t then record b { fees = fee ∷ b.fees } ∷ bs else b ∷ more

abbrev pub group_by_bucket : (Time → Time) → List PaymentRow → List Bucket
group_by_bucket trunc [] = []
group_by_bucket trunc (p ∷ ps) =
    add_to_bucket (trunc p.created_at) p.total_fee (group_by_bucket trunc ps)

abbrev pub earlier_bucket : Bucket → Bucket → Bool
earlier_bucket a b = ltb a.start b.start

-- The third column: COALESCE(AVG(total_fee), 0) for routing_cost, and COUNT(*) otherwise.
abbrev pub point_of : Env → String → Bucket → TimeseriesPoint
point_of env metric b = record {
  bucket = b.start;
  value = if metric == "routing_cost" then env.average b.fees else env.of_count (length b.fees);
  count = length b.fees;
}

unfoldable pub timeseries_stmt : String → String → ℕ → Statement (List TimeseriesPoint)
timeseries_stmt metric interval days env n d = (
  ok (
      map (point_of env metric) (
        order_by earlier_bucket (
          group_by_bucket (env.date_trunc interval)
            (select (is_recent (env.clock n) days) d.payments)))),
  d,
)

unfoldable pub get_timeseries : String → String → ℕ → M (List TimeseriesPoint)
unfolding timeseries_stmt
get_timeseries metric interval days = statement (timeseries_stmt metric interval days)
