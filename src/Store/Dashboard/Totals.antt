-- ===== src/Store/Dashboard/Totals.antt =====
-- store.go, GetDashboardStats: the counts of the three queries against each other.
use chain_route.Prelude.{
  ℕ, suc, ◌+◌, ◌≤◌, String, Bool, true, false, List, [], ◌∷◌, map, ◌≡◌, refl, sym, ap, ◌∙◌, subst,
  arith, if◌then◌else◌, length,
}
use chain_route.Payment.{DashboardStats, NetworkUsageEntry}
use chain_route.Db.{Db, PaymentRow}
use chain_route.Db.Table.{insert_by, order_by}
use chain_route.World.{
  World, Env, Fault, fine, rejected, answer_lost, ok, Statement, answer, statement, pure,
}
use chain_route.World.Answers.{bind-ok, ok-injective}
use chain_route.Worker.Checked.{Quiet}
use chain_route.Store.Dashboard.{
  count_where, bump, count_by, is_in_flight, is_completed, is_failed, text_eq, Overview,
  overview_stmt, providers_of, provider_usage_stmt, pair_eq, corridor_of, busier, entry_of,
  network_usage_of, network_usage_stmt, get_dashboard_stats, stats_of,
}

abbrev pub sum_counts : List NetworkUsageEntry → ℕ
sum_counts [] = 0
sum_counts (e ∷ es) = e.count + sum_counts es

abbrev pub sum_usage : {K : Type 0} → List (K × ℕ) → ℕ
sum_usage [] = 0
sum_usage ((k, n) ∷ rest) = n + sum_usage rest

by_status :
    (ps : List PaymentRow)
    → length ps
      ≡ count_where is_completed ps + count_where is_in_flight ps + count_where is_failed ps
by_status [] = refl
by_status (p ∷ ps) = ground (arith, by_status ps)

module _ {K : Type 0} (same : K → K → Bool) where
  sum_usage-bump : (k : K) (m : List (K × ℕ)) → sum_usage (bump same k m) ≡ suc (sum_usage m)
  sum_usage-bump k [] = refl
  sum_usage-bump k ((j, n) ∷ m) = ground (arith, sum_usage-bump k m)

  sum_usage-count_by :
      {A : Type 0} (key : A → K) (rs : List A) → sum_usage (count_by same key rs) ≡ length rs
  sum_usage-count_by key [] = refl
  sum_usage-count_by key (r ∷ rs) =
      sum_usage-bump (key r) (count_by same key rs) ∙ ap suc (sum_usage-count_by key rs)

sum_counts-insert_by :
    (e : NetworkUsageEntry) (es : List NetworkUsageEntry)
    → sum_counts (insert_by busier e es) ≡ e.count + sum_counts es
sum_counts-insert_by e [] = refl
sum_counts-insert_by e (f ∷ es) = go (sum_counts-insert_by e es) (busier f e)
  where
    go :
        sum_counts (insert_by busier e es) ≡ e.count + sum_counts es
        → (b : Bool)
        → sum_counts (if b then f ∷ insert_by busier e es else e ∷ f ∷ es)
          ≡ e.count + (f.count + sum_counts es)
    go more true = omega (arith, more)
    go more false = refl

sum_counts-order_by :
    (es : List NetworkUsageEntry) → sum_counts (order_by busier es) ≡ sum_counts es
sum_counts-order_by [] = refl
sum_counts-order_by (e ∷ es) =
    sum_counts-insert_by e (order_by busier es) ∙ ap (λ n. e.count + n) (sum_counts-order_by es)

sum_counts-map : (m : List ((String × String) × ℕ)) → sum_counts (map entry_of m) ≡ sum_usage m
sum_counts-map [] = refl
sum_counts-map (((a, b), n) ∷ m) = ap (λ k. n + k) (sum_counts-map m)

sum_counts-network_usage : (ps : List PaymentRow) → sum_counts (network_usage_of ps) ≡ length ps
unfolding network_usage_of
sum_counts-network_usage ps =
    sum_counts-order_by (map entry_of (count_by pair_eq corridor_of ps))
    ∙ sum_counts-map (count_by pair_eq corridor_of ps)
    ∙ sum_usage-count_by pair_eq corridor_of ps

length-providers_of : (ps : List PaymentRow) → length (providers_of ps) ≤ length ps
length-providers_of [] = omega arith
length-providers_of (p ∷ ps) = ground (arith, length-providers_of ps)

-- A SELECT, with a database that no other actor writes meanwhile.
abbrev reading : {A : Type 0} → (Env → Db → A) → Statement A
reading f env n d = (ok (f env d), d)

statement-reading :
    {A : Type 0} (f : Env → Db → A) (env : Env) (w : World) (a : A)
    → Quiet env
    → (statement (reading f) env w).0 ≡ ok a
    → (a ≡ f env w.db) × ((statement (reading f) env w).1.db ≡ w.db)
unfolding statement
statement-reading f env w a quiet h = by_fault (env.fault w.tick) h
  where
    by_fault :
        (x : Fault)
        → (answer x (reading f env w.tick (env.others w.tick w.db)) (env.others w.tick w.db)).0
          ≡ ok a
        → (a ≡ f env w.db)
          × ((answer x (reading f env w.tick (env.others w.tick w.db)) (env.others w.tick w.db)).1
              ≡ w.db)
    by_fault rejected g = absurd (ground arith)
    by_fault answer_lost g = absurd (ground arith)
    by_fault fine g =
        (ground (arith, g, ap (f env) (quiet.still w.tick w.db)), quiet.still w.tick w.db)

abbrev overview : Env → Db → Overview
overview env d = record {
  total = length d.payments;
  completed_count = count_where is_completed d.payments;
  processing_count = count_where is_in_flight d.payments;
  failed_count = count_where is_failed d.payments;
  average_fee = env.average (map (λ (p : PaymentRow). p.total_fee) d.payments);
}

abbrev provider_usage : List PaymentRow → List (String × ℕ)
provider_usage ps = count_by text_eq (λ s. s) (providers_of ps)

-- The three answers belong to one state.
stats_at : Env → Db → DashboardStats
stats_at env d = stats_of (overview env d) (provider_usage d.payments) (network_usage_of d.payments)

get_dashboard_stats-stats_at :
    (env : Env) (w : World) (s : DashboardStats)
    → Quiet env
    → (get_dashboard_stats env w).0 ≡ ok s
    → stats_at env w.db ≡ s
unfolding get_dashboard_stats overview_stmt provider_usage_stmt network_usage_stmt pure stats_at
get_dashboard_stats-stats_at env w s quiet h =
    let (o, got1, rest1) = bind-ok _ _ env w s h in
    let w1 = (statement overview_stmt env w).1 in
    let h1 = ap (λ x. x.0) (sym rest1) ∙ h in
    let (ps, got2, rest2) = bind-ok _ _ env w1 s h1 in
    let w2 = (statement provider_usage_stmt env w1).1 in
    let h2 = ap (λ x. x.0) (sym rest2) ∙ h1 in
    let (ns, got3, rest3) = bind-ok _ _ env w2 s h2 in
    let (e1, same1) = statement-reading overview env w o quiet got1 in
    let (e2, same2) = statement-reading (λ env d. provider_usage d.payments) env w1 ps quiet got2 in
    let (e3, same3) =
      statement-reading (λ env d. network_usage_of d.payments) env w2 ns quiet got3 in
    ap (λ x. stats_of x (provider_usage w.db.payments) (network_usage_of w.db.payments)) (sym e1)
    ∙ ap (λ x. stats_of o x (network_usage_of w.db.payments))
        (ap (λ d. provider_usage d.payments) (sym same1) ∙ sym e2)
    ∙ ap (λ x. stats_of o ps x)
        (ap (λ d. network_usage_of d.payments) (sym (same2 ∙ same1)) ∙ sym e3)
    ∙ ok-injective _ s (ap (λ x. x.0) (sym rest3) ∙ h2)

-- Whenever GetDashboardStats answers, in an environment where no other actor writes meanwhile: the
-- completed, the processing and the failed payments are all payments, the counts of the network usage
-- add up to all payments, and those of the provider usage to no more.
pub get_dashboard_stats-total :
    (env : Env) (w : World) (s : DashboardStats)
    → Quiet env
    → (get_dashboard_stats env w).0 ≡ ok s
    → (s.total_payments ≡ length w.db.payments)
      × (s.total_payments ≡ s.completed_payments + s.processing_payments + s.failed_payments)
      × (sum_counts s.network_usage ≡ s.total_payments)
      × (sum_usage s.provider_usage ≤ s.total_payments)
unfolding stats_at
get_dashboard_stats-total env w s quiet h =
    subst
      (λ (x : DashboardStats).
        (x.total_payments ≡ length w.db.payments)
        × (x.total_payments ≡ x.completed_payments + x.processing_payments + x.failed_payments)
        × (sum_counts x.network_usage ≡ x.total_payments)
        × (sum_usage x.provider_usage ≤ x.total_payments))
      (get_dashboard_stats-stats_at env w s quiet h)
      (
        refl,
        by_status w.db.payments,
        sum_counts-network_usage w.db.payments,
        omega (
          arith,
          sum_usage-count_by text_eq (λ s. s) (providers_of w.db.payments),
          length-providers_of w.db.payments,
        ),
      )
