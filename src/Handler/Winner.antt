-- ===== src/Handler/Winner.antt =====
-- handler/payments.go: the map quotesByBridgeName, and the quotes that are stored with a payment.
use chain_route.Prelude.{
  String, Bool, true, false, Option, none, some, List, [], ◌∷◌, ◌++◌, map, ◌≡◌, refl, ap, ◌∙◌, ◌==◌,
  eq_iff, eq_refl, arith, if◌then◌else◌, select, All, is_some,
}
use mathlib.Core.List.{Permᴰ}
use chain_route.Payment.{Float64}
use chain_route.Payment as Payment
use chain_route.Bridge.Quote.{Quote}
use chain_route.Handler.Routing.{CandidateEdge, Runtime}
use chain_route.Handler.Quotes.{
  QuoteResult, Quotes, Tally, put_quote, quote_for, edge_of, count_answer, count_results,
  empty_tally,
}
use chain_route.Handler.Create.{quote_of}

abbrev under : String → String × Quote → Bool
under name (k, q) = k == name

abbrev has_quote : String → Quotes → Bool
has_quote name qs = is_some (quote_for name qs)

-- No key stands twice.
abbrev pub Distinct : Quotes → Type 0
Distinct [] = Unit
Distinct ((k, q) ∷ rest) = (has_quote k rest ≡ false) × Distinct rest

quote_for-put_quote :
    (j k : String) (q : Quote) (qs : Quotes)
    → quote_for j (put_quote k q qs) ≡ (if k == j then some q else quote_for j qs)
unfolding put_quote quote_for
quote_for-put_quote j k q [] = refl
quote_for-put_quote j k q ((l, x) ∷ rest) =
    ground (arith, eq_iff l k, eq_iff k j, eq_iff l j, quote_for-put_quote j k q rest)

put_quote-Distinct :
    (k : String) (q : Quote) (qs : Quotes) → Distinct qs → Distinct (put_quote k q qs)
unfolding put_quote quote_for
put_quote-Distinct k q [] h = (refl, tt)
put_quote-Distinct k q ((l, x) ∷ rest) h = ground (
  arith,
  eq_iff l k,
  eq_iff k l,
  quote_for-put_quote l k q rest,
  put_quote-Distinct k q rest,
  ap (λ (s : String). quote_for s rest) {x = l} {y = k},
)

count_results-Distinct :
    (rt : Runtime) (a : Float64) (t : Tally) (rs : List QuoteResult)
    → Distinct t.quotes
    → Distinct (count_results rt a t rs).quotes
unfolding count_results count_answer
count_results-Distinct rt a t [] h = h
count_results-Distinct rt a t (r ∷ rs) h =
    count_results-Distinct rt a (count_answer rt a t r.provider.name r.answer) rs
      (step r.provider.name r.answer)
  where
    step : (name : String) (o : Option Quote) → Distinct (count_answer rt a t name o).quotes
    step name none = h
    step name (some q) = ground (arith, put_quote-Distinct name q t.quotes)

select-none :
    (name : String) (qs : Quotes) → has_quote name qs ≡ false → select (under name) qs ≡ []
unfolding quote_for
select-none name [] h = refl
select-none name ((k, q) ∷ qs) h = ground (arith, select-none name qs)

select-under :
    (name : String) (q : Quote) (qs : Quotes)
    → Distinct qs
    → quote_for name qs ≡ some q
    → select (under name) qs ≡ (name, q) ∷ []
unfolding quote_for
select-under name q [] d h = ground arith
select-under name q ((k, x) ∷ qs) d h =
    ground (arith, eq_iff k name, select-none k qs, select-under name q qs)

-- The last available answer of a provider under a name, which is what the map should hold.
abbrev pub available_answer : Option Quote → Option Quote
available_answer none = none
available_answer (some q) = if q.available then some q else none

unfoldable pub last_answer : String → Option Quote → List QuoteResult → Option Quote
last_answer name found [] = found
last_answer name found (r ∷ rs) =
    last_answer name
      (if r.provider.name == name
        then elim (available_answer r.answer) [ none ↦ found | some q ↦ some q ]
        else found)
      rs

quote_for-count_answer :
    (rt : Runtime) (a : Float64) (t : Tally) (name j : String) (o : Option Quote)
    → quote_for j (count_answer rt a t name o).quotes ≡ (
        if name == j
        then elim (available_answer o) [ none ↦ quote_for j t.quotes | some q ↦ some q ]
        else quote_for j t.quotes)
unfolding count_answer
quote_for-count_answer rt a t name j none = ground arith
quote_for-count_answer rt a t name j (some q) =
    ground (arith, quote_for-put_quote j name q t.quotes)

-- The map against the answers.
quote_for-count_results :
    (rt : Runtime) (a : Float64) (name : String) (rs : List QuoteResult)
    → quote_for name (count_results rt a empty_tally rs).quotes ≡ last_answer name none rs
unfolding quote_for count_results last_answer
quote_for-count_results rt a name rs = go empty_tally rs
  where
    go :
        (t : Tally) (rs : List QuoteResult)
        → quote_for name (count_results rt a t rs).quotes
          ≡ last_answer name (quote_for name t.quotes) rs
    go t [] = refl
    go t (r ∷ rs) =
        go (count_answer rt a t r.provider.name r.answer) rs
        ∙ ap (λ o. last_answer name o rs)
            (quote_for-count_answer rt a t r.provider.name name r.answer)

-- Every edge's bridge has a quote.
abbrev pub Quoted : Tally → Type 0
Quoted t = All (λ (e : CandidateEdge). has_quote e.bridge_name t.quotes ≡ true) t.edges

All-put_quote :
    (name : String) (q : Quote) (qs : Quotes) (es : List CandidateEdge)
    → All (λ (e : CandidateEdge). has_quote e.bridge_name qs ≡ true) es
    → All (λ (e : CandidateEdge). has_quote e.bridge_name (put_quote name q qs) ≡ true) es
All-put_quote name q qs [] h = tt
All-put_quote name q qs (e ∷ es) h =
    (ground (arith, quote_for-put_quote e.bridge_name name q qs), All-put_quote name q qs es h.1)

All-snoc :
    {A : Type 0} (P : A → Type 0) (xs : List A) (x : A) → All P xs → P x → All P (xs ++ x ∷ [])
All-snoc P [] x h p = (p, tt)
All-snoc P (y ∷ ys) x h p = (h.0, All-snoc P ys x h.1 p)

count_answer-Quoted :
    (rt : Runtime) (a : Float64) (t : Tally) (name : String) (o : Option Quote)
    → Quoted t
    → Quoted (count_answer rt a t name o)
unfolding count_answer
count_answer-Quoted rt a t name none h = h
count_answer-Quoted rt a t name (some q) h = if_available q.available
  where
    if_available :
        (b : Bool)
        → Quoted (
            if b
            then record {
              any_succeeded = true;
              any_available = true;
              edges = t.edges ++ edge_of rt a name q ∷ [];
              quotes = put_quote name q t.quotes;
            }
            else record t { any_succeeded = true })
    if_available false = h
    if_available true =
        All-snoc _ t.edges (edge_of rt a name q) (All-put_quote name q t.quotes t.edges h)
          (ground (arith, quote_for-put_quote name name q t.quotes, eq_refl name))

-- Every candidate edge that is offered to the routing service names a bridge with a quote. So a route
-- whose first hop is one of these edges never meets the error that the code calls unreachable.
pub count_results-Quoted :
    (rt : Runtime) (a : Float64) (rs : List QuoteResult)
    → Quoted (count_results rt a empty_tally rs)
unfolding count_results
count_results-Quoted rt a rs = go empty_tally rs tt
  where
    go : (t : Tally) (rs : List QuoteResult) → Quoted t → Quoted (count_results rt a t rs)
    go t [] h = h
    go t (r ∷ rs) h =
        go (count_answer rt a t r.provider.name r.answer) rs
          (count_answer-Quoted rt a t r.provider.name r.answer h)

-- What a test selects does not depend on the order, as long as it is one element at most.
module _ {A : Type 0} (p : A → Bool) where
  select-none_Permᴰ : {xs ys : List A} → Permᴰ xs ys → select p xs ≡ [] → select p ys ≡ []
  select-none_Permᴰ Permᴰ.nil h = refl
  select-none_Permᴰ (Permᴰ.cons e d) h = ground (arith, e, ap p e, select-none_Permᴰ d)
  select-none_Permᴰ (Permᴰ.swap e f) h = ground (arith, ap p e, ap p f)
  select-none_Permᴰ (Permᴰ.trans d e) h = select-none_Permᴰ e (select-none_Permᴰ d h)

  select-one_Permᴰ :
      (x : A) {xs ys : List A} → Permᴰ xs ys → select p xs ≡ x ∷ [] → select p ys ≡ x ∷ []
  select-one_Permᴰ x Permᴰ.nil h = h
  select-one_Permᴰ x (Permᴰ.cons e d) h =
      ground (arith, e, ap p e, select-none_Permᴰ d, select-one_Permᴰ x d)
  select-one_Permᴰ x (Permᴰ.swap e f) h = ground (arith, e, f, ap p e, ap p f)
  select-one_Permᴰ x (Permᴰ.trans d e) h = select-one_Permᴰ x e (select-one_Permᴰ x d h)

select-map :
    (winner : String) (qs : Quotes)
    → select (λ (q : Payment.Quote). q.selected) (map (quote_of winner) qs)
      ≡ map (quote_of winner) (select (under winner) qs)
unfolding quote_of
select-map winner [] = refl
select-map winner ((k, q) ∷ qs) = ground (arith, select-map winner qs)

-- For every list of results and every order in which the map is visited: if the winning bridge gave an
-- available answer, then of the quotes that are stored with the payment exactly its last one is marked
-- as selected.
pub selected-quote_of :
    (rt : Runtime) (a : Float64) (rs : List QuoteResult) (winner : String) (q : Quote)
    (visited : Quotes)
    → last_answer winner none rs ≡ some q
    → Permᴰ (count_results rt a empty_tally rs).quotes visited
    → select (λ (x : Payment.Quote). x.selected) (map (quote_of winner) visited)
      ≡ quote_of winner (winner, q) ∷ []
selected-quote_of rt a rs winner q visited h p =
    select-map winner visited
    ∙ ap (map (quote_of winner)) (
        select-one_Permᴰ (under winner) (winner, q) p
          (select-under winner q _ (count_results-Distinct rt a empty_tally rs tt)
            (quote_for-count_results rt a winner rs ∙ h)))
