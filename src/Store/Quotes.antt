-- ===== src/Store/Quotes.antt =====
-- quote_store.go: the quotes that were compared for a payment.
use chain_route.Prelude.{
  String, Bool, true, false, ◌&&◌, Option, List, [], ◌∷◌, ◌++◌, ◌==◌, if◌then◌else◌, select, none,
  some, and_then,
}
use Prim.Native.String.{compare}
use Prim.Native.Nat.{Ordering}
use chain_route.Payment.{Time, Quote}
use chain_route.Db.{Db}
use chain_route.Db.Table.{exists, first, order_by}
use chain_route.World.{Result, ok, err, Env, db_error, unique_violation, Statement, M, statement}

abbrev pub is_quote_of : String → Quote → Bool
is_quote_of id q = q.payment_id == id

abbrev pub is_selected_of : String → Quote → Bool
is_selected_of id q = q.payment_id == id && q.selected

-- UNIQUE (payment_id, provider), and the partial unique index of migration 0007 on selected rows.
abbrev pub quote_clashes : String → Quote → Quote → Bool
quote_clashes id q r =
    if r.payment_id == id
    then (if r.provider == q.provider then true else q.selected && r.selected)
    else false

-- The amounts as NUMERIC(38, 0) and the payload as JSONB, as they are stored; `none`: refused.
unfoldable pub cast_quote : Env → Quote → Option Quote
cast_quote env q = and_then (env.numeric_0 q.input_amount) λ input.
    and_then (env.numeric_0 q.output_amount) λ output. and_then (env.numeric_0 q.fee_amount) λ fee.
      and_then (env.jsonb q.raw_provider_payload) λ payload. some (record q {
        input_amount = input;
        output_amount = output;
        fee_amount = fee;
        raw_provider_payload = payload;
      })

-- insertPaymentQuotes: one INSERT for each quote, until one fails.
unfoldable pub insert_payment_quotes :
    Env → String → Time → List Quote → List Quote → Result (List Quote)
insert_payment_quotes env id t [] rows = ok rows
insert_payment_quotes env id t (q ∷ qs) rows = elim (cast_quote env q) [
  | none ↦ err db_error
  | some stored ↦
      let rest =
        insert_payment_quotes env id t qs
          (rows ++ record stored { payment_id = id; created_at = t } ∷ []) in
      if exists (quote_clashes id q) rows then err unique_violation else rest
]

unfoldable pub selected_quote : String → Db → Option Quote
selected_quote id d = first (is_selected_of id) d.quotes

unfoldable pub get_quote_stmt : String → Statement (Option Quote)
get_quote_stmt id env n d = (ok (selected_quote id d), d)

unfoldable pub get_quote_by_payment_id : String → M (Option Quote)
get_quote_by_payment_id id = statement (get_quote_stmt id)

abbrev before : String → String → Bool
before a b = elim (compare a b) [ Ordering.lt ↦ true | _ ↦ false ]

-- ORDER BY selected DESC, provider.
abbrev pub quote_before : Quote → Quote → Bool
quote_before a b =
    if a.selected
    then (if b.selected then before a.provider b.provider else true)
    else (if b.selected then false else before a.provider b.provider)

unfoldable pub get_quotes_stmt : String → Statement (List Quote)
get_quotes_stmt id env n d = (ok (order_by quote_before (select (is_quote_of id) d.quotes)), d)

unfoldable pub get_quotes_by_payment_id : String → M (List Quote)
get_quotes_by_payment_id id = statement (get_quotes_stmt id)
