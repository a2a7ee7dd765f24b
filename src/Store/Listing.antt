-- ===== src/Store/Listing.antt =====
-- store.go: ListPayments, and CountInFlightPayments. A filter is optional, and the texts of the
-- status and the mode are compared as they stand in the columns.
pub mod Order
pub mod Cut
pub mod Pages
pub mod Complete
use chain_route.Prelude.{
  ℕ, zero, suc, ◌-◌, String, Bool, true, false, ◌&&◌, Option, none, some, List, [], ◌∷◌, map, ◌==◌,
  ltb, eqb, if◌then◌else◌, length, take, select,
}
use Prim.Native.String.{compare}
use Prim.Native.Nat.{Ordering}
use chain_route.Payment.{Time, Payment, ListFilter, status_text, mode_text}
use chain_route.Payment.Cursor.{encode_cursor, decode_cursor}
use chain_route.Execution.{codes}
use chain_route.Db.{PaymentRow}
use chain_route.Db.Table.{order_by}
use chain_route.World.{Env, ok, err, db_error, invalid_cursor, Statement, M, fail, ◌>>=◌, statement}

-- The order of the texts of ids, which is that of the uuids.
abbrev pub text_lt : String → String → Bool
text_lt a b = elim (compare a b) [ Ordering.lt ↦ true | _ ↦ false ]

-- (created_at, id) < (t, id'), by row comparison.
unfoldable pub is_before : Time → String → PaymentRow → Bool
is_before t id p =
    if ltb p.created_at t then true else if eqb p.created_at t then text_lt p.id id else false

abbrev pub has_text : Option String → String → Bool
has_text none s = true
has_text (some x) s = s == x

-- bridge_provider = $n is not true of NULL.
abbrev pub has_provider : Option String → Option String → Bool
has_provider none o = true
has_provider (some x) none = false
has_provider (some x) (some s) = s == x

-- The conditions that the filter adds, the cursor's left out.
unfoldable pub passes : ListFilter → PaymentRow → Bool
passes f p =
    has_text f.status (status_text p.status)
    && (has_provider f.provider p.bridge_provider
        && (has_text f.source_chain p.source_chain
            && (has_text f.destination_chain p.destination_chain
                && has_text f.execution_mode (mode_text p.execution_mode))))

-- The cursor's condition.
unfoldable pub passes_cursor : Option (Time × String) → PaymentRow → Bool
unfolding is_before
passes_cursor none p = true
passes_cursor (some (t, id)) p = is_before t id p

-- ORDER BY created_at DESC, id DESC.
unfoldable pub newer : PaymentRow → PaymentRow → Bool
unfolding is_before
newer a b = is_before a.created_at a.id b

unfoldable pub page_limit : ℕ → ℕ
page_limit zero = 25
page_limit (suc n) = suc n

-- The columns that are scanned; the other fields are zero.
unfoldable pub scanned : PaymentRow → Payment
scanned p = record {
  id = p.id;
  idempotency_key = "";
  source_chain = p.source_chain;
  destination_chain = p.destination_chain;
  asset = p.asset;
  amount = p.amount;
  status = p.status;
  total_fee = p.total_fee;
  hops = [];
  execution_mode = p.execution_mode;
  bridge_provider = p.bridge_provider;
  failure_reason = none;
  quotes = [];
  created_at = p.created_at;
  updated_at = 0;
  completed_at = none;
}

-- The rows of the query, with the cursor's two values as Postgres reads them.
unfoldable pub page_rows : ListFilter → Option (Time × String) → List PaymentRow → List PaymentRow
unfolding passes passes_cursor newer page_limit
page_rows f c rows =
    take (suc (page_limit f.limit))
      (order_by newer (select (λ p. passes_cursor c p && passes f p) rows))

-- The cursor's texts as timestamptz and uuid; `none`: Postgres refuses one of them.
abbrev pub read_cursor : Env → List ℕ × List ℕ → Option (Time × String)
read_cursor env (t, id) = elim (env.read_time t) [
  | none ↦ none
  | some time ↦ elim (env.read_id id) [ none ↦ none | some text ↦ some (time, text) ]
]

-- The arguments of the query: no cursor, or a cursor's two texts.
unfoldable pub list_stmt : ListFilter → Option (List ℕ × List ℕ) → Statement (List Payment)
unfolding page_rows scanned
list_stmt f none env n d = (ok (map scanned (page_rows f none d.payments)), d)
list_stmt f (some texts) env n d = elim (read_cursor env texts) [
  | none ↦ (err db_error, d)
  | some c ↦ (ok (map scanned (page_rows f (some c) d.payments)), d)
]

-- The element at an index.
abbrev pub get_elem? : {A : Type 0} → List A → ℕ → Option A
get_elem? [] n = none
get_elem? (x ∷ xs) zero = some x
get_elem? (x ∷ xs) (suc n) = get_elem? xs n

abbrev cursor_of : Env → Option Payment → List ℕ
cursor_of env none = []
cursor_of env (some p) = encode_cursor (env.time_text p.created_at) (codes p.id)

-- One row more than the limit was asked for. The empty cursor is that of the last page.
unfoldable pub cut_page : Env → ℕ → List Payment → List Payment × List ℕ
cut_page env limit results =
    if ltb limit (length results)
    then (take limit results, cursor_of env (get_elem? results (limit - 1)))
    else (results, [])

unfoldable pub cut : ℕ → List Payment → M (List Payment × List ℕ)
unfolding cut_page page_limit
cut limit results env w = (ok (cut_page env (page_limit limit) results), w)

unfoldable pub list_with : ListFilter → Option (List ℕ × List ℕ) → M (List Payment × List ℕ)
unfolding list_stmt cut
list_with f c = do results ← statement (list_stmt f c); cut f.limit results

-- filter.Cursor != "".
abbrev list_after : ListFilter → List ℕ → Option (List ℕ × List ℕ) → M (List Payment × List ℕ)
list_after f [] decoded = list_with f none
list_after f (c ∷ cs) none = fail invalid_cursor
list_after f (c ∷ cs) (some texts) = list_with f (some texts)

unfoldable pub list_payments : ListFilter → M (List Payment × List ℕ)
unfolding list_with decode_cursor
list_payments f = list_after f f.cursor (decode_cursor f.cursor)
