-- ===== src/Store/Listing/Pages.antt =====
-- store.go, ListPayments: a caller that asks for the first page, and then for the page at each
-- cursor it is given.
use chain_route.Prelude.{
  ℕ, zero, suc, Bool, true, false, none, some, List, [], ◌∷◌, ◌++◌, map, ◌≡◌, ◌≢◌, if◌then◌else◌,
  refl, ap, ◌∙◌, subst, ◌⊎◌, arith, take, select, All,
}
use chain_route.Payment.{Payment, ListFilter}
use chain_route.Payment.Cursor.{encode_cursor}
use chain_route.Payment.Cursor.RoundTrip.{IsByte, IsNoComma}
use chain_route.Execution.{codes}
use chain_route.Db.{PaymentRow}
use chain_route.Db.Table.{order_by}
use chain_route.Db.Table.Sorted.{
  AllComparable, Sorted, select-select, order_by-Sorted, order_by-select, All-select, select-behind,
}
use chain_route.World.{
  Env, World, Fault, Result, ok, err, Statement, M, pure, ◌>>=◌, committed, statement,
}
use chain_route.Worker.Checked.{Quiet}
use chain_route.Store.Listing.{
  passes, passes_cursor, newer, page_limit, scanned, page_rows, list_stmt, cut_page, cut, list_with,
  list_payments,
}
use chain_route.Store.Listing.Order.{DistinctIds, newer-StrictOrder, newer-AllComparable}

abbrev pub more :
    (ListFilter → M (List Payment)) → ListFilter → List Payment × List ℕ → M (List Payment)
more next f (page, []) = pure page
more next f (page, c ∷ cs) = next (record f { cursor = c ∷ cs }) >>= λ others. pure (page ++ others)

-- The payments of all pages, asked for one behind the other, and at most so many pages.
unfoldable pub all_pages : ℕ → ListFilter → M (List Payment)
all_pages zero f = pure []
all_pages (suc fuel) f = list_payments f >>= more (all_pages fuel) f

-- The texts of a row's time and id have bytes, no comma in the time, and are read back as they were
-- written.
pub record Readable (env : Env) (r : PaymentRow) : Type 0 where
  pub time_bytes : All IsByte (env.time_text r.created_at)
  pub no_comma : All IsNoComma (env.time_text r.created_at)
  pub id_bytes : All IsByte (codes r.id)
  pub time_read : env.read_time (env.time_text r.created_at) ≡ some r.created_at
  pub id_read : env.read_id (codes r.id) ≡ some r.id

pub bind-run :
    {A B : Type 0} (m : M A) (k : A → M B) (env : Env) (w w' : World) (a : A)
    → m env w ≡ (ok a, w')
    → (m >>= k) env w ≡ k a env w'
unfolding ◌>>=◌
bind-run m k env w w' a h =
    ap (λ (r : Result _ × World). elim r.0 [ ok x ↦ k x env r.1 | err e ↦ (err e, r.1) ]) h

pub bind-pure :
    {A B : Type 0} (m : M A) (g : A → B) (env : Env) (w : World) (a : A)
    → (m env w).0 ≡ ok a
    → ((m >>= λ x. pure (g x)) env w).0 ≡ ok (g a)
unfolding ◌>>=◌ pure
bind-pure m g env w a h = ground (arith, h)

module _ (env : Env) (quiet : Quiet env) (fine : (n : ℕ) → env.fault n ≡ Fault.fine) where
  statement-run :
      {A : Type 0} (s : Statement A) (w : World)
      → statement s env w ≡ (
        (s env w.tick w.db).0,
        record w { db = committed (s env w.tick w.db) w.db; tick = suc w.tick },
      )
  unfolding statement
  statement-run s w = rw (fine w.tick, quiet.still w.tick w.db)

  pub list_with-first :
      (f : ListFilter) (w : World)
      → list_with f none env w ≡ (
        ok (cut_page env (page_limit f.limit) (map scanned (page_rows f none w.db.payments))),
        record w { tick = suc w.tick },
      )
  unfolding list_with list_stmt cut
  list_with-first f w =
      bind-run (statement (list_stmt f none)) (cut f.limit) env w _ _
        (statement-run (list_stmt f none) w)

  pub list_with-row :
      (f : ListFilter) (w : World) (r : PaymentRow)
      → Readable env r
      → list_with f (some (env.time_text r.created_at, codes r.id)) env w ≡ (
        ok (
            cut_page env
              (page_limit f.limit)
              (map scanned (page_rows f (some (r.created_at, r.id)) w.db.payments))),
        record w { tick = suc w.tick },
      )
  unfolding list_with list_stmt cut
  list_with-row f w r read =
      let texts : List ℕ × List ℕ = (env.time_text r.created_at, codes r.id) in
      bind-run (statement (list_stmt f (some texts))) (cut f.limit) env w _ _
        (statement-run (list_stmt f (some texts)) w ∙ rw (read.time_read, read.id_read, list_stmt))

-- The rows that are still to come: all, or those behind the row that the cursor was made of.
pub record After (env : Env) (sorted : List PaymentRow) (cursor : List ℕ) (rest : List PaymentRow)
    : Type 0 where
  pub done : List PaymentRow
  pub row : PaymentRow
  pub place : sorted ≡ done ++ row ∷ rest
  pub readable : Readable env row
  pub made : cursor ≡ encode_cursor (env.time_text row.created_at) (codes row.id)

abbrev pub Position : Env → List PaymentRow → List ℕ → List PaymentRow → Type 0
Position env sorted cursor rest = ((cursor ≡ []) × (rest ≡ sorted)) ⊎ After env sorted cursor rest

-- The rows of a listing, in its order.
abbrev pub listed : ListFilter → List PaymentRow → List PaymentRow
listed f rows = order_by newer (select (passes f) rows)

DistinctIds-select :
    (p : PaymentRow → Bool) (rows : List PaymentRow)
    → DistinctIds rows
    → DistinctIds (select p rows)
DistinctIds-select p [] h = tt
DistinctIds-select p (r ∷ rows) h = go (p r) (DistinctIds-select p rows h.1)
  where
    go :
        (b : Bool)
        → DistinctIds (select p rows)
        → DistinctIds (if b then r ∷ select p rows else select p rows)
    go true k = (All-select (λ s. r.id ≢ s.id) p rows h.0, k)
    go false k = k

module _ (f : ListFilter) (rows : List PaymentRow) (distinct : DistinctIds rows) where
  listed-AllComparable : AllComparable newer (select (passes f) rows)
  listed-AllComparable =
      newer-AllComparable (select (passes f) rows) (DistinctIds-select (passes f) rows distinct)

  listed-Sorted : Sorted newer (listed f rows)
  listed-Sorted = order_by-Sorted newer-StrictOrder (select (passes f) rows) listed-AllComparable

  pub page_rows-first : page_rows f none rows ≡ take (suc (page_limit f.limit)) (listed f rows)
  unfolding page_rows passes_cursor
  page_rows-first = refl

  pub page_rows-behind :
      (done : List PaymentRow) (r : PaymentRow) (rest : List PaymentRow)
      → listed f rows ≡ done ++ r ∷ rest
      → page_rows f (some (r.created_at, r.id)) rows ≡ take (suc (page_limit f.limit)) rest
  unfolding page_rows passes_cursor newer
  page_rows-behind done r rest place = ap (take (suc (page_limit f.limit))) (
      ap (order_by newer) (select-select (newer r) (passes f) rows)
      ∙ order_by-select newer-StrictOrder (newer r) (select (passes f) rows) listed-AllComparable
      ∙ ap (select (newer r)) place
      ∙ select-behind newer-StrictOrder done r rest (subst (Sorted newer) place listed-Sorted))
