-- ===== src/Store/Listing/Complete.antt =====
-- store.go, ListPayments: no payment is lost and none is given twice between two pages.
use chain_route.Prelude.{
  ℕ, zero, suc, ◌-◌, ◌<◌, Bool, some, List, [], ◌∷◌, ◌++◌, map, ◌≡◌, refl, sym, ap, ◌∙◌, subst, ◌⊎◌,
  inl, inr, arith, length, take, select, All, length-append,
}
use mathlib.Core.List.{append_assoc}
use chain_route.Payment.{Payment, ListFilter}
use chain_route.Payment.Cursor.{encode_cursor, decode_cursor}
use chain_route.Payment.Cursor.RoundTrip.{decode_cursor-encode_cursor}
use chain_route.Execution.{codes}
use chain_route.Db.{PaymentRow}
use chain_route.Db.Table.{insert_by, order_by}
use chain_route.Db.Table.Sorted.{All-order_by, All-select}
use chain_route.World.{Env, World, Fault, ok, M, pure, ◌>>=◌}
use chain_route.Worker.Checked.{Quiet}
use chain_route.Store.Listing.{
  passes, newer, page_limit, scanned, cut_page, list_with, list_payments,
}
use chain_route.Store.Listing.Order.{DistinctIds}
use chain_route.Store.Listing.Cut.{Split, Fits, Split-or-Fits, map-append}
use chain_route.Store.Listing.Pages.{
  more, all_pages, Readable, bind-run, bind-pure, list_with-first, list_with-row, After, Position,
  listed, page_rows-first, page_rows-behind,
}

page_limit-suc : (n : ℕ) → (m : ℕ) × (page_limit n ≡ suc m)
unfolding page_limit
page_limit-suc zero = (24, refl)
page_limit-suc (suc n) = (n, refl)

cut_page-Fits :
    (env : Env) (n : ℕ) (rows : List PaymentRow)
    → Fits scanned n rows
    → cut_page env (suc n) (map scanned (take (suc (suc n)) rows)) ≡ (map scanned rows, [])
unfolding cut_page
cut_page-Fits env n rows s = rw (s.all, s.short)

cut_page-Split :
    (env : Env) (n : ℕ) (rows : List PaymentRow) (s : Split scanned n rows)
    → cut_page env (suc n) (map scanned (take (suc (suc n)) rows)) ≡ (
      map scanned (s.front ++ s.row ∷ []),
      encode_cursor (env.time_text s.row.created_at) (codes s.row.id),
    )
unfolding cut_page scanned
cut_page-Split env n rows s =
    let index : suc n - 1 ≡ n = omega arith in rw (s.long, s.page, index, s.elem)

-- A cursor that is decoded is not empty.
list_payments-decoded :
    (f : ListFilter) (texts : List ℕ × List ℕ)
    → decode_cursor f.cursor ≡ some texts
    → list_payments f ≡ list_with f (some texts)
unfolding list_payments decode_cursor
list_payments-decoded f texts h = go f.cursor h
  where
    go :
        (c : List ℕ)
        → decode_cursor c ≡ some texts
        → list_payments (record f { cursor = c }) ≡ list_with (record f { cursor = c }) (some texts)
    go [] k = absurd (ground arith)
    go (x ∷ xs) k = rw k

more-decoded :
    (next : ListFilter → M (List Payment)) (f : ListFilter) (page : List Payment) (c : List ℕ)
    (texts : List ℕ × List ℕ)
    → decode_cursor c ≡ some texts
    → more next f (page, c) ≡ (next (record f { cursor = c }) >>= λ others. pure (page ++ others))
unfolding decode_cursor
more-decoded next f page [] texts h = absurd (ground arith)
more-decoded next f page (x ∷ xs) texts h = refl

decode-Readable :
    (env : Env) (r : PaymentRow)
    → Readable env r
    → decode_cursor (encode_cursor (env.time_text r.created_at) (codes r.id))
      ≡ some (env.time_text r.created_at, codes r.id)
decode-Readable env r read =
    decode_cursor-encode_cursor (env.time_text r.created_at) (codes r.id) read.time_bytes
      read.id_bytes read.no_comma

-- A full page leaves the position behind its last row.
Split-behind :
    (env : Env) (sorted rest : List PaymentRow) (c : List ℕ) (n : ℕ) (s : Split scanned n rest)
    → Position env sorted c rest
    → (done : List PaymentRow) × (sorted ≡ done ++ s.row ∷ s.rest)
Split-behind env sorted rest c n s (inl (_, e)) = (s.front, sym e ∙ s.whole)
Split-behind env sorted rest c n s (inr a) = (
  a.done ++ (a.row ∷ s.front),
  a.place
      ∙ ap (λ x. a.done ++ a.row ∷ x) s.whole
      ∙ sym (append_assoc a.done (a.row ∷ s.front) (s.row ∷ s.rest)),
)

Readable-behind :
    (env : Env) (done : List PaymentRow) (row : PaymentRow) (rest : List PaymentRow)
    → All (Readable env) (done ++ row ∷ rest)
    → Readable env row
Readable-behind env [] row rest h = h.0
Readable-behind env (d ∷ done) row rest h = Readable-behind env done row rest h.1

module _ (env : Env) (quiet : Quiet env) (fine : (n : ℕ) → env.fault n ≡ Fault.fine)
    (f : ListFilter) (rows : List PaymentRow) (distinct : DistinctIds rows) where
  abbrev page_of : List PaymentRow → List Payment × List ℕ
  page_of rest =
      cut_page env (page_limit f.limit) (map scanned (take (suc (page_limit f.limit)) rest))

  list_payments-Position :
      (c : List ℕ) (rest : List PaymentRow) (w : World)
      → w.db.payments ≡ rows
      → Position env (listed f rows) c rest
      → list_payments (record f { cursor = c }) env w
        ≡ (ok (page_of rest), record w { tick = suc w.tick })
  unfolding list_payments
  list_payments-Position c rest w same (inl (empty, e)) =
      rw (empty, e)
        (list_with-first env quiet fine (record f { cursor = [] }) w
          ∙ rw (same, page_rows-first (record f { cursor = [] }) rows distinct))
  list_payments-Position c rest w same (inr a) =
      let decoded = ap decode_cursor a.made ∙ decode-Readable env a.row a.readable in
      ap (λ m. m env w) (list_payments-decoded (record f { cursor = c }) _ decoded)
      ∙ list_with-row env quiet fine (record f { cursor = c }) w a.row a.readable
      ∙ rw
          (same, page_rows-behind (record f { cursor = c }) rows distinct a.done a.row rest a.place)

  length-rest :
      (n : ℕ) (rest : List PaymentRow) (s : Split scanned n rest) → length s.rest < length rest
  length-rest n rest s =
      let sum = length-append s.front (s.row ∷ s.rest) in omega (arith, ap length s.whole, sum)

  -- What a caller gets that goes on at any position.
  abbrev Served : ℕ → (ListFilter → M (List Payment)) → Type 0
  Served fuel next =
      (c : List ℕ) (rest : List PaymentRow) (w : World)
      → w.db.payments ≡ rows
      → length rest < fuel
      → Position env (listed f rows) c rest
      → (next (record f { cursor = c }) env w).0 ≡ ok (map scanned rest)

  more-Split :
      (fuel : ℕ) (next : ListFilter → M (List Payment)) (c : List ℕ) (rest : List PaymentRow)
      (w : World) (n : ℕ) (s : Split scanned n rest)
      → Served fuel next
      → All (Readable env) (listed f rows)
      → w.db.payments ≡ rows
      → length rest < suc fuel
      → Position env (listed f rows) c rest
      → (more next
          (record f { cursor = c })
          (cut_page env (suc n) (map scanned (take (suc (suc n)) rest)))
          env
          w).0
        ≡ ok (map scanned rest)
  more-Split fuel next c rest w n s served read same enough place =
      let (done, whole) = Split-behind env (listed f rows) rest c n s place in
      let readable =
        Readable-behind env done s.row s.rest (subst (All (Readable env)) whole read) in
      let behind : After env (listed f rows) _ s.rest = record {
        done = done;
        row = s.row;
        place = whole;
        readable = readable;
        made = refl;
      } in
      let shorter = length-rest n rest s in
      let later = served _ s.rest w same (omega (arith, shorter, enough)) (inr behind) in
      rw (cut_page-Split env n rest s) (
        ap (λ m. (m env w).0)
          (more-decoded next (record f { cursor = c }) _ _ _ (decode-Readable env s.row readable))
        ∙ bind-pure _ (λ others. map scanned (s.front ++ s.row ∷ []) ++ others) env w _ later
        ∙ ap ok (
            sym (map-append scanned (s.front ++ s.row ∷ []) s.rest)
            ∙ ap (map scanned) (append_assoc s.front (s.row ∷ []) s.rest ∙ sym s.whole)))

  all_pages-Served : (fuel : ℕ) → All (Readable env) (listed f rows) → Served fuel (all_pages fuel)
  unfolding all_pages pure
  all_pages-Served zero read c rest w same enough place = absurd (omega (arith, enough))
  all_pages-Served (suc fuel) read c rest w same enough place =
      let (n, limit) = page_limit-suc f.limit in
      ap (λ x. x.0)
        (bind-run (list_payments (record f { cursor = c }))
          (more (all_pages fuel) (record f { cursor = c })) env w (record w { tick = suc w.tick }) _
          (list_payments-Position c rest w same place))
      ∙ rw limit (after (all_pages-Served fuel read) n (Split-or-Fits scanned n rest))
    where
      after :
          Served fuel (all_pages fuel)
          → (n : ℕ) → Fits scanned n rest ⊎ Split scanned n rest
          → (more
              (all_pages fuel)
              (record f { cursor = c })
              (cut_page env (suc n) (map scanned (take (suc (suc n)) rest)))
              env
              (record w { tick = suc w.tick })).0
            ≡ ok (map scanned rest)
      after served n (inl s) = rw (cut_page-Fits env n rest s)
      after served n (inr s) =
          more-Split fuel (all_pages fuel) c rest _ n s served read same enough place

length-insert_by :
    (x : PaymentRow) (xs : List PaymentRow) → length (insert_by newer x xs) ≡ suc (length xs)
length-insert_by x [] = refl
length-insert_by x (y ∷ ys) = ground (arith, length-insert_by x ys)

length-order_by : (xs : List PaymentRow) → length (order_by newer xs) ≡ length xs
length-order_by [] = refl
length-order_by (x ∷ xs) = omega (arith, length-insert_by x (order_by newer xs), length-order_by xs)

length-select :
    (p : PaymentRow → Bool) (xs : List PaymentRow) → length (select p xs) < suc (length xs)
length-select p [] = omega arith
length-select p (x ∷ xs) = ground (arith, length-select p xs)

-- In an environment without faults and where no other actor writes, with rows whose ids are
-- distinct and whose times and ids survive the cursor: a caller that starts without a cursor and
-- asks for page behind page, more often than there are rows, gets every payment that passes the
-- filter, once, in the order of the listing, whatever the limit.
pub all_pages_complete :
    (env : Env) (f : ListFilter) (w : World) (fuel : ℕ)
    → Quiet env
    → ((n : ℕ) → env.fault n ≡ Fault.fine)
    → DistinctIds w.db.payments
    → All (Readable env) w.db.payments
    → length w.db.payments < fuel
    → (all_pages fuel (record f { cursor = [] }) env w).0
      ≡ ok (map scanned (order_by newer (select (passes f) w.db.payments)))
all_pages_complete env f w fuel quiet fine distinct read enough =
    let rows = w.db.payments in
    let kept = All-select (Readable env) (passes f) rows read in
    all_pages-Served env quiet fine f rows distinct fuel
      (All-order_by newer (Readable env) (select (passes f) rows) kept) [] (listed f rows) w refl
      (omega
        (arith, length-order_by (select (passes f) rows), length-select (passes f) rows, enough))
      (inl (refl, refl))
