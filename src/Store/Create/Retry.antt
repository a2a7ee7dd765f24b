-- ===== src/Store/Create/Retry.antt =====
-- store.go: requests that come again under an idempotency key.
use chain_route.Prelude.{
  ℕ, String, Bool, ◌&&◌, false, none, some, List, [], ◌∷◌, ◌≡◌, refl, arith, inl, inr, ap, ◌==◌,
  eq_refl,
}
use chain_route.Payment.{Payment, replayed, conflict, mode_eq}
use chain_route.Db.{Db, PaymentRow}
use chain_route.Db.Table.{find, exists, find-append_new}
use chain_route.World.{World, fine, monad, Env, ok}
use chain_route.Prelude.{suc, subst, sym, Bool-cases, inl, inr, if◌then◌else◌}
use chain_route.Store.Create.{
  create_or_get_payment, find_by_idempotency_key, replay, idempotency_key_of, request_matches,
  find_key_stmt, insert_payment_stmt, new_row, created_payment,
}
use chain_route.Store.Payments.{to_payment, hops_for_payment, hops_stmt}
use chain_route.Store.Create.Outcomes.{insert_payment-cases}

free-find :
    (k : String) (rows : List PaymentRow)
    → exists (λ (r : PaymentRow). r.idempotency_key == k) rows ≡ false
    → find idempotency_key_of k rows ≡ none
unfolding find
free-find k [] h = refl
free-find k (r ∷ rows) h = ground (arith, free-find k rows)

-- The two requests ask for the same: the amount of the first as it was stored, since only Postgres
-- can compare it.
abbrev pub same_request : Env → Payment → Payment → Payment → Bool
same_request env p stored p' =
    p.source_chain == p'.source_chain
    && (p.destination_chain == p'.destination_chain
        && (p.asset == p'.asset
            && (env.numeric_eq stored.amount p'.amount
                && mode_eq p.execution_mode p'.execution_mode)))

-- The row that a request has left, with the amount as it was stored.
abbrev pub stored_row : Payment → Env → ℕ → Payment → PaymentRow
stored_row p env n q = new_row p q.id q.amount (env.clock n)

-- The row is found, and how it compares is what the two requests and the stored amount say.
insert-find_row :
    (p p' : Payment) (env env' : Env) (n n' : ℕ) (d : Db) (q : Payment)
    → p'.idempotency_key ≡ p.idempotency_key
    → (insert_payment_stmt p env n d).0 ≡ ok (some q)
    → find_key_stmt p' env' n' (insert_payment_stmt p env n d).1 ≡ (
      ok (some (stored_row p env n q, request_matches env'.numeric_eq p' (stored_row p env n q))),
      (insert_payment_stmt p env n d).1,
    )
unfolding find_key_stmt to_payment
insert-find_row p p' env env' n n' d q same h = elim (insert_payment-cases p env n d) [
  | inl (e, failed) ↦ ground arith
  | inr (inl (lost, _)) ↦ ground arith
  | inr (inr x) ↦
      let row = new_row p (env.new_id n) x.amount (env.clock n) in
      let given : created_payment p (env.new_id n) x.amount (env.clock n) ≡ q =
        ground (arith, x.result) in
      let made : row ≡ stored_row p env n q = ap (stored_row p env n) given in
      subst
        (λ r. find_key_stmt p' env' n' (insert_payment_stmt p env n d).1 ≡ (
          ok (some (r, request_matches env'.numeric_eq p' r)),
          (insert_payment_stmt p env n d).1,
        ))
        made
        (ground (
          arith,
          x.result,
          x.key_free,
          free-find p.idempotency_key d.payments,
          find-append_new idempotency_key_of p.idempotency_key d.payments row,
          eq_refl p.idempotency_key,
          ap (λ (k : String). find idempotency_key_of k (insert_payment_stmt p env n d).1.payments)
              same,
        ))
]

matches-same_request :
    (p p' q : Payment) (env env' : Env) (n : ℕ)
    → request_matches env'.numeric_eq p' (stored_row p env n q) ≡ same_request env' p q p'
unfolding request_matches
matches-same_request p p' q env env' n = refl

-- After a request has been inserted, any request under the same idempotency key finds its row, and it
-- matches the row exactly if its chains, asset, execution mode and amount are the same, the amounts as NUMERIC.
pub insert-find_key :
    (p p' : Payment) (env env' : Env) (n n' : ℕ) (d : Db) (q : Payment)
    → p'.idempotency_key ≡ p.idempotency_key
    → (insert_payment_stmt p env n d).0 ≡ ok (some q)
    → (row : PaymentRow) × (row.id ≡ q.id)
      × (request_matches env'.numeric_eq p' row ≡ same_request env' p q p')
      × (find_key_stmt p' env' n' (insert_payment_stmt p env n d).1 ≡ (
        ok (some (row, request_matches env'.numeric_eq p' row)),
        (insert_payment_stmt p env n d).1,
      ))
insert-find_key p p' env env' n n' d q same h = (
  stored_row p env n q,
  refl,
  matches-same_request p p' q env env' n,
  insert-find_row p p' env env' n n' d q same h,
)

-- CreateOrGetPayment under a key whose row has been inserted, with a database that answers and where
-- no other actor writes meanwhile, changes nothing. If chains, asset, execution mode and the stored
-- amount, as NUMERIC, are the same, it replays the payment as it was stored, under its id and with
-- its stored hops; otherwise it is a conflict.
pub create_or_get_payment-insert :
    (p p' : Payment) (env env' : Env) (n : ℕ) (w : World) (d : Db) (q : Payment)
    → ((k : ℕ) (x : Db) → env'.others k x ≡ x)
    → ((k : ℕ) → env'.fault k ≡ fine)
    → p'.idempotency_key ≡ p.idempotency_key
    → (insert_payment_stmt p env n d).0 ≡ ok (some q)
    → w.db ≡ (insert_payment_stmt p env n d).1
    → ((create_or_get_payment p' env' w).0
        ≡ ok (
            if same_request env' p q p'
            then replayed (to_payment (stored_row p env n q) (hops_for_payment q.id w.db))
            else conflict))
      × ((create_or_get_payment p' env' w).1.db ≡ w.db)
unfolding create_or_get_payment find_by_idempotency_key replay hops_stmt monad
create_or_get_payment-insert p p' env env' n w d q still answers same h stored =
    let row = stored_row p env n q in
    let matching = matches-same_request p p' q env env' n in
    let here : find_key_stmt p' env' w.tick w.db
        ≡ (ok (some (row, request_matches env'.numeric_eq p' row)), w.db) =
      subst
        (λ x.
          find_key_stmt p' env' w.tick x
          ≡ (ok (some (row, request_matches env'.numeric_eq p' row)), x))
        (sym stored) (insert-find_row p p' env env' n w.tick d q same h) in
    let first = still w.tick w.db in
    let second = still (suc w.tick) w.db in
    elim (Bool-cases (same_request env' p q p')) [
      | inl match ↦ (
        ground (arith, matching, first, second, answers w.tick, answers (suc w.tick), here),
        ground (arith, matching, first, second, answers w.tick, answers (suc w.tick), here),
      )
      | inr differ ↦ (
        ground (arith, matching, first, answers w.tick, here),
        ground (arith, matching, first, answers w.tick, here),
      )
    ]
