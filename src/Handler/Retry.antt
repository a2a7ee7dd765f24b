-- ===== src/Handler/Retry.antt =====
-- handler/payments.go: PostPayments under an idempotency key that has been used.
use chain_route.Prelude.{ℕ, suc, some, ◌≡◌, sym, subst, inl, inr, arith, Bool-cases, if◌then◌else◌}
use chain_route.Payment.{Payment}
use chain_route.Db.{Db, PaymentRow}
use chain_route.World.{World, Env, fine, ok, monad}
use chain_route.Store.Payments.{to_payment, hops_stmt, hops_for_payment}
use chain_route.Store.Create.{
  insert_payment_stmt, find_key_stmt, request_matches, find_by_idempotency_key, replay,
  lookup_by_idempotency_key,
}
use chain_route.Store.Create.Retry.{same_request, insert-find_key}
use chain_route.Handler.Routing.{Handler}
use chain_route.Handler.Response.{
  Response, write_replayed, write_error, conflict_message, write_existing,
}
use chain_route.Handler.Request.{ValidRequest}
use chain_route.Handler.Create.{lookup_candidate, post_valid, post_looked_up}

-- The answer to a retry, for the row that is stored.
abbrev pub retried : Handler → Env → Payment → Payment → ValidRequest → PaymentRow → Db → Response
retried h env p stored v row d =
    if same_request env p stored (lookup_candidate v)
    then write_replayed h.runtime (to_payment row (hops_for_payment row.id d))
    else write_error 409 conflict_message

-- A valid request under an idempotency key that a stored payment has, with a database that answers
-- and where no other actor writes meanwhile, changes nothing in the database and is answered 200 with
-- the stored payment if it asks for the same, and 409 otherwise. This holds for every handler, so
-- whatever the routing service and the quote providers would answer.
pub post_valid-retry :
    (h : Handler) (v : ValidRequest) (p : Payment) (env env' : Env) (n : ℕ) (w : World) (d : Db)
    (q : Payment)
    → ((k : ℕ) (x : Db) → env'.others k x ≡ x)
    → ((k : ℕ) → env'.fault k ≡ fine)
    → v.idempotency_key ≡ p.idempotency_key
    → (insert_payment_stmt p env n d).0 ≡ ok (some q)
    → w.db ≡ (insert_payment_stmt p env n d).1
    → (row : PaymentRow) × (row.id ≡ q.id)
      × ((post_valid h v env' w).0 ≡ ok (retried h env' p q v row w.db))
      × ((post_valid h v env' w).1.db ≡ w.db)
unfolding post_valid post_looked_up write_existing lookup_by_idempotency_key find_by_idempotency_key
    replay hops_stmt monad
post_valid-retry h v p env env' n w d q still answers same inserted stored =
    let c = lookup_candidate v in
    let (row, id, agrees, found) = insert-find_key p c env env' n w.tick d q same inserted in
    let here : find_key_stmt c env' w.tick w.db
        ≡ (ok (some (row, request_matches env'.numeric_eq c row)), w.db) =
      subst
        (λ x.
          find_key_stmt c env' w.tick x
          ≡ (ok (some (row, request_matches env'.numeric_eq c row)), x))
        (sym stored) found in
    elim (Bool-cases (request_matches env'.numeric_eq c row)) [
      | inl matches ↦ (
        row,
        id,
        ground (
          arith,
          still w.tick w.db,
          still (suc w.tick) w.db,
          answers w.tick,
          answers (suc w.tick),
          here,
        ),
        ground (
          arith,
          still w.tick w.db,
          still (suc w.tick) w.db,
          answers w.tick,
          answers (suc w.tick),
          here,
        ),
      )
      | inr differs ↦ (
        row,
        id,
        ground (arith, still w.tick w.db, answers w.tick, here),
        ground (arith, still w.tick w.db, answers w.tick, here),
      )
    ]
