-- ===== src/Store/Create/PutIfAbsent.antt =====
-- store.go, CreateOrGetPayment against a map from idempotency keys to rows: put if absent.
use chain_route.Prelude.{
  ℕ, suc, String, Bool, ◌&&◌, true, false, Option, none, some, List, [], ◌∷◌, ◌++◌, ◌≡◌, refl, sym,
  ap, ◌∙◌, arith, inl, inr, ◌==◌, eq_iff, Option-cases, Bool-cases, if◌then◌else◌,
}
use chain_route.Payment.{Payment, CreateResult, created, replayed, conflict, Status, mode_eq}
use chain_route.Db.{Db, PaymentRow}
use chain_route.Db.Table.{find, exists, find-append_new}
use chain_route.World.{Env, World, Error, Result, ok, err, fine, monad}
use chain_route.Store.Payments.{to_payment, hops_for_payment, hops_stmt}
use chain_route.Store.Create.{
  create_or_get_payment, find_by_idempotency_key, insert_payment, replay, settle, request_matches,
  insert_hops, find_key_stmt, insert_payment_stmt, new_row, idempotency_key_of,
}
use chain_route.Store.Create.Outcomes.{has_key, has_id, insert_payment-cases}
use chain_route.World.Answers.{Result-cases}
use chain_route.Store.Quotes.{insert_payment_quotes}
use chain_route.Worker.Checked.{Quiet}

-- The map that the table is.
abbrev pub keyed : Db → String → Option PaymentRow
keyed d k = find idempotency_key_of k d.payments

-- The row asks for what the request asks for.
abbrev pub asks_same : Env → Payment → PaymentRow → Bool
asks_same env p row =
    row.source_chain == p.source_chain
    && (row.destination_chain == p.destination_chain
        && (row.asset == p.asset
            && (env.numeric_eq row.amount p.amount && mode_eq row.execution_mode p.execution_mode)))

-- A new row for a request.
pub record Requested (env : Env) (p : Payment) (row : PaymentRow) : Type 0 where
  pub key : row.idempotency_key ≡ p.idempotency_key
  pub source : row.source_chain ≡ p.source_chain
  pub destination : row.destination_chain ≡ p.destination_chain
  pub asset : row.asset ≡ p.asset
  pub amount : env.numeric_text p.amount ≡ some row.amount
  pub mode : row.execution_mode ≡ p.execution_mode
  pub status : row.status ≡ Status.routed
  pub provider : row.bridge_provider ≡ p.bridge_provider
  pub fee : row.total_fee ≡ p.total_fee

-- Why a new row is refused: its amount, its chains, its id, its hops or its quotes.
pub data Refusal (env : Env) (p : Payment) (n : ℕ) (d : Db) : Type 0 where
  bad_amount : env.numeric_text p.amount ≡ none → Refusal env p n d
  same_chains : p.source_chain ≡ p.destination_chain → Refusal env p n d
  id_taken : has_id (env.new_id n) d ≡ true → Refusal env p n d
  bad_hops : (e : Error) → insert_hops (env.new_id n) p.hops d.hops ≡ err e → Refusal env p n d
  bad_quotes :
      (e : Error)
      → insert_payment_quotes env (env.new_id n) (env.clock n) p.quotes d.quotes ≡ err e
      → Refusal env p n d

insert-Refusal :
    (p : Payment) (env : Env) (n : ℕ) (d : Db) (e : Error)
    → insert_payment_stmt p env n d ≡ (err e, d)
    → Refusal env p n d
unfolding insert_payment_stmt
insert-Refusal p env n d e h = elim (Option-cases (env.numeric_text p.amount)) [
  | inl bad ↦ bad_amount bad
  | inr (amount, good) ↦ elim (Bool-cases (p.source_chain == p.destination_chain)) [
    | inl same ↦ same_chains ((eq_iff p.source_chain p.destination_chain).0 same)
    | inr differ ↦ elim (Bool-cases (has_id (env.new_id n) d)) [
      | inl clash ↦ id_taken clash
      | inr id_free ↦ elim (Result-cases (insert_hops (env.new_id n) p.hops d.hops)) [
        | inl (x, no_hops) ↦ bad_hops x no_hops
        | inr (hs, hops_in) ↦
            elim (Result-cases
              (insert_payment_quotes env (env.new_id n) (env.clock n) p.quotes d.quotes)) [
                | inl (x, no_quotes) ↦ bad_quotes x no_quotes
                | inr (qs, quotes_in) ↦
                    absurd (ground (arith, h, Bool-cases (has_key p.idempotency_key d)))
              ]
      ]
    ]
  ]
]

-- The operation on the map, with its result; the transaction takes the tick `n`.
pub data PutIfAbsent (env : Env) (p : Payment) (n : ℕ) (d d' : Db) (r : Result CreateResult)
    : Type 0 where
  present :
      (row : PaymentRow)
      → keyed d p.idempotency_key ≡ some row
      → d' ≡ d
      → r
        ≡ ok (
            if asks_same env p row
            then replayed (to_payment row (hops_for_payment row.id d))
            else conflict)
      → PutIfAbsent env p n d d' r
  put :
      (row : PaymentRow)
      → keyed d p.idempotency_key ≡ none
      → Requested env p row
      → ((k : String) → keyed d' k ≡ (if p.idempotency_key == k then some row else keyed d k))
      → r ≡ ok (created (to_payment row p.hops))
      → PutIfAbsent env p n d d' r
  refused :
      (e : Error)
      → keyed d p.idempotency_key ≡ none
      → Refusal env p n d
      → d' ≡ d
      → r ≡ err e
      → PutIfAbsent env p n d d' r

absent-exists :
    (k : String) (rows : List PaymentRow)
    → find idempotency_key_of k rows ≡ none
    → exists (λ (r : PaymentRow). r.idempotency_key == k) rows ≡ false
unfolding find
absent-exists k [] h = refl
absent-exists k (r ∷ rows) h = ground (arith, absent-exists k rows)

keyed-append :
    (k j : String) (rows : List PaymentRow) (row : PaymentRow)
    → row.idempotency_key ≡ k
    → find idempotency_key_of k rows ≡ none
    → find idempotency_key_of j (rows ++ row ∷ [])
      ≡ (if k == j then some row else find idempotency_key_of j rows)
keyed-append k j rows row same absent = elim (Bool-cases (k == j)) [
  | inl e ↦ ground (
    arith,
    same,
    e,
    find-append_new idempotency_key_of j rows row,
    ap (λ (x : String). find idempotency_key_of x rows) (sym ((eq_iff k j).0 e)) ∙ absent,
  )
  | inr e ↦ ground (
    arith,
    same,
    e,
    find-append_new idempotency_key_of j rows row,
    Option-cases (find idempotency_key_of j rows),
  )
]

-- With a database that answers and nobody else writing, CreateOrGetPayment is put-if-absent on the map
-- from idempotency keys to rows: a row under the key stays, and is replayed with its stored hops or
-- answered as a conflict; without one, either a row with the request's data is put under this key
-- alone, or an error changes nothing, and then the amount is refused, the chains are the same, the new
-- id is taken, or a hop or a quote is refused.
pub create_or_get_payment-PutIfAbsent :
    (p : Payment) (env : Env) (w : World)
    → Quiet env
    → ((n : ℕ) → env.fault n ≡ fine)
    → PutIfAbsent env p
        (suc w.tick)
        w.db
        (create_or_get_payment p env w).1.db
        (create_or_get_payment p env w).0
unfolding create_or_get_payment find_by_idempotency_key find_key_stmt insert_payment replay settle
    request_matches hops_stmt monad
create_or_get_payment-PutIfAbsent p env w quiet answers =
    let first = quiet.still w.tick w.db in
    let second = quiet.still (suc w.tick) w.db in
    let a = answers w.tick in
    let b = answers (suc w.tick) in
    elim (Option-cases (keyed w.db p.idempotency_key)) [
      | inr (row, found) ↦ elim (Bool-cases (asks_same env p row)) [
        | inl same ↦
            present row found (ground (arith, first, second, a, b, found, same))
              (ground (arith, first, second, a, b, found, same))
        | inr other ↦
            present row found (ground (arith, first, a, found, other))
              (ground (arith, first, a, found, other))
      ]
      | inl absent ↦ elim (insert_payment-cases p env (suc w.tick) w.db) [
        | inl (e, failed) ↦
            refused e absent (insert-Refusal p env (suc w.tick) w.db e failed)
              (ground (arith, first, second, a, b, absent, failed))
              (ground (arith, first, second, a, b, absent, failed))
        | inr (inl (_, taken)) ↦
            absurd (ground (arith, taken, absent-exists p.idempotency_key w.db.payments absent))
        | inr (inr x) ↦
            let row = new_row p (env.new_id (suc w.tick)) x.amount (env.clock (suc w.tick)) in
            put row absent
              (record {
                key = refl;
                source = refl;
                destination = refl;
                asset = refl;
                amount = x.amount_valid;
                mode = refl;
                status = refl;
                provider = refl;
                fee = refl;
              })
              (λ k. ground (
                arith,
                first,
                second,
                a,
                b,
                absent,
                x.result,
                keyed-append p.idempotency_key k w.db.payments row refl absent,
              ))
              (ground (arith, first, second, a, b, absent, x.result))
      ]
    ]
