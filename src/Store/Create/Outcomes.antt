-- ===== src/Store/Create/Outcomes.antt =====
-- The outcomes of the transaction that saves a payment: an error, a key that is taken, or all of the
-- rows at once.
use chain_route.Prelude.{
  ℕ, String, Bool, true, false, Option, none, some, List, [], ◌∷◌, ◌++◌, ◌≡◌, ◌⊎◌, inl, inr, ◌==◌,
  Option-cases, Bool-cases, arith,
}
use chain_route.Payment.{Payment, Quote}
use chain_route.Db.{Db, PaymentRow, HopRow}
use chain_route.Db.Table.{exists}
use chain_route.World.{Error, Env, Result, ok, err, unique_violation, check_violation}
use chain_route.World.Answers.{Result-cases}
use chain_route.Store.Create.{
  new_row, insert_hops, created_payment, new_outbox_row, insert_payment_stmt,
}
use chain_route.Store.Quotes.{insert_payment_quotes}

-- What is stored at once.
abbrev pub with_payment : Payment → Env → ℕ → List ℕ → List HopRow → List Quote → Db → Db
with_payment p env n amount hs qs d = record d {
  payments = d.payments ++ new_row p (env.new_id n) amount (env.clock n) ∷ [];
  hops = hs;
  quotes = qs;
  outbox = d.outbox ++ new_outbox_row env n (env.new_id n) (env.clock n) ∷ [];
}

abbrev pub has_key : String → Db → Bool
has_key k d = exists (λ (r : PaymentRow). r.idempotency_key == k) d.payments

abbrev pub has_id : String → Db → Bool
has_id k d = exists (λ (r : PaymentRow). r.id == k) d.payments

-- The transaction went through.
pub record Inserts (p : Payment) (env : Env) (n : ℕ) (d : Db) (r : Result (Option Payment) × Db)
    : Type 0 where
  pub amount : List ℕ
  pub hs : List HopRow
  pub qs : List Quote
  pub amount_valid : env.numeric_text p.amount ≡ some amount
  pub key_free : has_key p.idempotency_key d ≡ false
  pub id_free : has_id (env.new_id n) d ≡ false
  pub hops_in : insert_hops (env.new_id n) p.hops d.hops ≡ ok hs
  pub quotes_in : insert_payment_quotes env (env.new_id n) (env.clock n) p.quotes d.quotes ≡ ok qs
  pub result : r ≡ (
    ok (some (created_payment p (env.new_id n) amount (env.clock n))),
    with_payment p env n amount hs qs d,
  )

abbrev pub Fails : (d : Db) → Result (Option Payment) × Db → Type 0
Fails d r = (e : Error) × (r ≡ (err e, d))

pub insert_payment-cases :
    (p : Payment) (env : Env) (n : ℕ) (d : Db)
    → Fails d (insert_payment_stmt p env n d)
      ⊎ ((insert_payment_stmt p env n d ≡ (ok none, d)) × (has_key p.idempotency_key d ≡ true))
      ⊎ Inserts p env n d (insert_payment_stmt p env n d)
unfolding insert_payment_stmt
insert_payment-cases p env n d = elim (Option-cases (env.numeric_text p.amount)) [
  | inl bad ↦ inl (check_violation, ground arith)
  | inr (amount, good) ↦ elim (Bool-cases (p.source_chain == p.destination_chain)) [
    | inl same ↦ inl (check_violation, ground arith)
    | inr differ ↦ elim (Bool-cases (has_key p.idempotency_key d)) [
      | inl taken ↦ inr (inl (ground arith, taken))
      | inr key_free ↦ elim (Bool-cases (has_id (env.new_id n) d)) [
        | inl clash ↦ inl (unique_violation, ground arith)
        | inr id_free ↦ elim (Result-cases (insert_hops (env.new_id n) p.hops d.hops)) [
          | inl (e, no_hops) ↦ inl (e, ground arith)
          | inr (hs, hops_in) ↦
              elim (Result-cases
                (insert_payment_quotes env (env.new_id n) (env.clock n) p.quotes d.quotes)) [
                  | inl (e, no_quotes) ↦ inl (e, ground arith)
                  | inr (qs, quotes_in) ↦ inr (
                      inr (record {
                        amount = amount;
                        hs = hs;
                        qs = qs;
                        amount_valid = good;
                        key_free = key_free;
                        id_free = id_free;
                        hops_in = hops_in;
                        quotes_in = quotes_in;
                        result = ground arith;
                      }))
                ]
        ]
      ]
    ]
  ]
]
