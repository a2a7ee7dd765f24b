-- ===== src/Worker/Checked.antt =====
-- executor.go: what the steps before the allocation of a nonce spend, and the check of an envelope.
use chain_route.Prelude.{
  ℕ, String, true, Option, none, some, ◌≡◌, refl, arith, ◌⊎◌, inl, inr, Bool-cases, eqb, ◌==◌,
  eq_iff,
}
use chain_route.Prelude.Int.{ℤ, pos, negsuc}
use chain_route.Payment.{Quote}
use chain_route.Bridge.Quote.{Quote as LiveQuote, TxEnvelope}
use chain_route.Db.{Db}
use chain_route.World.{
  World, Env, Fault, fine, rejected, answer_lost, Result, ok, err, Statement, statement, answer,
  monad,
}
use chain_route.World.Rules.{Relation, Keeps, rules, Keeps-bind, Keeps-pure}
use chain_route.Store.Payments.{
  get_payment, get_payment_stmt, hops_stmt, mark_processing_failed, fail_stmt, transition,
}
use chain_route.Store.Quotes.{get_quote_by_payment_id, get_quote_stmt}
use chain_route.Worker.Executor.Checks.{
  Executor, is_pinned, same_amount, validate_envelope, build_validated_envelope,
}
use chain_route.Worker.Executor.{reject, fresh_terms}

pub record Quiet (env : Env) : Type 0 where
  pub still : (n : ℕ) (d : Db) → env.others n d ≡ d

-- No execution row, no nonce and no transaction.
pub record SpendsNothing (w w' : World) : Type 0 where
  pub executions : w'.db.executions ≡ w.db.executions
  pub wallet_nonces : w'.db.wallet_nonces ≡ w.db.wallet_nonces
  pub sent : w'.sent ≡ w.sent

pub SpendsNothing-relation : Relation SpendsNothing
SpendsNothing-relation = record {
  same = λ w. record { executions = refl; wallet_nonces = refl; sent = refl };
  follows = λ u v w h k. record {
    executions = ground (arith, h.executions, k.executions);
    wallet_nonces = ground (arith, h.wallet_nonces, k.wallet_nonces);
    sent = ground (arith, h.sent, k.sent);
  };
  recorded = λ w ms. record { executions = refl; wallet_nonces = refl; sent = refl };
  ticked = λ w n. record { executions = refl; wallet_nonces = refl; sent = refl };
}

-- A statement that writes neither table.
pub record Leaves {A : Type 0} (s : Statement A) : Type 0 where
  pub rows : (env : Env) (n : ℕ) (d : Db) → (s env n d).1.executions ≡ d.executions
  pub nonces : (env : Env) (n : ℕ) (d : Db) → (s env n d).1.wallet_nonces ≡ d.wallet_nonces

answer-cases :
    {A : Type 0} (x : Fault) (r : Result A × Db) (d : Db)
    → ((answer x r d).1 ≡ d) ⊎ ((answer x r d).1 ≡ r.1)
answer-cases fine (ok a, d') d = inr refl
answer-cases fine (err e, d') d = inl refl
answer-cases rejected r d = inl refl
answer-cases answer_lost (ok a, d') d = inr refl
answer-cases answer_lost (err e, d') d = inl refl

statement-SpendsNothing :
    {A : Type 0} (s : Statement A) → Leaves s → Keeps Quiet SpendsNothing (statement s)
unfolding statement
statement-SpendsNothing s h = record {
  at = λ env g w.
      let d = env.others w.tick w.db in
      elim (answer-cases (env.fault w.tick) (s env w.tick d) d) [
        | inl same ↦ record {
          executions = ground (arith, same, g.still w.tick w.db);
          wallet_nonces = ground (arith, same, g.still w.tick w.db);
          sent = refl;
        }
        | inr run ↦ record {
          executions = ground (arith, run, h.rows env w.tick d, g.still w.tick w.db);
          wallet_nonces = ground (arith, run, h.nonces env w.tick d, g.still w.tick w.db);
          sent = refl;
        }
      ];
}

mark_failed-SpendsNothing :
    (id reason : String) → Keeps Quiet SpendsNothing (mark_processing_failed id reason)
unfolding mark_processing_failed fail_stmt transition
mark_failed-SpendsNothing id reason =
    statement-SpendsNothing _ (record { rows = λ env n d. refl; nonces = λ env n d. refl })

pub reject-SpendsNothing :
    (label why id reason : String) → Keeps Quiet SpendsNothing (reject label why id reason)
unfolding reject
reject-SpendsNothing label why id reason =
    search (rules, SpendsNothing-relation, mark_failed-SpendsNothing) depth 12

get_payment-SpendsNothing : (id : String) → Keeps Quiet SpendsNothing (get_payment id)
unfolding get_payment get_payment_stmt hops_stmt
get_payment-SpendsNothing id =
    let o = SpendsNothing-relation in
    Keeps-bind o _ _
      (statement-SpendsNothing _ (record { rows = λ env n d. refl; nonces = λ env n d. refl }))
      (elim [
        | none ↦ Keeps-pure o none
        | some p ↦
            Keeps-bind o _ _
              (statement-SpendsNothing _
                (record { rows = λ env n d. refl; nonces = λ env n d. refl }))
              (λ hs. Keeps-pure o _)
      ])

pub fresh_terms-SpendsNothing :
    (e : Executor) (id : String) (q : Quote) → Keeps Quiet SpendsNothing (fresh_terms e id q)
unfolding fresh_terms
fresh_terms-SpendsNothing e id q =
    search (rules, SpendsNothing-relation, get_payment-SpendsNothing) depth 20

pub build_validated_envelope-SpendsNothing :
    (e : Executor) (q : Quote) (l : LiveQuote)
    → Keeps Quiet SpendsNothing (build_validated_envelope e q l)
unfolding build_validated_envelope validate_envelope
build_validated_envelope-SpendsNothing e q l = search (rules, SpendsNothing-relation) depth 30

-- The independent reading of validateEnvelope.
pub record Valid (e : Executor) (v : TxEnvelope) (q : Quote) (l : LiveQuote) : Type 0 where
  pub same_provider : l.provider_name ≡ q.provider
  pub on_origin : v.chain_id ≡ e.origin_chain_id
  pub pinned : e.expected_contract_by_provider q.provider ≡ some v.to
  pub amount : ℤ
  pub sends_amount : v.value ≡ some amount
  pub quotes_amount : l.input_amount_base_units ≡ some amount

same_amount-eq : (a b : Option ℤ) → same_amount a b ≡ true → (x : ℤ) × (a ≡ some x) × (b ≡ some x)
same_amount-eq (some (pos a)) (some (pos b)) h = (pos a, refl, ground arith)
same_amount-eq (some (pos a)) (some (negsuc b)) h = (pos a, refl, ground arith)
same_amount-eq (some (negsuc a)) (some (pos b)) h = (negsuc a, refl, ground arith)
same_amount-eq (some (negsuc a)) (some (negsuc b)) h = (negsuc a, refl, ground arith)
same_amount-eq none b h = ground arith
same_amount-eq (some a) none h = ground arith

is_pinned-eq : (o : Option String) (to : String) → is_pinned o to ≡ true → o ≡ some to
is_pinned-eq none to h = ground arith
is_pinned-eq (some c) to h = ground (arith, eq_iff to c)

-- An envelope that validateEnvelope accepts goes to the pinned contract of the quote's provider, on
-- the configured chain, with exactly the amount of the fresh quote.
pub validate_envelope-Valid :
    (e : Executor) (v : TxEnvelope) (q : Quote) (l : LiveQuote) (env : Env) (w : World)
    → (validate_envelope e v q l env w).0 ≡ ok tt
    → Valid e v q l
unfolding validate_envelope monad
validate_envelope-Valid e v q l env w h =
    let pinned = is_pinned (e.expected_contract_by_provider q.provider) v.to in
    elim (Bool-cases (l.provider_name == q.provider)) [
      | inr bad ↦ ground arith
      | inl p ↦ elim (Bool-cases (eqb v.chain_id e.origin_chain_id)) [
        | inr bad ↦ ground arith
        | inl c ↦ elim (Bool-cases pinned) [
          | inr bad ↦ ground arith
          | inl to ↦ elim (Bool-cases (same_amount v.value l.input_amount_base_units)) [
            | inr bad ↦ ground arith
            | inl amounts ↦
                let (x, sends, quotes) = same_amount-eq v.value l.input_amount_base_units amounts in
                record {
                  same_provider = ground (arith, eq_iff l.provider_name q.provider);
                  on_origin = ground arith;
                  pinned = is_pinned-eq _ _ to;
                  amount = x;
                  sends_amount = sends;
                  quotes_amount = quotes;
                }
          ]
        ]
      ]
    ]

pub get_quote-SpendsNothing : (id : String) → Keeps Quiet SpendsNothing (get_quote_by_payment_id id)
unfolding get_quote_by_payment_id get_quote_stmt
get_quote-SpendsNothing id =
    statement-SpendsNothing _ (record { rows = λ env n d. refl; nonces = λ env n d. refl })
