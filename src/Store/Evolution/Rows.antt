-- ===== src/Store/Evolution/Rows.antt =====
-- The statements that insert rows, or write an execution's row, against the evolution of the database.
use chain_route.Prelude.{
  ℕ, ◌≤◌, String, Option, none, some, List, [], ◌∷◌, ◌++◌, ◌≡◌, refl, arith, ◌==◌, if◌then◌else◌,
  Option-cases, Bool-cases, ◌⊎◌, inl, inr, ap, ◌∙◌,
}
use chain_route.Payment.{Time, Execution, Payment}
use chain_route.Payment
use chain_route.Db.{Db, PaymentRow, NonceRow}
use chain_route.Db.Table.{exists, find, modify, find-modify, find-modify_other, find-append_new}
use chain_route.World.{wallet_not_seeded, Env, err, committed}
use chain_route.Store.Payments.{payment_key}
use chain_route.Store.Executions.{
  execution_key, execution_payment, wallet_key, bump_nonce, new_execution, CreateExecutionParams,
  signed_row, broadcast_row, outcome_row, persist_stmt, broadcast_stmt, outcome_stmt,
  update_execution, seed_stmt, try_create_stmt, insert_execution, unless_lost, has_nonce,
  is_of_payment,
}
use chain_route.Store.Create.{insert_payment_stmt}
use chain_route.Store.Create.Outcomes.{insert_payment-cases}
use chain_route.Store.Evolution.{
  ExecutionLe, Evolves, Evolves-refl, PaymentLe-refl, ExecutionLe-refl,
}
use chain_route.Store.Evolution.Statements.{Advances}

update_execution-Evolves :
    (id : String) (f : Execution → Execution) (d : Db)
    → ((e : Execution) → ExecutionLe e (f e))
    → Evolves d (update_execution id f d)
unfolding update_execution
update_execution-Evolves id f d keep = record {
  payments = (Evolves-refl d).payments;
  executions = λ j e h. step j e h;
  nonces = (Evolves-refl d).nonces;
}
  where
    step :
        (j : String) (e : Execution)
        → find execution_payment j d.executions ≡ some e
        → (x : Execution) × (find execution_payment j (modify execution_key id f d.executions)
            ≡ some x)
          × ExecutionLe e x
    step j e h = (
      if e.id == id then f e else e,
      ground (
        arith,
        find-modify_other execution_key execution_payment j id f d.executions
            (λ r. (keep r).same_payment),
      ),
      ground (arith, keep e, ExecutionLe-refl e),
    )

pub persist-Advances :
    (id : String) (raw : List ℕ) (hash : String) (ref : Option String)
    → Advances (persist_stmt id raw hash ref)
unfolding persist_stmt
persist-Advances id raw hash ref = record {
  step = λ env n d.
      update_execution-Evolves id (signed_row raw hash ref (env.clock n)) d (λ e. ground arith);
}

pub broadcast-Advances : (id : String) → Advances (broadcast_stmt id)
unfolding broadcast_stmt
broadcast-Advances id = record {
  step = λ env n d. update_execution-Evolves id (broadcast_row (env.clock n)) d (λ e. ground arith);
}

pub outcome-Advances :
    (id : String) (s : Payment.ExternalStatus) (raw : String) (t : Option Time)
    → Advances (outcome_stmt id s raw t)
unfolding outcome_stmt
outcome-Advances id s raw t = record {
  step = λ env n d.
      update_execution-Evolves id (outcome_row s raw t (env.clock n)) d (λ e. ground arith);
}

-- A row appended behind a table with unique keys is not seen by a SELECT that found one before.
module _ {A : Type 0} (key : A → String) where
  -- A row that a SELECT finds is found after an INSERT too.
  find-append_old :
      (j : String) (rs : List A) (x r : A)
      → find key j rs ≡ some r
      → find key j (rs ++ x ∷ []) ≡ some r
  find-append_old j rs x r h = ground (arith, find-append_new key j rs x)

insert_execution-commits :
    (e : Execution) (a d : Db)
    → (committed (unless_lost d (insert_execution e a)) d ≡ d)
      ⊎ (committed (unless_lost d (insert_execution e a)) d
          ≡ record a { executions = a.executions ++ e ∷ [] })
unfolding insert_execution
insert_execution-commits e a d =
    elim (Bool-cases (exists (has_nonce e.wallet_address e.nonce) a.executions)) [
      | inl taken ↦ inl (rw taken)
      | inr free ↦ elim (Bool-cases (exists (is_of_payment e.payment_id) a.executions)) [
        | inl lost ↦ inl (rw free (rw lost))
        | inr won ↦
            elim (Bool-cases (exists (λ (p : PaymentRow). p.id == e.payment_id) a.payments)) [
              | inl known ↦ inr (rw free (rw won (rw known)))
              | inr unknown ↦ inl (rw free (rw won (rw unknown)))
            ]
      ]
    ]

-- What an execution's creation commits: nothing, or the next nonce and the row that has it.
abbrev pub allocated : CreateExecutionParams → Env → ℕ → NonceRow → Db → Db
allocated p env n row d = record d {
  wallet_nonces = modify wallet_key p.wallet_address bump_nonce d.wallet_nonces;
  executions = d.executions ++ new_execution p (env.new_id n) row.next_nonce (env.clock n) ∷ [];
}

-- The transaction of an execution whose wallet has a nonce.
pub try_create-some :
    (p : CreateExecutionParams) (env : Env) (n : ℕ) (d : Db) (row : NonceRow)
    → find wallet_key p.wallet_address d.wallet_nonces ≡ some row
    → try_create_stmt p env n d
      ≡ unless_lost d (
          insert_execution (new_execution p (env.new_id n) row.next_nonce (env.clock n)) (record d {
            wallet_nonces = modify wallet_key p.wallet_address bump_nonce d.wallet_nonces;
          }))
unfolding try_create_stmt
try_create-some p env n d row e = rw (e, try_create_stmt)

pub try_create-none :
    (p : CreateExecutionParams) (env : Env) (n : ℕ) (d : Db)
    → find wallet_key p.wallet_address d.wallet_nonces ≡ none
    → try_create_stmt p env n d ≡ (err wallet_not_seeded, d)
unfolding try_create_stmt
try_create-none p env n d e = rw (e, try_create_stmt)

pub try_create-commits :
    (p : CreateExecutionParams) (env : Env) (n : ℕ) (d : Db)
    → (committed (try_create_stmt p env n d) d ≡ d)
      ⊎ ((row : NonceRow) × (find wallet_key p.wallet_address d.wallet_nonces ≡ some row)
          × (committed (try_create_stmt p env n d) d ≡ allocated p env n row d))
try_create-commits p env n d =
    elim (Option-cases (find wallet_key p.wallet_address d.wallet_nonces)) [
      | inl e ↦ inl (ap (λ x. committed x d) (try_create-none p env n d e))
      | inr (row, e) ↦
          let run = ap (λ x. committed x d) (try_create-some p env n d row e) in
          elim (insert_execution-commits
            (new_execution p (env.new_id n) row.next_nonce (env.clock n))
            (record d {
              wallet_nonces = modify wallet_key p.wallet_address bump_nonce d.wallet_nonces;
            })
            d) [ inl same ↦ inl (run ∙ same) | inr made ↦ inr (row, e, run ∙ made) ]
    ]

allocated-Evolves :
    (p : CreateExecutionParams) (env : Env) (n : ℕ) (row : NonceRow) (d : Db)
    → Evolves d (allocated p env n row d)
allocated-Evolves p env n row d = record {
  payments = (Evolves-refl d).payments;
  executions =
      λ j e h. (e, find-append_old execution_payment j d.executions _ e h, ExecutionLe-refl e);
  nonces = λ w r h. bumped w r h;
}
  where
    bumped :
        (w : String) (r : NonceRow)
        → find wallet_key w d.wallet_nonces ≡ some r
        → (s : NonceRow) × (find wallet_key w
              (modify wallet_key p.wallet_address bump_nonce d.wallet_nonces)
            ≡ some s)
          × (r.next_nonce ≤ s.next_nonce)
    bumped w r h = (
      if p.wallet_address == w then bump_nonce r else r,
      ground
          (arith, find-modify wallet_key w p.wallet_address bump_nonce d.wallet_nonces (λ x. refl)),
      ground arith,
    )

pub try_create-Advances : (p : CreateExecutionParams) → Advances (try_create_stmt p)
try_create-Advances p = record {
  step = λ env n d. elim (try_create-commits p env n d) [
    | inl same ↦ rw same (Evolves-refl d)
    | inr (row, _, made) ↦ rw made (allocated-Evolves p env n row d)
  ];
}

seed-Evolves :
    (wallet : String) (n : ℕ) (env : Env) (k : ℕ) (d : Db) (o : Option NonceRow)
    → find wallet_key wallet d.wallet_nonces ≡ o
    → Evolves d (committed (seed_stmt wallet n env k d) d)
unfolding seed_stmt
seed-Evolves wallet n env k d none e = rw e (record {
  payments = (Evolves-refl d).payments;
  executions = (Evolves-refl d).executions;
  nonces = λ w r h. (r, find-append_old wallet_key w d.wallet_nonces _ r h, omega arith);
})
seed-Evolves wallet n env k d (some r) e = rw e (Evolves-refl d)

pub seed-Advances : (wallet : String) (n : ℕ) → Advances (seed_stmt wallet n)
seed-Advances wallet n = record { step = λ env k d. seed-Evolves wallet n env k d _ refl }

-- A saved payment is one more row; nothing that was there changes.
pub insert_payment-Advances : (p : Payment) → Advances (insert_payment_stmt p)
insert_payment-Advances p = record {
  step = λ env n d. elim (insert_payment-cases p env n d) [
    | inl (e, failed) ↦ rw failed (Evolves-refl d)
    | inr (inl (lost, _)) ↦ rw lost (Evolves-refl d)
    | inr (inr x) ↦ rw (x.result) (record {
      payments = λ id q h. (q, find-append_old payment_key id d.payments _ q h, PaymentLe-refl q);
      executions = (Evolves-refl d).executions;
      nonces = (Evolves-refl d).nonces;
    })
  ];
}
