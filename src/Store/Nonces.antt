-- ===== src/Store/Nonces.antt =====
-- execution_store.go, TryCreateExecution: how nonces are allocated.
use chain_route.Prelude.{
  ℕ, ◌<◌, Option, none, some, ◌≡◌, refl, arith, ◌==◌, eq_refl, ◌⊎◌, inl, inr, ap, subst, ◌∙◌,
  Option-cases, Bool-cases, [], ◌∷◌, ◌++◌,
}
use chain_route.Payment.{Execution}
use chain_route.Db.{Db, NonceRow, PaymentRow}
use chain_route.Db.Table.{find, modify, exists, find-modify}
use chain_route.World.{
  Error, Env, Result, ok, err, wallet_not_seeded, unique_violation, check_violation,
}
use chain_route.Store.Executions.{
  CreateExecutionParams, wallet_key, bump_nonce, new_execution, insert_execution, unless_lost,
  try_create_stmt, has_nonce, is_of_payment,
}
use chain_route.Store.Evolution.{Evolves}
use chain_route.Store.Evolution.Rows.{allocated, try_create-some, try_create-none}

-- The row that is inserted for a wallet that has a nonce.
abbrev made : CreateExecutionParams → Env → ℕ → NonceRow → Execution
made p env n row = new_execution p (env.new_id n) row.next_nonce (env.clock n)

-- An execution was created: the wallet's next nonce is its nonce and is gone.
pub record Allocates (p : CreateExecutionParams) (env : Env) (n : ℕ) (d : Db)
    (r : Result (Option Execution) × Db) : Type 0 where
  pub row : NonceRow
  pub had : find wallet_key p.wallet_address d.wallet_nonces ≡ some row
  pub result : r ≡ (ok (some (made p env n row)), allocated p env n row d)

abbrev bumped : CreateExecutionParams → Db → Db
bumped p d = record d {
  wallet_nonces = modify wallet_key p.wallet_address bump_nonce d.wallet_nonces;
}

insert_execution-cases :
    (e : Execution) (a d : Db)
    → ((x : Error) × (unless_lost d (insert_execution e a) ≡ (err x, a)))
      ⊎ (unless_lost d (insert_execution e a) ≡ (ok none, d))
      ⊎ (unless_lost d (insert_execution e a)
          ≡ (ok (some e), record a { executions = a.executions ++ e ∷ [] }))
unfolding insert_execution
insert_execution-cases e a d =
    elim (Bool-cases (exists (has_nonce e.wallet_address e.nonce) a.executions)) [
      | inl taken ↦ inl (unique_violation, rw taken)
      | inr free ↦ elim (Bool-cases (exists (is_of_payment e.payment_id) a.executions)) [
        | inl lost ↦ inr (inl (rw free (rw lost)))
        | inr won ↦
            elim (Bool-cases (exists (λ (p : PaymentRow). p.id == e.payment_id) a.payments)) [
              | inl known ↦ inr (inr (rw free (rw won (rw known))))
              | inr unknown ↦ inl (check_violation, rw free (rw won (rw unknown)))
            ]
      ]
    ]

-- TryCreateExecution returns an error, and is rolled back with it; or it lost the race and changes
-- nothing, the wallet's nonce included; or it creates the row with the wallet's next nonce, which is
-- then one higher.
pub try_create-cases :
    (p : CreateExecutionParams) (env : Env) (n : ℕ) (d : Db)
    → ((x : Error) × ((try_create_stmt p env n d).0 ≡ err x))
      ⊎ (try_create_stmt p env n d ≡ (ok none, d))
      ⊎ Allocates p env n d (try_create_stmt p env n d)
try_create-cases p env n d =
    elim (Option-cases (find wallet_key p.wallet_address d.wallet_nonces)) [
      | inl e ↦ inl (wallet_not_seeded, ap (λ x. x.0) (try_create-none p env n d e))
      | inr (row, e) ↦
          let run = try_create-some p env n d row e in
          elim (insert_execution-cases (made p env n row) (bumped p d) d) [
            | inl (x, failed) ↦ inl (x, ap (λ x. x.0) (run ∙ failed))
            | inr (inl lost) ↦ inr (inl (run ∙ lost))
            | inr (inr done) ↦ inr (inr (record { row = row; had = e; result = run ∙ done }))
          ]
    ]

-- A creation that returned a row is an allocation.
created-Allocates :
    (p : CreateExecutionParams) (env : Env) (n : ℕ) (d : Db) (e : Execution)
    → (try_create_stmt p env n d).0 ≡ ok (some e)
    → Allocates p env n d (try_create_stmt p env n d)
created-Allocates p env n d e h = elim (try_create-cases p env n d) [
  | inl (x, failed) ↦ ground arith
  | inr (inl lost) ↦ ground arith
  | inr (inr a) ↦ a
]

-- Two executions of one wallet, the second created from any later state of the database, have
-- different nonces, the later one the higher.
pub try_create-try_create :
    (p q : CreateExecutionParams) (env env' : Env) (n n' : ℕ) (d d' : Db) (e e' : Execution)
    → q.wallet_address ≡ p.wallet_address
    → (try_create_stmt p env n d).0 ≡ ok (some e)
    → Evolves (try_create_stmt p env n d).1 d'
    → (try_create_stmt q env' n' d').0 ≡ ok (some e')
    → e.nonce < e'.nonce
try_create-try_create p q env env' n n' d d' e e' same h evolved h' =
    let a = created-Allocates p env n d e h in
    let b = created-Allocates q env' n' d' e' h' in
    let after =
      find-modify wallet_key p.wallet_address p.wallet_address bump_nonce d.wallet_nonces
        (λ x. refl) in
    let (s, found, le) =
      (subst (λ x. Evolves x d') (ap (λ x. x.1) a.result) evolved).nonces p.wallet_address
        (bump_nonce a.row) (ground (arith, a.had, after, eq_refl p.wallet_address)) in
    ground (arith, a.result, b.result, b.had, eq_refl p.wallet_address)
