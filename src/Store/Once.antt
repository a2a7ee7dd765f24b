-- ===== src/Store/Once.antt =====
-- store.go and execution_store.go: the guarded UPDATEs, tried again.
use chain_route.Prelude.{
  ℕ, String, true, false, none, some, ◌≡◌, refl, arith, eq_refl, inl, inr, Option-cases,
}
use chain_route.Payment.{Status, routed, processing, submitted, ExecutionMode, Time, status_eq}
use chain_route.Db.{Db, PaymentRow}
use chain_route.Db.Table.{find, update_if, find-update_if}
use chain_route.World.{Env, ok}
use chain_route.Store.Payments.{
  payment_key, transition, claim_row, complete_row, submit_row, fail_row, claim_stmt, complete_stmt,
  submit_stmt, complete_submitted_stmt, fail_stmt,
}
use chain_route.Store.Evolution.{is_terminal, can_reach, Evolves}

-- The row is in another status: nothing is returned and nothing is changed.
pub transition-passed :
    (id : String) (from : Status) (f : PaymentRow → PaymentRow) (d : Db) (p : PaymentRow)
    → find payment_key id d.payments ≡ some p
    → status_eq p.status from ≡ false
    → transition id from f d ≡ (none, d)
unfolding transition update_if
transition-passed id from f d p h past = rw (h, past, transition, update_if)

-- A row is returned: it was in the status, and is stored now as it is returned.
pub transition-won :
    (id : String) (from : Status) (f : PaymentRow → PaymentRow) (d : Db) (r : PaymentRow)
    → ((p : PaymentRow) → (f p).id ≡ p.id)
    → (transition id from f d).0 ≡ some r
    → (p : PaymentRow) × (find payment_key id d.payments ≡ some p)
      × (status_eq p.status from ≡ true)
      × (r ≡ f p)
      × (find payment_key id (transition id from f d).1.payments ≡ some (f p))
unfolding transition update_if
transition-won id from f d r keep h = elim (Option-cases (find payment_key id d.payments)) [
  | inl missing ↦ ground arith
  | inr (p, found) ↦ (
    p,
    found,
    ground arith,
    ground arith,
    ground (
      arith,
      eq_refl id,
      find-update_if payment_key id id (λ x. status_eq x.status from) f d.payments keep,
    ),
  )
]

-- What an evolution leaves of a row that was found.
later_status :
    (id : String) (d d' : Db) (p : PaymentRow)
    → Evolves d d'
    → find payment_key id d.payments ≡ some p
    → (q : PaymentRow) × (find payment_key id d'.payments ≡ some q)
      × (can_reach p.status q.status ≡ true)
later_status id d d' p h found =
    let (q, later, le) = h.payments id p found in (q, later, le.forward)

-- Once ClaimPayment has claimed a payment, every later ClaimPayment of it, after any evolution of the
-- database, claims nothing and changes nothing.
pub claim-claim :
    (id : String) (env : Env) (n : ℕ) (d : Db) (mode : ExecutionMode)
    → (claim_stmt id env n d).0 ≡ ok (some mode)
    → (d' : Db) → Evolves (claim_stmt id env n d).1 d'
    → (env' : Env) (n' : ℕ) → claim_stmt id env' n' d' ≡ (ok none, d')
unfolding claim_stmt
claim-claim id env n d mode h d' evolved env' n' =
    elim (Option-cases (transition id routed (claim_row (env.clock n)) d).0) [
      | inl missed ↦ ground arith
      | inr (r, won) ↦
          let (p, _, _, _, stored) =
            transition-won id routed (claim_row (env.clock n)) d r (λ x. refl) won in
          let (q, found, reach) = later_status id _ d' _ evolved stored in
          let passed =
            transition-passed id routed (claim_row (env'.clock n')) d' q found (ground arith) in
          ground arith
    ]

-- Nothing is left to do for a payment that is in a terminal status.
abbrev pub Settled : String → Db → Env → ℕ → Type 0
Settled id d env n =
    (claim_stmt id env n d ≡ (ok none, d))
    × ((terminal : Status) → complete_stmt id terminal env n d ≡ (ok none, d))
    × (submit_stmt id env n d ≡ (ok false, d))
    × ((terminal : Status) → complete_submitted_stmt id terminal env n d ≡ (ok none, d))
    × ((reason : String) → fail_stmt id reason env n d ≡ (ok false, d))

terminal-Settled :
    (id : String) (d : Db) (p : PaymentRow)
    → find payment_key id d.payments ≡ some p
    → is_terminal p.status ≡ true
    → (env : Env) (n : ℕ) → Settled id d env n
unfolding claim_stmt complete_stmt submit_stmt complete_submitted_stmt fail_stmt
terminal-Settled id d p found ended env n =
    let t = env.clock n in
    (
      ground (arith, transition-passed id routed (claim_row t) d p found),
      (λ end. ground (arith, transition-passed id processing (complete_row t end) d p found)),
      ground (arith, transition-passed id processing (submit_row t) d p found),
      (λ end. ground (arith, transition-passed id submitted (complete_row t end) d p found)),
      (λ reason. ground (arith, transition-passed id processing (fail_row t reason) d p found)),
    )

-- Once CompletePayment has ended a payment, with COMPLETED or FAILED, no later guarded UPDATE of the
-- payment, after any evolution of the database, reports or changes anything.
pub complete-Settled :
    (id : String) (terminal : Status) (env : Env) (n : ℕ) (d : Db) (t : Time)
    → is_terminal terminal ≡ true
    → (complete_stmt id terminal env n d).0 ≡ ok (some t)
    → (d' : Db) → Evolves (complete_stmt id terminal env n d).1 d'
    → (env' : Env) (n' : ℕ) → Settled id d' env' n'
unfolding complete_stmt
complete-Settled id terminal env n d t ended h d' evolved env' n' =
    elim (Option-cases (transition id processing (complete_row (env.clock n) terminal) d).0) [
      | inl missed ↦ ground arith
      | inr (r, won) ↦
          let (p, _, _, _, stored) =
            transition-won id processing (complete_row (env.clock n) terminal) d r (λ x. refl)
              won in
          let (q, found, le) = evolved.payments id _ stored in
          terminal-Settled id d' q found (ground (arith, le.final)) env' n'
    ]
