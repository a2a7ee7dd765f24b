-- ===== src/Store/Evolution/Statements.antt =====
-- Statements against the evolution of the database, with other actors and faults.
use chain_route.Prelude.{ℕ, String, some, ◌≡◌, arith, ◌==◌, if◌then◌else◌}
use chain_route.Payment.{Status, status_eq}
use chain_route.Db.{Db, PaymentRow}
use chain_route.Db.Table.{find, find-update_if}
use chain_route.World.{Env, Fault, Result, Statement, answer, committed, statement}
use chain_route.World.Rules.{Keeps}
use chain_route.Store.Payments.{payment_key, transition}
use chain_route.Store.Evolution.{
  PaymentLe, Evolves, OnDb, Fair, Evolves-refl, Evolves-trans, PaymentLe-refl,
}

-- What a statement commits, if it commits, is an evolution.
pub record Advances {A : Type 0} (s : Statement A) : Type 0 where
  pub step : (env : Env) (n : ℕ) (d : Db) → Evolves d (committed (s env n d) d)

answer-Evolves :
    {A : Type 0} (x : Fault) (r : Result A × Db) (d : Db)
    → Evolves d (committed r d)
    → Evolves d (answer x r d).1
answer-Evolves Fault.fine r d h = h
answer-Evolves Fault.rejected r d h = Evolves-refl d
answer-Evolves Fault.answer_lost r d h = h

-- A statement keeps the relation on worlds, with what the others commit before it and any fault.
pub Keeps-statement : {A : Type 0} (s : Statement A) → Advances s → Keeps Fair OnDb (statement s)
unfolding statement
Keeps-statement s h = record {
  at = λ env fair w.
      let d = env.others w.tick w.db in
      record {
        evolves =
            Evolves-trans w.db d _ (fair.others_evolve w.tick w.db)
              (answer-Evolves (env.fault w.tick) (s env w.tick d) d (h.step env w.tick d));
      };
}

-- A guarded UPDATE along an edge of the status machine.
pub transition-Evolves :
    (id : String) (from : Status) (f : PaymentRow → PaymentRow) (d : Db)
    → ((p : PaymentRow) → p.status ≡ from → PaymentLe p (f p))
    → ((p : PaymentRow) → (f p).id ≡ p.id)
    → Evolves d (transition id from f d).1
unfolding transition
transition-Evolves id from f d legal keep = record {
  payments = λ j p h. step j p h;
  executions = (Evolves-refl d).executions;
  nonces = (Evolves-refl d).nonces;
}
  where
    step :
        (j : String) (p : PaymentRow)
        → find payment_key j d.payments ≡ some p
        → (q : PaymentRow) × (find payment_key j (transition id from f d).1.payments ≡ some q)
          × PaymentLe p q
    step j p h = (
      if id == j then (if status_eq p.status from then f p else p) else p,
      ground
          (arith, find-update_if payment_key j id (λ r. status_eq r.status from) f d.payments keep),
      ground (arith, legal p, PaymentLe-refl p),
    )
