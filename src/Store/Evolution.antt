-- ===== src/Store/Evolution.antt =====
-- How the database may change between two statements: the status of a payment moves forward, a
-- terminal payment is never touched again, and what identifies a row stays.
pub mod Statements
pub mod Moves
pub mod Rows
pub mod Methods
use chain_route.Prelude.{
  ℕ, ◌≤◌, String, Bool, true, false, Option, none, some, List, ◌≡◌, refl, ◌∙◌, arith, ◌==◌, eq_iff,
  if◌then◌else◌, Option-cases, inl, inr,
}
use chain_route.Payment.{Status, routed, processing, submitted, completed, failed, Execution}
use chain_route.Db.{Db, PaymentRow, NonceRow}
use chain_route.Db.Table.{find}
use chain_route.World.{Env, World}
use chain_route.World.Rules.{Relation}
use chain_route.Store.Payments.{payment_key}
use chain_route.Store.Executions.{execution_payment, wallet_key}

abbrev pub is_terminal : Status → Bool
is_terminal completed = true
is_terminal failed = true
is_terminal _ = false

-- The status machine, transitively closed.
abbrev pub can_reach : Status → Status → Bool
can_reach routed _ = true
can_reach processing routed = false
can_reach processing _ = true
can_reach submitted routed = false
can_reach submitted processing = false
can_reach submitted _ = true
can_reach completed completed = true
can_reach failed failed = true
can_reach _ _ = false

-- A later version of a payment's row.
pub record PaymentLe (p q : PaymentRow) : Type 0 where
  pub same_id : q.id ≡ p.id
  pub same_key : q.idempotency_key ≡ p.idempotency_key
  pub same_amount : q.amount ≡ p.amount
  pub same_mode : q.execution_mode ≡ p.execution_mode
  pub forward : can_reach p.status q.status ≡ true
  pub final : is_terminal p.status ≡ true → q ≡ p

-- A later version of an execution's row: the nonce that was allocated is kept.
pub record ExecutionLe (e f : Execution) : Type 0 where
  pub same_id : f.id ≡ e.id
  pub same_payment : f.payment_id ≡ e.payment_id
  pub same_wallet : f.wallet_address ≡ e.wallet_address
  pub same_nonce : f.nonce ≡ e.nonce

pub record Evolves (d d' : Db) : Type 0 where
  pub payments :
      (id : String) (p : PaymentRow)
      → find payment_key id d.payments ≡ some p
      → (q : PaymentRow) × (find payment_key id d'.payments ≡ some q) × PaymentLe p q
  pub executions :
      (id : String) (e : Execution)
      → find execution_payment id d.executions ≡ some e
      → (f : Execution) × (find execution_payment id d'.executions ≡ some f) × ExecutionLe e f
  pub nonces :
      (wallet : String) (r : NonceRow)
      → find wallet_key wallet d.wallet_nonces ≡ some r
      → (s : NonceRow) × (find wallet_key wallet d'.wallet_nonces ≡ some s)
        × (r.next_nonce ≤ s.next_nonce)

pub PaymentLe-refl : (p : PaymentRow) → PaymentLe p p
PaymentLe-refl p = ground arith

pub PaymentLe-trans : (p q r : PaymentRow) → PaymentLe p q → PaymentLe q r → PaymentLe p r
PaymentLe-trans p q r h k = ground (arith, h.final, k.final)

pub ExecutionLe-refl : (e : Execution) → ExecutionLe e e
ExecutionLe-refl e = ground arith

pub Evolves-refl : (d : Db) → Evolves d d
Evolves-refl d = record {
  payments = λ id p h. (p, h, PaymentLe-refl p);
  executions = λ id e h. (e, h, ExecutionLe-refl e);
  nonces = λ w r h. (r, h, omega arith);
}

pub Evolves-trans : (a b c : Db) → Evolves a b → Evolves b c → Evolves a c
Evolves-trans a b c h k = record {
  payments = λ id p e.
      let (q, eq, le) = h.payments id p e in
      let (r, er, le') = k.payments id q eq in (r, er, PaymentLe-trans p q r le le');
  executions = λ id x e.
      let (y, ey, le) = h.executions id x e in
      let (z, ez, le') = k.executions id y ey in (z, ez, ground (arith));
  nonces = λ w r e.
      let (s, es, le) = h.nonces w r e in
      let (t, et, le') = k.nonces w s es in (t, et, omega arith);
}

-- The relation on worlds, and the environments whose other actors keep it.
pub record OnDb (w w' : World) : Type 0 where
  pub evolves : Evolves w.db w'.db

pub record Fair (env : Env) : Type 0 where
  pub others_evolve : (n : ℕ) (d : Db) → Evolves d (env.others n d)

pub OnDb-relation : Relation OnDb
OnDb-relation = record {
  same = λ w. record { evolves = Evolves-refl w.db };
  follows = λ u v w h k. record { evolves = Evolves-trans u.db v.db w.db h.evolves k.evolves };
  recorded = λ w ms. record { evolves = Evolves-refl w.db };
  ticked = λ w n. record { evolves = Evolves-refl w.db };
}
