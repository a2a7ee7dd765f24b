-- ===== src/Worker/Sends.antt =====
-- executor.go: what the executor hands to SendTransaction, and when.
use chain_route.Prelude.{
  ℕ, String, some, List, ◌∷◌, ◌≡◌, refl, arith, ◌⊎◌, inl, inr, ap, Option-cases,
}
use chain_route.Payment.{Execution}
use chain_route.World.{World, Env, M, Transaction, Statement, statement, monad, on_error, ◌>>=◌}
use chain_route.World.Answers.{Result-cases}
use chain_route.World.Rules.{Relation, Keeps, rules}
use chain_route.Store.Payments.{mark_submitted}
use chain_route.Store.Executions.{mark_execution_broadcast}
use chain_route.Worker.Clients.{sanitize_provider_label, Lookup, known, not_found, unreachable}
use chain_route.Worker.Executor.Checks.{Executor}
use chain_route.Worker.Executor.Broadcast.{
  send_transaction, send_persisted, broadcast_with_recovery, record_broadcast,
}
use chain_route.Worker.Executor.{drive_signed, drive_execution_forward}

-- At most one SendTransaction, of the transaction that the bytes encode, and that only where the
-- chain has answered that it does not know the hash.
abbrev pub Resends : Executor → String → List ℕ → World → World → Type 0
Resends e hash raw w w' =
    (w'.sent ≡ w.sent)
    ⊎ ((tx : Transaction) × (e.origin_client.transaction_by_hash w.tick (e.codec.hex_to_hash hash)
          ≡ not_found)
        × (e.codec.unmarshal_binary raw ≡ some tx)
        × (w'.sent ≡ tx ∷ w.sent))

lookup-cases : (l : Lookup) → (l ≡ known) ⊎ (l ≡ unreachable) ⊎ (l ≡ not_found)
lookup-cases known = inl refl
lookup-cases unreachable = inr (inl refl)
lookup-cases not_found = inr (inr refl)

-- broadcastWithRecovery of a signed row.
pub broadcast_with_recovery-Resends :
    (e : Executor) (hash : String) (raw : List ℕ) (env : Env) (w : World)
    → Resends e hash raw w (broadcast_with_recovery e (some hash) (some raw) env w).1
unfolding broadcast_with_recovery send_persisted send_transaction monad
broadcast_with_recovery-Resends e hash raw env w =
    elim (lookup-cases (e.origin_client.transaction_by_hash w.tick (e.codec.hex_to_hash hash))) [
      | inl k ↦ inl (ground arith)
      | inr (inl u) ↦ inl (ground arith)
      | inr (inr n) ↦ elim (Option-cases (e.codec.unmarshal_binary raw)) [
        | inl bad ↦ inl (ground arith)
        | inr (tx, good) ↦ inr (tx, n, good, ground arith)
      ]
    ]

-- Nothing is handed to SendTransaction.
pub record Silent (w w' : World) : Type 0 where
  pub same_sent : w'.sent ≡ w.sent

pub record Always (env : Env) : Type 0 where
  pub always : Unit {0}

pub Silent-relation : Relation Silent
Silent-relation = record {
  same = λ w. record { same_sent = refl };
  follows = λ u v w h k. record { same_sent = ground (arith, h.same_sent, k.same_sent) };
  recorded = λ w ms. record { same_sent = refl };
  ticked = λ w n. record { same_sent = refl };
}

pub statement-Silent : {A : Type 0} (s : Statement A) → Keeps Always Silent (statement s)
unfolding statement
statement-Silent s = record { at = λ env g w. record { same_sent = refl } }

pub record_broadcast-Silent : (exec : Execution) → Keeps Always Silent (record_broadcast exec)
unfolding record_broadcast mark_execution_broadcast mark_submitted
record_broadcast-Silent exec = search (rules, Silent-relation, statement-Silent) depth 12

-- An action that goes on silently.
after_Silent :
    {A B : Type 0} (m : M A) (h : M (Unit {0})) (k : A → M B) (env : Env) (w : World)
    → Keeps Always Silent h
    → ((a : A) → Keeps Always Silent (k a))
    → ((on_error m h >>= k) env w).1.sent ≡ (m env w).1.sent
unfolding ◌>>=◌ on_error
after_Silent m h k env w kh kk = elim (Result-cases (m env w).0) [
  | inl (x, e) ↦ ground (arith, ((kh.at env (record { always = tt }) (m env w).1).same_sent))
  | inr (a, e) ↦ ground (arith, (((kk a).at env (record { always = tt }) (m env w).1).same_sent))
]

drive_signed-sent :
    (e : Executor) (exec : Execution) (label : String) (env : Env) (w : World)
    → (drive_signed e exec label env w).1.sent
      ≡ (broadcast_with_recovery e exec.signed_tx_hash exec.raw_signed_tx env w).1.sent
unfolding drive_signed
drive_signed-sent e exec label env w =
    after_Silent _ _ _ env w (search (rules, Silent-relation))
      (λ sent. search (rules, Silent-relation, record_broadcast-Silent) depth 12)

-- A resumed row that is signed is never signed again: DriveExecutionForward hands at most its
-- persisted bytes to SendTransaction, and that only where the chain does not know its hash.
pub drive_execution_forward-Resends :
    (e : Executor) (exec : Execution) (hash : String) (raw : List ℕ)
    → exec.signed_tx_hash ≡ some hash
    → exec.raw_signed_tx ≡ some raw
    → (env : Env) (w : World) → Resends e hash raw w (drive_execution_forward e exec env w).1
unfolding drive_execution_forward drive_signed
drive_execution_forward-Resends e exec hash raw signed bytes env w = ground (
  arith,
  drive_signed-sent e exec (sanitize_provider_label exec.bridge_provider) env w,
  ap (λ o. broadcast_with_recovery e o exec.raw_signed_tx env w) signed,
  ap (λ o. broadcast_with_recovery e (some hash) o env w) bytes,
  broadcast_with_recovery-Resends e hash raw env w,
)
