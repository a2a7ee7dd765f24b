-- ===== src/Worker/Fresh.antt =====
-- executor.go, signAndBroadcastFresh: what it sends.
use chain_route.Prelude.{
  ℕ, suc, String, some, List, ◌∷◌, ◌≡◌, refl, arith, ◌⊎◌, inl, inr, if◌then◌else◌, Option-cases,
  eq_refl,
}
use chain_route.Payment.{Execution, Time}
use chain_route.Db.Table.{find, find-modify}
use chain_route.Bridge.Quote.{Quote as LiveQuote, TxEnvelope}
use chain_route.World.{
  World, Env, M, Fault, fine, rejected, answer_lost, Transaction, emit, pure, monad, ◌>>=◌, ◌>>◌,
  broadcasts,
}
use chain_route.World.Rules.{Keeps, rules}
use chain_route.World.Answers.{Result-cases}
use chain_route.Store.Executions.{
  persist_signed_execution, persist_stmt, execution_key, update_execution, signed_row,
}
use chain_route.Worker.Executor.Checks.{Executor, extract_provider_reference_id}
use chain_route.Worker.Executor.Broadcast.{
  broadcast_with_recovery, record_broadcast, unsigned_tx, gas_or_fallback, sign_and_broadcast_fresh,
}
use chain_route.Worker.Sends.{
  broadcast_with_recovery-Resends, Silent, Silent-relation, Always, record_broadcast-Silent,
}

pub fault-cases : (x : Fault) → (x ≡ fine) ⊎ (x ≡ rejected) ⊎ (x ≡ answer_lost)
fault-cases fine = inl refl
fault-cases rejected = inr (inl refl)
fault-cases answer_lost = inr (inr refl)

after_sent :
    {A B : Type 0} (m : M A) (k : A → M B) (env : Env) (w : World)
    → ((a : A) → Keeps Always Silent (k a))
    → ((m >>= k) env w).1.sent ≡ (m env w).1.sent
unfolding ◌>>=◌
after_sent m k env w kk = elim (Result-cases (m env w).0) [
  | inl (x, e) ↦ ground arith
  | inr (a, e) ↦ ground (arith, (((kk a).at env (record { always = tt }) (m env w).1).same_sent))
]

-- The world once the bytes are persisted.
abbrev at_persisted : Executor → Execution → LiveQuote → Transaction → List ℕ → Env → World → World
at_persisted e exec q signed raw env w =
    (persist_signed_execution exec.id raw (e.codec.tx_hash signed)
      (extract_provider_reference_id e q) env (record w { tick = suc (suc w.tick) })).1

abbrev pub send_part : Executor → Execution → String → Transaction → List ℕ → M (Unit {0})
send_part e exec label signed raw =
    broadcast_with_recovery e (some (e.codec.tx_hash signed)) (some raw) >>= λ sent.
    (if sent then emit (broadcasts label) else pure tt) >> record_broadcast exec

send_part-sent :
    (e : Executor) (exec : Execution) (label : String) (signed : Transaction) (raw : List ℕ)
    (env : Env) (w : World)
    → (send_part e exec label signed raw env w).1.sent
      ≡ (broadcast_with_recovery e (some (e.codec.tx_hash signed)) (some raw) env w).1.sent
send_part-sent e exec label signed raw env w =
    after_sent _ _ env w (λ sent. search (rules, Silent-relation, record_broadcast-Silent) depth 12)

-- What the row under an id has once a signed transaction is persisted: the bytes, their hash and the
-- provider's reference, and the rest as it was.
abbrev pub persisted_execution :
    Executor → LiveQuote → Transaction → List ℕ → Time → Execution → Execution
persisted_execution e q signed raw t x = record x {
  raw_signed_tx = some raw;
  signed_tx_hash = some (e.codec.tx_hash signed);
  provider_reference_id = extract_provider_reference_id e q;
  updated_at = t;
}

-- Nothing was sent; or one transaction, which is what the bytes of the signed transaction of the
-- execution's nonce encode. There is then a world `v` before it in which nothing had been sent yet and
-- the row has these bytes, if it was there when they were to be written, and what is left to do from
-- `v` is the broadcast of these bytes.
pub data SendsPersisted (e : Executor) (exec : Execution) (envelope : TxEnvelope) (q : LiveQuote)
    (label : String) (env : Env) (w w' : World) : Type 0 where
  silent : w'.sent ≡ w.sent → SendsPersisted e exec envelope q label env w w'
  sends :
      (gas gas_price : ℕ) (signed tx : Transaction) (raw : List ℕ) (v : World)
      → e.codec.sign_tx (unsigned_tx exec envelope gas gas_price) envelope.chain_id ≡ some signed
      → e.codec.marshal_binary signed ≡ some raw
      → ((x : Execution)
          → find execution_key exec.id (env.others (suc (suc w.tick)) w.db).executions ≡ some x
          → find execution_key exec.id v.db.executions
            ≡ some (persisted_execution e q signed raw (env.clock (suc (suc w.tick))) x))
      → v.sent ≡ w.sent
      → w' ≡ (send_part e exec label signed raw env v).1
      → e.codec.unmarshal_binary raw ≡ some tx
      → w'.sent ≡ tx ∷ w.sent
      → SendsPersisted e exec envelope q label env w w'

find-persisted :
    (e : Executor) (exec : Execution) (q : LiveQuote) (signed : Transaction) (raw : List ℕ)
    (env : Env) (w : World) (x : Execution)
    → env.fault (suc (suc w.tick)) ≡ fine
    → find execution_key exec.id (env.others (suc (suc w.tick)) w.db).executions ≡ some x
    → find execution_key exec.id (at_persisted e exec q signed raw env w).db.executions
      ≡ some (persisted_execution e q signed raw (env.clock (suc (suc w.tick))) x)
unfolding persist_signed_execution persist_stmt update_execution monad
find-persisted e exec q signed raw env w x answered found = ground (
  arith,
  answered,
  found,
  eq_refl exec.id,
  find-modify execution_key exec.id exec.id
      (signed_row raw (e.codec.tx_hash signed) (extract_provider_reference_id e q)
        (env.clock (suc (suc w.tick))))
      (env.others (suc (suc w.tick)) w.db).executions (λ r. refl),
)

at_persisted-sent :
    (e : Executor) (exec : Execution) (q : LiveQuote) (signed : Transaction) (raw : List ℕ)
    (env : Env) (w : World)
    → (at_persisted e exec q signed raw env w).sent ≡ w.sent
unfolding persist_signed_execution monad
at_persisted-sent e exec q signed raw env w = refl

-- signAndBroadcastFresh sends nothing; or it sends one transaction, which is what the bytes of the
-- signed transaction of the execution's own nonce encode. Before it sends, the execution's row has
-- these bytes, their hash and the provider's reference, if there is such a row when they are written.
pub sign_and_broadcast_fresh-SendsPersisted :
    (e : Executor) (exec : Execution) (envelope : TxEnvelope) (q : LiveQuote) (label : String)
    (env : Env) (w : World)
    → SendsPersisted e exec envelope q label env w
        (sign_and_broadcast_fresh e exec envelope q label env w).1
unfolding sign_and_broadcast_fresh monad persist_signed_execution persist_stmt
sign_and_broadcast_fresh-SendsPersisted e exec envelope q label env w =
    elim (Option-cases (e.origin_client.suggest_gas_price w.tick)) [
      | inl no_price ↦ silent (ground arith)
      | inr (price, e1) ↦
          let gas = gas_or_fallback (e.origin_client.estimate_gas (suc w.tick) envelope) in
          elim (Option-cases
            (e.codec.sign_tx (unsigned_tx exec envelope gas price) envelope.chain_id)) [
              | inl no_signature ↦ silent (ground arith)
              | inr (signed, e2) ↦ elim (Option-cases (e.codec.marshal_binary signed)) [
                | inl no_bytes ↦ silent (ground arith)
                | inr (raw, e3) ↦ elim (fault-cases (env.fault (suc (suc w.tick)))) [
                  | inr (inl x) ↦ silent (ground arith)
                  | inr (inr x) ↦ silent (ground arith)
                  | inl x ↦
                      let v = at_persisted e exec q signed raw env w in
                      let same = send_part-sent e exec label signed raw env v in
                      elim (broadcast_with_recovery-Resends e (e.codec.tx_hash signed) raw env v) [
                        | inl quiet ↦ silent (ground (arith, same, quiet))
                        | inr (tx, _, good, sent) ↦
                            sends gas price signed tx raw v e2 e3
                              (λ row. find-persisted e exec q signed raw env w row x)
                              (at_persisted-sent e exec q signed raw env w) (ground arith) good
                              (ground (arith, same, sent))
                      ]
                ]
              ]
            ]
    ]
