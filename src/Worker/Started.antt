-- ===== src/Worker/Started.antt =====
-- executor.go, ExecuteTestnetPayment: what its parts give where they go through.
use chain_route.Prelude.{
  ℕ, suc, String, true, false, some, ◌≡◌, arith, ◌⊎◌, inl, inr, Option-cases, Bool-cases, subst,
  sym, none, List, ap, ◌∙◌,
}
use chain_route.Prelude.Int.{ℤ}
use chain_route.Payment.{Quote, Payment}
use chain_route.Money.{decimal_to_base_units}
use chain_route.Bridge.Quote.{Quote as LiveQuote, TxEnvelope, Provider, Signer}
use chain_route.Db.{PaymentRow}
use chain_route.World.{World, Env, M, ok, monad}
use chain_route.World.Answers.{Result-cases}
use chain_route.Store.Payments.{get_payment, get_payment_stmt, hops_stmt, to_payment, payment_row}
use chain_route.Worker.Fresh.{fault-cases}
use chain_route.Worker.Executor.Checks.{
  Executor, exceeds_slippage_tolerance, exceeds_guardrail, validate_envelope,
  build_validated_envelope,
}
use chain_route.Worker.Executor.{
  fresh_terms, request_for, start_execution, check_and_start, weth_decimals, reject,
}
use chain_route.Worker.Checked.{
  Quiet, SpendsNothing, Valid, validate_envelope-Valid, build_validated_envelope-SpendsNothing,
  reject-SpendsNothing,
}

-- The envelope that the provider's signer built at a tick has passed the check.
pub record Built (e : Executor) (q : Quote) (l : LiveQuote) (tick : ℕ) : Type 0 where
  pub signer : Signer
  pub envelope : TxEnvelope
  pub configured : e.signers q.provider ≡ some signer
  pub built : signer.build_transaction tick l ≡ some envelope
  pub valid : Valid e envelope q l

build_validated_envelope-Built :
    (e : Executor) (v : TxEnvelope) (q : Quote) (l : LiveQuote) (env : Env) (w : World)
    → (build_validated_envelope e q l env w).0 ≡ ok v
    → Built e q l w.tick
unfolding build_validated_envelope monad
build_validated_envelope-Built e v q l env w h = elim (Option-cases (e.signers q.provider)) [
  | inl none_set ↦ ground arith
  | inr (signer, e1) ↦ elim (Option-cases (signer.build_transaction w.tick l)) [
    | inl unbuilt ↦ ground arith
    | inr (v', e2) ↦
        let at = record w { tick = suc w.tick } in
        elim (Result-cases (validate_envelope e v' q l env at).0) [
          | inl (x, bad) ↦ ground arith
          | inr (u, good) ↦ record {
            signer = signer;
            envelope = v';
            configured = e1;
            built = e2;
            valid = validate_envelope-Valid e v' q l env at (ground arith);
          }
        ]
  ]
]

-- Either nothing is spent, or an envelope was built and has passed the check.
pub start_execution-Built :
    (e : Executor) (id : String) (q : Quote) (l : LiveQuote) (label : String) (env : Env)
    (w : World)
    → Quiet env
    → SpendsNothing w (start_execution e id q l label env w).1 ⊎ Built e q l w.tick
unfolding start_execution monad
start_execution-Built e id q l label env w quiet =
    elim (Result-cases (build_validated_envelope e q l env w).0) [
      | inr (v, good) ↦ inr (build_validated_envelope-Built e v q l env w good)
      | inl (x, bad) ↦
          let kept = (build_validated_envelope-SpendsNothing e q l).at env quiet w in
          inl (record {
            executions = ground (arith, kept.executions);
            wallet_nonces = ground (arith, kept.wallet_nonces);
            sent = ground (arith, kept.sent);
          })
    ]

-- The payment's row, as it stands in the table, and the two ticks of its queries.
get_payment-found :
    (id : String) (env : Env) (w : World) (p : Payment)
    → Quiet env
    → (get_payment id env w).0 ≡ ok (some p)
    → (row : PaymentRow) × (payment_row id w.db ≡ some row)
      × (p.amount ≡ row.amount)
      × ((get_payment id env w).1.tick ≡ suc (suc w.tick))
unfolding get_payment get_payment_stmt hops_stmt to_payment monad
get_payment-found id env w p quiet h = elim (fault-cases (env.fault w.tick)) [
  | inr (inl x) ↦ ground arith
  | inr (inr x) ↦ ground arith
  | inl x ↦ elim (Option-cases (payment_row id w.db)) [
    | inl missing ↦ ground (arith, quiet.still w.tick w.db)
    | inr (row, found) ↦ elim (fault-cases (env.fault (suc w.tick))) [
      | inr (inl y) ↦ ground (arith, quiet.still w.tick w.db)
      | inr (inr y) ↦ ground (arith, quiet.still w.tick w.db)
      | inl y ↦ (
        row,
        found,
        ground (arith, quiet.still w.tick w.db),
        ground (arith, quiet.still w.tick w.db),
      )
    ]
  ]
]

-- The amount is that of the stored payment, in wei, and the fresh quote was asked for at it.
pub record Terms (e : Executor) (id : String) (q : Quote) (w : World) (a : ℤ) (l : LiveQuote)
    : Type 0 where
  pub row : PaymentRow
  pub provider : Provider
  pub stored : payment_row id w.db ≡ some row
  pub converted : decimal_to_base_units row.amount 18 ≡ some a
  pub configured : e.quote_providers q.provider ≡ some provider
  pub answered :
      provider.get_quote (suc (suc w.tick)) (record {
        source_chain_id = q.origin_chain_id;
        destination_chain_id = q.destination_chain_id;
        asset = q.asset;
        amount_base_units = a;
      })
      ≡ some l

pub fresh_terms-Terms :
    (e : Executor) (id : String) (q : Quote) (env : Env) (w : World) (terms : ℤ × LiveQuote)
    → Quiet env
    → (fresh_terms e id q env w).0 ≡ ok terms
    → Terms e id q w terms.0 terms.1 × ((fresh_terms e id q env w).1.tick ≡ suc (suc (suc w.tick)))
unfolding fresh_terms monad
fresh_terms-Terms e id q env w terms quiet h = elim (Option-cases (e.quote_providers q.provider)) [
  | inl unknown ↦ ground arith
  | inr (provider, e1) ↦ elim (Result-cases (get_payment id env w).0) [
    | inl (x, bad) ↦ ground arith
    | inr (none, e2) ↦ ground arith
    | inr (some p, e2) ↦ elim (Option-cases (decimal_to_base_units p.amount weth_decimals)) [
      | inl invalid ↦ ground arith
      | inr (a, e3) ↦
          let (row, found, same, tick) = get_payment-found id env w p quiet e2 in
          elim (Option-cases (provider.get_quote (get_payment id env w).1.tick (request_for q a))) [
            | inl failed ↦ ground arith
            | inr (l, e4) ↦ (
              record {
                row = row;
                provider = provider;
                stored = found;
                converted =
                    ap (λ (x : List ℕ). decimal_to_base_units x 18) (sym same) ∙ ground (arith, e3);
                configured = e1;
                answered = ground (arith, tick);
              },
              ground (arith, tick),
            )
          ]
    ]
  ]
]

-- A world that is another.
pub onto : (w a b : World) → a ≡ b → SpendsNothing w b → SpendsNothing w a
onto w a b e h = subst (λ x. SpendsNothing w x) (sym e) h

same_action :
    (env : Env) (w : World) (m n : M (Unit {0}))
    → m ≡ n
    → SpendsNothing w (n env w).1
    → SpendsNothing w (m env w).1
same_action env w m n e h = subst (λ (x : M (Unit {0})). SpendsNothing w (x env w).1) (sym e) h

pub check_and_start-cases :
    (e : Executor) (id : String) (q : Quote) (a : ℤ) (l : LiveQuote) (label : String) (env : Env)
    (w : World)
    → Quiet env
    → SpendsNothing w (check_and_start e id q a l label env w).1
      ⊎ ((l.available ≡ true)
          × (exceeds_slippage_tolerance q.fee_amount l.fee_base_units e.max_fee_slippage_bps
              ≡ false)
          × (exceeds_guardrail e.max_amount_wei a ≡ false)
          × Built e q l w.tick)
unfolding check_and_start
check_and_start-cases e id q a l label env w quiet =
    let run = check_and_start e id q a l label in
    elim (Bool-cases l.available) [
      | inr gone ↦ inl (
          same_action env w run (reject label "route_unavailable" id "route_unavailable")
            (ground arith)
            ((reject-SpendsNothing label "route_unavailable" id "route_unavailable").at env quiet
              w))
      | inl there ↦
          elim (Bool-cases
            (exceeds_slippage_tolerance q.fee_amount l.fee_base_units e.max_fee_slippage_bps)) [
              | inl over ↦ inl (
                  same_action env w run
                    (reject label "slippage_exceeded" id "fee_slippage_exceeded") (ground arith)
                    ((reject-SpendsNothing label "slippage_exceeded" id "fee_slippage_exceeded").at
                      env quiet w))
              | inr within ↦ elim (Bool-cases (exceeds_guardrail e.max_amount_wei a)) [
                | inl over ↦ inl (
                    same_action env w run
                      (reject label "amount_exceeds_guardrail" id "amount_exceeds_guardrail")
                      (ground arith)
                      ((reject-SpendsNothing label "amount_exceeds_guardrail" id
                          "amount_exceeds_guardrail").at
                        env quiet w))
                | inr small ↦ elim (start_execution-Built e id q l label env w quiet) [
                  | inl nothing ↦ inl (
                      same_action env w run (start_execution e id q l label) (ground arith) nothing)
                  | inr built ↦ inr (there, within, small, built)
                ]
              ]
            ]
    ]
