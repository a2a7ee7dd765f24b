-- ===== src/Worker/Cleared.antt =====
-- executor.go, ExecuteTestnetPayment: what holds whenever a payment's execution is started.
use chain_route.Prelude.{
  suc, String, true, false, Option, none, some, ◌≡◌, arith, ◌⊎◌, inl, inr, ap, Bool-cases, ltb, sym,
  subst, ◌∙◌,
}
use chain_route.Prelude.Int.{ℤ, ◌≤ℤ◌}
use chain_route.Payment.{Quote}
use chain_route.Bridge.Quote.{Quote as LiveQuote}
use chain_route.World.{Error, World, Env, M, ok, err, monad, ◌>>=◌, statement}
use chain_route.World.Answers.{Result-cases}
use chain_route.Store.Quotes.{get_quote_by_payment_id, get_quote_stmt, selected_quote}
use chain_route.Worker.Clients.{sanitize_provider_label}
use chain_route.Worker.Executor.Checks.{Executor, exceeds_slippage_tolerance, exceeds_guardrail}
use chain_route.Worker.Executor.{fresh_terms, check_and_start, execute_testnet_payment, reject}
use chain_route.Worker.Checked.{
  Quiet, SpendsNothing, SpendsNothing-relation, reject-SpendsNothing, fresh_terms-SpendsNothing,
  get_quote-SpendsNothing,
}
use chain_route.Worker.Started.{Built, Terms, fresh_terms-Terms, onto, check_and_start-cases}
use chain_route.Worker.Fresh.{fault-cases}
use mathlib.Core.Option.{some-injective}

-- Every check of ExecuteTestnetPayment has passed, on the stored payment's amount in wei, the quote
-- that the provider answered for it at its tick, and the envelope that the provider's signer built of
-- this quote at its tick.
pub record Cleared (e : Executor) (id : String) (w : World) (env : Env) : Type 0 where
  pub quote_row : Quote
  pub amount : ℤ
  pub fresh : LiveQuote
  pub selected : selected_quote id w.db ≡ some quote_row
  pub unexpired : ltb quote_row.expires_at (env.clock (suc w.tick)) ≡ false
  pub terms : Terms e id quote_row (record w { tick = suc (suc w.tick) }) amount fresh
  pub available : fresh.available ≡ true
  pub within_slippage :
      exceeds_slippage_tolerance quote_row.fee_amount fresh.fee_base_units e.max_fee_slippage_bps
      ≡ false
  pub within_guardrail : (max : ℤ) → e.max_amount_wei ≡ some max → amount ≤ℤ max
  pub built : Built e quote_row fresh (suc (suc (suc (suc (suc w.tick)))))

below_guardrail :
    (o : Option ℤ) (a : ℤ) → exceeds_guardrail o a ≡ false → (max : ℤ) → o ≡ some max → a ≤ℤ max
unfolding exceeds_guardrail
below_guardrail none a h max e = absurd (ground arith)
below_guardrail (some m) a h max e =
    subst (λ x. a ≤ℤ x) (some-injective m max e) (ground (arith, h))

quote-answer :
    (id : String) (env : Env) (w : World) (found : Option Quote)
    → Quiet env
    → (get_quote_by_payment_id id env w).0 ≡ ok found
    → (found ≡ selected_quote id w.db)
      × ((get_quote_by_payment_id id env w).1 ≡ record w { tick = suc w.tick })
unfolding get_quote_by_payment_id get_quote_stmt statement
quote-answer id env w found quiet h = elim (fault-cases (env.fault w.tick)) [
  | inr (inl x) ↦ ground arith
  | inr (inr x) ↦ ground arith
  | inl x ↦ (ground (arith, quiet.still w.tick w.db), ground (arith, quiet.still w.tick w.db))
]

-- What follows once the quote is read.
abbrev after_quote : Executor → String → Quote → M (Unit {0})
after_quote e id q = fresh_terms e id q >>= λ terms.
    check_and_start e id q terms.0 terms.1 (sanitize_provider_label q.provider)

abbrev read_clock : World → World
read_clock u = record u { tick = suc u.tick }

missing_quote :
    (e : Executor) (id : String) (env : Env) (w : World)
    → (get_quote_by_payment_id id env w).0 ≡ ok none
    → (execute_testnet_payment e id env w).1 ≡ (get_quote_by_payment_id id env w).1
unfolding execute_testnet_payment monad
missing_quote e id env w h = ground arith

unread_quote :
    (e : Executor) (id : String) (env : Env) (w : World) (x : Error)
    → (get_quote_by_payment_id id env w).0 ≡ err x
    → (execute_testnet_payment e id env w).1 ≡ (get_quote_by_payment_id id env w).1
unfolding execute_testnet_payment monad
unread_quote e id env w x h = ground arith

expired_quote :
    (e : Executor) (id : String) (q : Quote) (env : Env) (w : World)
    → (get_quote_by_payment_id id env w).0 ≡ ok (some q)
    → ltb q.expires_at (env.clock (get_quote_by_payment_id id env w).1.tick) ≡ true
    → execute_testnet_payment e id env w
      ≡ reject
          (sanitize_provider_label q.provider)
          "quote_expired"
          id
          "routing_quote_expired"
          env
          (read_clock (get_quote_by_payment_id id env w).1)
unfolding execute_testnet_payment monad
expired_quote e id q env w h late = ground arith

fresh_quote :
    (e : Executor) (id : String) (q : Quote) (env : Env) (w : World)
    → (get_quote_by_payment_id id env w).0 ≡ ok (some q)
    → ltb q.expires_at (env.clock (get_quote_by_payment_id id env w).1.tick) ≡ false
    → execute_testnet_payment e id env w
      ≡ after_quote e id q env (read_clock (get_quote_by_payment_id id env w).1)
unfolding execute_testnet_payment monad
fresh_quote e id q env w h in_time = ground arith

-- The part behind the quote, from the world in which it is run.
after_quote-cases :
    (e : Executor) (id : String) (q : Quote) (env : Env) (w : World)
    → Quiet env
    → selected_quote id w.db ≡ some q
    → ltb q.expires_at (env.clock (suc w.tick)) ≡ false
    → SpendsNothing
        (record w { tick = suc (suc w.tick) })
        (after_quote e id q env (record w { tick = suc (suc w.tick) })).1
      ⊎ Cleared e id w env
unfolding ◌>>=◌
after_quote-cases e id q env w quiet picked in_time =
    let v : World = record w { tick = suc (suc w.tick) } in
    elim (Result-cases (fresh_terms e id q env v).0) [
      | inl (x, bad) ↦
          inl (onto v _ _ (ground arith) ((fresh_terms-SpendsNothing e id q).at env quiet v))
      | inr (terms, good) ↦
          let read = (fresh_terms-SpendsNothing e id q).at env quiet v in
          let u = (fresh_terms e id q env v).1 in
          let label = sanitize_provider_label q.provider in
          let (known, tick) = fresh_terms-Terms e id q env v terms quiet good in
          elim (check_and_start-cases e id q terms.0 terms.1 label env u quiet) [
            | inl nothing ↦ inl (
                onto v _ (check_and_start e id q terms.0 terms.1 label env u).1 (ground arith)
                  (SpendsNothing-relation.follows v u _ read nothing))
            | inr (there, within, small, built) ↦ inr (record {
              quote_row = q;
              amount = terms.0;
              fresh = terms.1;
              selected = picked;
              unexpired = in_time;
              terms = known;
              available = there;
              within_slippage = within;
              within_guardrail = below_guardrail e.max_amount_wei terms.0 small;
              built = subst (λ n. Built e q terms.1 n) tick built;
            })
          ]
    ]

-- Where no other actor writes meanwhile: ExecuteTestnetPayment creates no execution row, allocates no
-- nonce and sends nothing, unless the selected quote is not expired; the stored payment's amount in
-- wei is within the ceiling; the quote that the provider answered for this amount is available and
-- within the slippage tolerance; and what the provider's signer built of it is an envelope for the
-- configured chain and the pinned contract, with the amount of that quote.
pub execute_testnet_payment-Cleared :
    (e : Executor) (id : String) (env : Env) (w : World)
    → Quiet env
    → SpendsNothing w (execute_testnet_payment e id env w).1 ⊎ Cleared e id w env
execute_testnet_payment-Cleared e id env w quiet =
    let u = (get_quote_by_payment_id id env w).1 in
    let read = (get_quote-SpendsNothing id).at env quiet w in
    elim (Result-cases (get_quote_by_payment_id id env w).0) [
      | inl (x, bad) ↦ inl (onto w _ u (unread_quote e id env w x bad) read)
      | inr (none, e1) ↦ inl (onto w _ u (missing_quote e id env w e1) read)
      | inr (some q, e1) ↦
          let (picked, next) = quote-answer id env w (some q) quiet e1 in
          let ticked = SpendsNothing-relation.ticked w (suc (suc w.tick)) in
          elim (Bool-cases (ltb q.expires_at (env.clock u.tick))) [
            | inl late ↦ inl (
                onto w _ _ (ap (λ x. x.1) (expired_quote e id q env w e1 late)) (
                  SpendsNothing-relation.follows w (read_clock u) _
                    (SpendsNothing-relation.follows w u _ read (SpendsNothing-relation.ticked u _))
                    ((reject-SpendsNothing (sanitize_provider_label q.provider) "quote_expired" id
                        "routing_quote_expired").at
                      env quiet (read_clock u))))
            | inr in_time ↦
                elim (after_quote-cases e id q env w quiet (sym picked)
                  (ap (λ (x : World). ltb q.expires_at (env.clock x.tick)) (sym next) ∙ in_time)) [
                    | inl nothing ↦ inl (
                        onto w _ (after_quote e id q env (record w { tick = suc (suc w.tick) })).1
                          (ap (λ x. x.1)
                            (fresh_quote e id q env w e1 in_time
                              ∙ ap (λ (x : World). after_quote e id q env (read_clock x)) next))
                          (SpendsNothing-relation.follows w (record w { tick = suc (suc w.tick) }) _
                            ticked nothing))
                    | inr cleared ↦ inr cleared
                  ]
          ]
    ]
