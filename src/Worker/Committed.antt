-- ===== src/Worker/Committed.antt =====
-- cmd/worker/main.go, runConsumeLoop: the payments whose events have been committed.
use chain_route.Prelude.{
  ℕ, zero, suc, String, Option, none, some, List, [], ◌∷◌, ◌≡◌, refl, sym, ap, ◌∙◌, subst, All,
}
use chain_route.Payment.{RoutedPayment}
use chain_route.Db.{Db}
use chain_route.World.{World, Env, Result, ok, err, M, pure, attempt, external, ◌>>=◌}
use chain_route.World.Rules.{Keeps-bind, Keeps-pure}
use chain_route.Store.Evolution.{Evolves, Evolves-refl, Fair, OnDb-relation}
use chain_route.Store.Evolution.Methods.{Safe, store_rules}
use chain_route.World.Answers.{bind-ok, ok-injective}
use chain_route.Worker.Executor.Checks.{Executor}
use chain_route.Worker.Processor.{handle_routed_payment}
use chain_route.Worker.Service.{processor_of, handle_routed_payment-Safe}
use chain_route.Worker.Consumed.{
  Claimed, Exists, Exists-Evolves, Claimed-Evolves, handle_routed_payment-Claimed,
}
use chain_route.Worker.Consumer.{
  Fetch, fetched, fetch_failed, cancelled, Consumer, Round, stopped, retried, skipped,
  not_committed, committed_after, decode_event, after_handling, consume_decoded, consume_fetched,
  consume_one, then_go_on, run_consume_loop,
}

-- If a round commits an event after it was handled, and its payment was there before, some worker has
-- claimed the payment.
abbrev pub Honest : Db → Db → Round → Type 0
Honest before d (committed_after offset evt acked) =
    Exists evt.payment_id before → Claimed evt.payment_id d
Honest before d _ = Unit

Honest-Evolves :
    (a b c d : Db) (r : Round) → Evolves a b → Evolves c d → Honest b c r → Honest a d r
Honest-Evolves a b c d stopped e f h = tt
Honest-Evolves a b c d retried e f h = tt
Honest-Evolves a b c d (skipped o k) e f h = tt
Honest-Evolves a b c d (not_committed o evt x) e f h = tt
Honest-Evolves a b c d (committed_after o evt k) e f h =
    λ there. Claimed-Evolves evt.payment_id c d f (h (Exists-Evolves evt.payment_id a b e there))

after_handling-Safe :
    (c : Consumer) (o : ℕ) (evt : RoutedPayment) (r : Result (Unit {0}))
    → Safe (after_handling c o evt r)
unfolding after_handling
after_handling-Safe c o evt (err e) = Keeps-pure OnDb-relation _
after_handling-Safe c o evt (ok x) = search store_rules

consume_decoded-Safe :
    (e : Option Executor) (c : Consumer) (o : ℕ) (evt : Option RoutedPayment)
    → Safe (consume_decoded (processor_of e) c o evt)
unfolding consume_decoded
consume_decoded-Safe e c o none = search store_rules
consume_decoded-Safe e c o (some evt) =
    search (store_rules, after_handling-Safe, handle_routed_payment-Safe)

decode_event-Safe : (value : String) → Safe (decode_event value)
unfolding decode_event
decode_event-Safe value = record { at = λ env fair w. record { evolves = Evolves-refl w.db } }

consume_fetched-Safe :
    (e : Option Executor) (c : Consumer) (f : Fetch) → Safe (consume_fetched (processor_of e) c f)
unfolding consume_fetched
consume_fetched-Safe e c cancelled = Keeps-pure OnDb-relation _
consume_fetched-Safe e c fetch_failed = Keeps-pure OnDb-relation _
consume_fetched-Safe e c (fetched msg) =
    search (store_rules, decode_event-Safe, consume_decoded-Safe)

consume_one-Safe : (e : Option Executor) (c : Consumer) → Safe (consume_one (processor_of e) c)
unfolding consume_one
consume_one-Safe e c = search (store_rules, consume_fetched-Safe)

then_go_on-Safe : (m : M (List Round)) (r : Round) → Safe m → Safe (then_go_on m r)
unfolding then_go_on
then_go_on-Safe m stopped k = Keeps-pure OnDb-relation _
then_go_on-Safe m retried k = search store_rules
then_go_on-Safe m (skipped o b) k = search store_rules
then_go_on-Safe m (not_committed o evt x) k = search store_rules
then_go_on-Safe m (committed_after o evt b) k = search store_rules

run_consume_loop-Safe :
    (fuel : ℕ) (e : Option Executor) (c : Consumer)
    → Safe (run_consume_loop fuel (processor_of e) c)
unfolding run_consume_loop
run_consume_loop-Safe zero e c = Keeps-pure OnDb-relation []
run_consume_loop-Safe (suc fuel) e c =
    Keeps-bind OnDb-relation _ _ (consume_one-Safe e c)
      (λ r. then_go_on-Safe _ r (run_consume_loop-Safe fuel e c))

-- The same of what a round returns.
abbrev Says : Db → Db → Result Round → Type 0
Says before d (err x) = Unit
Says before d (ok r) = Honest before d r

after_handling-Says :
    (c : Consumer) (o : ℕ) (evt : RoutedPayment) (env : Env) (before : Db) (r : Result (Unit {0}))
    (w : World)
    → (r ≡ ok tt → Exists evt.payment_id before → Claimed evt.payment_id w.db)
    → Says before (after_handling c o evt r env w).1.db (after_handling c o evt r env w).0
unfolding after_handling external pure ◌>>=◌
after_handling-Says c o evt env before (err x) w h = tt
after_handling-Says c o evt env before (ok tt) w h = h refl

consume_decoded-Says :
    (e : Option Executor) (c : Consumer) (o : ℕ) (evt : Option RoutedPayment) (env : Env)
    (w : World)
    → Fair env
    → Says w.db
        (consume_decoded (processor_of e) c o evt env w).1.db
        (consume_decoded (processor_of e) c o evt env w).0
unfolding consume_decoded external attempt pure ◌>>=◌
consume_decoded-Says e c o none env w fair = tt
consume_decoded-Says e c o (some evt) env w fair =
    after_handling-Says c o evt env w.db (handle_routed_payment (processor_of e) evt env w).0 _
      (λ done there. handle_routed_payment-Claimed e evt env w fair there done)

consume_fetched-Says :
    (e : Option Executor) (c : Consumer) (f : Fetch) (env : Env) (w : World)
    → Fair env
    → Says w.db
        (consume_fetched (processor_of e) c f env w).1.db
        (consume_fetched (processor_of e) c f env w).0
unfolding consume_fetched decode_event pure ◌>>=◌
consume_fetched-Says e c cancelled env w fair = tt
consume_fetched-Says e c fetch_failed env w fair = tt
consume_fetched-Says e c (fetched msg) env w fair =
    consume_decoded-Says e c msg.offset (env.unmarshal_event msg.value) env w fair

consume_one-Honest :
    (e : Option Executor) (c : Consumer) (env : Env) (w : World) (r : Round)
    → Fair env
    → (consume_one (processor_of e) c env w).0 ≡ ok r
    → Honest w.db (consume_one (processor_of e) c env w).1.db r
unfolding consume_one external ◌>>=◌
consume_one-Honest e c env w r fair h =
    subst (λ x. Says w.db (consume_one (processor_of e) c env w).1.db x) h
      (consume_fetched-Says e c (c.fetch_message w.tick) env (record w { tick = suc w.tick }) fair)

All-Evolves :
    (a b c d : Db) (rs : List Round)
    → Evolves a b
    → Evolves c d
    → All (Honest b c) rs
    → All (Honest a d) rs
All-Evolves a b c d [] e f h = tt
All-Evolves a b c d (r ∷ rs) e f h =
    (Honest-Evolves a b c d r e f h.0, All-Evolves a b c d rs e f h.1)

-- The first round, and the rounds behind it.
module _ (m : M (List Round)) (a : Db) (r : Round) (env : Env) (w : World) (rs : List Round)
    (fair : Fair env) (safe : Safe m) (e : Evolves a w.db) (honest : Honest a w.db r)
    (rest : (ss : List Round) → (m env w).0 ≡ ok ss → All (Honest w.db (m env w).1.db) ss) where
  cons_round : M (List Round)
  cons_round = do ss ← m; pure (r ∷ ss)

  cons_round-Honest : (cons_round env w).0 ≡ ok rs → All (Honest a (cons_round env w).1.db) rs
  unfolding cons_round pure
  cons_round-Honest h =
      let (ss, got, done) = bind-ok m (λ ss. pure (r ∷ ss)) env w rs h in
      let later = (safe.at env fair w).evolves in
      subst (λ x. All (Honest a x.1.db) rs) (sym done)
        (subst (λ x. All (Honest a (m env w).1.db) x)
          (ok-injective (r ∷ ss) rs (ap (λ x. x.0) (sym done) ∙ h))
          (
            Honest-Evolves a a w.db (m env w).1.db r (Evolves-refl a) later honest,
            All-Evolves a w.db (m env w).1.db (m env w).1.db ss e (Evolves-refl (m env w).1.db)
                (rest ss got),
          ))

then_go_on-Honest :
    (m : M (List Round)) (a : Db) (r : Round) (env : Env) (w : World) (rs : List Round)
    → Fair env
    → Safe m
    → Evolves a w.db
    → Honest a w.db r
    → ((ss : List Round) → (m env w).0 ≡ ok ss → All (Honest w.db (m env w).1.db) ss)
    → (then_go_on m r env w).0 ≡ ok rs
    → All (Honest a (then_go_on m r env w).1.db) rs
unfolding then_go_on cons_round pure
then_go_on-Honest m a stopped env w rs fair safe e honest rest h =
    subst (λ x. All (Honest a w.db) x) (ok-injective (stopped ∷ []) rs h) (tt, tt)
then_go_on-Honest m a retried env w rs fair safe e honest rest h =
    cons_round-Honest m a retried env w rs fair safe e honest rest h
then_go_on-Honest m a (skipped o b) env w rs fair safe e honest rest h =
    cons_round-Honest m a (skipped o b) env w rs fair safe e honest rest h
then_go_on-Honest m a (not_committed o evt x) env w rs fair safe e honest rest h =
    cons_round-Honest m a (not_committed o evt x) env w rs fair safe e honest rest h
then_go_on-Honest m a (committed_after o evt b) env w rs fair safe e honest rest h =
    cons_round-Honest m a (committed_after o evt b) env w rs fair safe e honest rest h

-- Whatever happens to the database and whatever Kafka answers, in fair company: at the end of any
-- number of rounds of the consume loop, every payment that was there at the start and whose event was
-- committed after it was handled is not ROUTED any more.
pub run_consume_loop-Honest :
    (fuel : ℕ) (e : Option Executor) (c : Consumer) (env : Env) (w : World) (rs : List Round)
    → Fair env
    → (run_consume_loop fuel (processor_of e) c env w).0 ≡ ok rs
    → All (Honest w.db (run_consume_loop fuel (processor_of e) c env w).1.db) rs
unfolding run_consume_loop pure
run_consume_loop-Honest zero e c env w rs fair h =
    subst (λ x. All (Honest w.db w.db) x) (ok-injective [] rs h) tt
run_consume_loop-Honest (suc fuel) e c env w rs fair h =
    let one = consume_one (processor_of e) c in
    let loop = run_consume_loop fuel (processor_of e) c in
    let (r, got, rest) = bind-ok one (then_go_on loop) env w rs h in
    subst (λ x. All (Honest w.db x.1.db) rs) (sym rest)
      (then_go_on-Honest loop w.db r env (one env w).1 rs fair (run_consume_loop-Safe fuel e c)
        ((consume_one-Safe e c).at env fair w).evolves (consume_one-Honest e c env w r fair got)
        (λ ss. run_consume_loop-Honest fuel e c env (one env w).1 ss fair)
        (ap (λ x. x.0) (sym rest) ∙ h))
