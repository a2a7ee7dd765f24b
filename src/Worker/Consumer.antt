-- ===== src/Worker/Consumer.antt =====
-- cmd/worker/main.go: runConsumeLoop, and the environment variables that are numbers. The consumer
-- group of kafka/consumer.go answers by the tick of the call; the waiting after a failed fetch is left
-- out.
use chain_route.Prelude.{ℕ, zero, suc, String, Bool, Option, none, some, List, [], ◌∷◌}
use chain_route.Payment.{RoutedPayment}
use chain_route.World.{Error, Result, ok, err, M, pure, attempt, ◌>>=◌, external}
use chain_route.Worker.Processor.{Processor, handle_routed_payment}

pub record KafkaMessage : Type 0 where
  pub offset : ℕ
  pub value : String

-- FetchMessage: a message, an error, or an error because the context is done.
pub data Fetch : Type 0 where
  fetched : KafkaMessage → Fetch
  fetch_failed cancelled : Fetch

pub record Consumer : Type 0 where
  pub fetch_message : ℕ → Fetch
  pub commit_messages : ℕ → ℕ → Bool

-- What one round of the loop did. A Boolean says whether the commit was acknowledged.
pub data Round : Type 0 where
  stopped retried : Round
  skipped : ℕ → Bool → Round
  not_committed : ℕ → RoutedPayment → Error → Round
  committed_after : ℕ → RoutedPayment → Bool → Round

-- json.Unmarshal of the message's value; `none` is its error.
unfoldable pub decode_event : String → M (Option RoutedPayment)
decode_event value env w = (ok (env.unmarshal_event value), w)

unfoldable pub after_handling : Consumer → ℕ → RoutedPayment → Result (Unit {0}) → M Round
after_handling c offset evt (err e) = pure (not_committed offset evt e)
after_handling c offset evt (ok _) = do
  acknowledged ← external (λ n. c.commit_messages n offset)
  pure (committed_after offset evt acknowledged)

unfoldable pub consume_decoded : Processor → Consumer → ℕ → Option RoutedPayment → M Round
unfolding after_handling
consume_decoded p c offset none = do
  acknowledged ← external (λ n. c.commit_messages n offset)
  pure (skipped offset acknowledged)
consume_decoded p c offset (some evt) = do
  handled ← attempt (handle_routed_payment p evt)
  after_handling c offset evt handled

unfoldable pub consume_fetched : Processor → Consumer → Fetch → M Round
unfolding consume_decoded decode_event
consume_fetched p c cancelled = pure stopped
consume_fetched p c fetch_failed = pure retried
consume_fetched p c (fetched msg) = do
  evt ← decode_event msg.value
  consume_decoded p c msg.offset evt

unfoldable pub consume_one : Processor → Consumer → M Round
unfolding consume_fetched
consume_one p c = do msg ← external c.fetch_message; consume_fetched p c msg

-- The loop returns where the context is done.
unfoldable pub then_go_on : M (List Round) → Round → M (List Round)
then_go_on rest stopped = pure (stopped ∷ [])
then_go_on rest r = do rs ← rest; pure (r ∷ rs)

-- The rounds of the loop, at most as many as the fuel: the loop itself ends when the context is done.
unfoldable pub run_consume_loop : ℕ → Processor → Consumer → M (List Round)
unfolding consume_one then_go_on
run_consume_loop zero p c = pure []
run_consume_loop (suc fuel) p c = consume_one p c >>= then_go_on (run_consume_loop fuel p c)
