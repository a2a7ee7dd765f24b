-- ===== src/Worker/Publisher.antt =====
-- publisher.go: one poll of the outbox.
use chain_route.Prelude.{ℕ, Bool, ◌∷◌, if◌then◌else◌}
use chain_route.Db.{OutboxRow}
use chain_route.World.{
  Message, M, pure, fail, external, emit, ◌>>=◌, ◌>>◌, publish_failed, events_published,
}
use chain_route.Store.Outbox.{publish_next_outbox_event}

-- The Kafka producer: whether the broker acknowledged the message, by tick.
pub record Publisher : Type 0 where
  pub publish : ℕ → Message → Bool

-- One call of the producer, recorded whatever its answer.
unfoldable pub produce : Publisher → Message → M Bool
produce p m env w =
    let (r, w') = external (λ n. p.publish n m) env w in
    (r, record w' { produced = m ∷ w'.produced })

-- The key is the payment's id, the value the stored payload.
unfoldable pub publish_event : Publisher → OutboxRow → M (Unit {0})
publish_event p evt = do
  acked ← produce p (record { key = evt.payment_id; value = evt.payload })
  if acked then pure tt else fail publish_failed

unfoldable pub poll_once : Publisher → M Bool
unfolding publish_event
poll_once p = do
  published ← publish_next_outbox_event (publish_event p)
  if published then emit events_published else pure tt
  pure published
