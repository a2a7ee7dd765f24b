-- ===== src/Worker/Publishing.antt =====
-- publisher.go and store.go: a poll of the outbox and the broker's acknowledgement.
use chain_route.Prelude.{
  suc, String, true, some, ◌∷◌, ◌≡◌, arith, ◌⊎◌, inl, inr, Option-cases, Bool-cases,
}
use mathlib.Core.Option
use chain_route.Payment.{Time}
use chain_route.Db.Table.{modify}
use chain_route.Db.{Db, OutboxRow}
use chain_route.World.{World, Env, Message, monad}
use chain_route.Store.Outbox.{
  outbox_key, published_row, next_event, claim_event_stmt, mark_published_stmt,
  publish_next_outbox_event,
}
use chain_route.Worker.Publisher.{Publisher, produce, publish_event, poll_once}
use chain_route.Worker.Checked.{Quiet}
use chain_route.Worker.Fresh.{fault-cases}

abbrev pub message_of : OutboxRow → Message
message_of evt = record { key = evt.payment_id; value = evt.payload }

-- Where no other actor writes meanwhile, PollOnce leaves the database as it is, unless the broker has
-- acknowledged the oldest event that could be claimed, which is then also what was produced.
pub poll_once-acked :
    (p : Publisher) (env : Env) (w : World)
    → Quiet env
    → ((poll_once p env w).1.db ≡ w.db)
      ⊎ ((evt : OutboxRow) × (next_event (env.locked w.tick) w.db ≡ some evt)
          × (p.publish (suc w.tick) (message_of evt) ≡ true)
          × ((poll_once p env w).1.produced ≡ message_of evt ∷ w.produced))
unfolding poll_once publish_event produce publish_next_outbox_event claim_event_stmt
    mark_published_stmt monad
poll_once-acked p env w quiet = elim (fault-cases (env.fault w.tick)) [
  | inr (inl x) ↦ inl (ground (arith, quiet.still w.tick w.db))
  | inr (inr x) ↦ inl (ground (arith, quiet.still w.tick w.db))
  | inl x ↦ elim (Option-cases (next_event (env.locked w.tick) w.db)) [
    | inl idle ↦ inl (ground (arith, quiet.still w.tick w.db))
    | inr (evt, e1) ↦ elim (Bool-cases (p.publish (suc w.tick) (message_of evt))) [
      | inr refused ↦ inl (ground (arith, quiet.still w.tick w.db))
      | inl acked ↦ elim (fault-cases (env.fault (suc (suc w.tick)))) [
        | inl y ↦ inr (evt, e1, acked, ground (arith, quiet.still w.tick w.db))
        | inr (inl y) ↦ inr (evt, e1, acked, ground (arith, quiet.still w.tick w.db))
        | inr (inr y) ↦ inr (evt, e1, acked, ground (arith, quiet.still w.tick w.db))
      ]
    ]
  ]
]

abbrev published_db : String → Time → Db → Db
published_db id t d = record d { outbox = modify outbox_key id (published_row t) d.outbox }
