-- ===== src/Store/Outbox.antt =====
-- store.go: the transactional outbox. PublishNextOutboxEvent claims the oldest unpublished row that
-- no other transaction has locked, publishes it, and marks it published in the same transaction.
use chain_route.Prelude.{
  String, Bool, true, false, ◌&&◌, Option, none, some, ltb, if◌then◌else◌, is_some,
}
use chain_route.Payment.{Time}
use chain_route.Db.{Db, OutboxRow}
use chain_route.Db.Table.{first, modify, order_by}
use chain_route.World.{ok, Statement, M, pure, ◌>>=◌, ◌>>◌, statement}

abbrev pub outbox_key : OutboxRow → String
outbox_key r = r.id

abbrev pub is_unpublished : OutboxRow → Bool
is_unpublished r = if is_some r.published_at then false else true

-- WHERE published_at IS NULL, and SKIP LOCKED.
abbrev pub is_claimable : (String → Bool) → OutboxRow → Bool
is_claimable locked r = is_unpublished r && (if locked r.id then false else true)

abbrev pub older : OutboxRow → OutboxRow → Bool
older a b = ltb a.created_at b.created_at

unfoldable pub next_event : (String → Bool) → Db → Option OutboxRow
next_event locked d = first (is_claimable locked) (order_by older d.outbox)

unfoldable pub claim_event_stmt : Statement (Option OutboxRow)
claim_event_stmt env n d = (ok (next_event (env.locked n) d), d)

abbrev pub published_row : Time → OutboxRow → OutboxRow
published_row t r = record r { published_at = some t }

unfoldable pub mark_published_stmt : String → Statement (Unit {0})
mark_published_stmt id env n d =
    (ok tt, record d { outbox = modify outbox_key id (published_row (env.clock n)) d.outbox })

-- `false`: there was nothing to claim.
unfoldable pub publish_next_outbox_event : (OutboxRow → M (Unit {0})) → M Bool
publish_next_outbox_event publish = do
  claimed ← statement claim_event_stmt
  elim claimed [
    | none ↦ pure false
    | some evt ↦ do publish evt; statement (mark_published_stmt evt.id); pure true
  ]
