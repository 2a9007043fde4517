-- ===== src/Postgres/Outbox.antt =====
-- outbox_repository.go: the repository of outbox events.
use company_service.Common.{ℕ, String, none, some, List, [], ◌∷◌}
use company_service.Errors.{GoError, wrap}
use company_service.Action.{Result, ok, err, Action, pure, lift, wrapping, check, ◌>>=◌, ◌>>◌}
use company_service.Domain.{Uuid}
use company_service.Application.{Context, Event, OutboxEvent, OutboxStore}
use company_service.Json.{Json, Codec}
use company_service.Json.Events.{marshal_event, unmarshal_event}
use company_service.Postgres.{
  Postgres, World, Rows, closed, next, Statement, insert_outbox_event, mark_published, mark_failed,
  select_pending, on_executor, asked,
}

module _ (codec : Codec) where
  -- The loop of FetchPending; the first error ends it.
  unfoldable pub read_rows : Rows → Result (List OutboxEvent)
  read_rows (closed none) = ok []
  read_rows (closed (some e)) = err (wrap "iterate outbox events: " e)
  read_rows (next (err e) rows) = err (wrap "scan outbox event: " e)
  read_rows (next (ok row) rows) = elim (unmarshal_event codec row.payload) [
    | err e ↦ err (wrap "unmarshal outbox event payload: " e)
    | ok event ↦ elim (read_rows rows) [
      | err e ↦ err e
      | ok events ↦ ok (record { id = row.id; event = event; attempts = row.attempts } ∷ events)
    ]
  ]

module _ (pg : Postgres) (M : Type 0) (codec : Codec) (text : GoError → String) where
  abbrev build : String → Statement → Action (World pg.Db M) Unit
  build prefix st = wrapping prefix (check (pg.build_error st))

  abbrev insert : Event → Json → Statement
  insert event payload =
      insert_outbox_event event.id event.event_type event.company_id payload event.occurred_at

  unfoldable pub store : Context → Event → Action (World pg.Db M) Unit
  unfolding on_executor
  store ctx event = do
    payload ← wrapping "marshal outbox event: " (lift (marshal_event codec event))
    build "build store outbox event query: " (insert event payload)
    affected ← wrapping "store outbox event: " (on_executor ctx (pg.exec (insert event payload)))
    pure tt

  unfoldable pub fetch_pending : Context → ℕ → Action (World pg.Db M) (List OutboxEvent)
  unfolding asked
  fetch_pending ctx limit = do
    build "build fetch pending outbox events query: " (select_pending limit)
    rows ←
        wrapping "fetch pending outbox events: "
          (asked ctx (pg.query_pending (select_pending limit)))
    lift (read_rows codec rows)

  unfoldable pub set_published : Context → Uuid → Action (World pg.Db M) Unit
  unfolding on_executor
  set_published ctx id = do
    build "build mark outbox event published query: " (mark_published id)
    affected ←
        wrapping "mark outbox event published: " (on_executor ctx (pg.exec (mark_published id)))
    pure tt

  unfoldable pub set_failed : Context → Uuid → GoError → Action (World pg.Db M) Unit
  unfolding on_executor
  set_failed ctx id publish_err = do
    build "build mark outbox event failed query: " (mark_failed id (text publish_err))
    affected ←
        wrapping "mark outbox event failed: "
          (on_executor ctx (pg.exec (mark_failed id (text publish_err))))
    pure tt

  unfoldable pub outbox_repository : OutboxStore (World pg.Db M)
  outbox_repository = record { store = store }
