-- ===== src/Wiring/Publishing/Success.antt =====
-- When ProcessBatch succeeds, with a producer that takes every event.
use company_service.Common.{ℕ, ◌≡◌, refl, String, List, [], ◌∷◌}
use company_service.Common.Int.{ℤ}
use company_service.Errors.{GoError}
use company_service.Action.{Result, ok, err, attempt}
use company_service.Action.Inversion.{>>=_after_ok}
use company_service.Application.{OutboxEvent, EventProducer}
use company_service.Json.{Codec}
use company_service.Postgres.{Postgres, World, Rows, select_pending}
use company_service.Postgres.Available.{Available}
use company_service.Postgres.Tx.{transaction_manager}
use company_service.Postgres.Outbox.{read_rows, fetch_pending, set_published}
use company_service.Publisher.{
  Publisher, settle, process_events, process_in_tx, process_batch, new_publisher,
}
use company_service.Wiring.{request_ctx, tx_ctx}
use company_service.Wiring.Reachable.{within_transaction_succeeds}
use company_service.Wiring.Publishing.{app_publisher}
use company_service.Wiring.Draining.Published.{TakesAll}

module _ (pg : Postgres) (up : Available pg) (codec : Codec) (text : GoError → String) {M : Type 0}
    (producer : EventProducer M) (takes : TakesAll producer) (interval batch_size : ℤ) where
  abbrev p : Publisher (World pg.Db M)
  p = app_publisher pg codec text producer interval batch_size

  settle_succeeds :
      (e : OutboxEvent) (r : Result (Unit {0})) (w : World pg.Db M)
      → r ≡ ok tt
      → (settle text p tx_ctx e r w).0 ≡ ok tt
  unfolding settle app_publisher new_publisher set_published
  settle_succeeds e (ok _) w taken =
      let (n, ran) = up.marks_published w.working e.id in rw (up.builds _) (rw ran refl)
  settle_succeeds e (err publish_err) w taken = cc

  process_events_succeeds :
      (events : List OutboxEvent) (w : World pg.Db M)
      → (process_events text p tx_ctx events w).0 ≡ ok tt
  unfolding process_events app_publisher new_publisher
  process_events_succeeds [] w = refl
  process_events_succeeds (e ∷ events) w =
      let (r, m) = producer.publish tx_ctx e.event w.machine in
      let w1 : World pg.Db M = (settle text p tx_ctx e r (record w { machine = m })).1 in
      rw
        (>>=_after_ok (attempt (p.producer.publish tx_ctx e.event) (settle text p tx_ctx e))
          (λ _. process_events text p tx_ctx events) w tt
          (settle_succeeds e r (record w { machine = m }) (takes.at tx_ctx e.event w.machine)))
        (process_events_succeeds events w1)

  fetch_pending_succeeds :
      (limit : ℕ) (w : World pg.Db M) (rows : Rows) (events : List OutboxEvent)
      → pg.query_pending (select_pending limit) w.working ≡ ok rows
      → read_rows codec rows ≡ ok events
      → (fetch_pending pg M codec text tx_ctx limit w).0 ≡ ok events
  unfolding fetch_pending
  fetch_pending_succeeds limit w rows events answered read =
      rw (up.builds _, answered) (rw read refl)

  -- With a database that is reachable and a producer that takes every event, ProcessBatch succeeds
  -- whenever the rows that are due can be read and decoded.
  pub process_batch_succeeds :
      (w : World pg.Db M) (rows : Rows) (events : List OutboxEvent)
      → pg.query_pending (select_pending p.batch) w.committed ≡ ok rows
      → read_rows codec rows ≡ ok events
      → (process_batch text p request_ctx w).0 ≡ ok tt
  unfolding process_batch process_in_tx app_publisher new_publisher transaction_manager
  process_batch_succeeds w rows events answered read =
      let opened : World pg.Db M = record w { working = w.committed } in
      within_transaction_succeeds pg up text (process_in_tx text p) w tt (
        rw
          (>>=_after_ok (fetch_pending pg M codec text tx_ctx p.batch)
            (process_events text p tx_ctx) opened events
            (fetch_pending_succeeds p.batch opened rows events answered read))
          (process_events_succeeds events (fetch_pending pg M codec text tx_ctx p.batch opened).1))
