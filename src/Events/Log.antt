-- ===== src/Events/Log.antt =====
-- A batch of the publisher with the producer that writes into the log.
use company_service.Common.{ℕ, ◌≡◌, String, List, [], ◌∷◌}
use company_service.Common.Int.{ℤ}
use company_service.Errors.{GoError}
use company_service.Application.{OutboxEvent}
use company_service.Json.{Codec}
use company_service.Postgres.{Postgres, World}
use company_service.Postgres.Laws.{PostgresLaws, published_row}
use company_service.Postgres.Pending.{PendingLaws}
use company_service.Publisher.{Publisher, process_batch}
use company_service.Wiring.{request_ctx, tx_ctx}
use company_service.Wiring.Atomic.{Commits, Commits-mono}
use company_service.Wiring.Publishing.{app_publisher}
use company_service.Wiring.Publishing.Spec.{Each}
use company_service.Wiring.Publishing.Fetched.{IsFetch}
use company_service.Wiring.Publishing.Atomic.{BatchSpec, process_batch-Commits}
use company_service.Events.{Logger, log_publish, log_producer}

module _ (pg : Postgres) where
  -- The row of each event is published.
  abbrev pub AllPublished : List OutboxEvent → pg.Db → pg.Db → Type 0
  AllPublished [] db db' = Unit
  AllPublished (e ∷ events) db db' =
      ((t : ℕ) × (pg.outbox_at db' e.id ≡ published_row pg t (pg.outbox_at db e.id)))
      × AllPublished events db db'

  module _ (codec : Codec) (text : GoError → String) {M : Type 0} (logger : Logger M) where
    Each-AllPublished :
        (events : List OutboxEvent) (m : M) (db db' : pg.Db)
        → Each pg text (log_producer codec logger) events m db db'
        → AllPublished events db db'
    unfolding log_publish
    Each-AllPublished [] m db db' h = tt
    Each-AllPublished (e ∷ events) m db db' (here, h) =
        (here, Each-AllPublished events ((log_publish codec logger tx_ctx e.event m).1) db db' h)

  -- What a batch with the log producer promises.
  pub record Logged (codec : Codec) (limit : ℕ) (db db' : pg.Db) : Type 0 where
    pub events : List OutboxEvent
    pub fetched : IsFetch pg codec limit db events
    pub published : AllPublished events db db'

module _ (pg : Postgres) (laws : PostgresLaws pg) (pending : PendingLaws pg) (codec : Codec)
    (text : GoError → String) {M : Type 0} (logger : Logger M) (interval batch_size : ℤ) where
  abbrev p : Publisher (World pg.Db M)
  p = app_publisher pg codec text (log_producer codec logger) interval batch_size

  -- With the producer that writes into the log, a batch that succeeds has marked every event that it
  -- took published: none is left to be tried again. An error leaves the committed rows as they were,
  -- unless it is the error of Commit, which may leave what a success leaves.
  pub log_producer-process_batch :
      (w : World pg.Db M)
      → Commits pg {M = M} {A = Unit}
          (λ _ db db'. Logged pg codec p.batch db db')
          w
          (process_batch text p request_ctx w)
  log_producer-process_batch w =
      Commits-mono pg
        (λ _ db db'. BatchSpec pg codec text (log_producer codec logger) p.batch w.machine db db')
        (λ _ db db'. Logged pg codec p.batch db db') w (process_batch text p request_ctx w)
        (λ _ db db' batch. record {
          events = batch.events;
          fetched = batch.fetched;
          published =
              Each-AllPublished pg codec text logger batch.events w.machine db db' batch.done.each;
        })
        (process_batch-Commits pg laws pending codec text (log_producer codec logger) interval
          batch_size w)
