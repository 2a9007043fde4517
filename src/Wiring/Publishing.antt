-- ===== src/Wiring/Publishing.antt =====
-- cmd/api/main.go: the publisher on the repositories of PostgreSQL.
pub mod Spec
pub mod Fetched
pub mod Steps
pub mod Batch
pub mod Success
pub mod Atomic
use company_service.Common.{String, Option, some, List}
use company_service.Common.Int.{ℤ}
use company_service.Errors.{GoError}
use company_service.Action.{Action}
use company_service.Application.{Context, EventProducer}
use company_service.Json.{Codec}
use company_service.Postgres.{Postgres, World}
use company_service.Postgres.Tx.{transaction_manager}
use company_service.Postgres.Outbox.{fetch_pending, set_published, set_failed}
use company_service.Publisher.{OutboxRepository, Publisher, new_publisher}

-- A producer has its own part of the machine, the broker or the log, and touches no row.
abbrev pub on_broker : {Db M : Type 0} → EventProducer M → EventProducer (World Db M)
on_broker producer = record {
  publish = λ ctx event w.
      let (r, m) = producer.publish ctx event w.machine in (r, record w { machine = m });
  close = λ ctx w. let (r, m) = producer.close ctx w.machine in (r, record w { machine = m });
}

module _ (pg : Postgres) {M : Type 0} (codec : Codec) (text : GoError → String) where
  -- OutboxRepository, seen through the interface of the package outbox
  abbrev pub pending_repository : OutboxRepository (World pg.Db M)
  pending_repository = record {
    fetch_pending = fetch_pending pg M codec text;
    mark_published = set_published pg M codec text;
    mark_failed = set_failed pg M codec text;
  }

  -- `outboxPublisher` of main
  unfoldable pub app_publisher : EventProducer M → ℤ → ℤ → Publisher (World pg.Db M)
  app_publisher producer interval batch_size =
      new_publisher pending_repository (some (transaction_manager pg M text)) (on_broker producer)
        interval batch_size
