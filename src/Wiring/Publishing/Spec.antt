-- ===== src/Wiring/Publishing/Spec.antt =====
-- What a batch of the publisher promises of the rows.
use company_service.Common.{ℕ, ◌≡◌, ◌≢◌, String, Option, List, [], ◌∷◌, nat_eq, if◌then◌else◌}
use company_service.Errors.{GoError}
use company_service.Action.{Result, ok, err}
use company_service.Domain.{Uuid}
use company_service.Application.{OutboxEvent, EventProducer}
use company_service.Postgres.{OutboxRow, Postgres}
use company_service.Postgres.Laws.{SameCompanies, published_row, failed_row}
use company_service.Wiring.{tx_ctx}

-- No event of the list has the identifier.
abbrev pub Fresh : Uuid → List OutboxEvent → Type 0
Fresh id [] = Unit
Fresh id (e ∷ events) = (e.id ≢ id) × Fresh id events

abbrev pub Distinct : List OutboxEvent → Type 0
Distinct [] = Unit
Distinct (e ∷ events) = Fresh e.id events × Distinct events

module _ {M : Type 0} (producer : EventProducer M) where
  -- The producer is given the events, one after the other, whether it took the ones before or not.
  abbrev pub given : List OutboxEvent → M → M
  given [] m = m
  given (e ∷ events) m = given events (producer.publish tx_ctx e.event m).1

module _ (pg : Postgres) (text : GoError → String) where
  -- The row of an event after the producer's answer: published, or to be tried again later.
  abbrev pub settled : ℕ → Result (Unit {0}) → Option OutboxRow → Option OutboxRow
  settled t (ok _) row = published_row pg t row
  settled t (err e) row = failed_row pg t (text e) row

  -- Of the outbox one row changed.
  pub record Settled (id : Uuid) (r : Result (Unit {0})) (db db' : pg.Db) : Type 0 where
    pub instant : ℕ
    pub companies : SameCompanies pg db db'
    pub rows :
        (i : Uuid)
        → pg.outbox_at db' i
          ≡ (if nat_eq id i then settled instant r (pg.outbox_at db id) else pg.outbox_at db i)

  module _ {M : Type 0} (producer : EventProducer M) where
    -- Each event's row is settled by the answer that the producer gave for it.
    abbrev pub Each : List OutboxEvent → M → pg.Db → pg.Db → Type 0
    Each [] m db db' = Unit
    Each (e ∷ events) m db db' =
        ((t : ℕ) × (pg.outbox_at db' e.id
            ≡ settled t (producer.publish tx_ctx e.event m).0 (pg.outbox_at db e.id)))
        × Each events (producer.publish tx_ctx e.event m).1 db db'

    -- A batch of these events was settled, and nothing else changed.
    pub record Batched (events : List OutboxEvent) (m : M) (db db' : pg.Db) : Type 0 where
      pub companies : SameCompanies pg db db'
      pub others : (i : Uuid) → Fresh i events → pg.outbox_at db' i ≡ pg.outbox_at db i
      pub each : Each events m db db'
