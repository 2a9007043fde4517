-- ===== src/Publisher.antt =====
-- internal/infrastructure/outbox/publisher.go: it takes the pending events out of the outbox, hands
-- them to the producer and marks them. The log lines are not modelled.
pub mod Running
use Prim.Native.String.{◌++◌}
use company_service.Common.{ℕ, ◌*◌, ◌^◌, String, Option, none, some, List, [], ◌∷◌, if◌then◌else◌}
use company_service.Common.Int.{ℤ, pos, pos_part, leb_ℤ}
use company_service.Errors.{GoError, wrap}
use company_service.Action.{Result, ok, err, Action, pure, wrapping, ◌>>=◌, ◌>>◌, attempt}
use company_service.Domain.{Uuid}
use company_service.Application.{Context, OutboxEvent, EventProducer, TransactionRunner}

-- The interface Repository of the package outbox
pub record OutboxRepository (S : Type 0) : Type 0 where
  pub fetch_pending : Context → ℕ → Action S (List OutboxEvent)
  pub mark_published : Context → Uuid → Action S Unit
  pub mark_failed : Context → Uuid → GoError → Action S Unit

-- A `time.Duration` is a number of nanoseconds.
pub record Publisher (S : Type 0) : Type 0 where
  pub repo : OutboxRepository S
  pub tx : Option (TransactionRunner S Unit)
  pub producer : EventProducer S
  pub interval : ℤ
  pub batch : ℕ

-- What ends the wait of the `select` in Run: the context is done, or the ticker has ticked. Where
-- both are ready, either may be taken.
pub data Signal : Type 0 where
  done tick : Signal

abbrev pub two_seconds : ℤ
two_seconds = pos (2 * 10 ^ 9)

module _ {S : Type 0} where
  -- NewPublisher
  unfoldable pub new_publisher :
      OutboxRepository S → Option (TransactionRunner S Unit) → EventProducer S → ℤ → ℤ → Publisher S
  new_publisher repo tx producer interval batch_size = record {
    repo = repo;
    tx = tx;
    producer = producer;
    interval = if leb_ℤ interval (pos 0) then two_seconds else interval;
    batch = pos_part (if leb_ℤ batch_size (pos 0) then pos 10 else batch_size);
  }

module _ {S : Type 0} (text : GoError → String) (p : Publisher S) where
  -- What the loop does with the answer of the producer.
  unfoldable pub settle : Context → OutboxEvent → Result (Unit {0}) → Action S Unit
  settle ctx event (err e) =
      wrapping ("mark outbox event failed after publish error " ++ (text e ++ ": "))
        (p.repo.mark_failed ctx event.id e)
  settle ctx event (ok _) = p.repo.mark_published ctx event.id

  -- The loop of processBatch
  unfoldable pub process_events : Context → List OutboxEvent → Action S Unit
  process_events ctx [] = pure tt
  process_events ctx (event ∷ events) =
      attempt (p.producer.publish ctx event.event) (settle ctx event) >>= λ _.
      process_events ctx events

  -- processBatch
  unfoldable pub process_in_tx : Context → Action S Unit
  process_in_tx ctx = p.repo.fetch_pending ctx p.batch >>= process_events ctx

  -- ProcessBatch
  unfoldable pub process_batch : Context → Action S Unit
  process_batch ctx = elim p.tx [
    | none ↦ process_in_tx ctx
    | some tx ↦ tx.within_transaction ctx process_in_tx
  ]

  -- processAndLog
  unfoldable pub process_and_log : Context → S → S
  process_and_log ctx s = (process_batch ctx s).1

  -- The loop of Run, over the signals in the order in which it takes them; at the end of the list it
  -- waits.
  unfoldable pub run_loop : Context → List Signal → S → S
  run_loop ctx [] s = s
  run_loop ctx (done ∷ signals) s = s
  run_loop ctx (tick ∷ signals) s = run_loop ctx signals (process_and_log ctx s)

  -- Run
  unfoldable pub run : Context → List Signal → S → S
  run ctx signals s = run_loop ctx signals (process_and_log ctx s)
