-- ===== src/Wiring/System.antt =====
-- The running program: requests and ticks of the publisher, one transaction after the other in any
-- order, with the clock and the machine moving in between.
pub mod Careful
pub mod Invariants
pub mod Taken
use company_service.Common.{String}
use company_service.Common.Int.{ℤ}
use company_service.Errors.{GoError}
use company_service.Application.{EventProducer}
use company_service.Json.{Codec}
use company_service.Postgres.{Postgres, Machine, World}
use company_service.Postgres.Laws.{SameCompanies, SameOutbox}
use company_service.Publisher.{process_and_log}
use company_service.Wiring.{request_ctx}
use company_service.Wiring.Invariant.{Call, serve_call}
use company_service.Wiring.Publishing.{app_publisher}

module _ (pg : Postgres) (machine : Machine) (codec : Codec) (text : GoError → String)
    (producer : EventProducer machine.State) (interval batch_size : ℤ) where
  abbrev pub W : Type 0
  W = World pg.Db machine.State

  -- `outboxPublisher.Run` calls processAndLog, at first and at each tick.
  abbrev pub publish_batch : W → W
  publish_batch =
      process_and_log text (app_publisher pg codec text producer interval batch_size) request_ctx

  pub data Step (w : W) : W → Type 0 where
    serves : (call : Call) → Step w (serve_call pg machine codec text call w)
    publishes : Step w (publish_batch w)
    -- Outside the program: no row changes.
    moves :
        {w' : W}
        → SameCompanies pg w.committed w'.committed
        → SameOutbox pg w.committed w'.committed
        → Step w w'

  pub data Reach (w : W) : W → Type 0 where
    start : Reach w w
    later : {w1 w2 : W} → Reach w w1 → Step w1 w2 → Reach w w2
