-- ===== src/Startup.antt =====
-- cmd/api/main.go: the start of the program, up to the point where the server and the publisher run.
pub mod Ready
pub mod Process
pub mod Tokens
use company_service.Common.{ℕ, String, some, List}
use company_service.Errors.{GoError}
use company_service.Action.{Result, ok, err}
use company_service.Application.{Context, EventProducer}
use company_service.Json.{Codec}
use company_service.Service.{Service}
use company_service.Postgres.{Postgres, Machine, World}
use company_service.Postgres.Pool.{PoolLibrary, new_pool}
use company_service.Publisher.{Publisher}
use company_service.Config.{Config, load}
use company_service.Events.{WriterSettings, KafkaWriter, Logger, new_producer}
use company_service.Wiring.{app_service}
use company_service.Wiring.Publishing.{app_publisher}

-- What runs after the start.
pub record App (S M P : Type 0) : Type 0 where
  pub config : Config
  pub pool : P
  pub producer : EventProducer M
  pub service : Service S
  pub jwt_secret : String
  pub publisher : Publisher S

-- `logger.Fatal()` ends the process.
pub data Start (S M P : Type 0) : Type 0 where
  fatal : String → Start S M P
  started : App S M P → Start S M P

module _ (pg : Postgres) (machine : Machine) (codec : Codec) (text : GoError → String)
    {O P : Type 0} (pools : PoolLibrary O P (World pg.Db machine.State))
    (open_writer : WriterSettings → KafkaWriter machine.State) (quote : String → String)
    (logger : Logger machine.State) (float_part : (f unit k : ℕ) → ℕ) (getenv : String → String)
    (ctx : Context) where
  abbrev pub W : Type 0
  W = World pg.Db machine.State

  -- main behind NewProducer
  unfoldable pub with_producer :
      Config → P → Result (EventProducer machine.State) → Start W machine.State P
  with_producer cfg pool (err e) = fatal "failed to configure event producer"
  with_producer cfg pool (ok producer) = started (record {
    config = cfg;
    pool = pool;
    producer = producer;
    service = app_service pg machine codec text;
    jwt_secret = cfg.auth.jwt_secret;
    publisher =
        app_publisher pg codec text producer cfg.events.outbox_poll_interval
          cfg.events.outbox_batch_size;
  })

  -- main behind NewPool
  unfoldable pub with_pool : Config → Result P × W → Start W machine.State P × W
  with_pool cfg (err e, w) = (fatal "failed to connect to database", w)
  with_pool cfg (ok pool, w) =
      (with_producer cfg pool (new_producer codec open_writer quote cfg.events logger), w)

  -- main behind Load
  unfoldable pub with_config : Result Config → W → Start W machine.State P × W
  with_config (err e) w = (fatal "failed to load config", w)
  with_config (ok cfg) w = with_pool cfg (new_pool pools ctx cfg.database w)

  -- main
  unfoldable pub main : W → Start W machine.State P × W
  main w = with_config (load float_part getenv) w
