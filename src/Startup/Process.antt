-- ===== src/Startup/Process.antt =====
-- cmd/api/main.go behind the start: requests and batches side by side, the signal, and the shutdown.
pub mod Made
pub mod Requests
pub mod Runs
pub mod Quiet
use company_service.Common.{◌≡◌, String}
use company_service.Errors.{GoError}
use company_service.Action.{Action}
use company_service.Application.{Context, EventProducer}
use company_service.Json.{Codec}
use company_service.Postgres.{Postgres, Machine, World}
use company_service.Postgres.Laws.{SameCompanies, SameOutbox}
use company_service.Postgres.Pool.{PoolLibrary}
use company_service.Publisher.{process_and_log}
use company_service.Jwt.{JwtLibrary, validate}
use company_service.Http.Handlers.{Request, Handler}
use company_service.Http.Router.{Route, handler_of}
use company_service.Wiring.{request_ctx, app_env}
use company_service.Wiring.Publishing.{on_broker}
use company_service.Startup.{App}

-- How far main has come: it waits for the signal, it shuts the server down, it closes the producer,
-- it closes the pool, and it has returned.
pub data Phase : Type 0 where
  serving stopping server_down producer_down ended : Phase

-- The process has not ended, and its goroutines may run.
abbrev pub IsUp : Phase → Type 0
IsUp ended = ⊥
IsUp _ = Unit

module _ (pg : Postgres) (machine : Machine) (codec : Codec) (text : GoError → String)
    {O P : Type 0} (pools : PoolLibrary O P (World pg.Db machine.State)) (jwt : JwtLibrary)
    (swagger : Handler (World pg.Db machine.State))
    (server_shutdown : Context → Action (World pg.Db machine.State) Unit)
    (app : App (World pg.Db machine.State) machine.State P) where
  abbrev pub W : Type 0
  W = World pg.Db machine.State

  -- The handler of `server`: NewRouter on the service, the token manager and the pool
  unfoldable pub router : Route → Handler W
  router =
      handler_of codec (app_env pg machine codec text) app.service (validate jwt app.jwt_secret)
        (pools.ping app.pool) swagger

  -- One turn of the goroutine `outboxPublisher.Run(ctx)`
  unfoldable pub publish_turn : W → W
  publish_turn = process_and_log text app.publisher request_ctx

  -- The three calls of the shutdown, whose errors are only logged
  unfoldable pub stop_server : W → W
  stop_server w = (server_shutdown request_ctx w).1

  unfoldable pub close_producer : W → W
  close_producer w = ((on_broker {Db = pg.Db} app.producer).close request_ctx w).1

  unfoldable pub close_pool : W → W
  close_pool w = pools.close app.pool w

  -- Requests and batches run until the process has ended, since nothing waits for them but
  -- `server.Shutdown`, up to its time limit.
  pub data Step : Phase → W → Phase → W → Type 0 where
    handles :
        {phase : Phase} {w : W}
        → IsUp phase
        → (route : Route) (r : Request) → r.ctx ≡ request_ctx
        → Step phase w phase (router route r w).1
    publishes : {phase : Phase} {w : W} → IsUp phase → Step phase w phase (publish_turn w)
    -- Outside the program: no row changes.
    moves :
        {phase : Phase} {w w' : W}
        → SameCompanies pg w.committed w'.committed
        → SameOutbox pg w.committed w'.committed
        → Step phase w phase w'
    -- A signal, or `cancel()` after ListenAndServe has failed
    is_interrupted : {w : W} → Step serving w stopping w
    stops_server : {w : W} → Step stopping w server_down (stop_server w)
    closes_producer : {w : W} → Step server_down w producer_down (close_producer w)
    closes_pool : {w : W} → Step producer_down w ended (close_pool w)

  pub data Run (phase : Phase) (w : W) : Phase → W → Type 0 where
    begin : Run phase w phase w
    next :
        {phase1 phase2 : Phase} {w1 w2 : W}
        → Run phase w phase1 w1
        → Step phase1 w1 phase2 w2
        → Run phase w phase2 w2
