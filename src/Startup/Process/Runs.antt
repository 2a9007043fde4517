-- ===== src/Startup/Process/Runs.antt =====
-- What a run of the program does to the stored rows, from its start to its end.
use company_service.Common.{ℕ, ◌≡◌, sym, subst, String}
use company_service.Errors.{GoError}
use company_service.Action.{Action}
use company_service.Application.{Context}
use company_service.Json.{Codec}
use company_service.Service.{Service}
use company_service.Postgres.{Postgres, Machine, World}
use company_service.Postgres.Pool.{PoolLibrary}
use company_service.Publisher.{Publisher, process_and_log}
use company_service.Jwt.{JwtLibrary, validate}
use company_service.Http.Handlers.{Request, Handler}
use company_service.Http.Router.{handler_of}
use company_service.Events.{WriterSettings, KafkaWriter, Logger}
use company_service.Wiring.{request_ctx, app_env, app_service}
use company_service.Wiring.System.{Reach, start, later, publish_batch}
use company_service.Startup.{App, started, main}
use company_service.Startup.Process.{
  Phase, serving, Step, handles, publishes, moves, is_interrupted, stops_server, closes_producer,
  closes_pool, Run, begin, next, router, publish_turn, stop_server, close_producer, close_pool,
}
use company_service.Startup.Process.Made.{IsMade, main-IsMade}
use company_service.Startup.Process.Requests.{SameRows, SameRows-refl, Idles, handler_of-Step}

-- What is documented of the libraries: a Ping, the documents, the shutdown of the server and the
-- closing of a pool send no statement that changes a row.
pub record IdleLaws (pg : Postgres) {M O P : Type 0} (pools : PoolLibrary O P (World pg.Db M))
    (swagger : Handler (World pg.Db M)) (server_shutdown : Context → Action (World pg.Db M) Unit)
    : Type 0 where
  pub pinged :
      (pool : P) (ctx : Context) (w : World pg.Db M)
      → SameRows pg w.committed (pools.ping pool ctx w).1.committed
  pub documented :
      (r : Request) (w : World pg.Db M) → SameRows pg w.committed (swagger r w).1.committed
  pub shut_down :
      (ctx : Context) (w : World pg.Db M)
      → SameRows pg w.committed (server_shutdown ctx w).1.committed
  pub closed :
      (pool : P) (w : World pg.Db M) → SameRows pg w.committed (pools.close pool w).committed

module _ (pg : Postgres) (machine : Machine) (codec : Codec) (text : GoError → String)
    {O P : Type 0} (pools : PoolLibrary O P (World pg.Db machine.State))
    (open_writer : WriterSettings → KafkaWriter machine.State) (quote : String → String)
    (logger : Logger machine.State) (float_part : (f unit k : ℕ) → ℕ) (getenv : String → String)
    (ctx : Context) (jwt : JwtLibrary) (swagger : Handler (World pg.Db machine.State))
    (server_shutdown : Context → Action (World pg.Db machine.State) Unit)
    (idle : IdleLaws pg pools swagger server_shutdown)
    (app : App (World pg.Db machine.State) machine.State P) where
  abbrev W : Type 0
  W = World pg.Db machine.State

  abbrev ProcessStep : Phase → W → Phase → W → Type 0
  ProcessStep = Step pg machine codec text pools jwt swagger server_shutdown app

  abbrev ProcessRun : Phase → W → Phase → W → Type 0
  ProcessRun = Run pg machine codec text pools jwt swagger server_shutdown app

  abbrev SystemStep : W → W → Type 0
  SystemStep =
      company_service.Wiring.System.Step pg machine codec text app.producer
        app.config.events.outbox_poll_interval app.config.events.outbox_batch_size

  abbrev SystemReach : W → W → Type 0
  SystemReach =
      Reach pg machine codec text app.producer app.config.events.outbox_poll_interval
        app.config.events.outbox_batch_size

  abbrev Made : Type 0
  Made = IsMade pg machine codec text pools open_writer quote logger float_part getenv ctx app

  pub idles :
      (r : Request) (w : W) (at : r.ctx ≡ request_ctx)
      → Idles pg machine codec text app.producer app.config.events.outbox_poll_interval
          app.config.events.outbox_batch_size
          (validate jwt app.jwt_secret)
          (pools.ping app.pool)
          swagger
          r
          w
          at
  idles r w at = record { pinged = idle.pinged app.pool r.ctx w; documented = idle.documented r w }

  unmoved : (w w' : W) → SameRows pg w.committed w'.committed → SystemStep w w'
  unmoved w w' (same, outbox) = company_service.Wiring.System.moves same outbox

  step-SystemStep :
      {phase : Phase} {w : W} {phase' : Phase} {w' : W}
      → Made
      → ProcessStep phase w phase' w'
      → SystemStep w w'
  unfolding router publish_turn stop_server close_producer close_pool
  step-SystemStep {w = w} made (handles up route r at) =
      subst
        (λ (s : Service W).
          SystemStep w
            (handler_of codec (app_env pg machine codec text) s (validate jwt app.jwt_secret)
              (pools.ping app.pool) swagger route r w).1)
        (sym made.service)
        (handler_of-Step pg machine codec text app.producer app.config.events.outbox_poll_interval
          app.config.events.outbox_batch_size (validate jwt app.jwt_secret) (pools.ping app.pool)
          swagger r w at (idles r w at) route)
  step-SystemStep {w = w} made (publishes up) =
      subst (λ (p : Publisher W). SystemStep w (process_and_log text p request_ctx w))
        (sym made.publisher) company_service.Wiring.System.publishes
  step-SystemStep made (moves same outbox) = company_service.Wiring.System.moves same outbox
  step-SystemStep {w = w} made is_interrupted = unmoved w w (SameRows-refl pg w.committed)
  step-SystemStep {w = w} {w' = w'} made stops_server = unmoved w w' (idle.shut_down request_ctx w)
  step-SystemStep {w = w} {w' = w'} made closes_producer =
      unmoved w w' (SameRows-refl pg w.committed)
  step-SystemStep {w = w} {w' = w'} made closes_pool = unmoved w w' (idle.closed app.pool w)

  run-SystemReach :
      {phase : Phase} {w : W} {phase' : Phase} {w' : W}
      → Made
      → ProcessRun phase w phase' w'
      → SystemReach w w'
  run-SystemReach made begin = start
  run-SystemReach made (next run step) =
      later (run-SystemReach made run) (step-SystemStep made step)

  -- If main has started, whatever the process then does, up to its end, is what requests and batches
  -- do in some order: at every moment of a run, the shutdown included, the state is one that
  -- Wiring/System reaches.
  pub Run-Reach :
      (w0 w : W) (phase : Phase) (w' : W)
      → (main pg machine codec text pools open_writer quote logger float_part getenv ctx w0).0
        ≡ started app
      → ProcessRun serving w phase w'
      → SystemReach w w'
  Run-Reach w0 w phase w' h run =
      run-SystemReach
        (main-IsMade pg machine codec text pools open_writer quote logger float_part getenv ctx w0
          app h)
        run
