-- ===== src/Startup/Process/Quiet.antt =====
-- What changes in a run that lets no request to change a company in.
use company_service.Common.{ℕ, ◌≡◌, sym, ◌∙◌, subst, String}
use company_service.Errors.{GoError}
use company_service.Action.{Action}
use company_service.Application.{Context}
use company_service.Json.{Codec}
use company_service.Service.{Service}
use company_service.Postgres.{Postgres, Machine, World}
use company_service.Postgres.Laws.{PostgresLaws, SameCompanies}
use company_service.Postgres.Pending.{PendingLaws}
use company_service.Postgres.Pool.{PoolLibrary}
use company_service.Publisher.{Publisher, process_and_log}
use company_service.Jwt.{JwtLibrary, validate}
use company_service.Http.Handlers.{Request, Handler}
use company_service.Http.Router.{Route, handler_of}
use company_service.Http.Router.Guarded.{Mutates, Authorized}
use company_service.Events.{WriterSettings, KafkaWriter, Logger}
use company_service.Wiring.{request_ctx, app_env}
use company_service.Wiring.System.Invariants.{publish_batch-Batched}
use company_service.Startup.{App, started, main}
use company_service.Startup.Process.{
  Phase, serving, Step, handles, publishes, moves, is_interrupted, stops_server, closes_producer,
  closes_pool, Run, begin, next, router, publish_turn, stop_server, close_producer, close_pool,
}
use company_service.Startup.Process.Made.{IsMade, main-IsMade}
use company_service.Startup.Process.Requests.{SameRows-refl, handler_of-SameRows}
use company_service.Startup.Process.Runs.{IdleLaws, idles}

module _ (pg : Postgres) (machine : Machine) (codec : Codec) (text : GoError → String)
    {O P : Type 0} (pools : PoolLibrary O P (World pg.Db machine.State))
    (open_writer : WriterSettings → KafkaWriter machine.State) (quote : String → String)
    (logger : Logger machine.State) (float_part : (f unit k : ℕ) → ℕ) (getenv : String → String)
    (ctx : Context) (jwt : JwtLibrary) (swagger : Handler (World pg.Db machine.State))
    (server_shutdown : Context → Action (World pg.Db machine.State) Unit)
    (idle : IdleLaws pg pools swagger server_shutdown)
    (app : App (World pg.Db machine.State) machine.State P) where
  abbrev W : Type 0
  W = World pg.Db machine.State

  abbrev ProcessStep : Phase → W → Phase → W → Type 0
  ProcessStep = Step pg machine codec text pools jwt swagger server_shutdown app

  abbrev ProcessRun : Phase → W → Phase → W → Type 0
  ProcessRun = Run pg machine codec text pools jwt swagger server_shutdown app

  abbrev Made : Type 0
  Made = IsMade pg machine codec text pools open_writer quote logger float_part getenv ctx app

  -- The router's authentication lets the request in.
  abbrev IsLetIn : Request → Type 0
  IsLetIn =
      Authorized codec (app_env pg machine codec text) app.service (validate jwt app.jwt_secret)
        (pools.ping app.pool) swagger

  -- No request to change a company is let in.
  abbrev IsQuietStep :
      {phase : Phase} {w : W} {phase' : Phase} {w' : W} → ProcessStep phase w phase' w' → Type 0
  IsQuietStep (handles up route r at) = ¬ (Mutates route × IsLetIn r)
  IsQuietStep _ = Unit

  abbrev pub IsQuiet :
      {phase : Phase} {w : W} {phase' : Phase} {w' : W} → ProcessRun phase w phase' w' → Type 0
  IsQuiet begin = Unit
  IsQuiet (next run step) = IsQuiet run × IsQuietStep step

  module _ (laws : PostgresLaws pg) (pending : PendingLaws pg) where
    abbrev SameAfter : W → W → Type 0
    SameAfter w w' = SameCompanies pg w.committed w'.committed

    SameAfter-trans : (w w1 w2 : W) → SameAfter w w1 → SameAfter w1 w2 → SameAfter w w2
    SameAfter-trans w w1 w2 same same' = record { at = λ i. same'.at i ∙ same.at i }

    batch-SameAfter :
        Made
        → (w : W)
        → SameAfter w (publish_turn pg machine codec text pools jwt swagger server_shutdown app w)
    unfolding publish_turn
    batch-SameAfter made w =
        subst (λ (p : Publisher W). SameAfter w (process_and_log text p request_ctx w))
          (sym made.publisher)
          (publish_batch-Batched pg laws pending machine codec text app.producer
            app.config.events.outbox_poll_interval app.config.events.outbox_batch_size
            (SameCompanies pg) w (λ db. (SameRows-refl pg db).0) (λ db db' same grows. same))

    request-SameAfter :
        Made
        → (w : W) (route : Route) (r : Request) → r.ctx ≡ request_ctx
        → ¬ (Mutates route × IsLetIn r)
        → SameAfter w
            (router pg machine codec text pools jwt swagger server_shutdown app route r w).1
    unfolding router
    request-SameAfter made w route r at quiet =
        let moved =
          handler_of-SameRows pg machine codec text app.producer
            app.config.events.outbox_poll_interval app.config.events.outbox_batch_size
            (validate jwt app.jwt_secret) (pools.ping app.pool) swagger r w at
            (idles pg machine codec text pools open_writer quote logger float_part getenv ctx jwt
              swagger server_shutdown idle app r w at)
            route quiet in
        subst
          (λ (s : Service W).
            SameAfter w
              (handler_of codec (app_env pg machine codec text) s (validate jwt app.jwt_secret)
                (pools.ping app.pool) swagger route r w).1)
          (sym made.service) moved.0

    step-SameAfter :
        {phase : Phase} {w : W} {phase' : Phase} {w' : W}
        → Made
        → (step : ProcessStep phase w phase' w') → IsQuietStep step
        → SameAfter w w'
    unfolding stop_server close_producer close_pool
    step-SameAfter {w = w} made (handles up route r at) quiet =
        request-SameAfter made w route r at quiet
    step-SameAfter {w = w} made (publishes up) quiet = batch-SameAfter made w
    step-SameAfter made (moves same outbox) quiet = same
    step-SameAfter {w = w} made is_interrupted quiet = (SameRows-refl pg w.committed).0
    step-SameAfter {w = w} made stops_server quiet = (idle.shut_down request_ctx w).0
    step-SameAfter {w = w} made closes_producer quiet = (SameRows-refl pg w.committed).0
    step-SameAfter {w = w} made closes_pool quiet = (idle.closed app.pool w).0

    run-SameAfter :
        {phase : Phase} {w : W} {phase' : Phase} {w' : W}
        → Made
        → (run : ProcessRun phase w phase' w') → IsQuiet run
        → SameAfter w w'
    run-SameAfter {w = w} made begin quiet = (SameRows-refl pg w.committed).0
    run-SameAfter {w = w} {w' = w'} made (next {w1 = w1} run step) (quiet, quiet_step) =
        SameAfter-trans w w1 w' (run-SameAfter made run quiet) (step-SameAfter made step quiet_step)

    -- If main has started, no company changes in the whole run of the process, up to its end, unless a
    -- request on a route that changes companies carries a token that the manager of main accepts.
    pub Run-SameCompanies :
        (w0 w : W) (phase : Phase) (w' : W)
        → (main pg machine codec text pools open_writer quote logger float_part getenv ctx w0).0
          ≡ started app
        → (run : ProcessRun serving w phase w') → IsQuiet run
        → SameCompanies pg w.committed w'.committed
    Run-SameCompanies w0 w phase w' h run =
        run-SameAfter
          (main-IsMade pg machine codec text pools open_writer quote logger float_part getenv ctx w0
            app h)
          run
