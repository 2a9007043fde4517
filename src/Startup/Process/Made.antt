-- ===== src/Startup/Process/Made.antt =====
-- What main makes of the configuration.
use company_service.Common.{ℕ, ◌≡◌, refl, subst, ap, String, inl, inr}
use company_service.Errors.{GoError}
use company_service.Action.{Result, ok, err}
use company_service.Action.Inversion.{Result-cases}
use company_service.Application.{Context, EventProducer}
use company_service.Json.{Codec}
use company_service.Postgres.{Postgres, Machine, World}
use company_service.Postgres.Pool.{PoolLibrary, new_pool}
use company_service.Config.{Config, load, loaded_config}
use company_service.Config.Load.{load_iff}
use company_service.Events.{WriterSettings, KafkaWriter, Logger, new_producer}
use company_service.Wiring.{app_service}
use company_service.Wiring.Publishing.{app_publisher}
use company_service.Startup.{
  App, Start, fatal, started, with_producer, with_pool, with_config, main,
}

module _ (pg : Postgres) (machine : Machine) (codec : Codec) (text : GoError → String)
    {O P : Type 0} (pools : PoolLibrary O P (World pg.Db machine.State))
    (open_writer : WriterSettings → KafkaWriter machine.State) (quote : String → String)
    (logger : Logger machine.State) (float_part : (f unit k : ℕ) → ℕ) (getenv : String → String)
    (ctx : Context) where
  abbrev W : Type 0
  W = World pg.Db machine.State

  -- The service and the publisher are on the repositories, and the secret is that of the environment.
  pub record IsMade (app : App W machine.State P) : Type 0 where
    pub service : app.service ≡ app_service pg machine codec text
    pub publisher :
        app.publisher
        ≡ app_publisher pg codec text app.producer app.config.events.outbox_poll_interval
            app.config.events.outbox_batch_size
    pub secret : app.jwt_secret ≡ getenv "JWT_SECRET"

  abbrev IsMadeStart : Start W machine.State P → Type 0
  IsMadeStart (fatal message) = Unit
  IsMadeStart (started app) = IsMade app

  with_producer-IsMadeStart :
      (cfg : Config) (pool : P) (r : Result (EventProducer machine.State))
      → load float_part getenv ≡ ok cfg
      → IsMadeStart (
          with_producer pg machine codec text pools open_writer quote logger float_part getenv ctx
            cfg pool r)
  unfolding with_producer loaded_config
  with_producer-IsMadeStart cfg pool (err e) loaded = tt
  with_producer-IsMadeStart cfg pool (ok producer) loaded =
      let (_, _, same) = (load_iff float_part getenv cfg).0 loaded in
      record {
        service = refl;
        publisher = refl;
        secret = ap (λ (c : Config). c.auth.jwt_secret) same;
      }

  with_pool-IsMadeStart :
      (cfg : Config) (r : Result P × W)
      → load float_part getenv ≡ ok cfg
      → IsMadeStart
          (with_pool pg machine codec text pools open_writer quote logger float_part getenv ctx cfg
            r).0
  unfolding with_pool
  with_pool-IsMadeStart cfg (err e, w) loaded = tt
  with_pool-IsMadeStart cfg (ok pool, w) loaded =
      with_producer-IsMadeStart cfg pool (new_producer codec open_writer quote cfg.events logger)
        loaded

  main-IsMadeStart :
      (w : W)
      → IsMadeStart
          (main pg machine codec text pools open_writer quote logger float_part getenv ctx w).0
  unfolding main with_config
  main-IsMadeStart w = elim (Result-cases (load float_part getenv)) [
    | inr (e, failed) ↦ rw failed tt
    | inl (cfg, loaded) ↦
        rw loaded (with_pool-IsMadeStart cfg (new_pool pools ctx cfg.database w) loaded)
  ]

  -- Whatever main has started with.
  pub main-IsMade :
      (w : W) (app : App W machine.State P)
      → (main pg machine codec text pools open_writer quote logger float_part getenv ctx w).0
        ≡ started app
      → IsMade app
  main-IsMade w app h = subst IsMadeStart h (main-IsMadeStart w)
