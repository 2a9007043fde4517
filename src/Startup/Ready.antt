-- ===== src/Startup/Ready.antt =====
-- What holds when main has started, and what it leaves behind when it has not.
use company_service.Common.{
  ℕ, ◌+◌, ◌≡◌, ◌≢◌, ◌≤◌, ◌⊎◌, inl, inr, refl, sym, ◌∙◌, ap, arith, String, true, some,
}
use company_service.Common.Int.{pos, ◌≤ℤ◌}
use company_service.Common.Text.{trim_space}
use company_service.Errors.{GoError}
use company_service.Action.{Result, ok, err}
use company_service.Action.Inversion.{is_ok, Result-cases}
use company_service.Application.{Context}
use company_service.Json.{Codec, equal_fold}
use company_service.Postgres.{Postgres, Machine, World}
use company_service.Postgres.Tx.{transaction_manager}
use company_service.Postgres.Pool.{PoolLibrary, PoolLaws, LeavesOpen, new_pool, new_pool-LeavesOpen}
use company_service.Publisher.Running.{new_publisher-bounds}
use company_service.Config.{Config, load, loaded_config}
use company_service.Config.Load.{load_iff}
use company_service.Events.{
  WriterSettings, KafkaWriter, Logger, new_producer, producer_log, producer_kafka,
}
use company_service.Events.Choice.{new_producer-is_ok}
use company_service.Wiring.Publishing.{app_publisher, pending_repository, on_broker}
use company_service.Startup.{
  App, Start, fatal, started, with_producer, with_pool, with_config, main,
}

module _ (pg : Postgres) (machine : Machine) (codec : Codec) (text : GoError → String)
    {O P : Type 0} (pools : PoolLibrary O P (World pg.Db machine.State))
    (open_writer : WriterSettings → KafkaWriter machine.State) (quote : String → String)
    (logger : Logger machine.State) (float_part : (f unit k : ℕ) → ℕ) (getenv : String → String)
    (ctx : Context) (opened : World pg.Db machine.State → ℕ) where
  abbrev W : Type 0
  W = World pg.Db machine.State

  -- The names of producers that are known, the case of the letters aside
  abbrev pub IsKnown : String → Type 0
  IsKnown name =
      (name ≡ "")
      ⊎ ((equal_fold name producer_log ≡ true) ⊎ (equal_fold name producer_kafka ≡ true))

  -- The settings with which the program runs.
  pub record IsReady (app : App W machine.State P) : Type 0 where
    pub config : app.config ≡ loaded_config float_part getenv
    pub database : getenv "DATABASE_URL" ≢ ""
    pub has_secret : app.jwt_secret ≢ ""
    pub secret : app.jwt_secret ≡ getenv "JWT_SECRET"
    pub producer : IsKnown (trim_space app.config.events.producer)
    pub interval : pos 1 ≤ℤ app.publisher.interval
    pub batch : 1 ≤ app.publisher.batch

  -- How main ends, beside the pools that were open at its start.
  abbrev pub IsOutcome : ℕ → Start W machine.State P × W → Type 0
  IsOutcome n (started app, w) = IsReady app × (opened w ≡ n + 1)
  IsOutcome n (fatal message, w) =
      (opened w ≡ n) ⊎ ((message ≡ "failed to configure event producer") × (opened w ≡ n + 1))

  with_producer-IsOutcome :
      (cfg : Config) (pool : P) (n : ℕ) (w : W)
      → load float_part getenv ≡ ok cfg
      → opened w ≡ n + 1
      → IsOutcome n (
        with_producer pg machine codec text pools open_writer quote logger float_part getenv ctx cfg
            pool
            (new_producer codec open_writer quote cfg.events logger),
        w,
      )
  unfolding with_producer app_publisher loaded_config
  with_producer-IsOutcome cfg pool n w loaded stands =
      let (database, secret, same) = (load_iff float_part getenv cfg).0 loaded in
      elim (Result-cases (new_producer codec open_writer quote cfg.events logger)) [
        | inr (e, failed) ↦ rw failed (inr (refl, stands))
        | inl (producer, made) ↦
            let (interval, batch, _, _) =
              new_publisher-bounds (pending_repository pg codec text)
                (some (transaction_manager pg machine.State text)) (on_broker {Db = pg.Db} producer)
                cfg.events.outbox_poll_interval cfg.events.outbox_batch_size in
            let is_secret : cfg.auth.jwt_secret ≡ getenv "JWT_SECRET" =
              ap (λ (c : Config). c.auth.jwt_secret) same in
            rw made (
              record {
                config = same;
                database = database;
                has_secret = λ e. secret (sym is_secret ∙ e);
                secret = is_secret;
                producer =
                    (new_producer-is_ok codec open_writer quote cfg.events logger).0
                      (ap is_ok made);
                interval = interval;
                batch = batch;
              },
              stands,
            )
      ]

  with_pool-IsOutcome :
      (cfg : Config) (n : ℕ) (r : Result P × W)
      → load float_part getenv ≡ ok cfg
      → (s : W) → opened s ≡ n
      → LeavesOpen opened s r
      → IsOutcome n (
          with_pool pg machine codec text pools open_writer quote logger float_part getenv ctx cfg
            r)
  unfolding with_pool
  with_pool-IsOutcome cfg n (err e, w) loaded s at_start stands = inl (stands ∙ at_start)
  with_pool-IsOutcome cfg n (ok pool, w) loaded s at_start stands =
      with_producer-IsOutcome cfg pool n w loaded (ground arith)

  -- If main starts, the variables DATABASE_URL and JWT_SECRET are set, tokens are signed and read with
  -- the latter, the name of the producer is known, the publisher has a positive interval and a positive
  -- batch, and one pool more is open. If it ends at an error, no pool more is open, unless it is the
  -- configuration of the producer that failed.
  pub main-IsOutcome :
      PoolLaws pools opened
      → (w : W)
      → IsOutcome
          (opened w)
          (main pg machine codec text pools open_writer quote logger float_part getenv ctx w)
  unfolding main with_config
  main-IsOutcome laws w = elim (Result-cases (load float_part getenv)) [
    | inr (e, failed) ↦ rw failed (inl refl)
    | inl (cfg, loaded) ↦ rw loaded (
        with_pool-IsOutcome cfg (opened w) (new_pool pools ctx cfg.database w) loaded w refl
          (new_pool-LeavesOpen pools opened laws ctx cfg.database w))
  ]
