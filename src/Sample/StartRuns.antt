-- ===== src/Sample/StartRuns.antt =====
-- The theorem on the start of the program at a concrete environment.
use company_service.Common.{ℕ, ◌+◌, ◌-◌, ◌*◌, ◌/◌, ◌^◌, refl, arith, String, ◌==◌, if◌then◌else◌}
use company_service.Common.Int.{pos}
use company_service.Action.{ok}
use company_service.Postgres.{World}
use company_service.Postgres.Pool.{PoolLibrary, PoolLaws}
use company_service.Events.{WriterSettings, KafkaWriter, Logger}
use company_service.Startup.{main}
use company_service.Startup.Ready.{IsOutcome, main-IsOutcome}
use company_service.Wiring.{request_ctx}
use company_service.Sample.Memory.{Tables, memory}
use company_service.Sample.Texts.{unary}
use company_service.Sample.Setting.{counter, texts, fresh}

abbrev W : Type 0
W = World Tables ℕ

-- The machine counts the open pools.
abbrev pub answering : PoolLibrary Unit Unit W
answering = record {
  parse_config = λ url. ok (record {
    max_conns = pos 4;
    min_conns = pos 0;
    max_conn_lifetime = pos 0;
    max_conn_idle_time = pos 0;
    others = tt;
  });
  connect_config = λ ctx c w. (ok tt, record w { machine = w.machine + 1 });
  ping = λ pool ctx w. (ok tt, w);
  close = λ pool w. record w { machine = w.machine - 1 };
}

abbrev open_pools : W → ℕ
open_pools w = w.machine

answering-PoolLaws : PoolLaws answering open_pools
answering-PoolLaws = record {
  connected = λ ctx c s s' pool h. ground arith;
  refused = λ ctx c s s' e h. ground arith;
  pinged = λ pool ctx s. refl;
  closed = λ pool s. refl;
}

abbrev pub silent : Logger ℕ
silent = record { info = λ fields text n. n }

abbrev pub written : WriterSettings → KafkaWriter ℕ
written settings = record { write_messages = λ ctx messages n. (ok tt, n); close = λ n. (ok tt, n) }

abbrev pub part_of : (f unit k : ℕ) → ℕ
part_of f unit k = f * unit / 10 ^ k

abbrev pub environment : String → String
environment key =
    if key == "DATABASE_URL"
    then "postgres://db"
    else if key == "JWT_SECRET"
    then "secret"
    else if key == "EVENT_PRODUCER"
    then " KAFKA "
    else ""

main-IsOutcome_example :
    IsOutcome memory counter unary texts answering written
      (λ s. s)
      silent
      part_of
      environment
      request_ctx
      open_pools
      1
      (main memory counter unary texts answering written
        (λ s. s)
        silent
        part_of
        environment
        request_ctx
        fresh)
main-IsOutcome_example =
    main-IsOutcome memory counter unary texts answering written (λ s. s) silent part_of environment
      request_ctx open_pools answering-PoolLaws fresh
