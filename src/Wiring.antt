-- ===== src/Wiring.antt =====
-- cmd/api/main.go: how the service is put together.
pub mod Steps
pub mod Reachable
pub mod NoLoss
pub mod Draining
pub mod Announcing
pub mod System
pub mod Publishing
pub mod Success
pub mod Responses
pub mod Removal
pub mod Amendment
pub mod Invariant
pub mod Patch
pub mod Delete
pub mod Create
pub mod Spec
pub mod Publish
pub mod Local
pub mod Atomic
use company_service.Common.{String, Bool, true, false}
use company_service.Errors.{GoError}
use company_service.Domain.{Uuid, Time, Company}
use company_service.Application.{Context}
use company_service.Json.{Codec}
use company_service.Service.{Env, Source, Service, new_service_with_outbox}
use company_service.Postgres.{Postgres, Machine, World}
use company_service.Postgres.Tx.{transaction_manager}
use company_service.Postgres.Companies.{company_repository}
use company_service.Postgres.Outbox.{outbox_repository}

-- The context of a request, and the context that WithinTransaction hands to its function.
abbrev pub request_ctx : Context
request_ctx = record { has_tx = false }

abbrev pub tx_ctx : Context
tx_ctx = record { has_tx = true }

abbrev pub on_machine : {Db M A : Type 0} → Source M A → Source (World Db M) A
on_machine source w = let (a, m) = source w.machine in (a, record w { machine = m })

module _ (pg : Postgres) (machine : Machine) (codec : Codec) (text : GoError → String) where
  abbrev pub AppState : Type 0
  AppState = World pg.Db machine.State

  abbrev pub app_env : Env AppState
  app_env = record {
    time_now = on_machine machine.time_now;
    uuid_new = on_machine machine.uuid_new;
  }

  -- `service` of main
  unfoldable pub app_service : Service AppState
  app_service =
      new_service_with_outbox app_env (company_repository pg machine.State)
        (outbox_repository pg machine.State codec text) (transaction_manager pg machine.State text)
