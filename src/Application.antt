-- ===== src/Application.antt =====
-- internal/application/company/entities.go: the events, the inputs, and the interfaces through
-- which the service reaches the database, the outbox and the event producer. All that lies behind
-- the interfaces is one state `S`.
use company_service.Common.{ℕ, String, Bool, Option}
use company_service.Common.Int.{ℤ}
use company_service.Action.{Action}
use company_service.Domain.{Uuid, Time, CompanyType, Company}

-- `context.Context`: of its values the code reads one, the transaction under `txContextKey{}`.
-- A cancelled context shows as an error of the call that is given it.
pub record Context : Type 0 where
  pub has_tx : Bool

pub record Event : Type 0 where
  pub id : Uuid
  pub event_type : String
  pub occurred_at : Time
  pub company_id : Uuid
  pub company : Option Company

pub record OutboxEvent : Type 0 where
  pub id : Uuid
  pub event : Event
  pub attempts : ℕ

pub record CreateInput : Type 0 where
  pub id : Uuid
  pub name : String
  pub description : String
  pub amount_of_employees : ℤ
  pub registered : Bool
  pub company_type : CompanyType

pub record PatchInput : Type 0 where
  pub name : Option String
  pub description : Option String
  pub amount_of_employees : Option ℤ
  pub registered : Option Bool
  pub company_type : Option CompanyType

abbrev pub event_company_created : String
event_company_created = "company.created"

abbrev pub event_company_updated : String
event_company_updated = "company.updated"

abbrev pub event_company_deleted : String
event_company_deleted = "company.deleted"

pub record Repository (S : Type 0) : Type 0 where
  pub create : Context → Company → Action S Unit
  pub update : Context → Company → Action S Unit
  pub delete : Context → Uuid → Action S Unit
  pub get_by_id : Context → Uuid → Action S Company
  pub get_by_name : Context → String → Action S Company

pub record EventProducer (S : Type 0) : Type 0 where
  pub publish : Context → Event → Action S Unit
  pub close : Context → Action S Unit

pub record OutboxStore (S : Type 0) : Type 0 where
  pub store : Context → Event → Action S Unit

-- `fn` returns the variable that the Go closure assigns, `A`, beside its error.
pub record TransactionRunner (S A : Type 0) : Type 0 where
  pub within_transaction : Context → (Context → Action S A) → Action S A
