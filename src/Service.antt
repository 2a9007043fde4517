-- ===== src/Service.antt =====
-- internal/application/company/service.go: the four use cases over the interfaces.
use company_service.Common.{String, not, Option, none, some, nat_eq, if◌then◌else◌}
use company_service.Common.Text.{trim_space}
use company_service.Errors.{duplicate_name, empty_patch, failure, wrap, error_is, is_not_found}
use company_service.Action.{
  Result, ok, err, Action, pure, raise, lift, wrapping, fail_if, ◌>>=◌, ◌>>◌, attempt,
}
use company_service.Domain.{
  Uuid, Time, utc, Company, Patch, new_with_id, is_empty_patch, apply_patch,
}
use company_service.Application.{
  Context, Event, CreateInput, PatchInput, event_company_created, event_company_updated,
  event_company_deleted, Repository, EventProducer, OutboxStore, TransactionRunner,
}

-- A function such as `time.Now` or `uuid.New`, which cannot fail.
abbrev pub Source : Type 0 → Type 0 → Type 0
Source S A = S → A × S

pub record Env (S : Type 0) : Type 0 where
  pub time_now : Source S Time
  pub uuid_new : Source S Uuid

abbrev pub draw : {S A B : Type 0} → Source S A → (A → Action S B) → Action S B
draw source f s = let (a, s') = source s in f a s'

-- The logger of the Go struct is not read by any method, and left out.
pub record Service (S : Type 0) : Type 0 where
  pub repo : Repository S
  pub events : Option (EventProducer S)
  pub outbox : Option (OutboxStore S)
  pub tx : Option (TransactionRunner S Company)
  pub now : Source S Time
  pub new_uuid : Source S Uuid

module _ {S : Type 0} (env : Env S) where
  abbrev utc_now : Source S Time
  utc_now s = let (t, s') = env.time_now s in (utc t, s')

  unfoldable pub new_service : Repository S → EventProducer S → Service S
  new_service repo events = record {
    repo = repo;
    events = some events;
    outbox = none;
    tx = none;
    now = utc_now;
    new_uuid = env.uuid_new;
  }

  unfoldable pub new_service_with_outbox :
      Repository S → OutboxStore S → TransactionRunner S Company → Service S
  new_service_with_outbox repo outbox tx = record {
    repo = repo;
    events = none;
    outbox = some outbox;
    tx = some tx;
    now = utc_now;
    new_uuid = env.uuid_new;
  }

abbrev pub patch_of : PatchInput → Patch
patch_of input = record {
  name = input.name;
  description = input.description;
  amount_of_employees = input.amount_of_employees;
  registered = input.registered;
  company_type = input.company_type;
}

-- A call of a method that changes its receiver, which the caller goes on with.
abbrev pub on_receiver : Company → Action Company Unit → Result Company
on_receiver c m = let (r, c') = m c in elim r [ ok _ ↦ ok c' | err e ↦ err e ]

module _ {S : Type 0} where
  -- What CreateCompany makes of the answer of GetByName.
  unfoldable pub name_is_free : Result Company → Action S Unit
  name_is_free (ok found) = raise (wrap "create company: " duplicate_name)
  name_is_free (err e) =
      if error_is e is_not_found then pure tt else raise (wrap "get company by name: " e)

  -- What PatchCompany makes of it.
  unfoldable pub name_is_free_for : Uuid → Result Company → Action S Unit
  name_is_free_for id (ok found) =
      fail_if (not (nat_eq found.id id)) (wrap "patch company: " duplicate_name)
  name_is_free_for id (err e) =
      if error_is e is_not_found then pure tt else raise (wrap "get company by name: " e)

module _ {S : Type 0} (env : Env S) (s : Service S) where
  unfoldable pub publish : Context → String → Company → Action S Unit
  publish ctx event_type company = draw s.new_uuid λ id. draw s.now λ occurred_at.
      let event : Event = record {
        id = id;
        event_type = event_type;
        occurred_at = occurred_at;
        company_id = company.id;
        company = some company;
      } in
      elim s.outbox [
        | some outbox ↦ wrapping "store company event in outbox: " (outbox.store ctx event)
        | none ↦ elim s.events [
          | none ↦ raise (failure "event producer is not configured")
          | some events ↦ wrapping "publish company event: " (events.publish ctx event)
        ]
      ]

  unfoldable pub within_transaction : Context → (Context → Action S Company) → Action S Company
  within_transaction ctx fn = elim s.tx [ none ↦ fn ctx | some tx ↦ tx.within_transaction ctx fn ]

  -- The closure of CreateCompany.
  unfoldable pub create_in_tx : Company → Context → Action S Company
  create_in_tx company ctx = do
    attempt (s.repo.get_by_name ctx company.name) name_is_free
    wrapping "create company: " (s.repo.create ctx company)
    publish ctx event_company_created company
    pure company

  unfoldable pub create_company : Context → CreateInput → Action S Company
  create_company ctx input = draw env.time_now λ now.
      wrapping "create company: " (
        lift (
          new_with_id now input.id input.name input.description input.amount_of_employees
            input.registered input.company_type))
      >>= λ company. within_transaction ctx (create_in_tx company)

  -- The check of the new name in PatchCompany.
  unfoldable pub check_new_name : Context → Uuid → Option String → Action S Unit
  check_new_name ctx id none = pure tt
  check_new_name ctx id (some name) =
      attempt (s.repo.get_by_name ctx (trim_space name)) (name_is_free_for id)

  -- The closure of PatchCompany. The clock is read before ApplyPatch rather than inside it.
  unfoldable pub patch_in_tx : Uuid → PatchInput → Context → Action S Company
  patch_in_tx id input ctx = do
    existing ← wrapping "get company by id: " (s.repo.get_by_id ctx id)
    check_new_name ctx id input.name
    now ← draw env.time_now pure
    updated ←
        wrapping "apply company patch: "
          (lift (on_receiver existing (apply_patch now (patch_of input))))
    wrapping "update company: " (s.repo.update ctx updated)
    publish ctx event_company_updated updated
    pure updated

  unfoldable pub patch_company : Context → Uuid → PatchInput → Action S Company
  patch_company ctx id input =
      if is_empty_patch (patch_of input)
      then raise (wrap "patch company: " empty_patch)
      else within_transaction ctx (patch_in_tx id input)

  -- The closure of DeleteCompany.
  unfoldable pub delete_in_tx : Uuid → Context → Action S Company
  delete_in_tx id ctx = do
    company ← wrapping "get company by id: " (s.repo.get_by_id ctx id)
    wrapping "delete company: " (s.repo.delete ctx id)
    publish ctx event_company_deleted company
    pure company

  unfoldable pub delete_company : Context → Uuid → Action S Unit
  delete_company ctx id = within_transaction ctx (delete_in_tx id) >>= λ company. pure tt

  unfoldable pub get_company : Context → Uuid → Action S Company
  get_company ctx id = wrapping "get company by id: " (s.repo.get_by_id ctx id)
