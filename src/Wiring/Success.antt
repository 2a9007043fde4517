-- ===== src/Wiring/Success.antt =====
-- When CreateCompany succeeds, and what it answers on a name that is taken.
pub mod Refusals
use company_service.Common.{◌≡◌, ◌⊎◌, inl, inr, ◌∙◌, refl, String, true, none, some}
use company_service.Common.Text.{trim_space}
use company_service.Errors.{GoError, error_is, is_duplicate_name, duplicate_name, wrap}
use company_service.Action.{ok, err}
use company_service.Domain.{Uuid, Time, Company, utc}
use company_service.Domain.Validation.{IsValid}
use company_service.Domain.Making.{IsInput, new_with_id_accepts, new_with_id_iff, made}
use company_service.Application.{
  Event, CreateInput, event_company_created, event_company_updated, event_company_deleted,
}
use company_service.Json.{Codec}
use company_service.Json.Events.{marshal_event, event_object, company_object}
use company_service.Service.{
  name_is_free, publish, create_in_tx, create_company, new_service_with_outbox,
}
use company_service.Postgres.{Postgres, Machine, World, insert_company}
use company_service.Postgres.Laws.{NameFree, PostgresLaws}
use company_service.Postgres.Available.{Available, FitsColumn, IsTimestamp, PlainCodec}
use company_service.Postgres.Tx.{transaction_manager}
use company_service.Postgres.Companies.{company_repository}
use company_service.Postgres.Outbox.{store, outbox_repository}
use company_service.Wiring.{request_ctx, tx_ctx, app_env, app_service}
use company_service.Wiring.Reachable.{
  within_transaction_succeeds, within_transaction_fails, name_check_fails, name_check_succeeds,
  create_succeeds,
}

module _ (pg : Postgres) (up : Available pg) (laws : PostgresLaws pg) (machine : Machine)
    (codec : Codec) (plain : PlainCodec codec) (text : GoError → String) where
  abbrev W : Type 0
  W = World pg.Db machine.State

  -- What the clock and the source of identifiers give to CreateCompany, in their order.
  abbrev pub created_now : W → Time
  created_now w = (machine.time_now w.machine).0

  abbrev pub event_id : W → Uuid
  event_id w = (machine.uuid_new (machine.time_now w.machine).1).0

  abbrev pub event_now : W → Time
  event_now w = (machine.time_now (machine.uuid_new (machine.time_now w.machine).1).1).0

  abbrev pub company_of : CreateInput → W → Company
  company_of input w =
      made (created_now w) input.id input.name input.description input.amount_of_employees
        input.registered input.company_type

  -- The types of the application's events.
  abbrev IsEventType : String → Type 0
  IsEventType t =
      (t ≡ event_company_created) ⊎ ((t ≡ event_company_updated) ⊎ (t ≡ event_company_deleted))

  -- The company of an acceptable input is valid.
  pub company_of-IsValid :
      (input : CreateInput) (w : W)
      → IsInput input.id input.name input.description input.amount_of_employees input.company_type
      → IsValid (company_of input w)
  company_of-IsValid input w accepted =
      ((new_with_id_iff (created_now w) input.id input.name input.description
          input.amount_of_employees input.registered input.company_type (company_of input w)).0
        (new_with_id_accepts (created_now w) input.id input.name input.description
          input.amount_of_employees input.registered input.company_type accepted)).1

  pub publish_succeeds :
      (event_type : String) (c : Company) (w : W) (created updated occurred : String)
      → IsEventType event_type
      → IsValid c
      → FitsColumn c
      → IsTimestamp (utc (machine.time_now (machine.uuid_new w.machine).1).0)
      → codec.time_text c.created_at ≡ ok created
      → codec.time_text c.updated_at ≡ ok updated
      → codec.time_text (utc (machine.time_now (machine.uuid_new w.machine).1).0) ≡ ok occurred
      → pg.outbox_at w.working (machine.uuid_new w.machine).0 ≡ none
      → (publish
          (app_env pg machine codec text)
          (app_service pg machine codec text)
          tx_ctx
          event_type
          c
          w).0
        ≡ ok tt
  unfolding publish app_service new_service_with_outbox outbox_repository store marshal_event
  publish_succeeds event_type c w created updated occurred known valid fits stamp h h' h'' free =
      let now = (machine.time_now (machine.uuid_new w.machine).1).0 in
      let event : Event = record {
        id = (machine.uuid_new w.machine).0;
        event_type = event_type;
        occurred_at = utc now;
        company_id = c.id;
        company = some c;
      } in
      let (n, ran) =
        up.inserts_event w.working codec event
          (event_object codec event occurred (company_object codec c created updated))
          (record {
            plain = plain;
            event_type = known;
            occurred_at = stamp;
            company = c;
            about = refl;
            valid = valid;
            fits = fits;
            marshalled = rw (h'', h, h') refl;
          })
          free in
      rw (h'', h, h') (rw (up.builds _) (rw ran refl))

  create_in_tx_succeeds :
      (c : Company) (w : W) (created updated occurred : String)
      → IsTimestamp (utc (machine.time_now (machine.uuid_new w.machine).1).0)
      → codec.time_text c.created_at ≡ ok created
      → codec.time_text c.updated_at ≡ ok updated
      → codec.time_text (utc (machine.time_now (machine.uuid_new w.machine).1).0) ≡ ok occurred
      → pg.company_at w.working c.id ≡ none
      → NameFree pg w.working c.name
      → IsValid c
      → FitsColumn c
      → pg.outbox_at w.working (machine.uuid_new w.machine).0 ≡ none
      → (create_in_tx
          (app_env pg machine codec text)
          (app_service pg machine codec text)
          c
          tx_ctx
          w).0
        ≡ ok c
  unfolding create_in_tx app_service new_service_with_outbox company_repository
  create_in_tx_succeeds c w created updated occurred stamp h h' h'' id_free name_free valid fits
        event_free =
      let inserted =
        laws.inserted c w.working (up.inserts w.working c id_free name_free valid fits).0
          (up.inserts w.working c id_free name_free valid fits).1 in
      let w' : W = record w { working = (pg.exec (insert_company c) w.working).1 } in
      let published =
        publish_succeeds event_company_created c w' created updated occurred (inl refl) valid fits
          stamp h h' h'' (inserted.outbox.at _ ∙ event_free) in
      rw
        (
          name_check_succeeds pg up c.name w fits.name name_free,
          create_succeeds pg up c w id_free name_free valid fits,
        )
        (rw published refl)

  create_in_tx_taken :
      (c : Company) (w : W) (i : Uuid) (row : Company)
      → pg.company_at w.working i ≡ some row
      → row.name ≡ c.name
      → (create_in_tx
          (app_env pg machine codec text)
          (app_service pg machine codec text)
          c
          tx_ctx
          w).0
        ≡ err (wrap "create company: " duplicate_name)
  unfolding create_in_tx app_service new_service_with_outbox company_repository
  create_in_tx_taken c w i row there same =
      rw (name_check_fails pg up c.name w i row there same) refl

  -- With a database that is reachable, and times that have a text, CreateCompany succeeds with the
  -- company of the input, on every acceptable input whose identifier and whose name no company has
  -- and whose fields fit their columns, provided that no event has the drawn identifier.
  pub create_company_succeeds :
      (input : CreateInput) (w : W) (created occurred : String)
      → IsInput input.id input.name input.description input.amount_of_employees input.company_type
      → FitsColumn (company_of input w)
      → IsTimestamp (utc (event_now w))
      → pg.company_at w.committed input.id ≡ none
      → NameFree pg w.committed (trim_space input.name)
      → pg.outbox_at w.committed (event_id w) ≡ none
      → codec.time_text (utc (created_now w)) ≡ ok created
      → codec.time_text (utc (event_now w)) ≡ ok occurred
      → (create_company
          (app_env pg machine codec text)
          (app_service pg machine codec text)
          request_ctx
          input
          w).0
        ≡ ok (company_of input w)
  unfolding create_company company_service.Service.within_transaction app_service
      new_service_with_outbox transaction_manager
  create_company_succeeds input w created occurred accepted fits stamp id_free name_free event_free
        h h' =
      let accepts =
        new_with_id_accepts (created_now w) input.id input.name input.description
          input.amount_of_employees input.registered input.company_type accepted in
      let opened : W = record {
        committed = w.committed;
        working = w.committed;
        machine = (machine.time_now w.machine).1;
      } in
      rw accepts (
        within_transaction_succeeds pg up text
          (create_in_tx (app_env pg machine codec text) (app_service pg machine codec text)
            (company_of input w))
          (record w { machine = (machine.time_now w.machine).1 }) (company_of input w)
          (create_in_tx_succeeds (company_of input w) opened created created occurred stamp h h h'
            id_free name_free (company_of-IsValid input w accepted) fits event_free))

  -- A name that a committed company has is answered by an error that is ErrDuplicateName, for every
  -- input that is acceptable otherwise.
  pub create_company-taken :
      (input : CreateInput) (w : W) (i : Uuid) (row : Company)
      → IsInput input.id input.name input.description input.amount_of_employees input.company_type
      → pg.company_at w.committed i ≡ some row
      → row.name ≡ trim_space input.name
      → (e : GoError) × ((create_company
            (app_env pg machine codec text)
            (app_service pg machine codec text)
            request_ctx
            input
            w).0
          ≡ err e)
        × (error_is e is_duplicate_name ≡ true)
  unfolding create_company company_service.Service.within_transaction app_service
      new_service_with_outbox transaction_manager error_is
  create_company-taken input w i row accepted there same =
      let accepts =
        new_with_id_accepts (created_now w) input.id input.name input.description
          input.amount_of_employees input.registered input.company_type accepted in
      let opened : W = record {
        committed = w.committed;
        working = w.committed;
        machine = (machine.time_now w.machine).1;
      } in
      rw accepts (
        within_transaction_fails pg up text
          (create_in_tx (app_env pg machine codec text) (app_service pg machine codec text)
            (company_of input w))
          (record w { machine = (machine.time_now w.machine).1 })
          (wrap "create company: " duplicate_name) is_duplicate_name refl
          (create_in_tx_taken (company_of input w) opened i row there same))
