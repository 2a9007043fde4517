-- ===== src/Wiring/Responses/Creating.antt =====
-- What a client of POST /companies is answered, in every situation.
use company_service.Common.{◌≡◌, ◌≢◌, refl, arith, String, none, some}
use company_service.Common.Text.{trim_space}
use company_service.Errors.{GoError, new_validation_error, as_validation_error}
use company_service.Action.{ok, err}
use company_service.Domain.{Uuid, Company, utc}
use company_service.Domain.Making.{IsInput}
use company_service.Application.{CreateInput}
use company_service.Json.{Codec}
use company_service.Postgres.{Postgres, Machine, World}
use company_service.Postgres.Laws.{NameFree, PostgresLaws}
use company_service.Postgres.Available.{Available, FitsColumn, IsTimestamp, PlainCodec}
use company_service.Wiring.{app_env, app_service}
use company_service.Wiring.Success.{created_now, event_id, event_now, company_of}
use company_service.Wiring.Success.Refusals.{create_company-clashes, create_company-unacceptable}
use company_service.Wiring.Responses.{
  Asks, handle_create_runs, handle_create-taken, handle_create-created,
}
use company_service.Wiring.Responses.Verdict.{Verdict, refused, answered, HasVerdict}
use company_service.Http.{CreateCompanyRequest, create_to_input}
use company_service.Http.Status.{write_app_error-table}
use company_service.Http.Decode.{decode_create}
use company_service.Http.Handlers.{Request, handle_create, answer_company}

create_to_input-err :
    (codec : Codec) (req : CreateCompanyRequest) (e : GoError)
    → create_to_input codec req ≡ err e
    → as_validation_error e ≢ none
unfolding create_to_input new_validation_error as_validation_error
create_to_input-err codec req e h missing = ground (arith, h, missing)

module _ (pg : Postgres) (up : Available pg) (laws : PostgresLaws pg) (machine : Machine)
    (codec : Codec) (plain : PlainCodec codec) (text : GoError → String) where
  abbrev W : Type 0
  W = World pg.Db machine.State

  -- What has to hold for a company to be stored.
  pub record CanCreate (input : CreateInput) (w : W) : Type 0 where
    pub accepted :
        IsInput input.id input.name input.description input.amount_of_employees input.company_type
    pub fits : FitsColumn (company_of pg up laws machine codec plain text input w)
    pub stamp : IsTimestamp (utc (event_now pg up laws machine codec plain text w))
    pub id_free : pg.company_at w.committed input.id ≡ none
    pub name_free : NameFree pg w.committed (trim_space input.name)
    pub event_free :
        pg.outbox_at w.committed (event_id pg up laws machine codec plain text w) ≡ none
    pub created : String
    pub created_text :
        codec.time_text (utc (created_now pg up laws machine codec plain text w)) ≡ ok created
    pub occurred : String
    pub occurred_text :
        codec.time_text (utc (event_now pg up laws machine codec plain text w)) ≡ ok occurred

  -- The answer that each situation calls for.
  pub data PostCase (r : Request) (w : W) : Verdict → Type 0 where
    bad_body : (e : GoError) → decode_create r.body ≡ err e → PostCase r w (refused 400)
    bad_fields :
        (req : CreateCompanyRequest) (e : GoError)
        → decode_create r.body ≡ ok req
        → create_to_input codec req ≡ err e
        → PostCase r w (refused 400)
    not_acceptable :
        (input : CreateInput)
        → Asks pg up laws machine codec plain text r input
        → ¬ (
            IsInput input.id input.name input.description input.amount_of_employees
              input.company_type)
        → PostCase r w (refused 400)
    name_taken :
        (input : CreateInput) (i : Uuid) (row : Company)
        → Asks pg up laws machine codec plain text r input
        → IsInput input.id input.name input.description input.amount_of_employees input.company_type
        → pg.company_at w.committed i ≡ some row
        → row.name ≡ trim_space input.name
        → PostCase r w (refused 409)
    id_taken :
        (input : CreateInput) (row : Company)
        → Asks pg up laws machine codec plain text r input
        → IsInput input.id input.name input.description input.amount_of_employees input.company_type
        → pg.company_at w.committed input.id ≡ some row
        → NameFree pg w.committed (trim_space input.name)
        → FitsColumn (company_of pg up laws machine codec plain text input w)
        → PostCase r w (refused 409)
    can_create :
        (input : CreateInput)
        → Asks pg up laws machine codec plain text r input
        → CanCreate input w
        → PostCase r w (answered 201 (company_of pg up laws machine codec plain text input w))

  -- With a database that is reachable, POST /companies is answered 400 when the body is not one JSON
  -- object of the request, when a required field is missing or the identifier is not readable, or when
  -- a field is not acceptable; 409 when the input is acceptable and a company has the name, or when
  -- the fields are values of their columns besides and a company has the identifier; and 201 with the
  -- company when the input is acceptable, its identifier and its name are free, the fields are values
  -- of their columns, no event has the drawn identifier, the times have a text and that of the event
  -- is in the range of timestamptz.
  pub handle_create-HasVerdict :
      (r : Request) (w : W) (verdict : Verdict)
      → PostCase r w verdict
      → HasVerdict codec verdict
          (handle_create codec
            (app_env pg machine codec text)
            (app_service pg machine codec text)
            r
            w).0
  unfolding handle_create answer_company
  handle_create-HasVerdict r w _ (bad_body e failed) = rw (handle_create, failed) refl
  handle_create-HasVerdict r w _ (bad_fields req e decoded failed) =
      let (on_invalid, _, _, _, _) = write_app_error-table e in
      rw (handle_create, decoded) (rw failed (on_invalid (create_to_input-err codec req e failed)))
  handle_create-HasVerdict r w _ (not_acceptable input asks bad) =
      let (e, failed, invalid) =
        create_company-unacceptable pg up laws machine codec plain text input w bad in
      let (on_invalid, _, _, _, _) = write_app_error-table e in
      rw
        (
          handle_create_runs codec _ _ r w asks.req input asks.decoded asks.converted,
          asks.at_request,
        )
        (rw failed (on_invalid invalid))
  handle_create-HasVerdict r w _ (name_taken input i row asks accepted there same) =
      handle_create-taken pg up laws machine codec plain text r input w i row asks accepted there
        same
  handle_create-HasVerdict r w _ (id_taken input row asks accepted there free fits) =
      let (e, failed, found) =
        create_company-clashes pg up laws machine codec plain text input w row accepted there free
          fits in
      let (_, _, _, on_id, _) = write_app_error-table e in
      rw
        (
          handle_create_runs codec _ _ r w asks.req input asks.decoded asks.converted,
          asks.at_request,
        )
        (rw failed (on_id found))
  handle_create-HasVerdict r w _ (can_create input asks can) =
      handle_create-created pg up laws machine codec plain text r input w can.created can.occurred
        asks can.accepted can.fits can.stamp can.id_free can.name_free can.event_free
        can.created_text can.occurred_text
