-- ===== src/Wiring/Responses.antt =====
-- What a client of POST /companies is answered.
pub mod ById
pub mod Patching
pub mod Creating
pub mod Verdict
use company_service.Common.{◌≡◌, refl, String, none, some}
use company_service.Common.Text.{trim_space}
use company_service.Errors.{GoError}
use company_service.Action.{ok}
use company_service.Domain.{Uuid, Company, utc}
use company_service.Domain.Making.{IsInput}
use company_service.Application.{CreateInput}
use company_service.Json.{Codec}
use company_service.Service.{Env, Service, create_company}
use company_service.Postgres.{Postgres, Machine, World}
use company_service.Postgres.Laws.{NameFree, PostgresLaws}
use company_service.Postgres.Available.{Available, FitsColumn, IsTimestamp, PlainCodec}
use company_service.Wiring.{request_ctx, app_env, app_service}
use company_service.Wiring.Success.{
  created_now, event_id, event_now, company_of, create_company_succeeds, create_company-taken,
}
use company_service.Http.{
  CreateCompanyRequest, create_to_input, company_response, to_company_response, write_json,
}
use company_service.Http.Status.{write_app_error-table}
use company_service.Http.Decode.{decode_create}
use company_service.Http.Handlers.{Request, handle_create, answer_company}

-- A request whose body gives an input is handed to CreateCompany.
handle_create_runs :
    {S : Type 0} (codec : Codec) (env : Env S) (service : Service S) (r : Request) (s : S)
    (req : CreateCompanyRequest) (input : CreateInput)
    → decode_create r.body ≡ ok req
    → create_to_input codec req ≡ ok input
    → (handle_create codec env service r s).0
      ≡ answer_company codec env service 201 (create_company env service r.ctx input s).0
unfolding handle_create
handle_create_runs codec env service r s req input decoded converted =
    rw (handle_create, decoded) (rw converted refl)

module _ (pg : Postgres) (up : Available pg) (laws : PostgresLaws pg) (machine : Machine)
    (codec : Codec) (plain : PlainCodec codec) (text : GoError → String) where
  abbrev W : Type 0
  W = World pg.Db machine.State

  -- The body of the request is one JSON object of an input.
  pub record Asks (r : Request) (input : CreateInput) : Type 0 where
    pub req : CreateCompanyRequest
    pub decoded : decode_create r.body ≡ ok req
    pub converted : create_to_input codec req ≡ ok input
    pub at_request : r.ctx ≡ request_ctx

  -- With a database that is reachable, POST /companies is answered 409 when a company has the name
  -- and the input is acceptable.
  pub handle_create-taken :
      (r : Request) (input : CreateInput) (w : W) (i : Uuid) (row : Company)
      → Asks r input
      → IsInput input.id input.name input.description input.amount_of_employees input.company_type
      → pg.company_at w.committed i ≡ some row
      → row.name ≡ trim_space input.name
      → (handle_create codec
          (app_env pg machine codec text)
          (app_service pg machine codec text)
          r
          w).0.status
        ≡ 409
  unfolding answer_company
  handle_create-taken r input w i row asks accepted there same =
      let (e, failed, found) =
        create_company-taken pg up laws machine codec plain text input w i row accepted there
          same in
      let (_, _, _, _, conflict) = write_app_error-table e in
      rw
        (
          handle_create_runs codec _ _ r w asks.req input asks.decoded asks.converted,
          asks.at_request,
        )
        (rw failed (conflict found))

  -- With a database that is reachable, and times that have a text, POST /companies with an
  -- acceptable input whose identifier and whose name no company has, and whose fields fit their
  -- columns, is answered 201 with the company of the input, provided that no event has the drawn
  -- identifier.
  pub handle_create-created :
      (r : Request) (input : CreateInput) (w : W) (created occurred : String)
      → Asks r input
      → IsInput input.id input.name input.description input.amount_of_employees input.company_type
      → FitsColumn (company_of pg up laws machine codec plain text input w)
      → IsTimestamp (utc (event_now pg up laws machine codec plain text w))
      → pg.company_at w.committed input.id ≡ none
      → NameFree pg w.committed (trim_space input.name)
      → pg.outbox_at w.committed (event_id pg up laws machine codec plain text w) ≡ none
      → codec.time_text (utc (created_now pg up laws machine codec plain text w)) ≡ ok created
      → codec.time_text (utc (event_now pg up laws machine codec plain text w)) ≡ ok occurred
      → (handle_create codec
          (app_env pg machine codec text)
          (app_service pg machine codec text)
          r
          w).0
        ≡ write_json 201 (
            company_response
              (to_company_response codec (company_of pg up laws machine codec plain text input w)))
  unfolding answer_company
  handle_create-created r input w created occurred asks accepted fits stamp id_free name_free
        event_free h h' =
      let succeeded =
        create_company_succeeds pg up laws machine codec plain text input w created occurred
          accepted fits stamp id_free name_free event_free h h' in
      rw
        (
          handle_create_runs codec _ _ r w asks.req input asks.decoded asks.converted,
          asks.at_request,
        )
        (rw succeeded refl)
