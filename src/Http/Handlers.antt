-- ===== src/Http/Handlers.antt =====
-- handlers.go: the four handlers. Their log lines are not modelled.
use company_service.Common.{ℕ, String, Option, none, some, []}
use company_service.Action.{Result, ok, err}
use company_service.Domain.{Uuid, Company}
use company_service.Application.{Context, CreateInput, PatchInput}
use company_service.Json.{Codec}
use company_service.Service.{
  Env, Service, create_company, patch_company, delete_company, get_company,
}
use company_service.Http.{
  Response, error_response, company_response, write_json, write_app_error, create_to_input,
  patch_to_input, to_company_response,
}
use company_service.Http.Decode.{Stream, decode_create, decode_patch}

-- What the handlers read of a request: `chi.URLParam(r, "id")`, the header Authorization, the body,
-- and the context.
pub record Request : Type 0 where
  pub id_param : String
  pub authorization : String
  pub body : Option Stream
  pub ctx : Context

-- A handler changes the state behind the service and answers.
abbrev pub Handler : Type 0 → Type 0
Handler S = Request → S → Response × S

abbrev pub invalid_json : Response
invalid_json = record { status = 400; payload = some (error_response "invalid JSON body" []) }

abbrev pub invalid_id : Response
invalid_id = record { status = 400; payload = some (error_response "invalid company id" []) }

abbrev pub no_content : Response
no_content = record { status = 204; payload = none }

module _ {S : Type 0} (codec : Codec) (env : Env S) (service : Service S) where
  -- The end of a handler: the company with a status, or the error.
  unfoldable pub answer_company : ℕ → Result Company → Response
  answer_company status (ok c) = write_json status (company_response (to_company_response codec c))
  answer_company status (err e) = write_app_error e

  unfoldable pub answer_nothing : Result (Unit {0}) → Response
  answer_nothing (ok _) = no_content
  answer_nothing (err e) = write_app_error e

  run_create : Context → Result CreateInput → S → Response × S
  run_create ctx (err e) s = (write_app_error e, s)
  run_create ctx (ok input) s =
      let (r, s') = create_company env service ctx input s in (answer_company 201 r, s')

  -- Handler.CreateCompany
  unfoldable pub handle_create : Handler S
  unfolding run_create answer_company
  handle_create r s = elim (decode_create r.body) [
    | err e ↦ (invalid_json, s)
    | ok req ↦ run_create r.ctx (create_to_input codec req) s
  ]

  -- Handler.parseID, and what the handler does with the identifier
  unfoldable pub with_id : Request → (Uuid → S → Response × S) → S → Response × S
  with_id r next s = elim (codec.uuid_parse r.id_param) [
    | err e ↦ (invalid_id, s)
    | ok id ↦ next id s
  ]

  unfoldable pub run_patch : Context → Uuid → Result PatchInput → S → Response × S
  run_patch ctx id (err e) s = (write_app_error e, s)
  run_patch ctx id (ok input) s =
      let (r, s') = patch_company env service ctx id input s in (answer_company 200 r, s')

  unfoldable pub patch_with_id : Request → Uuid → S → Response × S
  patch_with_id r id s = elim (decode_patch r.body) [
    | err e ↦ (invalid_json, s)
    | ok req ↦ run_patch r.ctx id (patch_to_input req) s
  ]

  -- Handler.PatchCompany
  unfoldable pub handle_patch : Handler S
  unfolding with_id patch_with_id run_patch answer_company
  handle_patch r = with_id r (patch_with_id r)

  -- Handler.DeleteCompany
  unfoldable pub handle_delete : Handler S
  unfolding with_id answer_nothing
  handle_delete r = with_id r λ id s.
      let (result, s') = delete_company env service r.ctx id s in (answer_nothing result, s')

  -- Handler.GetCompany
  unfoldable pub handle_get : Handler S
  unfolding with_id answer_company
  handle_get r = with_id r λ id s.
      let (result, s') = get_company env service r.ctx id s in (answer_company 200 result, s')
