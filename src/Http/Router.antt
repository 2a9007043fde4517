-- ===== src/Http/Router.antt =====
-- router.go: the routes of NewRouter and what is wrapped around them. Which route a request matches
-- is chi's part, and so are the middlewares of chi (request id, real IP, recovery, timeout).
pub mod Guarded
use company_service.Common.{ℕ, String, Bool, true, false, [], if◌then◌else◌}
use company_service.Action.{Action, Result, ok, err}
use company_service.Application.{Context}
use company_service.Json.{Codec}
use company_service.Service.{Env, Service}
use company_service.Http.{Response, error_response, status_ok, write_json}
use company_service.Http.Handlers.{
  Request, Handler, handle_create, handle_patch, handle_delete, handle_get,
}
use company_service.Http.Auth.{auth_middleware}

-- The routes, by method and pattern.
pub data Route : Type 0 where
  get_swagger get_healthz get_readyz get_companies_id : Route
  post_companies patch_companies_id delete_companies_id : Route

unfoldable pub healthz : Response
healthz = write_json 200 status_ok

-- readyz, with the answer of `ready.Ping`
unfoldable pub readyz : Result (Unit {0}) → Response
readyz (ok _) = write_json 200 status_ok
readyz (err e) = write_json 503 (error_response "not ready" [])

module _ {S C : Type 0} (codec : Codec) (env : Env S) (service : Service S)
    (validate : String → Result C) (ping : Context → Action S Unit) (swagger : Handler S) where
  unfoldable pub handler_of : Route → Handler S
  handler_of get_swagger r s = swagger r s
  handler_of get_healthz r s = (healthz, s)
  handler_of get_readyz r s = let (answer, s') = ping r.ctx s in (readyz answer, s')
  handler_of get_companies_id r s = handle_get codec env service r s
  handler_of post_companies r s = auth_middleware validate (handle_create codec env service) r s
  handler_of patch_companies_id r s = auth_middleware validate (handle_patch codec env service) r s
  handler_of delete_companies_id r s =
      auth_middleware validate (handle_delete codec env service) r s
