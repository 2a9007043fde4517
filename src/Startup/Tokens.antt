-- ===== src/Startup/Tokens.antt =====
-- The token that cmd/token prints, at the routes of cmd/api.
use company_service.Common.{ℕ, ◌≡◌, ◌≢◌, arith, refl, sym, ◌∙◌, ap, String}
use company_service.Common.Text.{trim_space}
use company_service.Errors.{GoError}
use company_service.Action.{Action, ok}
use company_service.Application.{Context}
use company_service.Domain.{Time}
use company_service.Json.{Codec, equal_fold, fold_code}
use company_service.Postgres.{Postgres, Machine, World}
use company_service.Postgres.Pool.{PoolLibrary}
use company_service.Events.{WriterSettings, KafkaWriter, Logger}
use company_service.Jwt.{Claims, JwtLibrary, validate}
use company_service.Token.{printed, SigningLaws}
use company_service.Token.Printed.{claims_of, printed-signed, main-validate}
use company_service.Http.Handlers.{Request, Handler}
use company_service.Http.Auth.{bearer_token}
use company_service.Http.Auth.Bearer.{NoSpace, joined, bearer_token_iff}
use company_service.Http.Router.{Route}
use company_service.Http.Router.Guarded.{Mutates, unguarded, handler_of_guarded}
use company_service.Wiring.{app_env}
use company_service.Startup.{App, started, main}
use company_service.Startup.Process.{router}
use company_service.Startup.Process.Made.{main-IsMade}

-- What is documented of a signed text: it is not empty, and has no spaces.
pub record PlainLaws (jwt : JwtLibrary) : Type 0 where
  pub plain :
      (claims : Claims) (secret text : String)
      → jwt.signed_string claims secret ≡ ok text
      → (text ≢ "") × (trim_space text ≡ text)

scheme-NoSpace : NoSpace "Bearer"
scheme-NoSpace = ground arith

bearer_header :
    (token : String)
    → token ≢ ""
    → trim_space token ≡ token
    → bearer_token (joined "Bearer" token) ≡ token
unfolding equal_fold fold_code
bearer_header token full plain =
    (bearer_token_iff (joined "Bearer" token) token full).1
      ("Bearer", token, refl, scheme-NoSpace, refl, plain)

module _ (pg : Postgres) (machine : Machine) (codec : Codec) (text : GoError → String)
    {O P : Type 0} (pools : PoolLibrary O P (World pg.Db machine.State))
    (open_writer : WriterSettings → KafkaWriter machine.State) (quote : String → String)
    (logger : Logger machine.State) (float_part : (f unit k : ℕ) → ℕ) (getenv : String → String)
    (ctx : Context) (jwt : JwtLibrary) (swagger : Handler (World pg.Db machine.State))
    (server_shutdown : Context → Action (World pg.Db machine.State) Unit)
    (IsCurrent : Claims → Type 0) (signing : SigningLaws jwt IsCurrent)
    (plain : PlainLaws jwt) where
  abbrev W : Type 0
  W = World pg.Db machine.State

  -- If main has started, a request on a route that changes companies is handled when its header is
  -- Bearer and a token that the tool has printed under the same JWT_SECRET, as long as the token is
  -- current.
  pub printed-let_in :
      (w0 : W) (app : App W machine.State P)
      → (main pg machine codec text pools open_writer quote logger float_part getenv ctx w0).0
        ≡ started app
      → (tool_getenv : String → String) (now now' : Time) (token : String)
      → company_service.Token.main jwt tool_getenv now now' ≡ printed token
      → tool_getenv "JWT_SECRET" ≡ getenv "JWT_SECRET"
      → IsCurrent (claims_of jwt tool_getenv now now')
      → (route : Route) (r : Request) (w : W) → Mutates route
      → r.authorization ≡ joined "Bearer" token
      → router pg machine codec text pools jwt swagger server_shutdown app route r w
        ≡ unguarded codec
            (app_env pg machine codec text)
            app.service
            (validate jwt app.jwt_secret)
            (pools.ping app.pool)
            swagger
            route
            r
            w
  unfolding router
  printed-let_in w0 app h tool_getenv now now' token prints same current route r w mutates header =
      let made =
        main-IsMade pg machine codec text pools open_writer quote logger float_part getenv ctx w0
          app h in
      let (full, trimmed) =
        plain.plain (claims_of jwt tool_getenv now now') (tool_getenv "JWT_SECRET") token
          (printed-signed jwt tool_getenv now now' token prints) in
      let (read, accepted, _, _) =
        main-validate jwt IsCurrent signing tool_getenv now now' token prints current in
      let is_token : bearer_token r.authorization ≡ token =
        ap bearer_token header ∙ bearer_header token full trimmed in
      let is_secret : tool_getenv "JWT_SECRET" ≡ app.jwt_secret = same ∙ sym made.secret in
      let lets_in : validate jwt app.jwt_secret (bearer_token r.authorization) ≡ ok read =
        ap (validate jwt app.jwt_secret) is_token
        ∙ ap (λ (s : String). validate jwt s token) (sym is_secret)
        ∙ accepted in
      (handler_of_guarded codec (app_env pg machine codec text) app.service
          (validate jwt app.jwt_secret) (pools.ping app.pool) swagger route r w mutates).0
        ((λ e. full (sym is_token ∙ e)), read, lets_in)
