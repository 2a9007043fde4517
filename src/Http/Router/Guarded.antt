-- ===== src/Http/Router/Guarded.antt =====
-- Only a valid token reaches the handlers that change companies.
use company_service.Common.{
  ◌≡◌, ◌≢◌, inl, inr, refl, String, Bool-cases, false, arith, ◌==◌, eq_iff,
}
use company_service.Action.{Action, Result, ok}
use company_service.Application.{Context}
use company_service.Action.Inversion.{Result-cases}
use company_service.Json.{Codec}
use company_service.Service.{Env, Service}
use company_service.Http.Handlers.{Request, Handler, handle_create, handle_patch, handle_delete}
use company_service.Http.Auth.{auth_middleware, bearer_token}
use company_service.Http.Router.{
  Route, post_companies, patch_companies_id, delete_companies_id, handler_of,
}

not_empty : (s : String) → (s == "") ≡ false → s ≢ ""
not_empty s h = ground (arith, eq_iff s "")

is_full : (s : String) → s ≢ "" → (s == "") ≡ false
is_full s h = ground (arith, eq_iff s "")

-- The routes that change companies.
abbrev pub Mutates : Route → Type 0
Mutates post_companies = Unit
Mutates patch_companies_id = Unit
Mutates delete_companies_id = Unit
Mutates _ = ⊥

module _ {S C : Type 0} (codec : Codec) (env : Env S) (service : Service S)
    (validate : String → Result C) (ping : Context → Action S Unit) (swagger : Handler S) where
  -- The request carries a token that the validator accepts.
  abbrev pub Authorized : Request → Type 0
  Authorized r =
      (bearer_token r.authorization ≢ "")
      × (claims : C) × (validate (bearer_token r.authorization) ≡ ok claims)

  auth_middleware_blocks :
      (next : Handler S) (r : Request) (s : S)
      → ¬ Authorized r
      → ((auth_middleware validate next r s).0.status ≡ 401)
        × ((auth_middleware validate next r s).1 ≡ s)
  unfolding auth_middleware
  auth_middleware_blocks next r s blocked = elim (Bool-cases (bearer_token r.authorization == "")) [
    | inl empty ↦ rw empty (refl, refl)
    | inr full ↦ elim (Result-cases (validate (bearer_token r.authorization))) [
      | inl (claims, accepted) ↦
          absurd (blocked (not_empty (bearer_token r.authorization) full, claims, accepted))
      | inr (e, refused) ↦ rw (full, refused) (refl, refl)
    ]
  ]

  auth_middleware_passes :
      (next : Handler S) (r : Request) (s : S)
      → Authorized r
      → auth_middleware validate next r s ≡ next r s
  unfolding auth_middleware
  auth_middleware_passes next r s (some_token, claims, accepted) =
      rw (is_full (bearer_token r.authorization) some_token, accepted) refl

  -- The handler of a route behind its authentication.
  abbrev pub unguarded : Route → Handler S
  unguarded post_companies = handle_create codec env service
  unguarded patch_companies_id = handle_patch codec env service
  unguarded delete_companies_id = handle_delete codec env service
  unguarded route = handler_of codec env service validate ping swagger route

  -- On the routes that change companies, a request whose header carries a token that the validator
  -- accepts is handled, and any other is answered 401 and changes nothing.
  pub handler_of_guarded :
      (route : Route) (r : Request) (s : S)
      → Mutates route
      → (Authorized r
          → handler_of codec env service validate ping swagger route r s ≡ unguarded route r s)
        × (¬ Authorized r
            → ((handler_of codec env service validate ping swagger route r s).0.status ≡ 401)
              × ((handler_of codec env service validate ping swagger route r s).1 ≡ s))
  unfolding handler_of
  handler_of_guarded post_companies r s m =
      (auth_middleware_passes _ r s, auth_middleware_blocks _ r s)
  handler_of_guarded patch_companies_id r s m =
      (auth_middleware_passes _ r s, auth_middleware_blocks _ r s)
  handler_of_guarded delete_companies_id r s m =
      (auth_middleware_passes _ r s, auth_middleware_blocks _ r s)
  handler_of_guarded _ r s m = absurd m
