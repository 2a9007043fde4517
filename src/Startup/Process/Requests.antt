-- ===== src/Startup/Process/Requests.antt =====
-- What one request does to the stored rows.
use company_service.Common.{◌≡◌, refl, String, inl, inr, ◌==◌, Bool-cases}
use company_service.Common.Int.{ℤ}
use company_service.Errors.{GoError}
use company_service.Action.{Action, Result}
use company_service.Action.Inversion.{Result-cases}
use company_service.Application.{Context, EventProducer}
use company_service.Json.{Codec}
use company_service.Service.{get_company, new_service_with_outbox}
use company_service.Postgres.{Postgres, Machine, World}
use company_service.Postgres.Laws.{SameCompanies, SameOutbox}
use company_service.Http.{create_to_input, patch_to_input}
use company_service.Http.Decode.{decode_create, decode_patch}
use company_service.Http.Handlers.{
  Request, Handler, with_id, patch_with_id, run_patch, handle_create, handle_patch, handle_delete,
  handle_get,
}
use company_service.Http.Auth.{auth_middleware, bearer_token}
use company_service.Http.Router.{
  Route, get_swagger, get_healthz, get_readyz, get_companies_id, post_companies, patch_companies_id,
  delete_companies_id, handler_of,
}
use company_service.Http.Router.Guarded.{Mutates, Authorized, handler_of_guarded}
use company_service.Wiring.{request_ctx, app_env, app_service}
use company_service.Wiring.Steps.{get_by_id_keeps}
use company_service.Postgres.Companies.{company_repository}
use company_service.Wiring.Invariant.{create, patch, delete, get, serve_call}
use company_service.Wiring.System.{Step, serves, moves}

module _ (pg : Postgres) where
  abbrev pub SameRows : pg.Db → pg.Db → Type 0
  SameRows db db' = SameCompanies pg db db' × SameOutbox pg db db'

  pub SameRows-refl : (db : pg.Db) → SameRows db db
  SameRows-refl db = (record { at = λ i. refl }, record { at = λ i. refl })

module _ (pg : Postgres) (machine : Machine) (codec : Codec) (text : GoError → String)
    (producer : EventProducer machine.State) (interval batch_size : ℤ) {C : Type 0}
    (validate : String → Result C) (ping : Context → Action (World pg.Db machine.State) Unit)
    (swagger : Handler (World pg.Db machine.State)) (r : Request) (w : World pg.Db machine.State)
    (at : r.ctx ≡ request_ctx) where
  abbrev W : Type 0
  W = World pg.Db machine.State

  abbrev Moved : W → Type 0
  Moved w' = Step pg machine codec text producer interval batch_size w w'

  stays : Moved w
  stays = moves (SameRows-refl pg w.committed).0 (SameRows-refl pg w.committed).1

  handle_create-Step :
      Moved
        (handle_create codec
          (app_env pg machine codec text)
          (app_service pg machine codec text)
          r
          w).1
  unfolding handle_create serve_call
  handle_create-Step = elim (Result-cases (decode_create r.body)) [
    | inr (e, failed) ↦ rw (handle_create, failed) stays
    | inl (req, decoded) ↦ elim (Result-cases (create_to_input codec req)) [
      | inr (e, failed) ↦ rw (handle_create, decoded) (rw failed stays)
      | inl (input, converted) ↦
          rw (handle_create, decoded) (rw converted (rw at (serves (create input))))
    ]
  ]

  handle_patch-Step :
      Moved
        (handle_patch codec
          (app_env pg machine codec text)
          (app_service pg machine codec text)
          r
          w).1
  unfolding handle_patch with_id patch_with_id run_patch serve_call
  handle_patch-Step = elim (Result-cases (codec.uuid_parse r.id_param)) [
    | inr (e, failed) ↦ rw (handle_patch, with_id, failed) stays
    | inl (id, parsed) ↦ elim (Result-cases (decode_patch r.body)) [
      | inr (e, failed) ↦ rw (handle_patch, with_id, parsed) (rw (patch_with_id, failed) stays)
      | inl (req, decoded) ↦ elim (Result-cases (patch_to_input req)) [
        | inr (e, failed) ↦
            rw (handle_patch, with_id, parsed)
              (rw (patch_with_id, decoded) (rw (run_patch, failed) stays))
        | inl (input, converted) ↦
            rw (handle_patch, with_id, parsed)
              (rw (patch_with_id, decoded)
                (rw (run_patch, converted) (rw at (serves (patch id input)))))
      ]
    ]
  ]

  handle_delete-Step :
      Moved
        (handle_delete codec
          (app_env pg machine codec text)
          (app_service pg machine codec text)
          r
          w).1
  unfolding handle_delete with_id serve_call
  handle_delete-Step = elim (Result-cases (codec.uuid_parse r.id_param)) [
    | inr (e, failed) ↦ rw (handle_delete, with_id, failed) stays
    | inl (id, parsed) ↦ rw (handle_delete, with_id, parsed) (rw at (serves (delete id)))
  ]

  handle_get-Step :
      Moved
        (handle_get codec (app_env pg machine codec text) (app_service pg machine codec text) r w).1
  unfolding handle_get with_id serve_call
  handle_get-Step = elim (Result-cases (codec.uuid_parse r.id_param)) [
    | inr (e, failed) ↦ rw (handle_get, with_id, failed) stays
    | inl (id, parsed) ↦ rw (handle_get, with_id, parsed) (rw at (serves (get id)))
  ]

  auth_middleware-Step :
      (next : Handler W) → Moved (next r w).1 → Moved (auth_middleware validate next r w).1
  unfolding auth_middleware
  auth_middleware-Step next moved = elim (Bool-cases (bearer_token r.authorization == "")) [
    | inl empty ↦ rw empty stays
    | inr full ↦ elim (Result-cases (validate (bearer_token r.authorization))) [
      | inl (claims, accepted) ↦ rw (full, accepted) moved
      | inr (e, refused) ↦ rw (full, refused) stays
    ]
  ]

  -- A ping and the documents change no row.
  pub record Idles : Type 0 where
    pub pinged : SameRows pg w.committed (ping r.ctx w).1.committed
    pub documented : SameRows pg w.committed (swagger r w).1.committed

  -- A request is one call of a use case, or changes no row.
  pub handler_of-Step :
      Idles
      → (route : Route)
      → Moved
          (handler_of codec
            (app_env pg machine codec text)
            (app_service pg machine codec text)
            validate
            ping
            swagger
            route
            r
            w).1
  unfolding handler_of
  handler_of-Step idles get_swagger = moves idles.documented.0 idles.documented.1
  handler_of-Step idles get_healthz = stays
  handler_of-Step idles get_readyz = moves idles.pinged.0 idles.pinged.1
  handler_of-Step idles get_companies_id = handle_get-Step
  handler_of-Step idles post_companies = auth_middleware-Step _ handle_create-Step
  handler_of-Step idles patch_companies_id = auth_middleware-Step _ handle_patch-Step
  handler_of-Step idles delete_companies_id = auth_middleware-Step _ handle_delete-Step

  abbrev IsLetIn : Type 0
  IsLetIn =
      Authorized codec (app_env pg machine codec text) (app_service pg machine codec text) validate
        ping swagger r

  handle_get-SameRows :
      SameRows pg w.committed
        (handle_get codec
          (app_env pg machine codec text)
          (app_service pg machine codec text)
          r
          w).1.committed
  unfolding handle_get with_id get_company app_service new_service_with_outbox company_repository
  handle_get-SameRows = elim (Result-cases (codec.uuid_parse r.id_param)) [
    | inr (e, failed) ↦ rw (handle_get, with_id, failed) (SameRows-refl pg w.committed)
    | inl (id, parsed) ↦
        rw (handle_get, with_id, parsed)
          (rw (get_by_id_keeps pg machine.State w r.ctx id) (SameRows-refl pg w.committed))
  ]

  refused-SameRows :
      (route : Route)
      → Mutates route
      → ¬ IsLetIn
      → SameRows pg w.committed
          (handler_of codec
            (app_env pg machine codec text)
            (app_service pg machine codec text)
            validate
            ping
            swagger
            route
            r
            w).1.committed
  refused-SameRows route mutates blocked =
      let (_, refuses) =
        handler_of_guarded codec (app_env pg machine codec text) (app_service pg machine codec text)
          validate ping swagger route r w mutates in
      rw (refuses blocked).1 (SameRows-refl pg w.committed)

  -- A request that reads, or that has no token that is accepted, changes no row.
  pub handler_of-SameRows :
      Idles
      → (route : Route) → ¬ (Mutates route × IsLetIn)
      → SameRows pg w.committed
          (handler_of codec
            (app_env pg machine codec text)
            (app_service pg machine codec text)
            validate
            ping
            swagger
            route
            r
            w).1.committed
  unfolding handler_of
  handler_of-SameRows idles get_swagger quiet = idles.documented
  handler_of-SameRows idles get_healthz quiet = SameRows-refl pg w.committed
  handler_of-SameRows idles get_readyz quiet = idles.pinged
  handler_of-SameRows idles get_companies_id quiet = handle_get-SameRows
  handler_of-SameRows idles post_companies quiet =
      refused-SameRows post_companies tt (λ let_in. quiet (tt, let_in))
  handler_of-SameRows idles patch_companies_id quiet =
      refused-SameRows patch_companies_id tt (λ let_in. quiet (tt, let_in))
  handler_of-SameRows idles delete_companies_id quiet =
      refused-SameRows delete_companies_id tt (λ let_in. quiet (tt, let_in))
