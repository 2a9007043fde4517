-- ===== src/Wiring/Responses/ById.antt =====
-- What a client of DELETE /companies/{id} and of GET /companies/{id} is answered.
use company_service.Common.{◌≡◌, refl, String, Option, none, some, Option-cases, inl, inr}
use company_service.Errors.{GoError}
use company_service.Action.{ok}
use company_service.Domain.{Uuid, Company, utc}
use company_service.Domain.Validation.{IsValid}
use company_service.Json.{Codec}
use company_service.Service.{Env, Service, delete_company, get_company}
use company_service.Postgres.{Postgres, Machine, World}
use company_service.Postgres.Laws.{PostgresLaws, loaded}
use company_service.Postgres.Available.{Available, FitsColumn, IsTimestamp, PlainCodec}
use company_service.Wiring.{request_ctx, app_env, app_service}
use company_service.Wiring.Removal.{
  deletion_id, deletion_now, delete_company_succeeds, delete_company-missing, get_company_succeeds,
  get_company-missing,
}
use company_service.Http.{Response, company_response, to_company_response, write_json}
use company_service.Http.Status.{write_app_error-table}
use company_service.Http.Handlers.{
  Request, handle_delete, handle_get, answer_nothing, answer_company, no_content, with_id,
}

-- The request names a company.
pub record Names (codec : Codec) (r : Request) (id : Uuid) : Type 0 where
  pub parsed : codec.uuid_parse r.id_param ≡ ok id
  pub at_request : r.ctx ≡ request_ctx

module _ {S : Type 0} (codec : Codec) (env : Env S) (service : Service S) (r : Request) (s : S)
    (id : Uuid) (names : Names codec r id) where
  handle_delete_runs :
      (handle_delete codec env service r s).0
      ≡ answer_nothing codec env service (delete_company env service request_ctx id s).0
  unfolding handle_delete with_id
  handle_delete_runs = rw (handle_delete, with_id, names.parsed) (rw names.at_request refl)

  handle_get_runs : handle_get codec env service r s ≡ (
    answer_company codec env service 200 (get_company env service request_ctx id s).0,
    (get_company env service request_ctx id s).1,
  )
  unfolding handle_get with_id
  handle_get_runs = rw (handle_get, with_id, names.parsed) (rw names.at_request refl)

module _ (pg : Postgres) (up : Available pg) (laws : PostgresLaws pg) (machine : Machine)
    (codec : Codec) (plain : PlainCodec codec) (text : GoError → String) where
  abbrev W : Type 0
  W = World pg.Db machine.State

  -- The answer to DELETE, by the company that was there.
  abbrev pub IsDeleteAnswer : Option Company → Response × W → Type 0
  IsDeleteAnswer none (response, w') = response.status ≡ 404
  IsDeleteAnswer (some c) (response, w') = response ≡ no_content

  -- The answer to GET, by the company that was there.
  abbrev pub IsGetAnswer : W → Option Company → Response × W → Type 0
  IsGetAnswer w none (response, w') = (response.status ≡ 404) × (w' ≡ w)
  IsGetAnswer w (some c) (response, w') =
      (response ≡ write_json 200 (company_response (to_company_response codec (loaded c))))
      × (w' ≡ w)

  -- A company that may be missing is valid, and its times have a text.
  abbrev pub IsAnnounceable : Option Company → Type 0
  IsAnnounceable none = Unit
  IsAnnounceable (some c) =
      IsValid (loaded c)
      × FitsColumn (loaded c)
      × ((created : String) × (codec.time_text (utc c.created_at) ≡ ok created))
      × ((updated : String) × (codec.time_text (utc c.updated_at) ≡ ok updated))

  -- With a database that is reachable, DELETE /companies/{id} is answered 204 with no body if there is
  -- a company with the identifier, and 404 if there is none, provided that the stored company is valid,
  -- its fields are values of their columns, the times have a text and that of the event is in the
  -- range of timestamptz, and no event has the drawn identifier.
  pub handle_delete-IsDeleteAnswer :
      (r : Request) (id : Uuid) (w : W) (occurred : String)
      → Names codec r id
      → pg.outbox_at w.committed (deletion_id pg up laws machine codec plain text w) ≡ none
      → IsTimestamp (utc (deletion_now pg up laws machine codec plain text w))
      → IsAnnounceable (pg.company_at w.committed id)
      → codec.time_text (utc (deletion_now pg up laws machine codec plain text w)) ≡ ok occurred
      → IsDeleteAnswer (pg.company_at w.committed id) (
          handle_delete codec
            (app_env pg machine codec text)
            (app_service pg machine codec text)
            r
            w)
  unfolding answer_nothing
  handle_delete-IsDeleteAnswer r id w occurred names free stamp texts h =
      elim (Option-cases (pg.company_at w.committed id)) [
        | inl missing ↦
            let (e, failed, found) =
              delete_company-missing pg up laws machine codec plain text id w missing in
            let (_, _, absent, _, _) = write_app_error-table e in
            rw missing (rw (handle_delete_runs codec _ _ r w id names) (rw failed (absent found)))
        | inr (c, there) ↦
            let (valid, fits, (created, is_created), (updated, is_updated)) = rw there at texts in
            rw there (
              rw (handle_delete_runs codec _ _ r w id names) (
                rw
                  (delete_company_succeeds pg up laws machine codec plain text id c w created
                    updated occurred there valid fits stamp free is_created is_updated h)
                  refl))
      ]

  -- With a database that is reachable, GET /companies/{id} is answered 200 with the stored company,
  -- its times in UTC, if there is one with the identifier, and 404 if there is none, and changes
  -- nothing.
  pub handle_get-IsGetAnswer :
      (r : Request) (id : Uuid) (w : W)
      → Names codec r id
      → IsGetAnswer w
          (pg.company_at w.committed id)
          (handle_get codec (app_env pg machine codec text) (app_service pg machine codec text) r w)
  unfolding answer_company
  handle_get-IsGetAnswer r id w names =
      rw
        (handle_get_runs codec (app_env pg machine codec text) (app_service pg machine codec text) r
          w id names)
        (elim (Option-cases (pg.company_at w.committed id)) [
          | inl missing ↦
              let (e, failed, found) =
                get_company-missing pg up laws machine codec plain text id w missing in
              let (_, _, absent, _, _) = write_app_error-table e in
              rw missing (rw failed (absent found, refl))
          | inr (c, there) ↦ rw there (
              rw (get_company_succeeds pg up laws machine codec plain text id c w there)
                (refl, refl))
        ])
