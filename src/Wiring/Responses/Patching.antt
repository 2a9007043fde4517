-- ===== src/Wiring/Responses/Patching.antt =====
-- What a client of PATCH /companies/{id} is answered.
use company_service.Common.{ℕ, ◌≡◌, ◌≢◌, refl, String, true, false, none, some, inl, inr}
use company_service.Common.Text.{trim_space}
use company_service.Errors.{GoError}
use company_service.Action.{ok, err}
use company_service.Domain.{Uuid, Company, utc, is_empty_patch}
use company_service.Domain.Validation.{IsValid}
use company_service.Domain.Patching.{IsAcceptable, or_trim}
use company_service.Domain.Patching.Refusals.{IsRefusal}
use company_service.Application.{PatchInput}
use company_service.Json.{Codec}
use company_service.Service.{Env, Service, patch_company, patch_of}
use company_service.Postgres.{Postgres, Machine, World}
use company_service.Postgres.Laws.{PostgresLaws, loaded}
use company_service.Postgres.Available.{
  Available, FitsColumn, FreeFor, NoNul, IsTimestamp, PlainCodec,
}
use company_service.Wiring.{request_ctx, app_env, app_service}
use company_service.Wiring.Amendment.Steps.{patch_now, amendment_id, amendment_now, amended}
use company_service.Wiring.Amendment.Outcome.{
  FailsWith, patch_company-empty, patch_company-missing, patch_company-taken,
  patch_company-unacceptable, patch_company_succeeds,
}
use company_service.Http.{PatchCompanyRequest, patch_to_input}
use company_service.Http.Status.{write_app_error-table}
use company_service.Http.Decode.{decode_patch}
use company_service.Http.Handlers.{
  Request, handle_patch, patch_with_id, run_patch, answer_company, with_id,
}
use company_service.Wiring.Responses.ById.{Names}
use company_service.Wiring.Responses.Verdict.{Verdict, refused, answered, HasVerdict}

-- The body of the request is one JSON object of an input.
pub record Amends (r : Request) (input : PatchInput) : Type 0 where
  pub req : PatchCompanyRequest
  pub decoded : decode_patch r.body ≡ ok req
  pub converted : patch_to_input req ≡ ok input

handle_patch_runs :
    {S : Type 0} (codec : Codec) (env : Env S) (service : Service S) (r : Request) (s : S)
    (id : Uuid) (input : PatchInput)
    → Names codec r id
    → Amends r input
    → (handle_patch codec env service r s).0
      ≡ answer_company codec env service 200 (patch_company env service request_ctx id input s).0
unfolding handle_patch with_id patch_with_id run_patch
handle_patch_runs codec env service r s id input names asks =
    rw (handle_patch, with_id, names.parsed)
      (rw (patch_with_id, asks.decoded) (rw (run_patch, asks.converted) (rw names.at_request refl)))

module _ (pg : Postgres) (up : Available pg) (laws : PostgresLaws pg) (machine : Machine)
    (codec : Codec) (plain : PlainCodec codec) (text : GoError → String) where
  abbrev W : Type 0
  W = World pg.Db machine.State

  -- What has to hold for a patch of a row to be stored.
  pub record CanChange (id : Uuid) (input : PatchInput) (row : Company) (w : W) : Type 0 where
    pub full : is_empty_patch (patch_of input) ≡ false
    pub there : pg.company_at w.committed id ≡ some row
    pub free : FreeFor pg w.committed id (or_trim input.name row.name)
    pub acceptable : IsAcceptable (patch_of input)
    pub valid : IsValid (loaded row)
    pub fits : FitsColumn (amended pg up laws machine codec plain text input row w)
    pub stamp : IsTimestamp (utc (amendment_now pg up laws machine codec plain text w))
    pub event_free :
        pg.outbox_at w.committed (amendment_id pg up laws machine codec plain text w) ≡ none
    pub created : String
    pub created_text : codec.time_text (utc row.created_at) ≡ ok created
    pub updated : String
    pub updated_text :
        codec.time_text (utc (patch_now pg up laws machine codec plain text w)) ≡ ok updated
    pub occurred : String
    pub occurred_text :
        codec.time_text (utc (amendment_now pg up laws machine codec plain text w)) ≡ ok occurred

  -- The answer that each situation calls for.
  pub data PatchCase (id : Uuid) (input : PatchInput) (w : W) : Verdict → Type 0 where
    no_field : is_empty_patch (patch_of input) ≡ true → PatchCase id input w (refused 400)
    no_company :
        is_empty_patch (patch_of input) ≡ false
        → pg.company_at w.committed id ≡ none
        → PatchCase id input w (refused 404)
    name_taken :
        is_empty_patch (patch_of input) ≡ false
        → (row : Company) (s : String) (i : Uuid) (d : Company)
        → pg.company_at w.committed id ≡ some row
        → input.name ≡ some s
        → pg.company_at w.committed i ≡ some d
        → d.name ≡ trim_space s
        → row.name ≢ trim_space s
        → PatchCase id input w (refused 409)
    not_acceptable :
        is_empty_patch (patch_of input) ≡ false
        → (row : Company) → pg.company_at w.committed id ≡ some row
        → NoNul (or_trim input.name row.name)
        → FreeFor pg w.committed id (or_trim input.name row.name)
        → ¬ (IsAcceptable (patch_of input))
        → PatchCase id input w (refused 400)
    can_change :
        (row : Company)
        → CanChange id input row w
        → PatchCase id input w
            (answered 200 (amended pg up laws machine codec plain text input row w))

  refused-answer :
      (P : GoError → Type 0) (id : Uuid) (input : PatchInput) (w : W) (status : ℕ)
      → ((e : GoError)
          → P e
          → (answer_company codec
              (app_env pg machine codec text)
              (app_service pg machine codec text)
              200
              (err e)).status
            ≡ status)
      → FailsWith pg up laws machine codec plain text P id input w
      → (answer_company codec
          (app_env pg machine codec text)
          (app_service pg machine codec text)
          200
          (patch_company
            (app_env pg machine codec text)
            (app_service pg machine codec text)
            request_ctx
            id
            input
            w).0).status
        ≡ status
  refused-answer P id input w status table (e, failed, p) = rw failed (table e p)

  IsRefusal-status :
      (e : GoError)
      → IsRefusal e
      → (answer_company codec
          (app_env pg machine codec text)
          (app_service pg machine codec text)
          200
          (err e)).status
        ≡ 400
  unfolding answer_company
  IsRefusal-status e (inl empty) =
      let (_, on_empty, _, _, _) = write_app_error-table e in on_empty empty
  IsRefusal-status e (inr invalid) =
      let (on_invalid, _, _, _, _) = write_app_error-table e in on_invalid invalid

  answer-HasVerdict :
      (id : Uuid) (input : PatchInput) (w : W) (verdict : Verdict)
      → PatchCase id input w verdict
      → HasVerdict codec verdict (
          answer_company codec
            (app_env pg machine codec text)
            (app_service pg machine codec text)
            200
            (patch_company
              (app_env pg machine codec text)
              (app_service pg machine codec text)
              request_ctx
              id
              input
              w).0)
  unfolding answer_company
  answer-HasVerdict id input w _ (no_field empty) =
      refused-answer IsRefusal id input w 400 IsRefusal-status
        (patch_company-empty pg up laws machine codec plain text id input w empty)
  answer-HasVerdict id input w _ (no_company full missing) =
      refused-answer _ id input w 404
        (λ e. let (_, _, absent, _, _) = write_app_error-table e in absent)
        (patch_company-missing pg up laws machine codec plain text id input w full missing)
  answer-HasVerdict id input w _ (name_taken full row s i d there given d_there same other) =
      refused-answer _ id input w 409
        (λ e. let (_, _, _, _, conflict) = write_app_error-table e in conflict)
        (patch_company-taken pg up laws machine codec plain text id input w full row s i d there
          given d_there same other)
  answer-HasVerdict id input w _ (not_acceptable full row there plain_name free bad) =
      refused-answer IsRefusal id input w 400 IsRefusal-status (
        patch_company-unacceptable pg up laws machine codec plain text id input w full row there
          plain_name free bad)
  answer-HasVerdict id input w _ (can_change row can) =
      rw
        (patch_company_succeeds pg up laws machine codec plain text id input w can.full row
          can.there can.fits.name can.free can.created can.updated can.occurred can.acceptable
          can.valid can.fits can.stamp can.event_free can.created_text can.updated_text
          can.occurred_text)
        refl

  -- With a database that is reachable, PATCH /companies/{id} with a readable identifier and body is
  -- answered 400 when the patch names no field, 404 when no company has the identifier, 409 when
  -- the new name is another company's, 400 when the name is free and has no NUL and a field is not
  -- acceptable, and 200 with the patched company when every field is acceptable, the stored company
  -- is valid, the name is free, the fields of the patched company are values of their columns, no
  -- event has the drawn identifier, the times have a text and that of the event is in the range of
  -- timestamptz.
  pub handle_patch-HasVerdict :
      (r : Request) (id : Uuid) (input : PatchInput) (w : W) (verdict : Verdict)
      → Names codec r id
      → Amends r input
      → PatchCase id input w verdict
      → HasVerdict codec verdict
          (handle_patch codec
            (app_env pg machine codec text)
            (app_service pg machine codec text)
            r
            w).0
  handle_patch-HasVerdict r id input w verdict names asks situation =
      rw
        (handle_patch_runs codec (app_env pg machine codec text) (app_service pg machine codec text)
          r w id input names asks)
        (answer-HasVerdict id input w verdict situation)
