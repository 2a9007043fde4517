-- ===== src/Wiring/Amendment/Outcome.antt =====
-- What PatchCompany returns with a database that is reachable.
use company_service.Common.{◌≡◌, ◌≢◌, refl, String, true, false, none, some, inl, inr}
use company_service.Common.Text.{trim_space}
use company_service.Errors.{
  GoError, error_is, is_not_found, is_duplicate_name, empty_patch, wrap, as_validation_error,
}
use company_service.Action.{Action, ok, err}
use company_service.Action.Inversion.{Result-cases}
use company_service.Domain.{Time, Uuid, Company, Patch, utc, apply_patch, is_empty_patch}
use company_service.Domain.Validation.{IsValid}
use company_service.Domain.Patching.{IsAcceptable, or_trim}
use company_service.Domain.Patching.Outcome.{apply_patch_needs}
use company_service.Domain.Patching.Refusals.{IsRefusal, apply_patch-Fails}
use company_service.Application.{Context, PatchInput}
use company_service.Json.{Codec}
use company_service.Service.{patch_in_tx, patch_company, patch_of, new_service_with_outbox}
use company_service.Postgres.{Postgres, Machine, World}
use company_service.Postgres.Laws.{PostgresLaws, loaded}
use company_service.Postgres.Available.{
  Available, FitsColumn, FreeFor, NoNul, IsTimestamp, PlainCodec,
}
use company_service.Postgres.Tx.{transaction_manager}
use company_service.Wiring.{tx_ctx, request_ctx, app_env, app_service}
use company_service.Wiring.Reachable.{
  Found, Found-IsKept, IsKept, within_transaction_succeeds, within_transaction_keeps,
}
use company_service.Wiring.Amendment.Steps.{
  patch_now, amendment_id, amendment_now, amended, patch_in_tx_misses, patch_in_tx_taken,
  patch_in_tx_refused, patch_in_tx_succeeds,
}

IsRefusal-IsKept : IsKept IsRefusal
unfolding error_is as_validation_error
IsRefusal-IsKept = record { at = λ prefix suffix e h. h }

-- ApplyPatch refuses a patch with an unacceptable field.
apply_patch_refuses :
    (now : Time) (p : Patch) (c : Company)
    → ¬ (IsAcceptable p)
    → (e : GoError) × ((apply_patch now p c).0 ≡ err e) × IsRefusal e
apply_patch_refuses now p c bad = elim (Result-cases (apply_patch now p c).0) [
  | inl (_, accepted) ↦ absurd (bad (apply_patch_needs now p c accepted).1)
  | inr (e, refused) ↦ (e, refused, (apply_patch-Fails now p).at c e refused)
]

module _ (pg : Postgres) (up : Available pg) (laws : PostgresLaws pg) (machine : Machine)
    (codec : Codec) (plain : PlainCodec codec) (text : GoError → String) where
  abbrev W : Type 0
  W = World pg.Db machine.State

  abbrev closure : Uuid → PatchInput → Context → Action W Company
  closure id input =
      patch_in_tx (app_env pg machine codec text) (app_service pg machine codec text) id input

  -- PatchCompany returns an error of which something is known.
  abbrev pub FailsWith : (GoError → Type 0) → Uuid → PatchInput → W → Type 0
  FailsWith P id input w =
      (e : GoError) × ((patch_company (app_env pg machine codec text)
          (app_service pg machine codec text) request_ctx id input w).0
        ≡ err e)
      × P e

  pub patch_company-empty :
      (id : Uuid) (input : PatchInput) (w : W)
      → is_empty_patch (patch_of input) ≡ true
      → FailsWith IsRefusal id input w
  unfolding patch_company error_is
  patch_company-empty id input w empty =
      (wrap "patch company: " empty_patch, rw empty refl, inl refl)

  module _ (id : Uuid) (input : PatchInput) (w : W)
      (full : is_empty_patch (patch_of input) ≡ false) where
    abbrev opened : W
    opened = record w { working = w.committed }

    -- What the closure fails with is what PatchCompany fails with.
    patch_company-fails :
        (e : GoError) (P : GoError → Type 0)
        → IsKept P
        → P e
        → (closure id input tx_ctx opened).0 ≡ err e
        → FailsWith P id input w
    unfolding patch_company company_service.Service.within_transaction app_service
        new_service_with_outbox transaction_manager
    patch_company-fails e P kept p h =
        let (e', failed, p') =
          within_transaction_keeps pg up text (closure id input) w e P kept p h in
        (e', rw full failed, p')

    pub patch_company-missing :
        pg.company_at w.committed id ≡ none → FailsWith (Found is_not_found) id input w
    unfolding error_is
    patch_company-missing missing =
        patch_company-fails _ (Found is_not_found) (Found-IsKept is_not_found) refl
          (patch_in_tx_misses pg up laws machine codec plain text id input opened missing)

    pub patch_company-taken :
        (row : Company) (s : String) (i : Uuid) (d : Company)
        → pg.company_at w.committed id ≡ some row
        → input.name ≡ some s
        → pg.company_at w.committed i ≡ some d
        → d.name ≡ trim_space s
        → row.name ≢ trim_space s
        → FailsWith (Found is_duplicate_name) id input w
    unfolding error_is
    patch_company-taken row s i d there given d_there same other =
        patch_company-fails _ (Found is_duplicate_name) (Found-IsKept is_duplicate_name) refl (
          patch_in_tx_taken pg up laws machine codec plain text id input row s opened i d there
            given d_there same other)

    module _ (row : Company) (there : pg.company_at w.committed id ≡ some row)
        (plain_name : NoNul (or_trim input.name row.name))
        (free : FreeFor pg w.committed id (or_trim input.name row.name)) where
      pub patch_company-unacceptable :
          ¬ (IsAcceptable (patch_of input)) → FailsWith IsRefusal id input w
      unfolding error_is as_validation_error
      patch_company-unacceptable bad =
          let (e, refused, refusal) =
            apply_patch_refuses (patch_now pg up laws machine codec plain text w) (patch_of input)
              (loaded row) bad in
          patch_company-fails (wrap "apply company patch: " e) IsRefusal IsRefusal-IsKept refusal (
            patch_in_tx_refused pg up laws machine codec plain text id input row opened there
              plain_name free e refused)

      pub patch_company_succeeds :
          (created updated occurred : String)
          → IsAcceptable (patch_of input)
          → IsValid (loaded row)
          → FitsColumn (amended pg up laws machine codec plain text input row w)
          → IsTimestamp (utc (amendment_now pg up laws machine codec plain text w))
          → pg.outbox_at w.committed (amendment_id pg up laws machine codec plain text w) ≡ none
          → codec.time_text (utc row.created_at) ≡ ok created
          → codec.time_text (utc (patch_now pg up laws machine codec plain text w)) ≡ ok updated
          → codec.time_text (utc (amendment_now pg up laws machine codec plain text w))
            ≡ ok occurred
          → (patch_company
              (app_env pg machine codec text)
              (app_service pg machine codec text)
              request_ctx
              id
              input
              w).0
            ≡ ok (amended pg up laws machine codec plain text input row w)
      unfolding patch_company company_service.Service.within_transaction app_service
          new_service_with_outbox transaction_manager
      patch_company_succeeds created updated occurred acceptable valid fits stamp event_free h h'
            h'' =
          rw full (
            within_transaction_succeeds pg up text (closure id input) w _ (
              patch_in_tx_succeeds pg up laws machine codec plain text id input row opened there
                plain_name free created updated occurred full acceptable valid fits stamp event_free
                h h' h''))
