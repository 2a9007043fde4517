-- ===== src/Wiring/Success/Refusals.antt =====
-- CreateCompany on an identifier that is taken, and on an input that is not acceptable.
use company_service.Common.{◌≡◌, ◌≢◌, refl, arith, String, true, none, some, inl, inr}
use company_service.Common.Text.{trim_space}
use company_service.Errors.{
  GoError, error_is, is_duplicate_id, duplicate_id, as_validation_error, wrap,
}
use company_service.Action.{err}
use company_service.Action.Inversion.{Result-cases}
use company_service.Domain.{Company, new_with_id}
use company_service.Domain.Validation.{IsValid}
use company_service.Domain.Making.{IsInput, new_with_id_accepts, new_with_id_iff, new_with_id-err}
use company_service.Application.{CreateInput}
use company_service.Json.{Codec}
use company_service.Service.{create_in_tx, create_company, new_service_with_outbox}
use company_service.Postgres.{Postgres, Machine, World}
use company_service.Postgres.Laws.{NameFree, PostgresLaws}
use company_service.Postgres.Available.{Available, FitsColumn, PlainCodec}
use company_service.Postgres.Tx.{transaction_manager}
use company_service.Postgres.Companies.{company_repository}
use company_service.Wiring.{request_ctx, tx_ctx, app_env, app_service}
use company_service.Wiring.Reachable.{within_transaction_fails, name_check_succeeds, create_clashes}
use company_service.Wiring.Success.{created_now, company_of, company_of-IsValid}

module _ (pg : Postgres) (up : Available pg) (laws : PostgresLaws pg) (machine : Machine)
    (codec : Codec) (plain : PlainCodec codec) (text : GoError → String) where
  abbrev W : Type 0
  W = World pg.Db machine.State

  create_in_tx_clashes :
      (c row : Company) (w : W)
      → pg.company_at w.working c.id ≡ some row
      → NameFree pg w.working c.name
      → IsValid c
      → FitsColumn c
      → (create_in_tx
          (app_env pg machine codec text)
          (app_service pg machine codec text)
          c
          tx_ctx
          w).0
        ≡ err (
            wrap "create company: "
              (wrap "create company: " (wrap "map postgres error: " duplicate_id)))
  unfolding create_in_tx app_service new_service_with_outbox company_repository
  create_in_tx_clashes c row w there free valid fits =
      rw
        (
          name_check_succeeds pg up c.name w fits.name free,
          create_clashes pg up c row w there free valid fits,
        )
        refl

  pub create_company-clashes :
      (input : CreateInput) (w : W) (row : Company)
      → IsInput input.id input.name input.description input.amount_of_employees input.company_type
      → pg.company_at w.committed input.id ≡ some row
      → NameFree pg w.committed (trim_space input.name)
      → FitsColumn (company_of pg up laws machine codec plain text input w)
      → (e : GoError) × ((create_company
            (app_env pg machine codec text)
            (app_service pg machine codec text)
            request_ctx
            input
            w).0
          ≡ err e)
        × (error_is e is_duplicate_id ≡ true)
  unfolding create_company company_service.Service.within_transaction app_service
      new_service_with_outbox transaction_manager error_is
  create_company-clashes input w row accepted there free fits =
      let c : Company = company_of pg up laws machine codec plain text input w in
      let accepts =
        new_with_id_accepts (created_now pg up laws machine codec plain text w) input.id input.name
          input.description input.amount_of_employees input.registered input.company_type
          accepted in
      let moved : W = record w { machine = (machine.time_now w.machine).1 } in
      rw accepts (
        within_transaction_fails pg up text
          (create_in_tx (app_env pg machine codec text) (app_service pg machine codec text) c) moved
          (wrap "create company: "
            (wrap "create company: " (wrap "map postgres error: " duplicate_id)))
          is_duplicate_id refl
          (create_in_tx_clashes c row (record moved { working = w.committed }) there free
            (company_of-IsValid pg up laws machine codec plain text input w accepted) fits))

  -- An input that is not acceptable is answered by a validation error.
  pub create_company-unacceptable :
      (input : CreateInput) (w : W)
      → ¬ (
          IsInput input.id input.name input.description input.amount_of_employees
            input.company_type)
      → (e : GoError) × ((create_company
            (app_env pg machine codec text)
            (app_service pg machine codec text)
            request_ctx
            input
            w).0
          ≡ err e)
        × (as_validation_error e ≢ none)
  unfolding create_company as_validation_error
  create_company-unacceptable input w bad =
      elim (Result-cases (
        new_with_id (created_now pg up laws machine codec plain text w) input.id input.name
          input.description input.amount_of_employees input.registered input.company_type)) [
            | inl (c, accepted) ↦ absurd (
                bad
                  ((new_with_id_iff (created_now pg up laws machine codec plain text w) input.id
                      input.name input.description input.amount_of_employees input.registered
                      input.company_type c).0
                    accepted).0)
            | inr (e, refused) ↦
                let (fields, is, _) =
                  new_with_id-err (created_now pg up laws machine codec plain text w) input.id
                    input.name input.description input.amount_of_employees input.registered
                    input.company_type e refused in
                (wrap "create company: " e, rw refused refl, λ missing. ground (arith, is, missing))
          ]
