-- ===== src/Http/Status.antt =====
-- writeAppError: which error gives which status.
use company_service.Common.{◌≡◌, ◌≢◌, true, none, arith, Option-cases, inl, inr}
use company_service.Errors.{
  GoError, not_found, duplicate_id, duplicate_name, empty_patch, no_rows, validation_error,
  pg_error, failure, wrapped, error_is, as_validation_error, is_not_found, is_duplicate_id,
  is_duplicate_name, is_empty_patch,
}
use company_service.Http.{write_app_error, app_error_status}

-- The status of the response that writeAppError writes is the one that appErrorStatus names, which
-- is what the handlers log, for every error.
pub write_app_error-status : (e : GoError) → (write_app_error e).status ≡ app_error_status e
unfolding write_app_error app_error_status
write_app_error-status e = elim (Option-cases (as_validation_error e)) [
  | inl h ↦ ground (arith, h)
  | inr (fields, h) ↦ ground (arith, h)
]

-- Each error of the application has its status, however often it is wrapped: 400 for a validation
-- error and for an empty patch, 404 for a company that is not there, 409 for a duplicate.
pub write_app_error-table :
    (e : GoError)
    → (as_validation_error e ≢ none → (write_app_error e).status ≡ 400)
      × (error_is e is_empty_patch ≡ true → (write_app_error e).status ≡ 400)
      × (error_is e is_not_found ≡ true → (write_app_error e).status ≡ 404)
      × (error_is e is_duplicate_id ≡ true → (write_app_error e).status ≡ 409)
      × (error_is e is_duplicate_name ≡ true → (write_app_error e).status ≡ 409)
unfolding write_app_error error_is as_validation_error
write_app_error-table (wrapped prefix e suffix) = write_app_error-table e
write_app_error-table not_found = ground arith
write_app_error-table duplicate_id = ground arith
write_app_error-table duplicate_name = ground arith
write_app_error-table empty_patch = ground arith
write_app_error-table no_rows = ground arith
write_app_error-table (validation_error fields) = ground arith
write_app_error-table (pg_error pg_code constraint_name) = ground arith
write_app_error-table (failure text) = ground arith
