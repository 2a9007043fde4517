-- ===== src/Errors/Matching.antt =====
-- Wrapping keeps what `errors.Is` and `errors.As` find; the errors are found by one target at most.
use company_service.Common.{
  String, ◌≡◌, refl, false, some, [], ◌∷◌, arith, ◌==◌, eq_iff, if◌then◌else◌,
}
use company_service.Errors.{
  Fields, set, get, GoError, validation_error, wrapped, Sentinel, error_is, as_validation_error,
}

-- Where `errors.As` finds a validation error, `errors.Is` finds no sentinel.
pub as_validation_error-error_is :
    (err : GoError) {fields : Fields} (target : Sentinel)
    → as_validation_error err ≡ some fields
    → error_is err target ≡ false
unfolding as_validation_error error_is
as_validation_error-error_is (wrapped prefix err suffix) target h =
    as_validation_error-error_is err target h
as_validation_error-error_is (validation_error fields) target h = refl
as_validation_error-error_is _ target h = cc

pub get-set :
    (k j v : String) (m : Fields) → get j (set k v m) ≡ (if k == j then some v else get j m)
unfolding get set
get-set k j v [] = refl
get-set k j v ((i, w) ∷ m) = ground (arith, eq_iff k j, eq_iff i k, eq_iff i j, get-set k j v m)
