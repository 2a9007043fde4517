-- ===== src/Errors.antt =====
-- Go errors: internal/domain/company/errors.go, and of the package `errors` what the code uses.
pub mod Matching
use Prim.Native.String.{String, ◌++◌}
use company_service.Common.{
  ◌≡◌, Bool, true, false, ◌||◌, Option, none, some, List, [], ◌∷◌, ◌==◌, if◌then◌else◌, is_empty,
}

-- `map[string]string`: one entry a key, in the order in which a `range` yields them.
abbrev pub Fields : Type 0
Fields = List (String × String)

-- `fields[key] = value`
unfoldable pub set : String → String → Fields → Fields
set key value [] = (key, value) ∷ []
set key value ((k, v) ∷ fields) =
    if k == key then (key, value) ∷ fields else (k, v) ∷ set key value fields

-- `fields[key]`, with `none` where the key is missing
unfoldable pub get : String → Fields → Option String
get key [] = none
get key ((k, v) ∷ fields) = if k == key then some v else get key fields

pub data GoError : Type 0 where
  -- company.ErrNotFound, ErrDuplicateID, ErrDuplicateName, ErrEmptyPatch, and pgx.ErrNoRows
  not_found duplicate_id duplicate_name empty_patch no_rows : GoError
  -- company.ValidationError{Fields: fields}
  validation_error : Fields → GoError
  -- *pgconn.PgError, with its Code and its ConstraintName
  pg_error : (pg_code constraint_name : String) → GoError
  -- `errors.New(text)`, and an error of a library that wraps none
  failure : (text : String) → GoError
  -- fmt.Errorf(prefix + "%w" + suffix, err)
  wrapped : (prefix : String) → GoError → (suffix : String) → GoError

-- The sentinel errors, the targets of `errors.Is`.
pub data Sentinel : Type 0 where
  is_not_found is_duplicate_id is_duplicate_name is_empty_patch is_no_rows : Sentinel

-- `errors.Is(err, target)`: it follows the wrapped error.
unfoldable pub error_is : GoError → Sentinel → Bool
error_is (wrapped prefix err suffix) target = error_is err target
error_is not_found is_not_found = true
error_is duplicate_id is_duplicate_id = true
error_is duplicate_name is_duplicate_name = true
error_is empty_patch is_empty_patch = true
error_is no_rows is_no_rows = true
error_is _ _ = false

-- `errors.As(err, &validationErr)`, with the fields of the error that it finds
unfoldable pub as_validation_error : GoError → Option Fields
as_validation_error (wrapped prefix err suffix) = as_validation_error err
as_validation_error (validation_error fields) = some fields
as_validation_error _ = none

-- `errors.As(err, &pgErr)`, with `pgErr.Code` and `pgErr.ConstraintName`
unfoldable pub as_pg_error : GoError → Option (String × String)
as_pg_error (wrapped prefix err suffix) = as_pg_error err
as_pg_error (pg_error pg_code constraint_name) = some (pg_code, constraint_name)
as_pg_error _ = none

-- `parts` of ValidationError.Error, one text for each field
field_parts : Fields → List String
field_parts [] = []
field_parts ((field, message) ∷ fields) = (field ++ ": " ++ message) ∷ field_parts fields

-- `strings.Join(parts, sep)`
unfoldable pub join : List String → String → String
join [] sep = ""
join (s ∷ []) sep = s
join (s ∷ t ∷ parts) sep = s ++ sep ++ join (t ∷ parts) sep

-- ValidationError.Error
unfoldable pub validation_text : Fields → String
unfolding field_parts join
validation_text fields =
    if is_empty fields
    then "validation failed"
    else "validation failed: " ++ join (field_parts fields) "; "

-- `err.Error()`. The texts of pgx.ErrNoRows and of a *pgconn.PgError are not the repository's: they
-- are parameters.
module _ (no_rows_text : String) (pg_text : String → String → String) where
  pub error_text : GoError → String
  unfolding validation_text
  error_text not_found = "company not found"
  error_text duplicate_id = "company id already exists"
  error_text duplicate_name = "company name already exists"
  error_text empty_patch = "empty patch"
  error_text no_rows = no_rows_text
  error_text (validation_error fields) = validation_text fields
  error_text (pg_error pg_code constraint_name) = pg_text pg_code constraint_name
  error_text (failure text) = text
  error_text (wrapped prefix err suffix) = prefix ++ error_text err ++ suffix

-- NewValidationError; `none` is the nil error
unfoldable pub new_validation_error : Fields → Option GoError
new_validation_error fields = if is_empty fields then none else some (validation_error fields)

-- fmt.Errorf(prefix + "%w", err)
abbrev pub wrap : String → GoError → GoError
wrap prefix err = wrapped prefix err ""
