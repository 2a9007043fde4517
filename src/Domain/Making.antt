-- ===== src/Domain/Making.antt =====
-- New and NewWithID: which inputs make a company.
use company_service.Common.{◌≤◌, String, ◌≡◌, ◌≢◌, ◌↔◌, Bool, false, arith, is_empty}
use company_service.Common.Int.{ℤ, pos, ◌≤ℤ◌}
use company_service.Common.Text.{rune_count, trim_space}
use company_service.Common.Text.Trim.{trim_space_idempotent}
use company_service.Errors.{Fields, GoError, validation_error, new_validation_error}
use company_service.Action.{ok, err}
use company_service.Domain.{
  Uuid, Time, utc, CompanyType, Company, validation_fields, validate, new_with_id,
}
use company_service.Domain.Validation.{IsValid, IsCompanyType, validate_iff}

-- An input that NewWithID accepts: its texts are taken without the spaces at their ends.
pub record IsInput (id : Uuid) (name description : String) (amount : ℤ) (t : CompanyType)
    : Type 0 where
  pub id_given : id ≢ 0
  pub name_given : trim_space name ≢ ""
  pub name_short : rune_count (trim_space name) ≤ 15
  pub description_short : rune_count (trim_space description) ≤ 3000
  pub amount_nonneg : pos 0 ≤ℤ amount
  pub type_known : IsCompanyType t

-- The company that NewWithID builds and then validates.
abbrev pub made : Time → Uuid → String → String → ℤ → Bool → CompanyType → Company
made now id name description amount registered t = record {
  id = id;
  name = trim_space name;
  description = trim_space description;
  amount_of_employees = amount;
  registered = registered;
  company_type = t;
  created_at = utc now;
  updated_at = utc now;
}

-- NewWithID succeeds exactly on an acceptable input. The company is then valid, has the input's
-- identifier, amount, flag and type, the texts without the spaces at their ends, and one UTC instant
-- as both its times.
pub new_with_id_iff :
    (now : Time) (id : Uuid) (name description : String) (amount : ℤ) (registered : Bool)
    (t : CompanyType) (c : Company)
    → (new_with_id now id name description amount registered t ≡ ok c) ↔ (
        IsInput id name description amount t
        × IsValid c
        × (c.id ≡ id)
        × (c.name ≡ trim_space name)
        × (c.description ≡ trim_space description)
        × (c.amount_of_employees ≡ amount)
        × (c.registered ≡ registered)
        × (c.company_type ≡ t)
        × (c.created_at ≡ utc now)
        × (c.updated_at ≡ utc now))
unfolding new_with_id
new_with_id_iff now id name description amount registered t c = ground (
  arith,
  validate_iff (made now id name description amount registered t),
  trim_space_idempotent name,
)

pub new_with_id_accepts :
    (now : Time) (id : Uuid) (name description : String) (amount : ℤ) (registered : Bool)
    (t : CompanyType)
    → IsInput id name description amount t
    → new_with_id now id name description amount registered t
      ≡ ok (made now id name description amount registered t)
unfolding new_with_id
new_with_id_accepts now id name description amount registered t h = ground (
  arith,
  validate_iff (made now id name description amount registered t),
  trim_space_idempotent name,
)

-- Every error of NewWithID is a validation error that names a field.
pub new_with_id-err :
    (now : Time) (id : Uuid) (name description : String) (amount : ℤ) (registered : Bool)
    (t : CompanyType) (e : GoError)
    → new_with_id now id name description amount registered t ≡ err e
    → (fields : Fields) × (e ≡ validation_error fields) × (is_empty fields ≡ false)
unfolding new_with_id validate new_validation_error
new_with_id-err now id name description amount registered t e h = (
  validation_fields (made now id name description amount registered t),
  ground arith,
  ground arith,
)
