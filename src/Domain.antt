-- ===== src/Domain.antt =====
-- internal/domain/company/company.go and type.go: a company, its validation and its patches.
pub mod Validation
pub mod Making
pub mod Patching
use company_service.Common.{
  ℕ, String, Bool, true, false, not, ◌&&◌, ◌||◌, Option, none, some, [], ◌==◌, ltb, nat_eq, is_nil,
  if◌then◌else◌,
}
use company_service.Common.Int.{ℤ, pos, ltb_ℤ}
use company_service.Common.Text.{rune_count, trim_space}
use company_service.Errors.{Fields, set, GoError, empty_patch, new_validation_error}
use company_service.Action.{Result, ok, err, Action, check, modify, fail_if, ◌>>=◌, ◌>>◌}

-- uuid.UUID, sixteen bytes, read as one number
abbrev pub Uuid : Type 0
Uuid = ℕ

-- `uuid.Nil`
abbrev pub nil_uuid : Uuid
nil_uuid = 0

-- `time.Location`: the location only says how an instant is shown.
pub data Location : Type 0 where
  in_utc local : Location

-- `time.Time`
pub record Time : Type 0 where
  pub instant : ℕ
  pub location : Location

-- `t.UTC()`
unfoldable pub utc : Time → Time
utc t = record t { location = in_utc }

abbrev pub max_name_length : ℕ
max_name_length = 15

abbrev pub max_description_length : ℕ
max_description_length = 3000

abbrev pub CompanyType : Type 0
CompanyType = String

abbrev pub type_corporations : CompanyType
type_corporations = "Corporations"

abbrev pub type_non_profit : CompanyType
type_non_profit = "NonProfit"

abbrev pub type_cooperative : CompanyType
type_cooperative = "Cooperative"

abbrev pub type_sole_proprietorship : CompanyType
type_sole_proprietorship = "Sole Proprietorship"

-- CompanyType.IsValid
unfoldable pub is_valid : CompanyType → Bool
is_valid t =
    t == type_corporations
    || t == type_non_profit
    || t == type_cooperative
    || t == type_sole_proprietorship

pub record Company : Type 0 where
  pub id : Uuid
  pub name : String
  pub description : String
  pub amount_of_employees : ℤ
  pub registered : Bool
  pub company_type : CompanyType
  pub created_at : Time
  pub updated_at : Time

-- The pointers that may be nil are options.
pub record Patch : Type 0 where
  pub name : Option String
  pub description : Option String
  pub amount_of_employees : Option ℤ
  pub registered : Option Bool
  pub company_type : Option CompanyType

unfoldable pub validate_name : String → Fields → Fields
validate_name name fields =
    if trim_space name == ""
    then set "name" "is required" fields
    else if ltb max_name_length (rune_count name)
    then set "name" "must be at most 15 characters" fields
    else fields

unfoldable pub validate_description : String → Fields → Fields
validate_description description fields =
    if ltb max_description_length (rune_count description)
    then set "description" "must be at most 3000 characters" fields
    else fields

unfoldable pub validate_amount_of_employees : ℤ → Fields → Fields
validate_amount_of_employees amount fields =
    if ltb_ℤ amount (pos 0)
    then set "amount_of_employees" "must be greater than or equal to 0" fields
    else fields

unfoldable pub validate_type : CompanyType → Fields → Fields
validate_type company_type fields =
    if not (is_valid company_type)
    then set "type" "must be one of Corporations, NonProfit, Cooperative, Sole Proprietorship"
        fields
    else fields

-- The map `fields` of Company.Validate, when the checks are done.
unfoldable pub validation_fields : Company → Fields
validation_fields c =
    let fields = if nat_eq c.id nil_uuid then set "id" "is required" [] else [] in
    let fields = validate_name c.name fields in
    let fields = validate_description c.description fields in
    let fields = validate_amount_of_employees c.amount_of_employees fields in
    validate_type c.company_type fields

-- Company.Validate
unfoldable pub validate : Company → Option GoError
validate c = new_validation_error (validation_fields c)

or_error : Company → Option GoError → Result Company
or_error c none = ok c
or_error c (some e) = err e

-- NewWithID, with the instant that `time.Now()` gives
unfoldable pub new_with_id : Time → Uuid → String → String → ℤ → Bool → CompanyType → Result Company
unfolding or_error
new_with_id time_now id name description amount_of_employees registered company_type =
    let now = utc time_now in
    let c : Company = record {
      id = id;
      name = trim_space name;
      description = trim_space description;
      amount_of_employees = amount_of_employees;
      registered = registered;
      company_type = company_type;
      created_at = now;
      updated_at = now;
    } in
    or_error c (validate c)

-- New, with the identifier that `uuid.New()` gives
unfoldable pub new : Time → Uuid → String → String → ℤ → Bool → CompanyType → Result Company
unfolding new_with_id
new time_now new_id name description amount_of_employees registered company_type =
    new_with_id time_now new_id name description amount_of_employees registered company_type

-- Patch.IsEmpty
unfoldable pub is_empty_patch : Patch → Bool
is_empty_patch p =
    is_nil p.name
    && is_nil p.description
    && is_nil p.amount_of_employees
    && is_nil p.registered
    && is_nil p.company_type

-- The five parts of Company.ApplyPatch; the state is the receiver `c`.
unfoldable pub patch_name : Option String → Action Company Unit
patch_name none = modify λ c. c
patch_name (some s) = do
  let name = trim_space s
  check (new_validation_error (validate_name name []))
  modify λ c. record c { name = name }

unfoldable pub patch_description : Option String → Action Company Unit
patch_description none = modify λ c. c
patch_description (some s) = do
  let description = trim_space s
  check (new_validation_error (validate_description description []))
  modify λ c. record c { description = description }

unfoldable pub patch_amount_of_employees : Option ℤ → Action Company Unit
patch_amount_of_employees none = modify λ c. c
patch_amount_of_employees (some amount) = do
  check (new_validation_error (validate_amount_of_employees amount []))
  modify λ c. record c { amount_of_employees = amount }

unfoldable pub patch_registered : Option Bool → Action Company Unit
patch_registered none = modify λ c. c
patch_registered (some b) = modify λ c. record c { registered = b }

unfoldable pub patch_type : Option CompanyType → Action Company Unit
patch_type none = modify λ c. c
patch_type (some t) = do
  check (new_validation_error (validate_type t []))
  modify λ c. record c { company_type = t }

-- The last statement of ApplyPatch, `return c.Validate()`.
unfoldable pub revalidate : Action Company Unit
revalidate c = check (validate c) c

-- Company.ApplyPatch, with the instant that `time.Now()` gives. On an error the receiver keeps what
-- was assigned before.
unfoldable pub apply_patch : Time → Patch → Action Company Unit
apply_patch time_now p = do
  fail_if (is_empty_patch p) empty_patch
  patch_name p.name
  patch_description p.description
  patch_amount_of_employees p.amount_of_employees
  patch_registered p.registered
  patch_type p.company_type
  modify λ c. record c { updated_at = utc time_now }
  revalidate
