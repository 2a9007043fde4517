-- ===== src/Domain/Validation.antt =====
-- What Company.Validate accepts, and which fields it reports.
use company_service.Common.{
  ◌≤◌, ◌<◌, String, ◌≡◌, refl, ◌≢◌, ◌↔◌, ◌⊎◌, true, false, none, [], ◌∷◌, arith, nat_eq, eq_iff,
  if◌then◌else◌, is_empty,
}
use company_service.Common.Int.{ℤ, pos, ◌≤ℤ◌}
use company_service.Common.Text.{rune_count, trim_space}
use company_service.Errors.{Fields, set, get, new_validation_error}
use company_service.Errors.Matching.{get-set}
use company_service.Domain.{
  nil_uuid, CompanyType, is_valid, Company, validate_name, validate_description,
  validate_amount_of_employees, validate_type, validation_fields, validate,
}

abbrev pub IsCompanyType : CompanyType → Type 0
IsCompanyType t =
    (t ≡ "Corporations") ⊎ ((t ≡ "NonProfit") ⊎ ((t ≡ "Cooperative") ⊎ (t ≡ "Sole Proprietorship")))

abbrev pub IsName : String → Type 0
IsName s = (trim_space s ≢ "") × (rune_count s ≤ 15)

abbrev pub IsDescription : String → Type 0
IsDescription s = rune_count s ≤ 3000

-- The rules for a stored company, stated without the code's tests.
pub record IsValid (c : Company) : Type 0 where
  pub id : c.id ≢ 0
  pub name : IsName c.name
  pub description : IsDescription c.description
  pub amount : pos 0 ≤ℤ c.amount_of_employees
  pub company_type : IsCompanyType c.company_type

pub is_valid_iff : (t : CompanyType) → (is_valid t ≡ true) ↔ IsCompanyType t
unfolding is_valid
is_valid_iff t = ground (
  arith,
  eq_iff t "Corporations",
  eq_iff t "NonProfit",
  eq_iff t "Cooperative",
  eq_iff t "Sole Proprietorship",
)

is_empty-set : (k v : String) (m : Fields) → is_empty (set k v m) ≡ false
unfolding set
is_empty-set k v [] = refl
is_empty-set k v ((j, w) ∷ m) = ground arith

module _ (m : Fields) where
  pub validate_name-is_empty :
      (s : String) → (is_empty (validate_name s m) ≡ true) ↔ ((is_empty m ≡ true) × IsName s)
  unfolding validate_name
  validate_name-is_empty s = ground (
    arith,
    eq_iff (trim_space s) "",
    is_empty-set "name" "is required" m,
    is_empty-set "name" "must be at most 15 characters" m,
  )

  pub validate_description-is_empty :
      (s : String)
      → (is_empty (validate_description s m) ≡ true) ↔ ((is_empty m ≡ true) × IsDescription s)
  unfolding validate_description
  validate_description-is_empty s =
      ground (arith, is_empty-set "description" "must be at most 3000 characters" m)

  pub validate_amount_of_employees-is_empty :
      (a : ℤ)
      → (is_empty (validate_amount_of_employees a m) ≡ true) ↔ ((is_empty m ≡ true) × (pos 0 ≤ℤ a))
  unfolding validate_amount_of_employees
  validate_amount_of_employees-is_empty a =
      ground (arith, is_empty-set "amount_of_employees" "must be greater than or equal to 0" m)

  pub validate_type-is_empty :
      (t : CompanyType)
      → (is_empty (validate_type t m) ≡ true) ↔ ((is_empty m ≡ true) × IsCompanyType t)
  unfolding validate_type
  validate_type-is_empty t = ground (
    arith,
    is_valid_iff t,
    is_empty-set "type" "must be one of Corporations, NonProfit, Cooperative, Sole Proprietorship"
        m,
  )

pub new_validation_error-eq-none :
    (m : Fields) → (new_validation_error m ≡ none) ↔ (is_empty m ≡ true)
unfolding new_validation_error
new_validation_error-eq-none m = ground arith

-- The map after the check of the identifier, and after each later check.
abbrev fields_id : Company → Fields
fields_id c = if nat_eq c.id nil_uuid then set "id" "is required" [] else []

abbrev fields_name : Company → Fields
fields_name c = validate_name c.name (fields_id c)

abbrev fields_description : Company → Fields
fields_description c = validate_description c.description (fields_name c)

abbrev fields_amount : Company → Fields
fields_amount c = validate_amount_of_employees c.amount_of_employees (fields_description c)

fields_id-is_empty : (c : Company) → (is_empty (fields_id c) ≡ true) ↔ (c.id ≢ 0)
fields_id-is_empty c = ground (arith, is_empty-set "id" "is required" [])

-- Company.Validate returns nil exactly for a company whose identifier is not nil, whose name is not
-- blank and has at most 15 characters, whose description has at most 3000, whose number of employees
-- is not negative, and whose type is one of the four.
pub validate_iff : (c : Company) → (validate c ≡ none) ↔ IsValid c
unfolding validate validation_fields
validate_iff c = ground (
  arith,
  new_validation_error-eq-none (validation_fields c),
  fields_id-is_empty c,
  validate_name-is_empty (fields_id c) c.name,
  validate_description-is_empty (fields_name c) c.description,
  validate_amount_of_employees-is_empty (fields_description c) c.amount_of_employees,
  validate_type-is_empty (fields_amount c) c.company_type,
)

-- `key` has an entry in the map.
abbrev pub Reported : Company → String → Type 0
Reported c key = get key (validation_fields c) ≢ none

module _ (m : Fields) (key : String) where
  get-validate_name :
      (s : String)
      → (get key (validate_name s m) ≢ none)
        ↔ ((get key m ≢ none) ⊎ ((key ≡ "name") × ((trim_space s ≡ "") ⊎ (15 < rune_count s))))
  unfolding validate_name
  get-validate_name s = ground (
    arith,
    eq_iff (trim_space s) "",
    eq_iff "name" key,
    get-set "name" key "is required" m,
    get-set "name" key "must be at most 15 characters" m,
  )

  get-validate_description :
      (s : String)
      → (get key (validate_description s m) ≢ none)
        ↔ ((get key m ≢ none) ⊎ ((key ≡ "description") × (3000 < rune_count s)))
  unfolding validate_description
  get-validate_description s = ground (
    arith,
    eq_iff "description" key,
    get-set "description" key "must be at most 3000 characters" m,
  )

  get-validate_amount_of_employees :
      (a : ℤ)
      → (get key (validate_amount_of_employees a m) ≢ none)
        ↔ ((get key m ≢ none) ⊎ ((key ≡ "amount_of_employees") × ¬ (pos 0 ≤ℤ a)))
  unfolding validate_amount_of_employees
  get-validate_amount_of_employees a = ground (
    arith,
    eq_iff "amount_of_employees" key,
    get-set "amount_of_employees" key "must be greater than or equal to 0" m,
  )

  get-validate_type :
      (t : CompanyType)
      → (get key (validate_type t m) ≢ none)
        ↔ ((get key m ≢ none) ⊎ ((key ≡ "type") × ¬ IsCompanyType t))
  unfolding validate_type
  get-validate_type t = ground (
    arith,
    is_valid_iff t,
    eq_iff "type" key,
    get-set "type" key "must be one of Corporations, NonProfit, Cooperative, Sole Proprietorship" m,
  )

get-fields_id :
    (c : Company) (key : String) → (get key (fields_id c) ≢ none) ↔ ((key ≡ "id") × (c.id ≡ 0))
unfolding get
get-fields_id c key = ground (arith, eq_iff "id" key, get-set "id" key "is required" [])

-- What is wrong with one field of a company.
abbrev pub IsWrong : Company → String → Type 0
IsWrong c key =
    ((key ≡ "id") × (c.id ≡ 0))
    ⊎ (((key ≡ "name") × ((trim_space c.name ≡ "") ⊎ (15 < rune_count c.name)))
        ⊎ (((key ≡ "description") × (3000 < rune_count c.description))
            ⊎ (((key ≡ "amount_of_employees") × ¬ (pos 0 ≤ℤ c.amount_of_employees))
                ⊎ ((key ≡ "type") × ¬ IsCompanyType c.company_type))))

-- The map of a validation error has an entry for exactly the fields that break their rule: each of
-- them is reported in one answer, and no other key occurs.
pub Reported-iff : (c : Company) (key : String) → Reported c key ↔ IsWrong c key
unfolding validation_fields
Reported-iff c key = ground (
  arith,
  get-fields_id c key,
  get-validate_name (fields_id c) key c.name,
  get-validate_description (fields_name c) key c.description,
  get-validate_amount_of_employees (fields_description c) key c.amount_of_employees,
  get-validate_type (fields_amount c) key c.company_type,
)
