-- ===== src/Domain/Patching.antt =====
-- What Company.ApplyPatch does to its receiver, on success and on every error.
pub mod Outcome
pub mod Refusals
use company_service.Common.{
  ℕ, ◌≤◌, String, ◌≡◌, refl, ◌≢◌, ◌↔◌, Bool, true, false, Option, none, some, [], arith, is_nil,
  is_empty,
}
use company_service.Common.Int.{ℤ, pos, ◌≤ℤ◌}
use company_service.Common.Text.{rune_count, trim_space}
use company_service.Common.Text.Trim.{trim_space_idempotent}
use company_service.Errors.{Fields, GoError, empty_patch, validation_error, new_validation_error}
use company_service.Action.{Result, ok, err, modify, Action}
use company_service.Action.Keeps.{Keeps, keeps_rules}
use company_service.Domain.{
  Time, utc, CompanyType, Company, Patch, validate_name, validate_description,
  validate_amount_of_employees, validate_type, validate, is_empty_patch, patch_name,
  patch_description, patch_amount_of_employees, patch_registered, patch_type, revalidate,
  apply_patch,
}
use company_service.Domain.Validation.{
  IsCompanyType, IsName, IsDescription, IsValid, validate_iff, validate_name-is_empty,
  validate_description-is_empty, validate_amount_of_employees-is_empty, validate_type-is_empty,
  new_validation_error-eq-none,
}

-- `P` of the value, where there is one
abbrev pub Given {ℓ κ} : {A : Type ℓ} → (A → Type κ) → Option A → Type κ
Given P none = Unit
Given P (some a) = P a

-- The value where there is one, and what stood there before
abbrev pub or_else {ℓ} : {A : Type ℓ} → Option A → A → A
or_else none old = old
or_else (some a) old = a

abbrev pub or_trim : Option String → String → String
or_trim none old = old
or_trim (some s) old = trim_space s

-- Every field that the patch gives keeps its rule.
pub record IsAcceptable (p : Patch) : Type 0 where
  pub name : Given (λ s. (trim_space s ≢ "") × (rune_count (trim_space s) ≤ 15)) p.name
  pub description : Given (λ s. rune_count (trim_space s) ≤ 3000) p.description
  pub amount : Given (λ a. pos 0 ≤ℤ a) p.amount_of_employees
  pub company_type : Given IsCompanyType p.company_type

-- The company with the fields that the patch gives.
abbrev pub patched : Time → Patch → Company → Company
patched now p c = record c {
  name = or_trim p.name c.name;
  description = or_trim p.description c.description;
  amount_of_employees = or_else p.amount_of_employees c.amount_of_employees;
  registered = or_else p.registered c.registered;
  company_type = or_else p.company_type c.company_type;
  updated_at = utc now;
}

-- A valid company with the identifier and the creation time of `c`.
pub record Stays (c d : Company) : Type 0 where
  pub valid : IsValid d
  pub same_id : d.id ≡ c.id
  pub same_created_at : d.created_at ≡ c.created_at

module _ {c : Company} where
  patch_name-Stays : (o : Option String) → Keeps (Stays c) (patch_name o)
  unfolding patch_name
  patch_name-Stays none = record { at = λ d h. h }
  patch_name-Stays (some s) = record {
    at = λ d h. ground (
      arith,
      new_validation_error-eq-none (validate_name (trim_space s) []),
      validate_name-is_empty [] (trim_space s),
    );
  }

  patch_description-Stays : (o : Option String) → Keeps (Stays c) (patch_description o)
  unfolding patch_description
  patch_description-Stays none = record { at = λ d h. h }
  patch_description-Stays (some s) = record {
    at = λ d h. ground (
      arith,
      new_validation_error-eq-none (validate_description (trim_space s) []),
      validate_description-is_empty [] (trim_space s),
    );
  }

  patch_amount_of_employees-Stays : (o : Option ℤ) → Keeps (Stays c) (patch_amount_of_employees o)
  unfolding patch_amount_of_employees
  patch_amount_of_employees-Stays none = record { at = λ d h. h }
  patch_amount_of_employees-Stays (some a) = record {
    at = λ d h. ground (
      arith,
      new_validation_error-eq-none (validate_amount_of_employees a []),
      validate_amount_of_employees-is_empty [] a,
    );
  }

  patch_registered-Stays : (o : Option Bool) → Keeps (Stays c) (patch_registered o)
  unfolding patch_registered
  patch_registered-Stays none = record { at = λ d h. h }
  patch_registered-Stays (some b) = record { at = λ d h. ground arith }

  patch_type-Stays : (o : Option CompanyType) → Keeps (Stays c) (patch_type o)
  unfolding patch_type
  patch_type-Stays none = record { at = λ d h. h }
  patch_type-Stays (some t) = record {
    at = λ d h.
        ground
          (arith, new_validation_error-eq-none (validate_type t []), validate_type-is_empty [] t);
  }

  stamp-Stays : (now : Time) → Keeps (Stays c) (modify λ d. record d { updated_at = utc now })
  stamp-Stays now = record { at = λ d h. ground arith }

  revalidate-Stays : Keeps (Stays c) revalidate
  unfolding revalidate
  revalidate-Stays = record { at = λ d h. ground arith }

ruleset patch_rules = (
  keeps_rules, patch_name-Stays, patch_description-Stays, patch_amount_of_employees-Stays,
  patch_registered-Stays, patch_type-Stays, stamp-Stays, revalidate-Stays,
)

-- However ApplyPatch ends, a receiver that was valid is still valid, also where an error came after
-- some fields were assigned, and it has the identifier and the creation time that it had.
pub apply_patch-Stays :
    (now : Time) (p : Patch) (c : Company) → IsValid c → Stays c (apply_patch now p c).1
unfolding apply_patch
apply_patch-Stays now p c h = k.at c (record { valid = h; same_id = refl; same_created_at = refl })
  where
    k : Keeps (Stays c) (apply_patch now p)
    k = search patch_rules depth 12
