-- ===== src/Sample/DomainRuns.antt =====
-- The theorems on companies at concrete inputs.
use company_service.Common.{◌≡◌, ◌↔◌, refl, true, false, none, some, arith, eq_iff}
use company_service.Common.Int.{pos, negsuc}
use company_service.Common.Text.{is_space, rune_count, trim_left, trim_right, trim_space}
use company_service.Errors.{set, new_validation_error}
use company_service.Action.{ok}
use company_service.Domain.{
  Company, Patch, Time, utc, local, is_valid, validate_name, validate_description,
  validate_amount_of_employees, validate_type, validation_fields, validate, new_with_id,
  is_empty_patch, apply_patch, patch_name, patch_description, patch_amount_of_employees,
}
use company_service.Domain.Validation.{IsValid, validate_iff, Reported, IsWrong, Reported-iff}
use company_service.Domain.Making.{IsInput, new_with_id_iff}
use company_service.Domain.Patching.{IsAcceptable, patched, Stays, apply_patch-Stays}
use company_service.Domain.Patching.Outcome.{apply_patch-ok_iff, apply_patch-eq-patched}

abbrev noon : Time
noon = record { instant = 12; location = local }

abbrev acme : Company
acme = record {
  id = 7;
  name = "Acme";
  description = "Anvils";
  amount_of_employees = pos 3;
  registered = true;
  company_type = "NonProfit";
  created_at = utc noon;
  updated_at = utc noon;
}

-- Its name and its amount are wrong.
abbrev broken : Company
broken = record acme { name = " "; amount_of_employees = negsuc 0 }

abbrev renaming : Patch
renaming = record {
  name = some " Acme Ltd ";
  description = none;
  amount_of_employees = some (pos 4);
  registered = none;
  company_type = none;
}

-- The name is set before the amount is refused.
abbrev refused : Patch
refused = record renaming { amount_of_employees = some (negsuc 0) }

acme-validate : validate acme ≡ none
unfolding validate validation_fields validate_name validate_description validate_amount_of_employees
    validate_type is_valid new_validation_error set trim_space trim_left trim_right is_space
    rune_count
acme-validate = refl

acme-IsValid : IsValid acme
acme-IsValid = (validate_iff acme).0 acme-validate

validate_iff_example : (validate broken ≡ none) ↔ IsValid broken
validate_iff_example = validate_iff broken

Reported-iff_example : Reported broken "name" ↔ IsWrong broken "name"
Reported-iff_example = Reported-iff broken "name"

new_with_id_iff_example :
    (new_with_id noon 7 " Acme" "Anvils " (pos 3) true "NonProfit" ≡ ok acme) ↔ (
      IsInput 7 " Acme" "Anvils " (pos 3) "NonProfit"
      × IsValid acme
      × (acme.id ≡ 7)
      × (acme.name ≡ trim_space " Acme")
      × (acme.description ≡ trim_space "Anvils ")
      × (acme.amount_of_employees ≡ pos 3)
      × (acme.registered ≡ true)
      × (acme.company_type ≡ "NonProfit")
      × (acme.created_at ≡ utc noon)
      × (acme.updated_at ≡ utc noon))
new_with_id_iff_example = new_with_id_iff noon 7 " Acme" "Anvils " (pos 3) true "NonProfit" acme

made_acme : new_with_id noon 7 " Acme" "Anvils " (pos 3) true "NonProfit" ≡ ok acme
unfolding new_with_id validate validation_fields validate_name validate_description
    validate_amount_of_employees validate_type is_valid new_validation_error set trim_space
    trim_left trim_right is_space rune_count
made_acme = refl

apply_patch-Stays_example : Stays acme (apply_patch noon refused acme).1
apply_patch-Stays_example = apply_patch-Stays noon refused acme acme-IsValid

-- What the refused patch leaves behind.
refused_run : (apply_patch noon refused acme).1 ≡ record acme { name = "Acme Ltd" }
unfolding apply_patch is_empty_patch patch_name patch_description patch_amount_of_employees validate
    validation_fields validate_name validate_description validate_amount_of_employees validate_type
    is_valid new_validation_error set trim_space trim_left trim_right is_space rune_count
refused_run = refl

is_full : is_empty_patch renaming ≡ false
unfolding is_empty_patch
is_full = refl

renaming-IsAcceptable : IsAcceptable renaming
unfolding trim_space trim_left trim_right is_space rune_count
renaming-IsAcceptable = record {
  name = (ground (arith, eq_iff "Acme Ltd" ""), omega arith);
  description = tt;
  amount = omega arith;
  company_type = tt;
}

apply_patch-ok_iff_example :
    ((apply_patch noon refused acme).0 ≡ ok tt)
    ↔ ((is_empty_patch refused ≡ false) × IsAcceptable refused)
apply_patch-ok_iff_example = apply_patch-ok_iff noon refused acme acme-IsValid

apply_patch-eq-patched_example : (apply_patch noon renaming acme).1 ≡ patched noon renaming acme
apply_patch-eq-patched_example =
    apply_patch-eq-patched noon renaming acme
      ((apply_patch-ok_iff noon renaming acme acme-IsValid).1 (is_full, renaming-IsAcceptable))
