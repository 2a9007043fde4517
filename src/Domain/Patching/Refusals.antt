-- ===== src/Domain/Patching/Refusals.antt =====
-- The errors of Company.ApplyPatch.
use company_service.Common.{
  ◌≡◌, ◌≢◌, ◌⊎◌, inl, inr, refl, arith, String, Bool, true, Option, none, some,
}
use company_service.Common.Int.{ℤ}
use company_service.Errors.{
  Fields, GoError, empty_patch, new_validation_error, error_is, is_empty_patch, as_validation_error,
}
use company_service.Action.{check}
use company_service.Action.Fails.{Fails, Fails-bind, Fails-check, Fails-modify, Fails-fail_if}
use company_service.Domain.{
  Time, Company, Patch, CompanyType, validate, validation_fields, patch_name, patch_description,
  patch_amount_of_employees, patch_registered, patch_type, revalidate, apply_patch,
}

-- ErrEmptyPatch or a validation error.
abbrev pub IsRefusal : GoError → Type 0
IsRefusal e = (error_is e is_empty_patch ≡ true) ⊎ (as_validation_error e ≢ none)

validation-IsRefusal :
    (fields : Fields) (e : GoError) → new_validation_error fields ≡ some e → IsRefusal e
unfolding new_validation_error as_validation_error
validation-IsRefusal fields e h = inr (ground arith)

validated : (fields : Fields) → Fails {S = Company} IsRefusal (check (new_validation_error fields))
validated fields = Fails-check IsRefusal (new_validation_error fields) (validation-IsRefusal fields)

patch_name-Fails : (o : Option String) → Fails IsRefusal (patch_name o)
unfolding patch_name
patch_name-Fails none = Fails-modify IsRefusal _
patch_name-Fails (some s) = Fails-bind IsRefusal _ _ (validated _) (λ _. Fails-modify IsRefusal _)

patch_description-Fails : (o : Option String) → Fails IsRefusal (patch_description o)
unfolding patch_description
patch_description-Fails none = Fails-modify IsRefusal _
patch_description-Fails (some s) =
    Fails-bind IsRefusal _ _ (validated _) (λ _. Fails-modify IsRefusal _)

patch_amount_of_employees-Fails : (o : Option ℤ) → Fails IsRefusal (patch_amount_of_employees o)
unfolding patch_amount_of_employees
patch_amount_of_employees-Fails none = Fails-modify IsRefusal _
patch_amount_of_employees-Fails (some a) =
    Fails-bind IsRefusal _ _ (validated _) (λ _. Fails-modify IsRefusal _)

patch_registered-Fails : (o : Option Bool) → Fails IsRefusal (patch_registered o)
unfolding patch_registered
patch_registered-Fails none = Fails-modify IsRefusal _
patch_registered-Fails (some b) = Fails-modify IsRefusal _

patch_type-Fails : (o : Option CompanyType) → Fails IsRefusal (patch_type o)
unfolding patch_type
patch_type-Fails none = Fails-modify IsRefusal _
patch_type-Fails (some t) = Fails-bind IsRefusal _ _ (validated _) (λ _. Fails-modify IsRefusal _)

revalidate-Fails : Fails IsRefusal revalidate
unfolding revalidate validate
revalidate-Fails = record { at = λ c e h. (validated (validation_fields c)).at c e h }

-- Whatever the patch and the company, an error of ApplyPatch is ErrEmptyPatch or a validation error.
pub apply_patch-Fails : (now : Time) (p : Patch) → Fails IsRefusal (apply_patch now p)
unfolding apply_patch error_is
apply_patch-Fails now p =
    Fails-bind IsRefusal _ _ (Fails-fail_if IsRefusal _ empty_patch (inl refl)) λ _.
      Fails-bind IsRefusal _ _ (patch_name-Fails p.name) λ _.
        Fails-bind IsRefusal _ _ (patch_description-Fails p.description) λ _.
          Fails-bind IsRefusal _ _ (patch_amount_of_employees-Fails p.amount_of_employees) λ _.
            Fails-bind IsRefusal _ _ (patch_registered-Fails p.registered) λ _.
              Fails-bind IsRefusal _ _ (patch_type-Fails p.company_type)
                λ _. Fails-bind IsRefusal _ _ (Fails-modify IsRefusal _) λ _. revalidate-Fails
