-- ===== src/Domain/Patching/Outcome.antt =====
-- When Company.ApplyPatch succeeds, and what the company is then.
use company_service.Common.{
  ◌≤◌, String, ◌≡◌, refl, ap, ◌≢◌, ◌↔◌, Bool, false, Option, none, some, [], arith,
}
use company_service.Common.Int.{ℤ, pos, ◌≤ℤ◌}
use company_service.Common.Text.{rune_count, trim_space}
use company_service.Common.Text.Trim.{trim_space_idempotent}
use company_service.Errors.{empty_patch}
use company_service.Action.{Result, ok, fail_if}
use company_service.Action.Inversion.{>>=-eq-ok, fail_if-eq-ok}
use company_service.Domain.{
  Time, CompanyType, Company, Patch, validate_name, validate_description,
  validate_amount_of_employees, validate_type, is_empty_patch, patch_name, patch_description,
  patch_amount_of_employees, patch_registered, patch_type, revalidate, apply_patch,
}
use company_service.Domain.Validation.{
  IsCompanyType, IsName, IsValid, validate_iff, validate_name-is_empty,
  validate_description-is_empty, validate_amount_of_employees-is_empty, validate_type-is_empty,
  new_validation_error-eq-none,
}
use company_service.Domain.Patching.{Given, or_else, or_trim, IsAcceptable, patched}

abbrev GivenName : Option String → Type 0
GivenName o = Given (λ s. (trim_space s ≢ "") × (rune_count (trim_space s) ≤ 15)) o

abbrev GivenDescription : Option String → Type 0
GivenDescription o = Given (λ s. rune_count (trim_space s) ≤ 3000) o

abbrev GivenAmount : Option ℤ → Type 0
GivenAmount o = Given (λ a. pos 0 ≤ℤ a) o

abbrev GivenType : Option CompanyType → Type 0
GivenType o = Given IsCompanyType o

module _ (c : Company) where
  patch_name_accepts :
      (o : Option String)
      → GivenName o
      → patch_name o c ≡ (ok tt, record c { name = or_trim o c.name })
  unfolding patch_name
  patch_name_accepts none h = refl
  patch_name_accepts (some s) h = rw (
      (new_validation_error-eq-none _).1
        ((validate_name-is_empty [] (trim_space s)).1 (refl, (rw trim_space_idempotent h.0, h.1))))

  patch_name_needs : (o : Option String) → (patch_name o c).0 ≡ ok tt → GivenName o
  unfolding patch_name
  patch_name_needs none h = tt
  patch_name_needs (some s) h = ground (
    arith,
    new_validation_error-eq-none (validate_name (trim_space s) []),
    validate_name-is_empty [] (trim_space s),
    trim_space_idempotent s,
  )

  patch_description_accepts :
      (o : Option String)
      → GivenDescription o
      → patch_description o c ≡ (ok tt, record c { description = or_trim o c.description })
  unfolding patch_description
  patch_description_accepts none h = refl
  patch_description_accepts (some s) h =
      rw ((new_validation_error-eq-none _).1 ((validate_description-is_empty [] _).1 (refl, h)))

  patch_description_needs :
      (o : Option String) → (patch_description o c).0 ≡ ok tt → GivenDescription o
  unfolding patch_description
  patch_description_needs none h = tt
  patch_description_needs (some s) h = ground (
    arith,
    new_validation_error-eq-none (validate_description (trim_space s) []),
    validate_description-is_empty [] (trim_space s),
  )

  patch_amount_of_employees_accepts :
      (o : Option ℤ)
      → GivenAmount o
      → patch_amount_of_employees o c
        ≡ (ok tt, record c { amount_of_employees = or_else o c.amount_of_employees })
  unfolding patch_amount_of_employees
  patch_amount_of_employees_accepts none h = refl
  patch_amount_of_employees_accepts (some a) h = rw (
      (new_validation_error-eq-none _).1 ((validate_amount_of_employees-is_empty [] a).1 (refl, h)))

  patch_amount_of_employees_needs :
      (o : Option ℤ) → (patch_amount_of_employees o c).0 ≡ ok tt → GivenAmount o
  unfolding patch_amount_of_employees
  patch_amount_of_employees_needs none h = tt
  patch_amount_of_employees_needs (some a) h = ground (
    arith,
    new_validation_error-eq-none (validate_amount_of_employees a []),
    validate_amount_of_employees-is_empty [] a,
  )

  patch_registered_accepts :
      (o : Option Bool)
      → patch_registered o c ≡ (ok tt, record c { registered = or_else o c.registered })
  unfolding patch_registered
  patch_registered_accepts none = refl
  patch_registered_accepts (some b) = refl

  patch_type_accepts :
      (o : Option CompanyType)
      → GivenType o
      → patch_type o c ≡ (ok tt, record c { company_type = or_else o c.company_type })
  unfolding patch_type
  patch_type_accepts none h = refl
  patch_type_accepts (some t) h =
      rw ((new_validation_error-eq-none _).1 ((validate_type-is_empty [] t).1 (refl, h)))

  patch_type_needs : (o : Option CompanyType) → (patch_type o c).0 ≡ ok tt → GivenType o
  unfolding patch_type
  patch_type_needs none h = tt
  patch_type_needs (some t) h =
      ground (arith, new_validation_error-eq-none (validate_type t []), validate_type-is_empty [] t)

or_trim-IsName : (o : Option String) (s : String) → GivenName o → IsName s → IsName (or_trim o s)
or_trim-IsName none s g h = h
or_trim-IsName (some t) s g h = (rw trim_space_idempotent g.0, g.1)

pub patched-IsValid :
    (now : Time) (p : Patch) (c : Company) → IsAcceptable p → IsValid c → IsValid (patched now p c)
patched-IsValid now p c g h = record {
  id = h.id;
  name = or_trim-IsName p.name c.name g.name h.name;
  description = ground arith;
  amount = ground arith;
  company_type = ground arith;
}

-- A non-empty patch whose fields all keep their rules succeeds on a valid company. It replaces the
-- fields that it gives, the texts without the spaces at their ends, sets the time of the update, and
-- changes nothing else.
pub apply_patch_accepts :
    (now : Time) (p : Patch) (c : Company)
    → IsValid c
    → is_empty_patch p ≡ false
    → IsAcceptable p
    → apply_patch now p c ≡ (ok tt, patched now p c)
unfolding apply_patch revalidate
apply_patch_accepts now p c h full g = rw (
  full,
  patch_name_accepts c p.name g.name,
  patch_description_accepts _ p.description g.description,
  patch_amount_of_employees_accepts _ p.amount_of_employees g.amount,
  patch_registered_accepts _ p.registered,
  patch_type_accepts _ p.company_type g.company_type,
  (validate_iff (patched now p c)).1 (patched-IsValid now p c g h),
)

pub apply_patch_needs :
    (now : Time) (p : Patch) (c : Company)
    → (apply_patch now p c).0 ≡ ok tt
    → (is_empty_patch p ≡ false) × IsAcceptable p
unfolding apply_patch
apply_patch_needs now p c h =
    let (_, full, h) = >>=-eq-ok (fail_if (is_empty_patch p) empty_patch) _ c h in
    let (_, name, h) = >>=-eq-ok (patch_name p.name) _ c h in
    let (_, description, h) = >>=-eq-ok (patch_description p.description) _ _ h in
    let (_, amount, h) = >>=-eq-ok (patch_amount_of_employees p.amount_of_employees) _ _ h in
    let (_, _, h) = >>=-eq-ok (patch_registered p.registered) _ _ h in
    let (_, company_type, _) = >>=-eq-ok (patch_type p.company_type) _ _ h in
    (
      fail_if-eq-ok (is_empty_patch p) empty_patch c full,
      record {
        name = patch_name_needs c p.name name;
        description = patch_description_needs _ p.description description;
        amount = patch_amount_of_employees_needs _ p.amount_of_employees amount;
        company_type = patch_type_needs _ p.company_type company_type;
      },
    )

-- On a valid company ApplyPatch succeeds exactly if the patch is not empty and every field that it
-- gives keeps its rule.
pub apply_patch-ok_iff :
    (now : Time) (p : Patch) (c : Company)
    → IsValid c
    → ((apply_patch now p c).0 ≡ ok tt) ↔ ((is_empty_patch p ≡ false) × IsAcceptable p)
apply_patch-ok_iff now p c h = (
  apply_patch_needs now p c,
  λ (full, g). ap (λ (r : Result Unit × Company). r.0) (apply_patch_accepts now p c h full g),
)

revalidate_keeps : (c : Company) → (revalidate c).1 ≡ c
unfolding revalidate
revalidate_keeps c = ground arith

-- Whenever ApplyPatch succeeds, the company has the fields of the patch.
pub apply_patch-eq-patched :
    (now : Time) (p : Patch) (c : Company)
    → (apply_patch now p c).0 ≡ ok tt
    → (apply_patch now p c).1 ≡ patched now p c
unfolding apply_patch
apply_patch-eq-patched now p c h =
    let (full, g) = apply_patch_needs now p c h in
    rw
      (
        full,
        patch_name_accepts c p.name g.name,
        patch_description_accepts _ p.description g.description,
        patch_amount_of_employees_accepts _ p.amount_of_employees g.amount,
        patch_registered_accepts _ p.registered,
        patch_type_accepts _ p.company_type g.company_type,
      )
      (revalidate_keeps (patched now p c))
