-- ===== src/Wiring/Amendment.antt =====
-- When PatchCompany succeeds, and the errors that it ends at otherwise.
pub mod Steps
pub mod Outcome
use company_service.Common.{
  ◌≡◌, ◌≢◌, ◌∙◌, refl, sym, ap, arith, String, Bool, true, false, not, Option, none, some, nat_eq,
  nat_eq_iff, inl, inr, Bool-cases, eq_iff, ◌==◌,
}
use company_service.Common.Text.{trim_space}
use company_service.Errors.{
  GoError, error_is, is_not_found, not_found, is_duplicate_name, duplicate_name, wrap,
}
use company_service.Action.{Result, ok, err, attempt}
use company_service.Domain.{Uuid, Company}
use company_service.Application.{Context}
use company_service.Service.{check_new_name, name_is_free_for, new_service_with_outbox}
use company_service.Json.{Codec}
use company_service.Postgres.{Postgres, Machine, World, update_company}
use company_service.Postgres.Laws.{PostgresLaws, NameFree}
use company_service.Postgres.Available.{Available, FreeFor, NoNul}
use company_service.Postgres.Companies.{company_repository, update, get_by_name, scan_company}
use company_service.Wiring.{tx_ctx, app_env, app_service}
use company_service.Domain.Patching.{Given}

module _ (pg : Postgres) (up : Available pg) (laws : PostgresLaws pg) {M : Type 0} (id : Uuid)
    (row : Company) (name : String) (w : World pg.Db M)
    (there : pg.company_at w.working id ≡ some row) where
  abbrev name_check : Result (Unit {0}) × World pg.Db M
  name_check = attempt (get_by_name pg M tx_ctx name) (name_is_free_for id) w

  -- The name is the company's own, or another company's, or free.
  name_check-found :
      (found : Company)
      → pg.query_company (company_service.Postgres.select_by_name name) w.working ≡ ok found
      → nat_eq found.id id ≡ true
      → name_check ≡ (ok tt, w)
  unfolding get_by_name scan_company name_is_free_for
  name_check-found found answer own = rw (up.builds _, answer) (rw own refl)

  name_check-taken :
      (found : Company)
      → pg.query_company (company_service.Postgres.select_by_name name) w.working ≡ ok found
      → nat_eq found.id id ≡ false
      → name_check ≡ (err (wrap "patch company: " duplicate_name), w)
  unfolding get_by_name scan_company name_is_free_for
  name_check-taken found answer other = rw (up.builds _, answer) (rw other refl)

  name_check-unknown : NoNul name → NameFree pg w.working name → name_check ≡ (ok tt, w)
  unfolding get_by_name scan_company name_is_free_for error_is
  name_check-unknown plain free =
      let (e, answer, no_rows) = up.finds_no_name w.working name plain free in
      rw (up.builds _, answer, no_rows) refl

  NameFree-of_FreeFor : FreeFor pg w.working id name → row.name ≢ name → NameFree pg w.working name
  NameFree-of_FreeFor free other = record {
    at = λ i d d_there same. elim (Bool-cases (nat_eq i id)) [
      | inl hit ↦ other (ground (arith, there, d_there, (nat_eq_iff i id).0 hit))
      | inr miss ↦ free.at i d d_there (ground arith) same
    ];
  }

  pub name_check_passes : NoNul name → FreeFor pg w.working id name → name_check ≡ (ok tt, w)
  name_check_passes plain free = elim (Bool-cases (row.name == name)) [
    | inl same ↦
        let (found, answer) = up.finds_name w.working id row there in
        let is : row.name ≡ name = (eq_iff row.name name).0 same in
        let asked =
          ap
            (λ (s : String). pg.query_company (company_service.Postgres.select_by_name s) w.working)
            (sym is)
          ∙ answer in
        let (named, found_there) = laws.found_by_name w.working name found asked in
        elim (Bool-cases (nat_eq found.id id)) [
          | inl own ↦ name_check-found found asked own
          | inr other ↦ absurd (free.at found.id found found_there (ground arith) named)
        ]
    | inr other ↦
        name_check-unknown plain (NameFree-of_FreeFor free (ground (arith, eq_iff row.name name)))
  ]

  pub name_check_refuses :
      (i : Uuid) (d : Company)
      → pg.company_at w.working i ≡ some d
      → d.name ≡ name
      → row.name ≢ name
      → name_check ≡ (err (wrap "patch company: " duplicate_name), w)
  name_check_refuses i d d_there is other =
      let (found, answer) = up.finds_name w.working i d d_there in
      let asked =
        ap (λ (s : String). pg.query_company (company_service.Postgres.select_by_name s) w.working)
          (sym is)
        ∙ answer in
      let (named, found_there) = laws.found_by_name w.working name found asked in
      elim (Bool-cases (nat_eq found.id id)) [
        | inl own ↦
            absurd
              (other (ground (arith, there, found_there, (nat_eq_iff found.id id).0 own, named)))
        | inr another ↦ name_check-taken found asked another
      ]
