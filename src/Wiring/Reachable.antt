-- ===== src/Wiring/Reachable.antt =====
-- How the steps of CreateCompany end with a database that is reachable.
use company_service.Common.{◌≡◌, refl, String, true, Option, none, some}
use company_service.Errors.{
  duplicate_id, wrapped, GoError, Sentinel, error_is, duplicate_name, wrap,
}
use company_service.Action.{ok, err, Action, attempt}
use company_service.Domain.{Uuid, Company}
use company_service.Domain.Validation.{IsValid}
use company_service.Application.{Context}
use company_service.Service.{name_is_free}
use company_service.Postgres.{Postgres, World, insert_company}
use company_service.Postgres.Laws.{NameFree}
use company_service.Postgres.Available.{Available, FitsColumn, NoNul}
use company_service.Postgres.Tx.{within_transaction, roll_back, commit, finish}
use company_service.Postgres.Companies.{map_postgres_error, create, get_by_name, scan_company}
use company_service.Wiring.{request_ctx, tx_ctx}

-- A property of errors that wrapping keeps.
pub record IsKept (P : GoError → Type 0) : Type 0 where
  pub at : (prefix suffix : String) (e : GoError) → P e → P (wrapped prefix e suffix)

abbrev pub Found : Sentinel → GoError → Type 0
Found target e = error_is e target ≡ true

pub Found-IsKept : (target : Sentinel) → IsKept (Found target)
unfolding error_is
Found-IsKept target = record { at = λ prefix suffix e h. h }

module _ (pg : Postgres) (up : Available pg) {M : Type 0} where
  pub within_transaction_succeeds :
      (text : GoError → String) {A : Type 0} (fn : Context → Action (World pg.Db M) A)
      (w : World pg.Db M) (a : A)
      → (fn tx_ctx (record w { working = w.committed })).0 ≡ ok a
      → (within_transaction pg M text request_ctx fn w).0 ≡ ok a
  unfolding within_transaction finish commit
  within_transaction_succeeds text fn w a h =
      rw (up.begins w.committed) (rw h (rw (up.commits _) refl))

  roll_back_keeps :
      (text : GoError → String) {A : Type 0} (o : Option GoError) (e : GoError) (w : World pg.Db M)
      (P : GoError → Type 0)
      → IsKept P
      → P e
      → (e' : GoError) × ((roll_back pg M text {A = A} o e w).0 ≡ err e') × P e'
  unfolding roll_back
  roll_back_keeps text none e w P kept h = (e, refl, h)
  roll_back_keeps text (some rollback_err) e w P kept h = (_, refl, kept.at _ _ e h)

  -- A property of the function's error that wrapping keeps is one of what WithinTransaction returns,
  -- also when the rollback fails.
  pub within_transaction_keeps :
      (text : GoError → String) {A : Type 0} (fn : Context → Action (World pg.Db M) A)
      (w : World pg.Db M) (e : GoError) (P : GoError → Type 0)
      → IsKept P
      → P e
      → (fn tx_ctx (record w { working = w.committed })).0 ≡ err e
      → (e' : GoError) × ((within_transaction pg M text request_ctx fn w).0 ≡ err e') × P e'
  unfolding within_transaction finish
  within_transaction_keeps text fn w e P kept p h =
      rw (up.begins w.committed) (rw h (roll_back_keeps text _ e _ P kept p))

  -- An error of the function is found in what WithinTransaction returns, also when the rollback fails.
  pub within_transaction_fails :
      (text : GoError → String) {A : Type 0} (fn : Context → Action (World pg.Db M) A)
      (w : World pg.Db M) (e : GoError) (target : Sentinel)
      → error_is e target ≡ true
      → (fn tx_ctx (record w { working = w.committed })).0 ≡ err e
      → (e' : GoError) × ((within_transaction pg M text request_ctx fn w).0 ≡ err e')
        × (error_is e' target ≡ true)
  within_transaction_fails text fn w e target found h =
      within_transaction_keeps text fn w e (Found target) (Found-IsKept target) found h

  pub name_check_fails :
      (name : String) (w : World pg.Db M) (i : Uuid) (row : Company)
      → pg.company_at w.working i ≡ some row
      → row.name ≡ name
      → attempt (get_by_name pg M tx_ctx name) name_is_free w
        ≡ (err (wrap "create company: " duplicate_name), w)
  unfolding get_by_name scan_company name_is_free
  name_check_fails name w i row there same =
      let (found, answer) = up.finds_name w.working i row there in
      rw (up.builds _) (rw (← same) (rw answer refl))

  pub name_check_succeeds :
      (name : String) (w : World pg.Db M)
      → NoNul name
      → NameFree pg w.working name
      → attempt (get_by_name pg M tx_ctx name) name_is_free w ≡ (ok tt, w)
  unfolding get_by_name scan_company name_is_free error_is
  name_check_succeeds name w plain free =
      let (e, answer, no_rows) = up.finds_no_name w.working name plain free in
      rw (up.builds _, answer, no_rows) refl

  pub create_succeeds :
      (c : Company) (w : World pg.Db M)
      → pg.company_at w.working c.id ≡ none
      → NameFree pg w.working c.name
      → IsValid c
      → FitsColumn c
      → create pg M tx_ctx c w
        ≡ (ok tt, record w { working = (pg.exec (insert_company c) w.working).1 })
  unfolding create
  create_succeeds c w id_free name_free valid fits =
      let (n, ran) = up.inserts w.working c id_free name_free valid fits in
      rw (up.builds _, ran) refl

  -- An identifier that a company has is ErrDuplicateID.
  pub create_clashes :
      (c row : Company) (w : World pg.Db M)
      → pg.company_at w.working c.id ≡ some row
      → NameFree pg w.working c.name
      → IsValid c
      → FitsColumn c
      → create pg M tx_ctx c w ≡ (
        err (wrap "create company: " (wrap "map postgres error: " duplicate_id)),
        record w { working = (pg.exec (insert_company c) w.working).1 },
      )
  unfolding create map_postgres_error
  create_clashes c row w there free valid fits =
      let (e, ran, violation) = up.clashes w.working c row there free valid fits in
      rw (up.builds _, ran) (rw (map_postgres_error, violation) refl)
