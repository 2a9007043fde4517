-- ===== src/Postgres/Companies.antt =====
-- company_repository.go: the repository of companies.
use company_service.Common.{ℕ, String, none, some, ◌==◌, nat_eq, if◌then◌else◌}
use company_service.Errors.{
  GoError, not_found, duplicate_id, duplicate_name, wrap, error_is, as_pg_error, is_no_rows,
}
use company_service.Action.{Result, ok, err, Action, pure, wrapping, check, fail_if, ◌>>=◌, ◌>>◌}
use company_service.Domain.{Uuid, utc, Company}
use company_service.Application.{Context, Repository}
use company_service.Postgres.{
  Postgres, World, Statement, insert_company, update_company, delete_company, select_by_id,
  select_by_name, on_executor, asked,
}

abbrev pub unique_violation_code : String
unique_violation_code = "23505"

abbrev pub company_primary_key_constraint : String
company_primary_key_constraint = "companies_pkey"

abbrev pub company_name_unique_constraint : String
company_name_unique_constraint = "companies_name_key"

-- mapPostgresError
map_violation : GoError → String → GoError
map_violation e constraint_name =
    if constraint_name == company_primary_key_constraint
    then wrap "map postgres error: " duplicate_id
    else if constraint_name == company_name_unique_constraint
    then wrap "map postgres error: " duplicate_name
    else wrap "map postgres error: " e

unfoldable pub map_postgres_error : GoError → GoError
unfolding map_violation
map_postgres_error e = elim (as_pg_error e) [
  | none ↦ wrap "map postgres error: " e
  | some (pg_code, constraint_name) ↦
      if pg_code == unique_violation_code
      then map_violation e constraint_name
      else wrap "map postgres error: " e
]

-- The error of Exec, mapped.
abbrev mapped {ℓ} : {A : Type ℓ} → Result A → Result A
mapped (ok a) = ok a
mapped (err e) = err (map_postgres_error e)

-- scanCompany, of the result of `row.Scan`
unfoldable pub scan_company : Result Company → Result Company
scan_company (ok c) = ok (record c { created_at = utc c.created_at; updated_at = utc c.updated_at })
scan_company (err e) =
    if error_is e is_no_rows
    then err (wrap "scan company: " not_found)
    else err (wrap "scan company: " e)

module _ (pg : Postgres) (M : Type 0) where
  -- The builder's `ToSql`, and its error.
  abbrev build : String → Statement → Action (World pg.Db M) Unit
  build prefix st = wrapping prefix (check (pg.build_error st))

  abbrev exec_mapped : Context → Statement → Action (World pg.Db M) ℕ
  exec_mapped ctx st = on_executor ctx λ db. let (r, db') = pg.exec st db in (mapped r, db')

  unfoldable pub create : Context → Company → Action (World pg.Db M) Unit
  unfolding on_executor map_postgres_error
  create ctx company = do
    build "build create company query: " (insert_company company)
    affected ← wrapping "create company: " (exec_mapped ctx (insert_company company))
    pure tt

  unfoldable pub update : Context → Company → Action (World pg.Db M) Unit
  unfolding on_executor map_postgres_error
  update ctx company = do
    build "build update company query: " (update_company company)
    affected ← wrapping "update company: " (exec_mapped ctx (update_company company))
    fail_if (nat_eq affected 0) (wrap "update company: " not_found)

  unfoldable pub delete : Context → Uuid → Action (World pg.Db M) Unit
  unfolding on_executor map_postgres_error
  delete ctx id = do
    build "build delete company query: " (delete_company id)
    affected ← wrapping "delete company: " (exec_mapped ctx (delete_company id))
    fail_if (nat_eq affected 0) (wrap "delete company: " not_found)

  unfoldable pub get_by_id : Context → Uuid → Action (World pg.Db M) Company
  unfolding asked scan_company
  get_by_id ctx id = do
    build "build get company by id query: " (select_by_id id)
    wrapping "get company by id: "
        (asked ctx λ db. scan_company (pg.query_company (select_by_id id) db))

  unfoldable pub get_by_name : Context → String → Action (World pg.Db M) Company
  unfolding asked scan_company
  get_by_name ctx name = do
    build "build get company by name query: " (select_by_name name)
    wrapping "get company by name: "
        (asked ctx λ db. scan_company (pg.query_company (select_by_name name) db))

  unfoldable pub company_repository : Repository (World pg.Db M)
  company_repository = record {
    create = create;
    update = update;
    delete = delete;
    get_by_id = get_by_id;
    get_by_name = get_by_name;
  }
