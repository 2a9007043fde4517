-- ===== src/Sample/Memory/Up.antt =====
-- The database in memory is available.
use company_service.Common.{
  ℕ, ◌≡◌, refl, some, arith, String, eq_iff, eq_refl, Option-cases, inl, inr,
}
use company_service.Errors.{as_pg_error, error_is, no_rows}
use company_service.Action.{ok}
use company_service.Domain.{Uuid, Company}
use company_service.Postgres.{select_by_name, update_company}
use company_service.Postgres.Laws.{NameFree}
use company_service.Postgres.Available.{Available, FreeFor}
use company_service.Sample.Table.{find, find_row, find_row-some, find_row-none}
use company_service.Sample.Memory.Queue.{as_rows-IsWhole}
use company_service.Sample.Memory.{
  violation, query_pending, as_rows, pending, Tables, memory, exec, query_company, run_insert,
  run_insert_event, run_mark, run_delete, affected, row_key, company_key, has_name, other_has_name,
  run_update,
}
use company_service.Sample.Memory.Meets.{NoNameAt}

NoNameAt-of_NameFree : (name : String) (db : Tables) → NameFree memory db name → NoNameAt name db
NoNameAt-of_NameFree name db free =
    elim (Option-cases (find_row company_key (has_name name) db.companies db.companies)) [
      | inl unused ↦ unused
      | inr (d, taken) ↦
          let (named, there) =
            find_row-some company_key (has_name name) db.companies db.companies d taken in
          absurd (free.at d.id d there ((eq_iff d.name name).0 named))
    ]

-- A name that a company has is found.
finds_row :
    (db : Tables) (i : Uuid) (row : Company)
    → find company_key i db.companies ≡ some row
    → (found : Company) × (query_company (select_by_name row.name) db ≡ ok found)
unfolding query_company
finds_row db i row there =
    elim (Option-cases (find_row company_key (has_name row.name) db.companies db.companies)) [
      | inr (d, taken) ↦ (d, rw taken refl)
      | inl unused ↦
          let missed =
            find_row-none company_key (has_name row.name) db.companies db.companies i row unused
              there there in
          ground (arith, eq_refl row.name)
    ]

memory_updates :
    (db : Tables) (c : Company)
    → FreeFor memory db c.id c.name
    → (n : ℕ) × ((exec (update_company c) db).0 ≡ ok n)
unfolding exec run_update
memory_updates db c free =
    elim (Option-cases
      (find_row company_key (other_has_name c.id c.name) db.companies db.companies)) [
        | inl unused ↦ (affected (find company_key c.id db.companies), rw unused refl)
        | inr (d, taken) ↦
            let (other, there) =
              find_row-some company_key (other_has_name c.id c.name) db.companies db.companies d
                taken in
            absurd (free.at d.id d there (ground arith) (ground (arith, eq_iff d.name c.name)))
      ]

pub memory-Available : Available memory
unfolding exec query_company query_pending run_insert run_insert_event run_mark run_delete error_is
    as_pg_error
memory-Available = record {
  builds = λ st. refl;
  begins = λ db. refl;
  commits = λ db. refl;
  finds_no_name =
      λ db name plain free. (no_rows, rw (NoNameAt-of_NameFree name db free) refl, refl);
  finds_name = λ db i row there. finds_row db i row there;
  inserts =
      λ db c id_free free valid fits. (1, rw (id_free, NoNameAt-of_NameFree c.name db free) refl);
  clashes = λ db c row there free valid fits. (violation "companies_pkey", rw there refl, refl);
  inserts_event = λ db codec e payload is_payload free. (1, rw free refl);
  marks_published = λ db id. (affected (find row_key id db.outbox), refl);
  finds = λ db id c there. rw there refl;
  misses = λ db id free. (no_rows, rw free refl, refl);
  deletes = λ db id. (affected (find company_key id db.companies), refl);
  answers_pending = λ limit db. (
    as_rows limit (pending db.clock db.outbox),
    refl,
    as_rows-IsWhole limit (pending db.clock db.outbox),
  );
  updates = λ db c row there free valid fits. memory_updates db c free;
}
