-- ===== src/Sample/Memory/Meets.antt =====
-- The database in memory meets the laws.
use company_service.Common.{
  ℕ, ◌+◌, ◌*◌, ◌^◌, ◌≡◌, ◌≤◌, refl, Bool, true, false, Option, none, some, arith, nat_eq,
  if◌then◌else◌, String, eq_iff, Option-cases, inl, inr,
}
use company_service.Errors.{GoError, pg_error, no_rows, failure, error_is, as_validation_error}
use company_service.Action.{ok, err}
use company_service.Domain.{Uuid, Company}
use company_service.Postgres.{
  Statement, insert_company, update_company, delete_company, insert_outbox_event, select_by_id,
  select_by_name, OutboxRow,
}
use company_service.Postgres.Laws.{
  PostgresLaws, SameCompanies, SameOutbox, NameFree, Inserted, Updated, Deleted, Marked, IsForeign,
  published_row, failed_row,
}
use company_service.Sample.Table.{
  find, find_row, map_row, find-key, find-alter, find-remove, find_row-some, find_row-none,
}
use company_service.Sample.Memory.{
  Tables, memory, exec, query_company, run_insert, run_update, run_delete, run_insert_event,
  run_mark, company_key, row_key, has_name, other_has_name, over,
}

abbrev pub NoNameAt : String → Tables → Type 0
NoNameAt name db = find_row company_key (has_name name) db.companies db.companies ≡ none

name_free : (name : String) (db : Tables) → NoNameAt name db → NameFree memory db name
name_free name db h = record {
  at = λ i d there e.
      let hit =
        find_row-none company_key (has_name name) db.companies db.companies i d h there there in
      ground (arith, eq_iff d.name name);
}

module _ (c : Company) (db : Tables) (n : ℕ) where
  memory-Inserted :
      (exec (insert_company c) db).0 ≡ ok n → Inserted memory c n db (exec (insert_company c) db).1
  unfolding exec run_insert find
  memory-Inserted h = elim (Option-cases (find company_key c.id db.companies)) [
    | inr (d, taken) ↦ ground arith
    | inl free ↦
        elim (Option-cases (find_row company_key (has_name c.name) db.companies db.companies)) [
          | inr (d, taken) ↦ ground arith
          | inl unused ↦
              rw (free, unused)
                (record {
                  one_row = ground arith;
                  id_was_free = free;
                  name_was_free = name_free c.name db unused;
                  outbox = record { at = λ i. refl };
                  rows = λ i. refl;
                })
        ]
  ]

  memory-Updated :
      (exec (update_company c) db).0 ≡ ok n → Updated memory c n db (exec (update_company c) db).1
  unfolding exec run_update
  memory-Updated h =
      elim (Option-cases
        (find_row company_key (other_has_name c.id c.name) db.companies db.companies)) [
          | inr (d, taken) ↦ ground arith
          | inl unused ↦ rw unused (record {
            matched = ground arith;
            name_was_free = λ _ i d there ne e.
                let hit =
                  find_row-none company_key (other_has_name c.id c.name) db.companies db.companies i
                    d unused there there in
                ground (arith, eq_iff d.name c.name, find-key company_key i db.companies d there);
            outbox = record { at = λ i. refl };
            rows = λ i.
                ground (arith, find-alter company_key c.id (over c) db.companies i (λ r. refl));
          })
        ]

memory-Deleted :
    (id : Uuid) (db : Tables) (n : ℕ)
    → (exec (delete_company id) db).0 ≡ ok n
    → Deleted memory id n db (exec (delete_company id) db).1
unfolding exec run_delete
memory-Deleted id db n h = record {
  matched = ground arith;
  outbox = record { at = λ i. refl };
  rows = find-remove company_key id db.companies;
}

memory_event_inserted :
    (row : OutboxRow) (db : Tables) (n : ℕ)
    → (run_insert_event row db).0 ≡ ok n
    → (find row_key row.id db.outbox ≡ none)
      × (SameCompanies memory db (run_insert_event row db).1)
      × (db.clock ≤ (run_insert_event row db).1.clock)
      × ((i : Uuid)
          → find row_key i (run_insert_event row db).1.outbox
            ≡ (if nat_eq row.id i then some row else find row_key i db.outbox))
unfolding run_insert_event find
memory_event_inserted row db n h = elim (Option-cases (find row_key row.id db.outbox)) [
  | inr (d, taken) ↦ ground arith
  | inl free ↦
      (free, rw free (record { at = λ i. refl }), rw free (omega arith), rw free (λ i. refl))
]

memory-Marked :
    (id : Uuid) (f : OutboxRow → OutboxRow) (mark : Option OutboxRow → Option OutboxRow)
    (db : Tables)
    → ((r : OutboxRow) → (f r).id ≡ r.id)
    → ((o : Option OutboxRow) → map_row row_key f o ≡ mark o)
    → Marked memory id mark db (run_mark id f db).1
unfolding run_mark
memory-Marked id f mark db same agrees = record {
  companies = record { at = λ i. refl };
  rows = λ i. rw (← agrees (find row_key id db.outbox)) (find-alter row_key id f db.outbox i same);
}

published_row_lem :
    (now : ℕ) (o : Option OutboxRow)
    → map_row row_key (λ row. record row { published_at = some now; last_error = none }) o
      ≡ published_row memory now o
published_row_lem now none = refl
published_row_lem now (some row) = refl

failed_row_lem :
    (now : ℕ) (text : String) (o : Option OutboxRow)
    → map_row row_key
        (λ row. record row {
          attempts = row.attempts + 1;
          last_error = some text;
          available_at = now + 10 * 10 ^ 9;
        })
        o
      ≡ failed_row memory now text o
failed_row_lem now text none = refl
failed_row_lem now text (some row) = refl

-- An error of the driver: a *pgconn.PgError, ErrNoRows or a plain error.
abbrev is_driver_error : GoError → Bool
is_driver_error (pg_error _ _) = true
is_driver_error no_rows = true
is_driver_error (failure _) = true
is_driver_error _ = false

IsForeign-of_driver : (e : GoError) → is_driver_error e ≡ true → IsForeign e
unfolding error_is as_validation_error
IsForeign-of_driver (pg_error _ _) h = record {
  not_a_sentinel = (refl, refl, refl, refl);
  not_validation = refl;
}
IsForeign-of_driver no_rows h = record {
  not_a_sentinel = (refl, refl, refl, refl);
  not_validation = refl;
}
IsForeign-of_driver (failure _) h = record {
  not_a_sentinel = (refl, refl, refl, refl);
  not_validation = refl;
}
IsForeign-of_driver _ h = cc

exec-err :
    (st : Statement) (db : Tables) (e : GoError)
    → (exec st db).0 ≡ err e
    → ((exec st db).1 ≡ db) × (is_driver_error e ≡ true)
unfolding exec run_insert run_update run_delete run_insert_event run_mark
exec-err (insert_company c) db e h = ground arith
exec-err (update_company c) db e h = ground arith
exec-err (insert_outbox_event id event_type aggregate_id payload created_at) db e h = ground arith
exec-err _ db e h = cc

memory_failed_statement :
    (st : Statement) (db : Tables) (e : GoError)
    → (exec st db).0 ≡ err e
    → SameCompanies memory db (exec st db).1 × SameOutbox memory db (exec st db).1
memory_failed_statement st db e h =
    rw (exec-err st db e h).0 (record { at = λ i. refl }, record { at = λ i. refl })

memory-IsForeign_exec :
    (st : Statement) (db : Tables) (e : GoError) → (exec st db).0 ≡ err e → IsForeign e
memory-IsForeign_exec st db e h = IsForeign-of_driver e (exec-err st db e h).1

query_company-err :
    (st : Statement) (db : Tables) (e : GoError)
    → query_company st db ≡ err e
    → is_driver_error e ≡ true
unfolding query_company
query_company-err (select_by_id id) db e h = ground arith
query_company-err (select_by_name name) db e h = ground arith
query_company-err _ db e h = ground arith

memory_found_by_name :
    (db : Tables) (name : String) (c : Company)
    → query_company (select_by_name name) db ≡ ok c
    → (c.name ≡ name) × (find company_key c.id db.companies ≡ some c)
unfolding query_company
memory_found_by_name db name c h = ground (
  arith,
  find_row-some company_key (has_name name) db.companies db.companies c,
  eq_iff c.name name,
)

pub memory-PostgresLaws : PostgresLaws memory
unfolding exec query_company
memory-PostgresLaws = record {
  foreign_build = λ st e h. cc;
  foreign_exec = memory-IsForeign_exec;
  foreign_query = λ st db e h. IsForeign-of_driver e (query_company-err st db e h);
  foreign_begin = λ db e h. cc;
  foreign_commit = λ db e h. cc;
  keyed = λ db i c h. find-key company_key i db.companies c h;
  found_by_id = λ db id c h. ground arith;
  missing_by_id = λ db id e h is. ground arith;
  found_by_name = memory_found_by_name;
  missing_by_name = λ db name e h is. name_free name db (ground arith);
  failed_statement = memory_failed_statement;
  inserted = λ c db n h. memory-Inserted c db n h;
  updated = λ c db n h. memory-Updated c db n h;
  deleted = memory-Deleted;
  event_inserted = λ id event_type aggregate_id payload created_at db n h.
      let (free, companies, forward, rows) = memory_event_inserted _ db n h in
      record { id_was_free = free; companies = companies; forward = forward; rows = rows };
  marked_published = λ id db n h. memory-Marked id _ _ db (λ r. refl) (published_row_lem db.clock);
  marked_failed =
      λ id text db n h. memory-Marked id _ _ db (λ r. refl) (failed_row_lem db.clock text);
}
