-- ===== src/Sample/Memory.antt =====
-- A database in memory that meets the laws of PostgreSQL, with no failures of its own.
pub mod Meets
pub mod Waiting
pub mod Queue
pub mod Up
use company_service.Common.{
  ℕ, ◌+◌, ◌*◌, ◌/◌, ◌^◌, String, Bool, true, false, not, ◌&&◌, Option, none, some, List, [], ◌∷◌,
  ◌==◌, nat_eq, leb, ltb, is_nil, if◌then◌else◌, zero, suc,
}
use company_service.Errors.{GoError, pg_error, no_rows, failure}
use company_service.Action.{Result, ok, err}
use company_service.Domain.{Uuid, Time, local, Company}
use company_service.Postgres.{
  OutboxRow, PendingRow, Rows, closed, next, Statement, insert_company, update_company,
  delete_company, insert_outbox_event, mark_published, mark_failed, select_by_id, select_by_name,
  select_pending, Postgres,
}
use company_service.Sample.Table.{find, alter, remove, find_row}

pub record Tables : Type 0 where
  pub companies : List Company
  pub outbox : List OutboxRow
  pub clock : ℕ

abbrev pub company_key : Company → ℕ
company_key c = c.id

abbrev pub row_key : OutboxRow → ℕ
row_key r = r.id

-- Microseconds, shown in the zone of the session
abbrev pub to_micros : Time → Time
to_micros t = record { instant = t.instant / 1000 * 1000; location = local }

abbrev pub stored_row : Company → Company
stored_row c = record c { created_at = to_micros c.created_at; updated_at = to_micros c.updated_at }

abbrev pub over : Company → Company → Company
over c old = record (stored_row c) { id = old.id; created_at = old.created_at }

abbrev pub has_name : String → Company → Bool
has_name name d = d.name == name

abbrev pub other_has_name : Uuid → String → Company → Bool
other_has_name id name d = not (nat_eq d.id id) && d.name == name

abbrev pub violation : String → GoError
violation constraint_name = pg_error "23505" constraint_name

-- One row of an UPDATE or a DELETE, or none
abbrev pub affected : {A : Type 0} → Option A → ℕ
affected none = 0
affected (some a) = 1

unfoldable pub run_insert : Company → Tables → Result ℕ × Tables
run_insert c db =
    if not (is_nil (find company_key c.id db.companies))
    then (err (violation "companies_pkey"), db)
    else if not (is_nil (find_row company_key (has_name c.name) db.companies db.companies))
    then (err (violation "companies_name_key"), db)
    else (ok 1, record db { companies = stored_row c ∷ db.companies })

unfoldable pub run_update : Company → Tables → Result ℕ × Tables
run_update c db =
    if not (is_nil (find_row company_key (other_has_name c.id c.name) db.companies db.companies))
    then (err (violation "companies_name_key"), db)
    else (
      ok (affected (find company_key c.id db.companies)),
      record db { companies = alter company_key c.id (over c) db.companies },
    )

unfoldable pub run_delete : Uuid → Tables → Result ℕ × Tables
run_delete id db = (
  ok (affected (find company_key id db.companies)),
  record db { companies = remove company_key id db.companies },
)

unfoldable pub run_insert_event : OutboxRow → Tables → Result ℕ × Tables
run_insert_event row db =
    if not (is_nil (find row_key row.id db.outbox))
    then (err (violation "outbox_events_pkey"), db)
    else (ok 1, record db { outbox = row ∷ db.outbox })

unfoldable pub run_mark : Uuid → (OutboxRow → OutboxRow) → Tables → Result ℕ × Tables
run_mark id f db =
    (ok (affected (find row_key id db.outbox)), record db { outbox = alter row_key id f db.outbox })

unfoldable pub exec : Statement → Tables → Result ℕ × Tables
exec (insert_company c) db = run_insert c db
exec (update_company c) db = run_update c db
exec (delete_company id) db = run_delete id db
exec (insert_outbox_event id event_type aggregate_id payload created_at) db =
    run_insert_event
      (record {
        id = id;
        event_type = event_type;
        aggregate_id = aggregate_id;
        payload = payload;
        attempts = 0;
        last_error = none;
        available_at = db.clock;
        published_at = none;
        created_at = to_micros created_at;
      })
      db
exec (mark_published id) db =
    run_mark id (λ row. record row { published_at = some db.clock; last_error = none }) db
exec (mark_failed id text) db =
    run_mark id
      (λ row. record row {
        attempts = row.attempts + 1;
        last_error = some text;
        available_at = db.clock + 10 * 10 ^ 9;
      })
      db
exec (select_by_id id) db = (ok 0, db)
exec (select_by_name name) db = (ok 0, db)
exec (select_pending limit) db = (ok 0, db)

abbrev or_no_rows : Option Company → Result Company
or_no_rows none = err no_rows
or_no_rows (some c) = ok c

unfoldable pub query_company : Statement → Tables → Result Company
query_company (select_by_id id) db = or_no_rows (find company_key id db.companies)
query_company (select_by_name name) db =
    or_no_rows (find_row company_key (has_name name) db.companies db.companies)
query_company _ db = err (failure "no such query")

unfoldable pub is_pending : ℕ → OutboxRow → Bool
is_pending clock row = is_nil row.published_at && leb row.available_at clock

unfoldable pub insert_by_age : OutboxRow → List OutboxRow → List OutboxRow
insert_by_age r [] = r ∷ []
insert_by_age r (s ∷ rows) =
    if leb r.created_at.instant s.created_at.instant then r ∷ s ∷ rows else s ∷ insert_by_age r rows

unfoldable pub pending : ℕ → List OutboxRow → List OutboxRow
pending clock [] = []
pending clock (r ∷ rows) =
    let rest = remove row_key r.id (pending clock rows) in
    if is_pending clock r then insert_by_age r rest else rest

unfoldable pub as_rows : ℕ → List OutboxRow → Rows
as_rows zero rows = closed none
as_rows (suc limit) [] = closed none
as_rows (suc limit) (r ∷ rows) =
    next (ok (record { id = r.id; payload = r.payload; attempts = r.attempts }))
      (as_rows limit rows)

unfoldable pub query_pending : Statement → Tables → Result Rows
query_pending (select_pending limit) db = ok (as_rows limit (pending db.clock db.outbox))
query_pending _ db = err (failure "no such query")

abbrev pub memory : Postgres
memory = record {
  Db = Tables;
  build_error = λ st. none;
  exec = exec;
  query_company = query_company;
  query_pending = query_pending;
  begin_error = λ db. none;
  commit_error = λ db. none;
  rollback_error = λ db. none;
  committed_anyway = λ db. false;
  company_at = λ db i. find company_key i db.companies;
  outbox_at = λ db i. find row_key i db.outbox;
  now = λ db. db.clock;
  stored_time = to_micros;
}
