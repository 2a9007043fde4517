-- ===== src/Postgres/Laws.antt =====
-- What is documented of PostgreSQL, for the two tables of migrations/ and the statements of the
-- repositories: what a statement that succeeds has done, and that one that fails has done nothing.
-- Nothing is said of when a statement fails.
use company_service.Common.{
  ℕ, ◌+◌, ◌*◌, ◌^◌, String, ◌≡◌, ◌≢◌, ◌≤◌, true, false, Option, none, some, nat_eq, if◌then◌else◌,
}
use company_service.Errors.{
  GoError, error_is, is_no_rows, is_not_found, is_duplicate_id, is_duplicate_name, is_empty_patch,
  as_validation_error,
}
use company_service.Action.{ok, err}
use company_service.Domain.{Uuid, Time, utc, Company}
use company_service.Json.{Json}
use company_service.Postgres.{
  OutboxRow, Postgres, insert_company, update_company, delete_company, insert_outbox_event,
  mark_published, mark_failed, select_by_id, select_by_name, Statement,
}

-- A company as `scanCompany` gives it back from its row.
abbrev pub loaded : Company → Company
loaded row = record row { created_at = utc row.created_at; updated_at = utc row.updated_at }

-- An error of the driver or of the query builder wraps no error of the application.
pub record IsForeign (e : GoError) : Type 0 where
  pub not_a_sentinel :
      (error_is e is_not_found ≡ false)
      × (error_is e is_duplicate_id ≡ false)
      × (error_is e is_duplicate_name ≡ false)
      × (error_is e is_empty_patch ≡ false)
  pub not_validation : as_validation_error e ≡ none

module _ (pg : Postgres) where
  -- Every row is as it was.
  pub record SameCompanies (db db' : pg.Db) : Type 0 where
    pub at : (i : Uuid) → pg.company_at db' i ≡ pg.company_at db i

  pub record SameOutbox (db db' : pg.Db) : Type 0 where
    pub at : (i : Uuid) → pg.outbox_at db' i ≡ pg.outbox_at db i

  -- No row has the name.
  pub record NameFree (db : pg.Db) (name : String) : Type 0 where
    pub at : (i : Uuid) (c : Company) → pg.company_at db i ≡ some c → c.name ≢ name

  abbrev pub stored : Company → Company
  stored c = record c {
    created_at = pg.stored_time c.created_at;
    updated_at = pg.stored_time c.updated_at;
  }

  -- The columns that an UPDATE sets, over a row that is there.
  abbrev pub overwritten : Company → Option Company → Option Company
  overwritten c none = none
  overwritten c (some old) = some (record (stored c) { id = old.id; created_at = old.created_at })

  abbrev pub count_of : Option Company → ℕ
  count_of none = 0
  count_of (some c) = 1

  abbrev pub fresh_row : Uuid → String → Uuid → Json → Time → ℕ → OutboxRow
  fresh_row id event_type aggregate_id payload created_at available_at = record {
    id = id;
    event_type = event_type;
    aggregate_id = aggregate_id;
    payload = payload;
    attempts = 0;
    last_error = none;
    available_at = available_at;
    published_at = none;
    created_at = pg.stored_time created_at;
  }

  abbrev pub ten_seconds : ℕ
  ten_seconds = 10 * 10 ^ 9

  abbrev pub published_row : ℕ → Option OutboxRow → Option OutboxRow
  published_row now none = none
  published_row now (some row) = some (record row { published_at = some now; last_error = none })

  abbrev pub failed_row : ℕ → String → Option OutboxRow → Option OutboxRow
  failed_row now text none = none
  failed_row now text (some row) = some (record row {
    attempts = row.attempts + 1;
    last_error = some text;
    available_at = now + ten_seconds;
  })

  pub record Inserted (c : Company) (n : ℕ) (db db' : pg.Db) : Type 0 where
    pub one_row : n ≡ 1
    pub id_was_free : pg.company_at db c.id ≡ none
    pub name_was_free : NameFree db c.name
    pub outbox : SameOutbox db db'
    pub rows :
        (i : Uuid)
        → pg.company_at db' i ≡ (if nat_eq c.id i then some (stored c) else pg.company_at db i)

  pub record Updated (c : Company) (n : ℕ) (db db' : pg.Db) : Type 0 where
    pub matched : n ≡ count_of (pg.company_at db c.id)
    pub name_was_free :
        n ≢ 0 → (i : Uuid) (d : Company) → pg.company_at db i ≡ some d → i ≢ c.id → d.name ≢ c.name
    pub outbox : SameOutbox db db'
    pub rows :
        (i : Uuid)
        → pg.company_at db' i
          ≡ (if nat_eq c.id i then overwritten c (pg.company_at db c.id) else pg.company_at db i)

  pub record Deleted (id : Uuid) (n : ℕ) (db db' : pg.Db) : Type 0 where
    pub matched : n ≡ count_of (pg.company_at db id)
    pub outbox : SameOutbox db db'
    pub rows : (i : Uuid) → pg.company_at db' i ≡ (if nat_eq id i then none else pg.company_at db i)

  pub record EventInserted (id : Uuid) (event_type : String) (aggregate_id : Uuid) (payload : Json)
      (created_at : Time) (db db' : pg.Db) : Type 0 where
    pub id_was_free : pg.outbox_at db id ≡ none
    pub companies : SameCompanies db db'
    -- now() does not go back.
    pub forward : pg.now db ≤ pg.now db'
    pub rows :
        (i : Uuid)
        → pg.outbox_at db' i ≡ (
            if nat_eq id i
            then some (fresh_row id event_type aggregate_id payload created_at (pg.now db))
            else pg.outbox_at db i)

  pub record Marked (id : Uuid) (mark : Option OutboxRow → Option OutboxRow) (db db' : pg.Db)
      : Type 0 where
    pub companies : SameCompanies db db'
    pub rows :
        (i : Uuid)
        → pg.outbox_at db' i
          ≡ (if nat_eq id i then mark (pg.outbox_at db id) else pg.outbox_at db i)

  pub record PostgresLaws : Type 0 where
    pub foreign_build : (st : Statement) (e : GoError) → pg.build_error st ≡ some e → IsForeign e
    pub foreign_exec :
        (st : Statement) (db : pg.Db) (e : GoError) → (pg.exec st db).0 ≡ err e → IsForeign e
    pub foreign_query :
        (st : Statement) (db : pg.Db) (e : GoError) → pg.query_company st db ≡ err e → IsForeign e
    pub foreign_begin : (db : pg.Db) (e : GoError) → pg.begin_error db ≡ some e → IsForeign e
    pub foreign_commit : (db : pg.Db) (e : GoError) → pg.commit_error db ≡ some e → IsForeign e
    pub keyed : (db : pg.Db) (i : Uuid) (c : Company) → pg.company_at db i ≡ some c → c.id ≡ i
    pub found_by_id :
        (db : pg.Db) (id : Uuid) (c : Company)
        → pg.query_company (select_by_id id) db ≡ ok c
        → pg.company_at db id ≡ some c
    pub missing_by_id :
        (db : pg.Db) (id : Uuid) (e : GoError)
        → pg.query_company (select_by_id id) db ≡ err e
        → error_is e is_no_rows ≡ true
        → pg.company_at db id ≡ none
    pub found_by_name :
        (db : pg.Db) (name : String) (c : Company)
        → pg.query_company (select_by_name name) db ≡ ok c
        → (c.name ≡ name) × (pg.company_at db c.id ≡ some c)
    pub missing_by_name :
        (db : pg.Db) (name : String) (e : GoError)
        → pg.query_company (select_by_name name) db ≡ err e
        → error_is e is_no_rows ≡ true
        → NameFree db name
    pub failed_statement :
        (st : Statement) (db : pg.Db) (e : GoError)
        → (pg.exec st db).0 ≡ err e
        → SameCompanies db (pg.exec st db).1 × SameOutbox db (pg.exec st db).1
    pub inserted :
        (c : Company) (db : pg.Db) (n : ℕ)
        → (pg.exec (insert_company c) db).0 ≡ ok n
        → Inserted c n db (pg.exec (insert_company c) db).1
    pub updated :
        (c : Company) (db : pg.Db) (n : ℕ)
        → (pg.exec (update_company c) db).0 ≡ ok n
        → Updated c n db (pg.exec (update_company c) db).1
    pub deleted :
        (id : Uuid) (db : pg.Db) (n : ℕ)
        → (pg.exec (delete_company id) db).0 ≡ ok n
        → Deleted id n db (pg.exec (delete_company id) db).1
    pub event_inserted :
        (id : Uuid) (event_type : String) (aggregate_id : Uuid) (payload : Json) (created_at : Time)
        (db : pg.Db) (n : ℕ)
        → (pg.exec (insert_outbox_event id event_type aggregate_id payload created_at) db).0 ≡ ok n
        → EventInserted id event_type aggregate_id payload created_at db
            (pg.exec (insert_outbox_event id event_type aggregate_id payload created_at) db).1
    pub marked_published :
        (id : Uuid) (db : pg.Db) (n : ℕ)
        → (pg.exec (mark_published id) db).0 ≡ ok n
        → Marked id (published_row (pg.now db)) db (pg.exec (mark_published id) db).1
    pub marked_failed :
        (id : Uuid) (text : String) (db : pg.Db) (n : ℕ)
        → (pg.exec (mark_failed id text) db).0 ≡ ok n
        → Marked id (failed_row (pg.now db) text) db (pg.exec (mark_failed id text) db).1
