-- ===== src/Postgres/Available.antt =====
-- What PostgreSQL does when it is reachable: statements with arguments that its types take, on rows
-- that break no constraint of migrations/, succeed, and an INSERT under an identifier that is taken
-- violates the primary key.
use Prim.Native.Char.{code}
use Prim.Native.String.{[], ◌∷◌}
use company_service.Common.{ℕ, ◌≡◌, ◌≢◌, ◌⊎◌, ◌^◌, ◌<◌, String, true, none, some}
use company_service.Common.Int.{pos_part}
use company_service.Errors.{GoError, error_is, is_no_rows, as_pg_error}
use company_service.Action.{ok, err}
use company_service.Domain.{Uuid, Time, Company}
use company_service.Domain.Validation.{IsValid}
use company_service.Application.{
  Event, event_company_created, event_company_updated, event_company_deleted,
}
use company_service.Json.{Json, Codec}
use company_service.Json.Events.{marshal_event}
use company_service.Postgres.{
  Postgres, Statement, insert_company, insert_outbox_event, mark_published, select_by_name,
  select_by_id, delete_company, update_company, select_pending, Rows,
}
use company_service.Postgres.Laws.{NameFree}
use company_service.Postgres.Pending.{IsWhole}

-- Neither a text nor a jsonb holds the character NUL.
abbrev pub NoNul : String → Type 0
NoNul [] = Unit
NoNul (c ∷ s) = (code c ≢ 0) × NoNul s

-- The range of timestamptz ends with the year 294276.
abbrev pub IsTimestamp : Time → Type 0
IsTimestamp t = t.instant < 2 ^ 72

-- The fields are values of their columns: an `integer` has 32 bits.
pub record FitsColumn (c : Company) : Type 0 where
  pub amount : pos_part c.amount_of_employees < 2 ^ 31
  pub name : NoNul c.name
  pub description : NoNul c.description
  pub created_at : IsTimestamp c.created_at
  pub updated_at : IsTimestamp c.updated_at

-- The texts of identifiers and of times have no NUL.
pub record PlainCodec (codec : Codec) : Type 0 where
  pub uuid_string : (id : Uuid) → NoNul (codec.uuid_string id)
  pub time_text : (t : Time) (s : String) → codec.time_text t ≡ ok s → NoNul s

-- The payload is that of one of the application's events, about a company that can be stored.
pub record IsPayload (codec : Codec) (e : Event) (payload : Json) : Type 0 where
  pub plain : PlainCodec codec
  pub event_type :
      (e.event_type ≡ event_company_created)
      ⊎ ((e.event_type ≡ event_company_updated) ⊎ (e.event_type ≡ event_company_deleted))
  pub occurred_at : IsTimestamp e.occurred_at
  pub company : Company
  pub about : e.company ≡ some company
  pub valid : IsValid company
  pub fits : FitsColumn company
  pub marshalled : marshal_event codec e ≡ ok payload

-- No row but that of the company has the name.
pub record FreeFor (pg : Postgres) (db : pg.Db) (id : Uuid) (name : String) : Type 0 where
  pub at : (i : Uuid) (d : Company) → pg.company_at db i ≡ some d → i ≢ id → d.name ≢ name

pub record Available (pg : Postgres) : Type 0 where
  pub builds : (st : Statement) → pg.build_error st ≡ none
  pub begins : (db : pg.Db) → pg.begin_error db ≡ none
  pub commits : (db : pg.Db) → pg.commit_error db ≡ none
  pub finds_no_name :
      (db : pg.Db) (name : String)
      → NoNul name
      → NameFree pg db name
      → (e : GoError) × (pg.query_company (select_by_name name) db ≡ err e)
        × (error_is e is_no_rows ≡ true)
  pub finds_name :
      (db : pg.Db) (i : Uuid) (row : Company)
      → pg.company_at db i ≡ some row
      → (found : Company) × (pg.query_company (select_by_name row.name) db ≡ ok found)
  pub inserts :
      (db : pg.Db) (c : Company)
      → pg.company_at db c.id ≡ none
      → NameFree pg db c.name
      → IsValid c
      → FitsColumn c
      → (n : ℕ) × ((pg.exec (insert_company c) db).0 ≡ ok n)
  pub clashes :
      (db : pg.Db) (c row : Company)
      → pg.company_at db c.id ≡ some row
      → NameFree pg db c.name
      → IsValid c
      → FitsColumn c
      → (e : GoError) × ((pg.exec (insert_company c) db).0 ≡ err e)
        × (as_pg_error e ≡ some ("23505", "companies_pkey"))
  pub inserts_event :
      (db : pg.Db) (codec : Codec) (e : Event) (payload : Json)
      → IsPayload codec e payload
      → pg.outbox_at db e.id ≡ none
      → (n : ℕ) × ((pg.exec
            (insert_outbox_event e.id e.event_type e.company_id payload e.occurred_at)
            db).0
          ≡ ok n)
  pub marks_published :
      (db : pg.Db) (id : Uuid) → (n : ℕ) × ((pg.exec (mark_published id) db).0 ≡ ok n)
  pub finds :
      (db : pg.Db) (id : Uuid) (c : Company)
      → pg.company_at db id ≡ some c
      → pg.query_company (select_by_id id) db ≡ ok c
  pub misses :
      (db : pg.Db) (id : Uuid)
      → pg.company_at db id ≡ none
      → (e : GoError) × (pg.query_company (select_by_id id) db ≡ err e)
        × (error_is e is_no_rows ≡ true)
  pub deletes : (db : pg.Db) (id : Uuid) → (n : ℕ) × ((pg.exec (delete_company id) db).0 ≡ ok n)
  pub answers_pending :
      (limit : ℕ) (db : pg.Db)
      → (rows : Rows) × (pg.query_pending (select_pending limit) db ≡ ok rows) × IsWhole rows
  pub updates :
      (db : pg.Db) (c row : Company)
      → pg.company_at db c.id ≡ some row
      → FreeFor pg db c.id c.name
      → IsValid c
      → FitsColumn c
      → (n : ℕ) × ((pg.exec (update_company c) db).0 ≡ ok n)
