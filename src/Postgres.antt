-- ===== src/Postgres.antt =====
-- internal/infrastructure/postgres: what the repositories ask of PostgreSQL and of its driver (a
-- parameter, with its documented behaviour as laws), and the state behind them.
pub mod Columns
pub mod Clock
pub mod Pool
pub mod Pending
pub mod Available
pub mod Laws
pub mod Tx
pub mod Companies
pub mod Outbox
use company_service.Common.{
  ℕ, ◌+◌, ◌≤◌, String, ◌≡◌, ◌≢◌, ◌⊎◌, Bool, true, false, Option, none, some, List, nat_eq,
  if◌then◌else◌,
}
use company_service.Errors.{GoError, error_is, as_pg_error, is_no_rows}
use company_service.Action.{Result, ok, err, Action}
use company_service.Domain.{Uuid, Time, utc, Company}
use company_service.Application.{Context, Event}
use company_service.Json.{Json}

-- A row of the table outbox_events (migrations/000002_create_outbox_events.up.sql). The column
-- published_at is NULL or holds the instant of a `now()`.
pub record OutboxRow : Type 0 where
  pub id : Uuid
  pub event_type : String
  pub aggregate_id : Uuid
  pub payload : Json
  pub attempts : ℕ
  pub last_error : Option String
  pub available_at : ℕ
  pub published_at : Option ℕ
  pub created_at : Time

-- The columns `id`, `payload` and `attempts`, which FetchPending selects.
pub record PendingRow : Type 0 where
  pub id : Uuid
  pub payload : Json
  pub attempts : ℕ

-- What Query gives: for each `rows.Next()` the result of `rows.Scan`, and at the end `rows.Err()`.
pub data Rows : Type 0 where
  closed : Option GoError → Rows
  next : Result PendingRow → Rows → Rows

-- The SQL statements that the query builders of the two repositories make, with their arguments.
pub data Statement : Type 0 where
  -- INSERT INTO companies (the eight columns) VALUES (the fields of the company)
  insert_company : Company → Statement
  -- UPDATE companies SET (all columns but id and created_at) WHERE id = the company's id
  update_company : Company → Statement
  -- DELETE FROM companies WHERE id = the given id
  delete_company : Uuid → Statement
  -- INSERT INTO outbox_events (id, event_type, aggregate_id, payload, created_at) VALUES (…)
  insert_outbox_event :
      (id : Uuid) (event_type : String) (aggregate_id : Uuid) (payload : Json) (created_at : Time)
      → Statement
  -- UPDATE outbox_events SET published_at = now(), last_error = NULL WHERE id = the given id
  mark_published : Uuid → Statement
  -- UPDATE outbox_events SET attempts = attempts + 1, last_error = the given text,
  -- available_at = now() + interval '10 seconds' WHERE id = the given id
  mark_failed : Uuid → String → Statement
  -- SELECT (the eight columns) FROM companies WHERE id = $1, or WHERE name = $1
  select_by_id : Uuid → Statement
  select_by_name : String → Statement
  -- SELECT id, payload, attempts FROM outbox_events WHERE published_at IS NULL
  -- AND available_at <= now() ORDER BY created_at ASC LIMIT limit FOR UPDATE SKIP LOCKED
  select_pending : (limit : ℕ) → Statement

-- A database, with the rows that one connection sees. `build_error` is the error of `ToSql`; `exec`
-- gives `tag.RowsAffected()`; `query_company` is QueryRow and Scan of one row of companies;
-- `query_pending` is Query.
pub record Postgres : Type 1 where
  pub Db : Type 0
  pub build_error : Statement → Option GoError
  pub exec : Statement → Db → Result ℕ × Db
  pub query_company : Statement → Db → Result Company
  pub query_pending : Statement → Db → Result Rows
  pub begin_error : Db → Option GoError
  pub commit_error : Db → Option GoError
  pub rollback_error : Db → Option GoError
  -- Whether the rows are committed all the same after an error of Commit, as they may be where the
  -- connection is lost, or the context cancelled, while COMMIT runs. It commits all rows or none.
  pub committed_anyway : Db → Bool
  -- the rows, by primary key
  pub company_at : Db → Uuid → Option Company
  pub outbox_at : Db → Uuid → Option OutboxRow
  -- `now()`, in nanoseconds
  pub now : Db → ℕ
  -- a `time.Time` after its way through a column of type timestamptz
  pub stored_time : Time → Time

-- The clock, the source of identifiers and the message broker, with a state of their own.
pub record Machine : Type 1 where
  pub State : Type 0
  pub time_now : State → Time × State
  pub uuid_new : State → Uuid × State

-- What lies behind the interfaces: the committed rows, the rows that the open transaction sees (of
-- no meaning where none is open), and the rest of the machine. One request or batch at a time is followed.
pub record World (Db M : Type 0) : Type 0 where
  pub committed : Db
  pub working : Db
  pub machine : M

module _ {Db M : Type 0} where
  -- executorFromContext(ctx, pool): the rows that a statement works on.
  unfoldable pub seen : Context → World Db M → Db
  seen ctx w = if ctx.has_tx then w.working else w.committed

  unfoldable pub put_back : Context → Db → World Db M → World Db M
  put_back ctx db w = if ctx.has_tx then record w { working = db } else record w { committed = db }

  -- `executorFromContext(ctx, pool).Exec(ctx, query, args...)`
  unfoldable pub on_executor : {A : Type 0} → Context → (Db → Result A × Db) → Action (World Db M) A
  unfolding seen put_back
  on_executor ctx run w = let (r, db) = run (seen ctx w) in (r, put_back ctx db w)

  -- `Query` and `QueryRow` change no row.
  unfoldable pub asked : {A : Type 0} → Context → (Db → Result A) → Action (World Db M) A
  unfolding seen
  asked ctx read w = (read (seen ctx w), w)
