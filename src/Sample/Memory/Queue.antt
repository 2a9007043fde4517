-- ===== src/Sample/Memory/Queue.antt =====
-- The pending rows of the database in memory meet the laws of the query.
use company_service.Common.{
  none, ℕ, zero, suc, ◌≡◌, ◌≤◌, refl, arith, true, List, [], ◌∷◌, length, All, subst,
}
use company_service.Action.{ok}
use company_service.Domain.{Uuid}
use company_service.Postgres.{OutboxRow, Rows}
use company_service.Postgres.{Statement, insert_company, update_company, insert_outbox_event}
use company_service.Postgres.Clock.{ClockLaws}
use company_service.Postgres.Pending.{IsWhole, scanned, NoRow, OnceEach, IsDue, PendingLaws}
use company_service.Sample.Memory.{
  Tables, memory, is_pending, pending, as_rows, query_pending, exec, run_insert, run_update,
  run_delete, run_insert_event, run_mark,
}
use company_service.Sample.Memory.Waiting.{
  Absent, Once, Stands, Stands-listed, Sorted, pending-Stands, pending-Once, pending-Sorted,
  Stands-listed,
}
use company_service.Postgres.Pending.{NotAfter, InOrder}

NoRow-as_rows :
    (i : Uuid) (limit : ℕ) (l : List OutboxRow) → Absent i l → NoRow i (scanned (as_rows limit l))
unfolding as_rows
NoRow-as_rows i zero l h = tt
NoRow-as_rows i (suc limit) [] h = tt
NoRow-as_rows i (suc limit) (s ∷ l) (other, h) = (other, NoRow-as_rows i limit l h)

OnceEach-as_rows : (limit : ℕ) (l : List OutboxRow) → Once l → OnceEach (scanned (as_rows limit l))
unfolding as_rows
OnceEach-as_rows zero l h = tt
OnceEach-as_rows (suc limit) [] h = tt
OnceEach-as_rows (suc limit) (s ∷ l) (alone, h) =
    (NoRow-as_rows s.id limit l alone, OnceEach-as_rows limit l h)

length-as_rows : (limit : ℕ) (l : List OutboxRow) → length (scanned (as_rows limit l)) ≤ limit
unfolding as_rows
length-as_rows zero l = ground arith
length-as_rows (suc limit) [] = ground arith
length-as_rows (suc limit) (s ∷ l) = ground (arith, length-as_rows limit l)

Stands-IsDue :
    (db : Tables) (s : OutboxRow)
    → Stands db.clock db.outbox s
    → IsDue memory db (record { id = s.id; payload = s.payload; attempts = s.attempts })
unfolding is_pending
Stands-IsDue db s (found, waits) = record {
  row = s;
  there = found;
  payload = refl;
  attempts = refl;
  unpublished = ground arith;
  due = ground arith;
}

IsDue-as_rows :
    (db : Tables) (limit : ℕ) (l : List OutboxRow)
    → All (Stands db.clock db.outbox) l
    → All (IsDue memory db) (scanned (as_rows limit l))
unfolding as_rows
IsDue-as_rows db zero l h = tt
IsDue-as_rows db (suc limit) [] h = tt
IsDue-as_rows db (suc limit) (s ∷ l) (stands, h) =
    (Stands-IsDue db s stands, IsDue-as_rows db limit l h)

Absent-of_as_rows :
    (i : Uuid) (limit : ℕ) (l : List OutboxRow)
    → suc (length (scanned (as_rows limit l))) ≤ limit
    → NoRow i (scanned (as_rows limit l))
    → Absent i l
unfolding as_rows
Absent-of_as_rows i zero l fewer free = absurd (ground arith)
Absent-of_as_rows i (suc limit) [] fewer free = tt
Absent-of_as_rows i (suc limit) (s ∷ l) fewer (ne, free) =
    (ne, Absent-of_as_rows i limit l (ground arith) free)

is_pending_complete :
    (clock : ℕ) (row : OutboxRow)
    → row.published_at ≡ none
    → row.available_at ≤ clock
    → is_pending clock row ≡ true
unfolding is_pending
is_pending_complete clock row unpublished at = ground arith

pub as_rows-IsWhole : (limit : ℕ) (l : List OutboxRow) → IsWhole (as_rows limit l)
unfolding as_rows
as_rows-IsWhole zero l = tt
as_rows-IsWhole (suc limit) [] = tt
as_rows-IsWhole (suc limit) (s ∷ l) = as_rows-IsWhole limit l

-- What the query answers is the pending rows.
answered :
    (P : Rows → Type 0) (limit : ℕ) (db : Tables) (rows : Rows)
    → ◌≡◌ {A = company_service.Action.Result Rows}
        (ok (as_rows limit (pending db.clock db.outbox)))
        (ok rows)
    → P (as_rows limit (pending db.clock db.outbox))
    → P rows
answered P limit db rows h p = subst P (ground arith) p

NotAfter-as_rows :
    (db : Tables) (s : OutboxRow) (limit : ℕ) (l : List OutboxRow)
    → Stands db.clock db.outbox s
    → All (Stands db.clock db.outbox) l
    → All (λ x. s.created_at.instant ≤ x.created_at.instant) l
    → All (λ q. NotAfter memory db s.id q.id) (scanned (as_rows limit l))
unfolding as_rows
NotAfter-as_rows db s zero l (found, _) h first = tt
NotAfter-as_rows db s (suc limit) [] (found, _) h first = tt
NotAfter-as_rows db s (suc limit) (x ∷ l) (found, waits) ((there, _), h) (le, first) = (
  record { at = λ a b h_a h_b. ground (arith, found, there, le) },
  NotAfter-as_rows db s limit l (found, waits) h first,
)

InOrder-as_rows :
    (db : Tables) (limit : ℕ) (l : List OutboxRow)
    → All (Stands db.clock db.outbox) l
    → Sorted l
    → InOrder memory db (scanned (as_rows limit l))
unfolding as_rows
InOrder-as_rows db zero l h sorted = tt
InOrder-as_rows db (suc limit) [] h sorted = tt
InOrder-as_rows db (suc limit) (s ∷ l) (stands, h) (first, sorted) =
    (NotAfter-as_rows db s limit l stands h first, InOrder-as_rows db limit l h sorted)

pub memory-PendingLaws : PendingLaws memory
unfolding query_pending
memory-PendingLaws = record {
  due = λ limit db rows h.
      answered (λ l. All (IsDue memory db) (scanned l)) limit db rows h
        (IsDue-as_rows db limit (pending db.clock db.outbox) (pending-Stands db.clock db.outbox));
  once = λ limit db rows h.
      answered (λ l. OnceEach (scanned l)) limit db rows h
        (OnceEach-as_rows limit (pending db.clock db.outbox) (pending-Once db.clock db.outbox));
  ordered = λ limit db rows h.
      answered (λ l. InOrder memory db (scanned l)) limit db rows h
        (InOrder-as_rows db limit (pending db.clock db.outbox) (pending-Stands db.clock db.outbox)
          (pending-Sorted db.clock db.outbox));
  limited = λ limit db rows h.
      answered (λ l. length (scanned l) ≤ limit) limit db rows h
        (length-as_rows limit (pending db.clock db.outbox));
  complete = λ limit db rows h whole fewer i row there unpublished at free.
      answered (λ l. suc (length (scanned l)) ≤ limit → ¬ NoRow i (scanned l)) limit db rows h
        (λ fits absent.
          Stands-listed db.clock db.outbox i row there
            (is_pending_complete db.clock row unpublished at)
            (Absent-of_as_rows i limit (pending db.clock db.outbox) fits absent))
        fewer free;
}

memory_clock : (st : Statement) (db : Tables) → db.clock ≤ (exec st db).1.clock
unfolding exec run_insert run_update run_delete run_insert_event run_mark
memory_clock (insert_company c) db = ground arith
memory_clock (update_company c) db = ground arith
memory_clock (insert_outbox_event id event_type aggregate_id payload created_at) db = ground arith
memory_clock _ db = omega arith

pub memory-ClockLaws : ClockLaws memory
memory-ClockLaws = record { forward = memory_clock }
