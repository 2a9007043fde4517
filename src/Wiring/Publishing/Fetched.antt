-- ===== src/Wiring/Publishing/Fetched.antt =====
-- What FetchPending gives inside a transaction.
use company_service.Common.{
  ℕ, ◌≡◌, ◌≤◌, ◌∙◌, refl, sym, ap, subst, arith, String, none, some, List, [], ◌∷◌, length, All,
  suc,
}
use company_service.Errors.{GoError}
use company_service.Action.{ok}
use company_service.Action.Inversion.{eq-ok_of_is_ok}
use company_service.Domain.{Uuid}
use company_service.Application.{OutboxEvent}
use company_service.Json.{Codec}
use company_service.Json.Events.{unmarshal_event}
use company_service.Postgres.{OutboxRow, PendingRow, Postgres, World, select_pending}
use company_service.Postgres.Outbox.{fetch_pending}
use company_service.Postgres.Pending.{
  NotAfter, InOrder, NoRow, OnceEach, IsDue, PendingLaws, AreFrom, none_left, one_more,
  read_rows-AreFrom, read_rows-IsWhole,
}
use company_service.Wiring.{tx_ctx}
use company_service.Wiring.Publishing.Spec.{Fresh, Distinct}

module _ (pg : Postgres) (codec : Codec) where
  -- The event stands in a row that is due, as its payload, and was not published.
  pub record IsWaiting (db : pg.Db) (e : OutboxEvent) : Type 0 where
    pub row : OutboxRow
    pub there : pg.outbox_at db e.id ≡ some row
    pub decoded : unmarshal_event codec row.payload ≡ ok e.event
    pub attempts : e.attempts ≡ row.attempts
    pub unpublished : row.published_at ≡ none
    pub due : row.available_at ≤ pg.now db

  -- The events whose rows are older come first.
  abbrev pub OldestFirst : pg.Db → List OutboxEvent → Type 0
  OldestFirst db [] = Unit
  OldestFirst db (e ∷ events) = All (λ e'. NotAfter pg db e.id e'.id) events × OldestFirst db events

  -- The events of a fetch.
  pub record IsFetch (limit : ℕ) (db : pg.Db) (events : List OutboxEvent) : Type 0 where
    pub bounded : length events ≤ limit
    pub distinct : Distinct events
    pub waiting : All (IsWaiting db) events
    pub ordered : OldestFirst db events
    -- Fewer events than the limit are all that are due.
    pub complete :
        suc (length events) ≤ limit
        → (i : Uuid) (row : OutboxRow) → pg.outbox_at db i ≡ some row
        → row.published_at ≡ none
        → row.available_at ≤ pg.now db
        → ¬ Fresh i events

  length-AreFrom :
      {events : List OutboxEvent} {rows : List PendingRow}
      → AreFrom codec events rows
      → length events ≡ length rows
  length-AreFrom none_left = refl
  length-AreFrom (one_more _ _ _ h) = ap suc (length-AreFrom h)

  Fresh-AreFrom :
      (id : Uuid) {events : List OutboxEvent} {rows : List PendingRow}
      → AreFrom codec events rows
      → NoRow id rows
      → Fresh id events
  Fresh-AreFrom id none_left free = tt
  Fresh-AreFrom id (one_more same _ _ h) (ne, free) =
      ((λ is. ne (sym same ∙ is)), Fresh-AreFrom _ h free)

  NoRow-AreFrom :
      (id : Uuid) {events : List OutboxEvent} {rows : List PendingRow}
      → AreFrom codec events rows
      → Fresh id events
      → NoRow id rows
  NoRow-AreFrom id none_left free = tt
  NoRow-AreFrom id (one_more same _ _ h) (ne, free) =
      ((λ is. ne (same ∙ is)), NoRow-AreFrom _ h free)

  Distinct-AreFrom :
      {events : List OutboxEvent} {rows : List PendingRow}
      → AreFrom codec events rows
      → OnceEach rows
      → Distinct events
  Distinct-AreFrom none_left once = tt
  Distinct-AreFrom (one_more same _ _ h) (free, once) =
      (rw same (Fresh-AreFrom _ h free), Distinct-AreFrom h once)

  IsWaiting-AreFrom :
      (db : pg.Db) {events : List OutboxEvent} {rows : List PendingRow}
      → AreFrom codec events rows
      → All (IsDue pg db) rows
      → All (IsWaiting db) events
  IsWaiting-AreFrom db none_left due = tt
  IsWaiting-AreFrom db (one_more same count decoded h) (due, later) = (
    record {
      row = due.row;
      there = rw same due.there;
      decoded = rw (← due.payload) decoded;
      attempts = count ∙ due.attempts;
      unpublished = due.unpublished;
      due = due.due;
    },
    IsWaiting-AreFrom db h later,
  )

  NotAfter-AreFrom :
      (db : pg.Db) (i : Uuid) {events : List OutboxEvent} {rows : List PendingRow}
      → AreFrom codec events rows
      → All (λ q. NotAfter pg db i q.id) rows
      → All (λ e. NotAfter pg db i e.id) events
  NotAfter-AreFrom db i none_left first = tt
  NotAfter-AreFrom db i (one_more same _ _ h) (p, first) =
      (rw same p, NotAfter-AreFrom db i h first)

  OldestFirst-AreFrom :
      (db : pg.Db) {events : List OutboxEvent} {rows : List PendingRow}
      → AreFrom codec events rows
      → InOrder pg db rows
      → OldestFirst db events
  OldestFirst-AreFrom db none_left ordered = tt
  OldestFirst-AreFrom db (one_more same _ _ h) (first, ordered) =
      (rw same (NotAfter-AreFrom db _ h first), OldestFirst-AreFrom db h ordered)

  module _ (due : PendingLaws pg) {M : Type 0} (text : GoError → String) (limit : ℕ)
      (w : World pg.Db M) where
    -- The fetch changes no state.
    pub fetch_pending_keeps : (fetch_pending pg M codec text tx_ctx limit w).1 ≡ w
    unfolding fetch_pending
    fetch_pending_keeps = ground arith

    pub fetch_pending-IsFetch :
        (events : List OutboxEvent)
        → (fetch_pending pg M codec text tx_ctx limit w).0 ≡ ok events
        → IsFetch limit w.working events
    unfolding fetch_pending
    fetch_pending-IsFetch events h =
        let (rows, answered) =
          eq-ok_of_is_ok (pg.query_pending (select_pending limit) w.working) (ground arith) in
        let from = read_rows-AreFrom codec rows events (ground arith) in
        record {
          bounded =
              subst (λ (n : ℕ). n ≤ limit) (sym (length-AreFrom from))
                (due.limited limit w.working rows answered);
          distinct = Distinct-AreFrom from (due.once limit w.working rows answered);
          waiting = IsWaiting-AreFrom w.working from (due.due limit w.working rows answered);
          ordered = OldestFirst-AreFrom w.working from (due.ordered limit w.working rows answered);
          complete = λ fewer i row there unpublished at free.
              due.complete limit w.working rows answered
                (read_rows-IsWhole codec rows events (ground arith))
                (subst (λ (n : ℕ). suc n ≤ limit) (length-AreFrom from) fewer) i row there
                unpublished at (NoRow-AreFrom i from free);
        }
