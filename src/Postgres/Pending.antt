-- ===== src/Postgres/Pending.antt =====
-- What is documented of the query of FetchPending, and what the loop over its rows gives.
use company_service.Common.{
  suc, ℕ, ◌≡◌, ◌≢◌, ◌≤◌, refl, sym, ◌∙◌, subst, arith, none, some, List, [], ◌∷◌, length, All,
}
use company_service.Action.{Result, ok, err}
use company_service.Action.Inversion.{Result-cases}
use company_service.Domain.{Uuid}
use company_service.Application.{Event, OutboxEvent}
use company_service.Json.{Codec}
use company_service.Json.Events.{unmarshal_event}
use company_service.Common.{inl, inr}
use company_service.Postgres.{OutboxRow, PendingRow, Rows, closed, next, Postgres, select_pending}
use company_service.Postgres.Outbox.{read_rows}

-- The rows that were scanned without an error.
abbrev pub scanned : Rows → List PendingRow
scanned (closed _) = []
scanned (next (err e) rows) = scanned rows
scanned (next (ok row) rows) = row ∷ scanned rows

-- The loop over the rows meets no error.
abbrev pub IsWhole : Rows → Type 0
IsWhole (closed none) = Unit
IsWhole (closed (some e)) = ⊥
IsWhole (next (err e) rows) = ⊥
IsWhole (next (ok row) rows) = IsWhole rows

abbrev pub NoRow : Uuid → List PendingRow → Type 0
NoRow id [] = Unit
NoRow id (r ∷ rows) = (r.id ≢ id) × NoRow id rows

abbrev pub OnceEach : List PendingRow → Type 0
OnceEach [] = Unit
OnceEach (r ∷ rows) = NoRow r.id rows × OnceEach rows

module _ (pg : Postgres) where
  -- The row is there, not published, and due.
  pub record IsDue (db : pg.Db) (p : PendingRow) : Type 0 where
    pub row : OutboxRow
    pub there : pg.outbox_at db p.id ≡ some row
    pub payload : p.payload ≡ row.payload
    pub attempts : p.attempts ≡ row.attempts
    pub unpublished : row.published_at ≡ none
    pub due : row.available_at ≤ pg.now db

  -- The row under the one identifier was not created after the row under the other.
  pub record NotAfter (db : pg.Db) (i j : Uuid) : Type 0 where
    pub at :
        (a b : OutboxRow)
        → pg.outbox_at db i ≡ some a
        → pg.outbox_at db j ≡ some b
        → a.created_at.instant ≤ b.created_at.instant

  -- The older rows come first.
  abbrev pub InOrder : pg.Db → List PendingRow → Type 0
  InOrder db [] = Unit
  InOrder db (p ∷ rows) = All (λ q. NotAfter db p.id q.id) rows × InOrder db rows

  pub record PendingLaws : Type 0 where
    pub due :
        (limit : ℕ) (db : pg.Db) (rows : Rows)
        → pg.query_pending (select_pending limit) db ≡ ok rows
        → All (IsDue db) (scanned rows)
    pub once :
        (limit : ℕ) (db : pg.Db) (rows : Rows)
        → pg.query_pending (select_pending limit) db ≡ ok rows
        → OnceEach (scanned rows)
    pub ordered :
        (limit : ℕ) (db : pg.Db) (rows : Rows)
        → pg.query_pending (select_pending limit) db ≡ ok rows
        → InOrder db (scanned rows)
    pub limited :
        (limit : ℕ) (db : pg.Db) (rows : Rows)
        → pg.query_pending (select_pending limit) db ≡ ok rows
        → length (scanned rows) ≤ limit
    -- Fewer rows than the limit are all that are due.
    pub complete :
        (limit : ℕ) (db : pg.Db) (rows : Rows)
        → pg.query_pending (select_pending limit) db ≡ ok rows
        → IsWhole rows
        → suc (length (scanned rows)) ≤ limit
        → (i : Uuid) (row : OutboxRow) → pg.outbox_at db i ≡ some row
        → row.published_at ≡ none
        → row.available_at ≤ pg.now db
        → ¬ NoRow i (scanned rows)

ok-injective : (k l : List OutboxEvent) → ◌≡◌ {A = Result (List OutboxEvent)} (ok k) (ok l) → k ≡ l
ok-injective k l h = cc

module _ (codec : Codec) where
  -- The events are those of the rows, in their order.
  pub data AreFrom : List OutboxEvent → List PendingRow → Type 0 where
    none_left : AreFrom [] []
    one_more :
        {e : OutboxEvent} {p : PendingRow} {events : List OutboxEvent} {rows : List PendingRow}
        → e.id ≡ p.id
        → e.attempts ≡ p.attempts
        → unmarshal_event codec p.payload ≡ ok e.event
        → AreFrom events rows
        → AreFrom (e ∷ events) (p ∷ rows)

  read_rows-cons :
      (p : PendingRow) (rows : Rows) (event : Event) (later : List OutboxEvent)
      → unmarshal_event codec p.payload ≡ ok event
      → read_rows codec rows ≡ ok later
      → read_rows codec (next (ok p) rows)
        ≡ ok (record { id = p.id; event = event; attempts = p.attempts } ∷ later)
  unfolding read_rows
  read_rows-cons p rows event later decoded read = rw (read_rows, decoded) (rw read refl)

  pub read_rows-AreFrom :
      (rows : Rows) (events : List OutboxEvent)
      → read_rows codec rows ≡ ok events
      → AreFrom events (scanned rows)
  unfolding read_rows
  read_rows-AreFrom (closed none) events h =
      subst (λ (l : List OutboxEvent). AreFrom l []) (ok-injective _ _ h) none_left
  read_rows-AreFrom (closed (some e)) events h = cc
  read_rows-AreFrom (next (err e) rows) events h = cc
  read_rows-AreFrom (next (ok p) rows) events h =
      elim (Result-cases (unmarshal_event codec p.payload)) [
        | inr (e, failed) ↦ ground arith
        | inl (event, decoded) ↦ elim (Result-cases (read_rows codec rows)) [
          | inr (e, failed) ↦ ground arith
          | inl (later, read) ↦
              let event_of_row : OutboxEvent = record {
                id = p.id;
                event = event;
                attempts = p.attempts;
              } in
              let same : event_of_row ∷ later ≡ events =
                ok-injective _ _ (sym (read_rows-cons p rows event later decoded read) ∙ h) in
              subst (λ (l : List OutboxEvent). AreFrom l (p ∷ scanned rows)) same
                (one_more refl refl decoded (read_rows-AreFrom rows later read))
        ]
      ]

  pub read_rows-IsWhole :
      (rows : Rows) (events : List OutboxEvent) → read_rows codec rows ≡ ok events → IsWhole rows
  unfolding read_rows
  read_rows-IsWhole (closed none) events h = tt
  read_rows-IsWhole (closed (some e)) events h = cc
  read_rows-IsWhole (next (err e) rows) events h = cc
  read_rows-IsWhole (next (ok p) rows) events h =
      elim (Result-cases (unmarshal_event codec p.payload)) [
        | inr (e, failed) ↦ ground arith
        | inl (event, decoded) ↦ elim (Result-cases (read_rows codec rows)) [
          | inr (e, failed) ↦ ground arith
          | inl (later, read) ↦ read_rows-IsWhole rows later read
        ]
      ]

  -- Rows that meet no error, and whose payloads can be decoded, are read.
  pub read_rows_succeeds :
      (rows : Rows)
      → IsWhole rows
      → All (λ p. (e : Event) × (unmarshal_event codec p.payload ≡ ok e)) (scanned rows)
      → (events : List OutboxEvent) × (read_rows codec rows ≡ ok events)
  unfolding read_rows
  read_rows_succeeds (closed none) whole readable = ([], refl)
  read_rows_succeeds (closed (some e)) whole readable = absurd whole
  read_rows_succeeds (next (err e) rows) whole readable = absurd whole
  read_rows_succeeds (next (ok p) rows) whole ((event, decoded), later) =
      let (events, read) = read_rows_succeeds rows whole later in
      (_, read_rows-cons p rows event events decoded read)
