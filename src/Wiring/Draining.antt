-- ===== src/Wiring/Draining.antt =====
-- How many batches publish what waits in the outbox, with a producer that takes every event.
pub mod Backlog
pub mod Clock
pub mod Published
use native.Mathlib.Nat.{suc-mul}
use company_service.Common.{
  ◌⊎◌, ℕ, zero, suc, ◌+◌, ◌*◌, ◌≡◌, ◌≢◌, ◌≤◌, inl, inr, ◌∙◌, refl, sym, arith, String, Option, none,
  some, List, [], ◌∷◌, length, All, leb, Bool-cases, Option-cases,
}
use company_service.Common.Int.{ℤ}
use company_service.Errors.{GoError}
use company_service.Action.{Result, ok, err}
use company_service.Domain.{Uuid}
use company_service.Application.{OutboxEvent, EventProducer}
use company_service.Json.{Codec}
use company_service.Postgres.{OutboxRow, Postgres, World}
use company_service.Postgres.Laws.{PostgresLaws}
use company_service.Postgres.Clock.{ClockLaws}
use company_service.Postgres.Pending.{PendingLaws, read_rows_succeeds}
use company_service.Postgres.Available.{Available}
use company_service.Publisher.{Publisher, Signal, process_batch, process_and_log, run}
use company_service.Publisher.Running.{times, ticks, run-times}
use company_service.Wiring.{request_ctx}
use company_service.Wiring.Atomic.{Commits-of_ok}
use company_service.Wiring.NoLoss.{Grown-refl, OutboxGrows, OutboxGrows-trans, Batched-OutboxGrows}
use company_service.Wiring.Publishing.{app_publisher}
use company_service.Wiring.Publishing.Spec.{Fresh}
use company_service.Wiring.Publishing.Fetched.{IsWaiting}
use company_service.Wiring.Publishing.Atomic.{BatchSpec, process_batch-Commits}
use company_service.Wiring.Publishing.Success.{process_batch_succeeds}
use company_service.Wiring.System.Careful.{Commits-keeps}
use company_service.Wiring.Draining.Backlog.{
  IsBacklog, IsPublished, IsPublished-later, Listed, less_events, Listed-less_events,
  length-less_events,
}
use company_service.Wiring.Draining.Clock.{process_batch_forward}
use company_service.Wiring.Draining.Published.{
  TakesAll, IsDecodable, All-IsDecodable, unpublished-Fresh, Batched-IsDecodable,
}

module _ (pg : Postgres) (laws : PostgresLaws pg) (pending : PendingLaws pg) (clock : ClockLaws pg)
    (up : Available pg) (codec : Codec) (text : GoError → String) {M : Type 0}
    (producer : EventProducer M) (takes : TakesAll producer) (interval batch_size : ℤ) where
  abbrev p : Publisher (World pg.Db M)
  p = app_publisher pg codec text producer interval batch_size

  abbrev W : Type 0
  W = World pg.Db M

  abbrev batch : W → W
  batch = process_and_log text p request_ctx

  batch-BatchSpec :
      (w : W)
      → IsDecodable pg codec w.committed
      → BatchSpec pg codec text producer p.batch w.machine w.committed (batch w).committed
  unfolding process_and_log
  batch-BatchSpec w decodable =
      let (rows, answered, whole) = up.answers_pending p.batch w.committed in
      let (events, read) = read_rows_succeeds codec rows whole (
        All-IsDecodable pg codec w.committed _ decodable
          (pending.due p.batch w.committed rows answered)) in
      (Commits-of_ok pg {A = Unit}
        (λ _ db db'. BatchSpec pg codec text producer p.batch w.machine db db') w
        (process_batch text p request_ctx w) tt
        (process_batch-Commits pg laws pending codec text producer interval batch_size w)
        (process_batch_succeeds pg up codec text producer takes interval batch_size w rows events
          answered read)).1

  batch_forward : (w : W) → pg.now w.committed ≤ pg.now (batch w).committed
  unfolding process_and_log
  batch_forward w = process_batch_forward pg clock codec text producer interval batch_size w

  batch-OutboxGrows :
      (w : W) → IsDecodable pg codec w.committed → OutboxGrows pg w.committed (batch w).committed
  batch-OutboxGrows w decodable =
      let spec = batch-BatchSpec w decodable in
      Batched-OutboxGrows pg text producer spec.events w.machine w.committed (batch w).committed
        spec.done

  batch-IsDecodable :
      (w : W) → IsDecodable pg codec w.committed → IsDecodable pg codec (batch w).committed
  batch-IsDecodable w decodable =
      let spec = batch-BatchSpec w decodable in
      Batched-IsDecodable pg codec text producer takes spec.events w.machine w.committed
        (batch w).committed spec.done decodable

  times-OutboxGrows :
      (n : ℕ) (w : W)
      → IsDecodable pg codec w.committed
      → OutboxGrows pg w.committed (times n batch w).committed
  times-OutboxGrows zero w decodable = record { at = λ k row there. (row, there, Grown-refl row) }
  times-OutboxGrows (suc n) w decodable =
      OutboxGrows-trans pg w.committed (batch w).committed (times n batch (batch w)).committed
        (batch-OutboxGrows w decodable)
        (times-OutboxGrows n (batch w) (batch-IsDecodable w decodable))

  waiting-Listed :
      (ids : List Uuid) (db : pg.Db) (events : List OutboxEvent)
      → IsBacklog pg ids db
      → All (IsWaiting pg codec db) events
      → All (λ e. Listed e.id ids) events
  waiting-Listed ids db [] backlog waiting = tt
  waiting-Listed ids db (e ∷ events) backlog (here, waiting) = (
    backlog.at e.id here.row here.there here.unpublished,
    waiting-Listed ids db events backlog waiting,
  )

  module _ (w : W) (ids : List Uuid) (backlog : IsBacklog pg ids w.committed)
      (spec : BatchSpec pg codec text producer p.batch w.machine w.committed
        (batch w).committed) where
    -- A batch takes its events out of the backlog.
    batch-IsBacklog : IsBacklog pg (less_events spec.events ids) (batch w).committed
    batch-IsBacklog = record {
      at = λ i row there unpublished.
          let free =
            unpublished-Fresh pg codec text producer takes spec.events w.machine w.committed
              (batch w).committed spec.done i row there unpublished in
          Listed-less_events i spec.events ids free
            (backlog.at i row (sym (spec.done.others i free) ∙ there) unpublished);
    }

    batch_shortens : length (less_events spec.events ids) + length spec.events ≤ length ids
    batch_shortens =
        length-less_events spec.events ids spec.fetched.distinct
          (waiting-Listed ids w.committed spec.events backlog spec.fetched.waiting)

    -- An event that was due is published, or is still there and the batch was full.
    batch_publishes :
        (i : Uuid) (row : OutboxRow)
        → pg.outbox_at w.committed i ≡ some row
        → row.published_at ≡ none
        → row.available_at ≤ pg.now w.committed
        → IsPublished pg i (batch w).committed
          ⊎ ((pg.outbox_at (batch w).committed i ≡ some row) × (p.batch ≤ length spec.events))
    batch_publishes i row there unpublished due =
        let (row', there', grown) =
          (Batched-OutboxGrows pg text producer spec.events w.machine w.committed
              (batch w).committed spec.done).at
            i row there in
        elim (Option-cases row'.published_at) [
          | inr (t, published) ↦ inl (row', there', λ e. cc)
          | inl still ↦
              let free =
                unpublished-Fresh pg codec text producer takes spec.events w.machine w.committed
                  (batch w).committed spec.done i row' there' still in
              elim (Bool-cases (leb p.batch (length spec.events))) [
                | inl full ↦ inr (spec.done.others i free ∙ there, ground arith)
                | inr fewer ↦
                    absurd (spec.fetched.complete (ground arith) i row there unpublished due free)
              ]
        ]

  drains :
      (n : ℕ) (w : W) (ids : List Uuid)
      → IsBacklog pg ids w.committed
      → length ids ≤ n * p.batch
      → IsDecodable pg codec w.committed
      → (i : Uuid) (row : OutboxRow) → pg.outbox_at w.committed i ≡ some row
      → row.published_at ≡ none
      → row.available_at ≤ pg.now w.committed
      → IsPublished pg i (times n batch w).committed
  drains zero w [] backlog short decodable i row there unpublished due =
      absurd (backlog.at i row there unpublished)
  drains zero w (k ∷ ids) backlog short decodable i row there unpublished due =
      absurd (ground arith)
  drains (suc n) w ids backlog short decodable i row there unpublished due =
      let spec = batch-BatchSpec w decodable in
      let decodable' = batch-IsDecodable w decodable in
      elim (batch_publishes w ids backlog spec i row there unpublished due) [
        | inl published ↦
            IsPublished-later pg i (batch w).committed (times n batch (batch w)).committed
              (times-OutboxGrows n (batch w) decodable') published
        | inr (still, full) ↦
            drains n (batch w) (less_events spec.events ids) (batch-IsBacklog w ids backlog spec)
              (omega (arith, batch_shortens w ids backlog spec, suc-mul n p.batch, short, full))
              decodable' i row still unpublished (omega (arith, due, batch_forward w))
      ]

  -- With a database that is reachable, a producer that takes every event and payloads that can be
  -- decoded, Run publishes every event that is due at its start, if it takes enough batches for the
  -- events that are not published then: one at the start and one for each tick.
  pub run_drains :
      (signals : List Signal) (w : W) (ids : List Uuid)
      → IsBacklog pg ids w.committed
      → length ids ≤ suc (ticks signals) * p.batch
      → IsDecodable pg codec w.committed
      → (i : Uuid) (row : OutboxRow) → pg.outbox_at w.committed i ≡ some row
      → row.available_at ≤ pg.now w.committed
      → IsPublished pg i (run text p request_ctx signals w).committed
  run_drains signals w ids backlog short decodable i row there due =
      rw (run-times text p request_ctx signals w) (elim (Option-cases row.published_at) [
        | inl unpublished ↦
            drains (suc (ticks signals)) w ids backlog short decodable i row there unpublished due
        | inr (t, published) ↦
            IsPublished-later pg i w.committed (times (suc (ticks signals)) batch w).committed
              (times-OutboxGrows (suc (ticks signals)) w decodable) (row, there, λ e. cc)
      ])
