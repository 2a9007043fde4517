-- ===== src/Wiring/System/Taken.antt =====
-- What was published was taken by the producer, in every reachable state.
use company_service.Common.{
  ℕ, ◌≡◌, ◌≢◌, ◌⊎◌, ◌∙◌, sym, ap, arith, String, none, some, inl, inr, List, [], ◌∷◌, All, nat_eq,
  nat_eq_iff, Bool-cases,
}
use company_service.Common.Int.{ℤ}
use company_service.Errors.{GoError}
use company_service.Action.{ok}
use company_service.Action.Inversion.{Result-cases}
use company_service.Domain.{Uuid, Company}
use company_service.Application.{Event, OutboxEvent, EventProducer}
use company_service.Json.{Codec, Json}
use company_service.Json.Events.{unmarshal_event}
use company_service.Service.{get_company, new_service_with_outbox}
use company_service.Postgres.{OutboxRow, Postgres, Machine, World}
use company_service.Postgres.Companies.{company_repository}
use company_service.Postgres.Laws.{PostgresLaws}
use company_service.Postgres.Pending.{PendingLaws}
use company_service.Publisher.{process_and_log}
use company_service.Wiring.{tx_ctx, request_ctx, app_service}
use company_service.Wiring.Steps.{get_by_id_keeps}
use company_service.Wiring.Spec.{Removed, Changed, EventAdded}
use company_service.Wiring.Create.{CreateSpec, create_company-Commits}
use company_service.Wiring.Patch.{patch_company-Commits}
use company_service.Wiring.Delete.{delete_company-Commits}
use company_service.Wiring.Invariant.{Call, create, patch, delete, get, serve_call}
use company_service.Wiring.NoLoss.{OutboxGrows}
use company_service.Wiring.Publishing.{app_publisher}
use company_service.Wiring.Publishing.Spec.{Fresh, Each, settled}
use company_service.Wiring.Publishing.Fetched.{IsWaiting}
use company_service.Wiring.Publishing.Atomic.{BatchSpec, process_batch-Commits}
use company_service.Wiring.System.{
  Step, serves, publishes, moves, Reach, start, later, publish_batch,
}
use company_service.Wiring.System.Careful.{Commits-keeps}
use company_service.Wiring.System.Invariants.{Reach-OutboxGrows}

-- The payload is that of an event which the producer took, in some state of the broker.
pub record Taken (codec : Codec) {M : Type 0} (producer : EventProducer M) (payload : Json)
    : Type 0 where
  pub event : Event
  pub broker : M
  pub decoded : unmarshal_event codec payload ≡ ok event
  pub taken : (producer.publish tx_ctx event broker).0 ≡ ok tt

-- Each row that is marked published was taken.
pub record PublishedTaken (pg : Postgres) (codec : Codec) {M : Type 0} (producer : EventProducer M)
    (db : pg.Db) : Type 0 where
  pub at :
      (k : Uuid) (row : OutboxRow)
      → pg.outbox_at db k ≡ some row
      → row.published_at ≢ none
      → Taken codec producer row.payload

module _ (pg : Postgres) (codec : Codec) {M : Type 0} (producer : EventProducer M) where
  -- A new event is not published.
  EventAdded-PublishedTaken :
      (kind : String) (c : Company) (db db' : pg.Db)
      → EventAdded pg codec kind c db db'
      → PublishedTaken pg codec producer db
      → PublishedTaken pg codec producer db'
  EventAdded-PublishedTaken kind c db db' added h = record {
    at = λ k row there published. elim (Bool-cases (nat_eq added.event.id k)) [
      | inl hit ↦ absurd (published (ground (arith, added.rows k)))
      | inr miss ↦ h.at k row (ground (arith, added.rows k)) published
    ];
  }

  -- The row of an event that waited, after the producer's answer.
  settled-Taken :
      (text : GoError → String) (t : ℕ) (e : OutboxEvent) (m : M) (row row' : OutboxRow)
      → unmarshal_event codec row.payload ≡ ok e.event
      → row.published_at ≡ none
      → settled pg text t (producer.publish tx_ctx e.event m).0 (some row) ≡ some row'
      → row'.published_at ≢ none
      → Taken codec producer row'.payload
  settled-Taken text t e m row row' decoded unpublished is published =
      elim (Result-cases (producer.publish tx_ctx e.event m).0) [
        | inl (_, took) ↦ record {
          event = e.event;
          broker = m;
          decoded = ap (unmarshal_event codec) (ground (arith, is, took)) ∙ decoded;
          taken = took;
        }
        | inr (_, refused) ↦ absurd (published (ground (arith, is, refused, unpublished)))
      ]

  Each-Taken :
      (text : GoError → String) (events : List OutboxEvent) (m : M) (db db' : pg.Db) (k : Uuid)
      (row' : OutboxRow)
      → All (IsWaiting pg codec db) events
      → Each pg text producer events m db db'
      → pg.outbox_at db' k ≡ some row'
      → row'.published_at ≢ none
      → Fresh k events ⊎ Taken codec producer row'.payload
  Each-Taken text [] m db db' k row' waiting each there published = inl tt
  Each-Taken text (e ∷ events) m db db' k row' (waits, waiting) ((t, head), tail) there published =
      elim (Bool-cases (nat_eq e.id k)) [
        | inl hit ↦
            let is : e.id ≡ k = (nat_eq_iff e.id k).0 hit in
            inr (
              settled-Taken text t e m waits.row row' waits.decoded waits.unpublished
                (sym (ap (settled pg text t (producer.publish tx_ctx e.event m).0) waits.there)
                  ∙ sym head
                  ∙ ap (pg.outbox_at db') is
                  ∙ there)
                published)
        | inr miss ↦
            elim (Each-Taken text events (producer.publish tx_ctx e.event m).1 db db' k row' waiting
              tail there published) [
                | inl free ↦ inl (ground (arith, miss), free)
                | inr took ↦ inr took
              ]
      ]

  BatchSpec-PublishedTaken :
      (text : GoError → String) (limit : ℕ) (m : M) (db db' : pg.Db)
      → BatchSpec pg codec text producer limit m db db'
      → PublishedTaken pg codec producer db
      → PublishedTaken pg codec producer db'
  BatchSpec-PublishedTaken text limit m db db' spec h = record {
    at = λ k row there published.
        elim (Each-Taken text spec.events m db db' k row spec.fetched.waiting spec.done.each there
          published) [
            | inl free ↦ h.at k row (sym (spec.done.others k free) ∙ there) published
            | inr took ↦ took
          ];
  }

module _ (pg : Postgres) (laws : PostgresLaws pg) (pending : PendingLaws pg) (machine : Machine)
    (codec : Codec) (text : GoError → String) (producer : EventProducer machine.State)
    (interval batch_size : ℤ) where
  abbrev W : Type 0
  W = World pg.Db machine.State

  abbrev Stays : pg.Db → pg.Db → Type 0
  Stays db db' = PublishedTaken pg codec producer db → PublishedTaken pg codec producer db'

  serve_call-Stays :
      (call : Call) (w : W) → Stays w.committed (serve_call pg machine codec text call w).committed
  unfolding serve_call get_company app_service new_service_with_outbox company_repository
  serve_call-Stays (create input) w =
      Commits-keeps pg Stays (CreateSpec pg laws machine codec text input) w _
        (create_company-Commits pg laws machine codec text input w) (λ db h. h)
        λ c db db' (made, created).
          EventAdded-PublishedTaken pg codec producer _ c db db' created.event
  serve_call-Stays (patch id input) w =
      Commits-keeps pg Stays (Changed pg codec id input) w _
        (patch_company-Commits pg laws machine codec text id input w) (λ db h. h)
        λ c db db' changed. EventAdded-PublishedTaken pg codec producer _ c db db' changed.event
  serve_call-Stays (delete id) w =
      Commits-keeps pg {A = Unit} Stays (λ _ db db'. (c : Company) × Removed pg codec id c db db') w
        _ (delete_company-Commits pg laws machine codec text id w) (λ db h. h)
        λ _ db db' (c, gone). EventAdded-PublishedTaken pg codec producer _ c db db' gone.event
  serve_call-Stays (get id) w = rw (get_by_id_keeps pg machine.State w request_ctx id) (λ h. h)

  publish_batch-Stays :
      (w : W)
      → Stays w.committed
          (publish_batch pg machine codec text producer interval batch_size w).committed
  unfolding process_and_log
  publish_batch-Stays w =
      Commits-keeps pg {A = Unit} Stays
        (λ _ db db'.
          BatchSpec pg codec text producer
            (app_publisher pg codec text producer interval batch_size).batch w.machine db db')
        w _ (process_batch-Commits pg laws pending codec text producer interval batch_size w)
        (λ db h. h)
        λ _ db db' batch. BatchSpec-PublishedTaken pg codec producer text _ w.machine db db' batch

  Step-Stays :
      {w w' : W}
      → Step pg machine codec text producer interval batch_size w w'
      → Stays w.committed w'.committed
  Step-Stays {w} (serves call) = serve_call-Stays call w
  Step-Stays {w} publishes = publish_batch-Stays w
  Step-Stays {w} (moves {w'} same outbox) =
      λ h. record { at = λ k row there published. h.at k row (sym (outbox.at k) ∙ there) published }

  Reach-Stays :
      {w w' : W}
      → Reach pg machine codec text producer interval batch_size w w'
      → Stays w.committed w'.committed
  Reach-Stays start h = h
  Reach-Stays (later r step) h = Step-Stays step (Reach-Stays r h)

  -- No event is lost. Each row of the outbox is in every later state, with the same event, type,
  -- company and payload, tried no less often, and published if it was. If every row that was marked
  -- published at the start holds an event that the producer took, so does every such row of the later
  -- state: an event that the producer refuses is not marked.
  pub Reach-PublishedTaken :
      {w w' : W}
      → Reach pg machine codec text producer interval batch_size w w'
      → PublishedTaken pg codec producer w.committed
      → OutboxGrows pg w.committed w'.committed × PublishedTaken pg codec producer w'.committed
  Reach-PublishedTaken reach h = (
    Reach-OutboxGrows pg laws pending machine codec text producer interval batch_size reach,
    Reach-Stays reach h,
  )
