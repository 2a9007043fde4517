-- ===== src/Wiring/Announcing.antt =====
-- From a successful request to the published event.
use company_service.Common.{
  suc, ◌*◌, ◌≡◌, ◌≤◌, arith, String, some, List, ◌∷◌, length, nat_eq, nat_eq_iff, Bool-cases, inl,
  inr,
}
use company_service.Common.Int.{ℤ}
use company_service.Errors.{GoError}
use company_service.Action.{ok}
use company_service.Domain.{Uuid, Company}
use company_service.Application.{
  EventProducer, event_company_created, event_company_updated, event_company_deleted,
}
use company_service.Json.{Codec}
use company_service.Service.{create_company, patch_company, delete_company}
use company_service.Postgres.{Postgres, Machine, World}
use company_service.Postgres.Laws.{PostgresLaws, fresh_row}
use company_service.Postgres.Clock.{ClockLaws}
use company_service.Postgres.Pending.{PendingLaws}
use company_service.Postgres.Available.{Available}
use company_service.Publisher.{Signal, run}
use company_service.Publisher.Running.{ticks}
use company_service.Wiring.{request_ctx, app_env, app_service}
use company_service.Wiring.Atomic.{Commits-of_ok}
use company_service.Wiring.Spec.{EventAdded, Removed, Changed}
use company_service.Wiring.Create.{CreateSpec, create_company-Commits}
use company_service.Wiring.Patch.{patch_company-Commits}
use company_service.Wiring.Delete.{delete_company-Commits}
use company_service.Wiring.Invariant.{Call, create, patch, delete, get, serve_call}
use company_service.Wiring.Publishing.{app_publisher}
use company_service.Wiring.Draining.{run_drains}
use company_service.Wiring.Draining.Backlog.{IsBacklog, IsPublished}
use company_service.Wiring.Draining.Published.{TakesAll, IsDecodable}

module _ (pg : Postgres) (laws : PostgresLaws pg) (machine : Machine) (codec : Codec)
    (text : GoError → String) where
  abbrev W : Type 0
  W = World pg.Db machine.State

  -- The call is one of the three that change companies, and it returned no error.
  abbrev pub Succeeds : Call → W → Type 0
  Succeeds (create input) w =
      (c : Company) × ((create_company (app_env pg machine codec text)
          (app_service pg machine codec text) request_ctx input w).0
        ≡ ok c)
  Succeeds (patch id input) w =
      (c : Company) × ((patch_company (app_env pg machine codec text)
          (app_service pg machine codec text) request_ctx id input w).0
        ≡ ok c)
  Succeeds (delete id) w =
      (delete_company (app_env pg machine codec text) (app_service pg machine codec text)
        request_ctx id w).0
      ≡ ok tt
  Succeeds (get id) w = ⊥

  -- The type of the event that announces the call.
  abbrev pub kind_of : Call → String
  kind_of (create input) = event_company_created
  kind_of (patch id input) = event_company_updated
  kind_of (delete id) = event_company_deleted
  kind_of (get id) = ""

  Succeeds-EventAdded :
      (call : Call) (w : W)
      → Succeeds call w
      → (c : Company) × EventAdded pg codec
          (kind_of call)
          c
          w.committed
          (serve_call pg machine codec text call w).committed
  unfolding serve_call
  Succeeds-EventAdded (create input) w (c, done) =
      let (c', (made, created)) =
        Commits-of_ok pg (CreateSpec pg laws machine codec text input) w _ c
          (create_company-Commits pg laws machine codec text input w) done in
      (c', created.event)
  Succeeds-EventAdded (patch id input) w (c, done) =
      let (c', changed) =
        Commits-of_ok pg (Changed pg codec id input) w _ c
          (patch_company-Commits pg laws machine codec text id input w) done in
      (c', changed.event)
  Succeeds-EventAdded (delete id) w done =
      let (_, (c, gone)) =
        Commits-of_ok pg {A = Unit} (λ _ db db'. (c : Company) × Removed pg codec id c db db') w _
          tt (delete_company-Commits pg laws machine codec text id w) done in
      (c, gone.event)
  Succeeds-EventAdded (get id) w done = absurd done

  -- An event that was added is behind the events that waited before.
  module _ {kind : String} {c : Company} {db db' : pg.Db}
      (added : EventAdded pg codec kind c db db') where
    added-IsBacklog :
        (ids : List Uuid) → IsBacklog pg ids db → IsBacklog pg (added.event.id ∷ ids) db'
    added-IsBacklog ids backlog = record {
      at = λ i row there unpublished. elim (Bool-cases (nat_eq added.event.id i)) [
        | inl hit ↦ inl ((nat_eq_iff added.event.id i).0 hit)
        | inr miss ↦ inr (backlog.at i row (ground (arith, added.rows i, there)) unpublished)
      ];
    }

    added_row :
        pg.outbox_at db' added.event.id
        ≡ some (
            fresh_row pg added.event.id kind c.id added.payload added.event.occurred_at
              added.available_at)
    added_row = ground (arith, added.rows added.event.id, nat_eq_iff added.event.id added.event.id)

module _ (pg : Postgres) (laws : PostgresLaws pg) (pending : PendingLaws pg) (clock : ClockLaws pg)
    (up : Available pg) (machine : Machine) (codec : Codec) (text : GoError → String)
    (producer : EventProducer machine.State) (takes : TakesAll producer)
    (interval batch_size : ℤ) where
  -- With a database that is reachable, a producer that takes every event and payloads that can be
  -- decoded: a call that creates, changes or deletes a company and returns no error has added its
  -- event to the outbox, and Run publishes this event, if it takes enough batches for the events that
  -- waited before the call and this one: one at the start and one for each tick.
  pub succeeded-IsPublished :
      (call : Call) (w : World pg.Db machine.State) (ids : List Uuid) (signals : List Signal)
      → Succeeds pg laws machine codec text call w
      → IsBacklog pg ids w.committed
      → suc (length ids)
        ≤ suc (ticks signals) * (app_publisher pg codec text producer interval batch_size).batch
      → IsDecodable pg codec (serve_call pg machine codec text call w).committed
      → (c : Company) × (added : EventAdded pg codec
          (kind_of pg laws machine codec text call)
          c
          w.committed
          (serve_call pg machine codec text call w).committed)
        × IsPublished pg added.event.id
            (run text
              (app_publisher pg codec text producer interval batch_size)
              request_ctx
              signals
              (serve_call pg machine codec text call w)).committed
  succeeded-IsPublished call w ids signals done backlog short decodable =
      let (c, added) = Succeeds-EventAdded pg laws machine codec text call w done in
      (
        c,
        added,
        run_drains pg laws pending clock up codec text producer takes interval batch_size signals
            (serve_call pg machine codec text call w) (added.event.id ∷ ids)
            (added-IsBacklog pg laws machine codec text added ids backlog) short decodable
            added.event.id _ (added_row pg laws machine codec text added) added.due,
      )
