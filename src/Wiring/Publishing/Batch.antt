-- ===== src/Wiring/Publishing/Batch.antt =====
-- The loop of processBatch inside a transaction.
use company_service.Common.{◌≡◌, ◌≢◌, ◌∙◌, refl, ap, subst, String, arith, List, [], ◌∷◌}
use company_service.Common.Int.{ℤ}
use company_service.Errors.{GoError}
use company_service.Action.{Result, ok, err, attempt}
use company_service.Action.Inversion.{>>=_runs, wrap_err-eq-ok}
use company_service.Domain.{Uuid}
use company_service.Application.{OutboxEvent, EventProducer}
use company_service.Json.{Codec}
use company_service.Postgres.{Postgres, World}
use company_service.Postgres.Laws.{PostgresLaws}
use company_service.Postgres.Outbox.{set_failed}
use company_service.Publisher.{settle, process_events, new_publisher}
use company_service.Wiring.{tx_ctx}
use company_service.Wiring.Publishing.{app_publisher}
use company_service.Wiring.Publishing.Steps.{set_published-ok, set_failed-ok}
use company_service.Wiring.Publishing.Spec.{Fresh, Distinct, given, settled, Settled, Each, Batched}

module _ (pg : Postgres) (laws : PostgresLaws pg) (codec : Codec) (text : GoError → String)
    {M : Type 0} (producer : EventProducer M) (interval batch_size : ℤ) where
  abbrev W : Type 0
  W = World pg.Db M

  settle-Settled :
      (e : OutboxEvent) (r : Result (Unit {0})) (w : W)
      → (settle text (app_publisher pg codec text producer interval batch_size) tx_ctx e r w).0
        ≡ ok tt
      → Settled pg text e.id r w.working
          (settle text
            (app_publisher pg codec text producer interval batch_size)
            tx_ctx
            e
            r
            w).1.working
        × ((settle text
              (app_publisher pg codec text producer interval batch_size)
              tx_ctx
              e
              r
              w).1.machine
            ≡ w.machine)
  unfolding settle app_publisher new_publisher
  settle-Settled e (ok _) w h =
      let ran = set_published-ok pg codec text w e.id h in
      let marked = laws.marked_published e.id w.working ran.affected ran.succeeded in
      rw ran.after (
        record { instant = pg.now w.working; companies = marked.companies; rows = marked.rows },
        refl,
      )
  settle-Settled e (err publish_err) w h =
      let ran =
        set_failed-ok pg codec text w e.id publish_err
          (wrap_err-eq-ok _ (set_failed pg M codec text tx_ctx e.id publish_err w).0 h) in
      let marked =
        laws.marked_failed e.id (text publish_err) w.working ran.affected ran.succeeded in
      rw ran.after (
        record { instant = pg.now w.working; companies = marked.companies; rows = marked.rows },
        refl,
      )

  Each-shift :
      (id : Uuid) (events : List OutboxEvent) (m : M) (db db1 db' : pg.Db)
      → ((i : Uuid) → i ≢ id → pg.outbox_at db1 i ≡ pg.outbox_at db i)
      → Fresh id events
      → Each pg text producer events m db1 db'
      → Each pg text producer events m db db'
  Each-shift id [] m db db1 db' same fresh each = tt
  Each-shift id (e ∷ events) m db db1 db' same (ne, fresh) ((t, head), tail) = (
    (t, head ∙ ap (settled pg text t (producer.publish tx_ctx e.event m).0) (same e.id ne)),
    Each-shift id events (producer.publish tx_ctx e.event m).1 db db1 db' same fresh tail,
  )

  Settled-Batched :
      (e : OutboxEvent) (events : List OutboxEvent) (m : M) (db db1 db' : pg.Db)
      → Distinct (e ∷ events)
      → Settled pg text e.id (producer.publish tx_ctx e.event m).0 db db1
      → Batched pg text producer events (producer.publish tx_ctx e.event m).1 db1 db'
      → Batched pg text producer (e ∷ events) m db db'
  Settled-Batched e events m db db1 db' (fresh, distinct) first later = record {
    companies = record { at = λ i. later.companies.at i ∙ first.companies.at i };
    others = λ i (ne, free). later.others i free ∙ ground (arith, first.rows i);
    each = (
      (first.instant, later.others e.id fresh ∙ ground (arith, first.rows e.id)),
      Each-shift e.id events (producer.publish tx_ctx e.event m).1 db db1 db'
          (λ i ne. ground (arith, first.rows i)) fresh later.each,
    );
  }

  pub process_events-Batched :
      (events : List OutboxEvent) (w : W)
      → Distinct events
      → (process_events text
          (app_publisher pg codec text producer interval batch_size)
          tx_ctx
          events
          w).0
        ≡ ok tt
      → Batched pg text producer events w.machine w.working
          (process_events text
            (app_publisher pg codec text producer interval batch_size)
            tx_ctx
            events
            w).1.working
        × ((process_events text
              (app_publisher pg codec text producer interval batch_size)
              tx_ctx
              events
              w).1.machine
            ≡ given producer events w.machine)
  unfolding process_events app_publisher new_publisher
  process_events-Batched [] w distinct h =
      (record { companies = record { at = λ i. refl }; others = λ i free. refl; each = tt }, refl)
  process_events-Batched (e ∷ events) w (fresh, distinct) h =
      let p = app_publisher pg codec text producer interval batch_size in
      let (r, m) = producer.publish tx_ctx e.event w.machine in
      let (_, e1, h1, r1) =
        >>=_runs (attempt (p.producer.publish tx_ctx e.event) (settle text p tx_ctx e))
          (λ _. process_events text p tx_ctx events) w h in
      let (first, kept) = settle-Settled e r (record w { machine = m }) e1 in
      let w2 : W = (settle text p tx_ctx e r (record w { machine = m })).1 in
      let (later, moved) = process_events-Batched events w2 distinct h1 in
      rw r1 (
        Settled-Batched e events w.machine w.working w2.working
            (process_events text p tx_ctx events w2).1.working (fresh, distinct) first
            (subst
              (λ (x : M).
                Batched pg text producer events x w2.working
                  (process_events text p tx_ctx events w2).1.working)
              kept later),
        moved ∙ ap (given producer events) kept,
      )
