-- ===== src/Wiring/Publishing/Atomic.antt =====
-- ProcessBatch and Run on PostgreSQL.
use company_service.Common.{ℕ, ◌≡◌, ◌∙◌, sym, ap, subst, arith, String, List, [], ◌∷◌}
use company_service.Common.Int.{ℤ}
use company_service.Errors.{GoError}
use company_service.Action.{Result, ok, err}
use company_service.Action.Inversion.{>>=_runs}
use company_service.Action.Keeps.{Keeps-bind, Keeps-attempt, keeps_rules}
use company_service.Application.{OutboxEvent, EventProducer}
use company_service.Json.{Codec}
use company_service.Postgres.{Postgres, World}
use company_service.Postgres.Laws.{PostgresLaws}
use company_service.Postgres.Pending.{PendingLaws}
use company_service.Postgres.Tx.{transaction_manager}
use company_service.Postgres.Outbox.{fetch_pending, set_published, set_failed}
use company_service.Publisher.{
  Publisher, settle, process_events, process_in_tx, process_batch, new_publisher,
}
use company_service.Wiring.{request_ctx, tx_ctx}
use company_service.Wiring.Atomic.{Commits, opened-Commits}
use company_service.Wiring.Local.{Local}
use company_service.Wiring.Publishing.{app_publisher, on_broker}
use company_service.Wiring.Publishing.Spec.{Batched}
use company_service.Wiring.Publishing.Fetched.{IsFetch, fetch_pending_keeps, fetch_pending-IsFetch}
use company_service.Wiring.Publishing.Batch.{process_events-Batched}

module _ (pg : Postgres) (codec : Codec) (text : GoError → String) {M : Type 0}
    (producer : EventProducer M) (interval batch_size : ℤ) where
  abbrev publisher : Publisher (World pg.Db M)
  publisher = app_publisher pg codec text producer interval batch_size

  module _ (db : pg.Db) where
    settle-Local :
        (e : OutboxEvent) (r : Result (Unit {0})) → Local pg M (settle text publisher tx_ctx e r) db
    unfolding settle app_publisher new_publisher set_published set_failed
    settle-Local e (ok _) = record { at = λ w h. ground arith }
    settle-Local e (err publish_err) = record { at = λ w h. ground arith }

    fetch-Local : (limit : ℕ) → Local pg M (fetch_pending pg M codec text tx_ctx limit) db
    unfolding fetch_pending
    fetch-Local limit = record { at = λ w h. ground arith }

    publish-Local :
        (e : OutboxEvent) → Local pg M ((on_broker {Db = pg.Db} producer).publish tx_ctx e.event) db
    publish-Local e = record { at = λ w h. h }

    process_events-Local :
        (events : List OutboxEvent) → Local pg M (process_events text publisher tx_ctx events) db
    unfolding process_events app_publisher new_publisher
    process_events-Local [] = record { at = λ w h. h }
    process_events-Local (e ∷ events) =
        Keeps-bind _ _ (Keeps-attempt _ _ (publish-Local e) (settle-Local e))
          (λ _. process_events-Local events)

    pub process_in_tx-Local : Local pg M (process_in_tx text publisher tx_ctx) db
    unfolding process_in_tx app_publisher new_publisher
    process_in_tx-Local = search (keeps_rules, fetch-Local, process_events-Local)

-- A batch: at most as many events as the publisher takes at a time, each in a row that was due, the
-- older rows first, and each row settled by the producer's answer.
pub record BatchSpec (pg : Postgres) (codec : Codec) (text : GoError → String) {M : Type 0}
    (producer : EventProducer M) (limit : ℕ) (m : M) (db db' : pg.Db) : Type 0 where
  pub events : List OutboxEvent
  pub fetched : IsFetch pg codec limit db events
  pub done : Batched pg text producer events m db db'

module _ (pg : Postgres) (laws : PostgresLaws pg) (pending : PendingLaws pg) (codec : Codec)
    (text : GoError → String) {M : Type 0} (producer : EventProducer M)
    (interval batch_size : ℤ) where
  abbrev p : Publisher (World pg.Db M)
  p = app_publisher pg codec text producer interval batch_size

  process_in_tx-BatchSpec :
      (w : World pg.Db M)
      → (process_in_tx text p tx_ctx w).0 ≡ ok tt
      → BatchSpec pg codec text producer p.batch w.machine w.working
          (process_in_tx text p tx_ctx w).1.working
  unfolding process_in_tx app_publisher new_publisher
  process_in_tx-BatchSpec w h =
      let (events, e1, h1, r1) =
        >>=_runs (fetch_pending pg M codec text tx_ctx p.batch) (process_events text p tx_ctx) w
          h in
      let back = fetch_pending_keeps pg codec pending text p.batch w in
      let fetched = fetch_pending-IsFetch pg codec pending text p.batch w events e1 in
      let (done, moved) =
        process_events-Batched pg laws codec text producer interval batch_size events w
          fetched.distinct (rw back at h1) in
      let total : process_in_tx text p tx_ctx w ≡ process_events text p tx_ctx events w =
        r1 ∙ ap (process_events text p tx_ctx events) back in
      subst
        (λ (r : Result Unit × World pg.Db M).
          BatchSpec pg codec text producer p.batch w.machine w.working r.1.working)
        (sym total) (record { events = events; fetched = fetched; done = done })

  -- ProcessBatch on PostgreSQL, however it ends. An error, from whatever call, leaves the committed
  -- rows as they were, unless it is the error of Commit, which may leave what a success leaves. A
  -- success has taken at most as many events as the publisher's batch, and all
  -- that were due if there were fewer, each the decoded payload of a row that was due and
  -- unpublished, those of older rows first. The producer was given them in this order, each row was
  -- marked published where the producer took the event, and otherwise counts one attempt more, keeps
  -- the text of the error, and is due again in ten seconds. No other row of the outbox and no
  -- company changed.
  pub process_batch-Commits :
      (w : World pg.Db M)
      → Commits pg {M = M} {A = Unit}
          (λ _ db db'. BatchSpec pg codec text producer p.batch w.machine db db')
          w
          (process_batch text p request_ctx w)
  unfolding process_batch app_publisher new_publisher transaction_manager
  process_batch-Commits w =
      opened-Commits pg text (λ _ db db'. BatchSpec pg codec text producer p.batch w.machine db db')
        (process_in_tx text p) w (process_in_tx-Local pg codec text producer interval batch_size)
        (λ _ h. process_in_tx-BatchSpec (record w { working = w.committed }) h)
