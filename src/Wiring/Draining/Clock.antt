-- ===== src/Wiring/Draining/Clock.antt =====
-- The clock of the database over a batch.
use company_service.Common.{ℕ, ◌≤◌, arith, String, List, [], ◌∷◌}
use company_service.Common.Int.{ℤ}
use company_service.Errors.{GoError}
use company_service.Action.{Result, ok, err}
use company_service.Action.Keeps.{Keeps, Keeps-bind, Keeps-attempt, keeps_rules}
use company_service.Application.{OutboxEvent, EventProducer}
use company_service.Json.{Codec}
use company_service.Postgres.{Postgres, World, mark_published, mark_failed}
use company_service.Postgres.Clock.{ClockLaws}
use company_service.Postgres.Outbox.{fetch_pending, set_published, set_failed}
use company_service.Postgres.Tx.{transaction_manager}
use company_service.Publisher.{
  Publisher, settle, process_events, process_in_tx, process_batch, new_publisher,
}
use company_service.Wiring.{request_ctx, tx_ctx}
use company_service.Wiring.Atomic.{opened-Commits}
use company_service.Wiring.Publishing.{app_publisher, on_broker}
use company_service.Wiring.Publishing.Atomic.{process_in_tx-Local}
use company_service.Wiring.System.Careful.{Commits-keeps}

module _ (pg : Postgres) (clock : ClockLaws pg) (codec : Codec) (text : GoError → String)
    {M : Type 0} (producer : EventProducer M) (interval batch_size : ℤ) where
  abbrev p : Publisher (World pg.Db M)
  p = app_publisher pg codec text producer interval batch_size

  -- The time of the transaction's rows is not before `t`.
  abbrev After : ℕ → World pg.Db M → Type 0
  After t w = t ≤ pg.now w.working

  module _ (t : ℕ) where
    settle-After :
        (e : OutboxEvent) (r : Result (Unit {0})) → Keeps (After t) (settle text p tx_ctx e r)
    unfolding settle app_publisher new_publisher set_published set_failed
    settle-After e (ok _) = record {
      at = λ w h. ground (arith, clock.forward (mark_published e.id) w.working);
    }
    settle-After e (err publish_err) = record {
      at = λ w h. ground (arith, clock.forward (mark_failed e.id (text publish_err)) w.working);
    }

    fetch-After : (limit : ℕ) → Keeps (After t) (fetch_pending pg M codec text tx_ctx limit)
    unfolding fetch_pending
    fetch-After limit = record { at = λ w h. ground arith }

    publish-After :
        (e : OutboxEvent)
        → Keeps (After t) ((on_broker {Db = pg.Db} producer).publish tx_ctx e.event)
    publish-After e = record { at = λ w h. h }

    process_events-After :
        (events : List OutboxEvent) → Keeps (After t) (process_events text p tx_ctx events)
    unfolding process_events app_publisher new_publisher
    process_events-After [] = record { at = λ w h. h }
    process_events-After (e ∷ events) =
        Keeps-bind _ _ (Keeps-attempt _ _ (publish-After e) (settle-After e))
          (λ _. process_events-After events)

    process_in_tx-After : Keeps (After t) (process_in_tx text p tx_ctx)
    unfolding process_in_tx app_publisher new_publisher
    process_in_tx-After = search (keeps_rules, fetch-After, process_events-After)

  -- A batch does not turn the clock back.
  pub process_batch_forward :
      (w : World pg.Db M)
      → pg.now w.committed ≤ pg.now (process_batch text p request_ctx w).1.committed
  unfolding process_batch app_publisher new_publisher transaction_manager
  process_batch_forward w =
      Commits-keeps pg {A = Unit} (λ db db'. pg.now db ≤ pg.now db')
        (λ _ db db'. pg.now db ≤ pg.now db') w (process_batch text p request_ctx w)
        (opened-Commits pg text (λ _ db db'. pg.now db ≤ pg.now db') (process_in_tx text p) w
          (process_in_tx-Local pg codec text producer interval batch_size)
          (λ _ h.
            (process_in_tx-After (pg.now w.committed)).at (record w { working = w.committed })
              (omega arith)))
        (λ db. omega arith) (λ _ db db' h. h)
