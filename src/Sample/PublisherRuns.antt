-- ===== src/Sample/PublisherRuns.antt =====
-- The theorems on the publisher and on the running program at concrete inputs.
use company_service.Common.{
  ◌⊎◌, ℕ, ◌+◌, ◌*◌, ◌^◌, ◌≡◌, ◌≤◌, refl, arith, String, Option, none, some, List, [], ◌∷◌, nat_eq,
  leb, is_nil, if◌then◌else◌,
}
use company_service.Common.Int.{pos, negsuc}
use company_service.Errors.{failure}
use company_service.Action.{ok, err}
use company_service.Domain.{in_utc}
use company_service.Application.{Event, EventProducer, event_company_created}
use company_service.Json.{equal_fold, fold_code, is_int64}
use company_service.Json.Events.{event_object, company_object}
use company_service.Postgres.{World, OutboxRow, PendingRow, Rows, closed, next}
use company_service.Postgres.Outbox.{read_rows}
use company_service.Publisher.{
  Publisher, Signal, done, tick, new_publisher, process_batch, process_and_log, run, two_seconds,
}
use company_service.Publisher.Running.{times, run-times}
use company_service.Wiring.{request_ctx}
use company_service.Wiring.Atomic.{Commits}
use company_service.Wiring.Invariant.{IsGood, create, serve_call}
use company_service.Wiring.NoLoss.{OutboxGrows}
use company_service.Wiring.Publishing.{app_publisher}
use company_service.Wiring.Publishing.Atomic.{BatchSpec, process_batch-Commits}
use company_service.Wiring.System.{Reach, start, later, serves, publishes, publish_batch}
use company_service.Wiring.System.Careful.{Announced}
use company_service.Wiring.System.Invariants.{Reach-Announced, Reach-IsGood}
use company_service.Wiring.System.Taken.{PublishedTaken, Reach-PublishedTaken}
use company_service.Sample.Memory.{Tables, memory}
use company_service.Sample.Memory.Meets.{memory-PostgresLaws}
use company_service.Sample.Memory.Queue.{memory-PendingLaws}
use company_service.Sample.Table.{find}
use company_service.Sample.Texts.{unary, tally}
use company_service.Sample.Setting.{counter, texts, no_tables, fresh, acme_input}

-- A broker that counts the events on company 7 and refuses the others.
abbrev picky : EventProducer ℕ
picky = record {
  publish = λ ctx event n.
      if nat_eq event.company_id 7 then (ok tt, n + 1) else (err (failure "refused"), n);
  close = λ ctx n. (ok tt, n);
}

abbrev publisher : Publisher (World Tables ℕ)
publisher = app_publisher memory unary texts picky (pos 1) (negsuc 0)

abbrev pub event_about : ℕ → ℕ → Event
event_about id company_id = record {
  id = id;
  event_type = event_company_created;
  occurred_at = record { instant = 2; location = in_utc };
  company_id = company_id;
  company = none;
}

abbrev pub row_about : ℕ → ℕ → OutboxRow
row_about id company_id = record {
  id = id;
  event_type = event_company_created;
  aggregate_id = company_id;
  payload = event_object unary (event_about id company_id) "xx" company_service.Json.null;
  attempts = 0;
  last_error = none;
  available_at = 0;
  published_at = none;
  created_at = record { instant = id; location = in_utc };
}

-- Two events wait, one of them on company 7.
abbrev pub waiting : World Tables ℕ
waiting = record fresh {
  committed = record no_tables { outbox = row_about 2 9 ∷ row_about 1 7 ∷ [] };
}

process_batch-Commits_example :
    Commits memory {M = ℕ} {A = Unit}
      (λ _ db db'. BatchSpec memory unary texts picky publisher.batch 1 db db')
      waiting
      (process_batch texts publisher request_ctx waiting)
process_batch-Commits_example =
    process_batch-Commits memory memory-PostgresLaws memory-PendingLaws unary texts picky (pos 1)
      (negsuc 0) waiting

-- One event is published, and the refused one is to be tried again.
settled_rows :
    (process_batch texts publisher request_ctx waiting).1.committed.outbox
    ≡ record (row_about 2 9) {
      attempts = 1;
      last_error = some (texts (failure "refused"));
      available_at = 10 * 10 ^ 9;
    }
      ∷ record (row_about 1 7) { published_at = some 0 }
      ∷ []
unfolding process_batch company_service.Publisher.process_in_tx
    company_service.Publisher.process_events company_service.Publisher.settle app_publisher
    new_publisher company_service.Postgres.Outbox.fetch_pending
    company_service.Postgres.Outbox.set_published company_service.Postgres.Outbox.set_failed
    company_service.Postgres.Tx.transaction_manager company_service.Postgres.Tx.within_transaction
    company_service.Postgres.Tx.commit company_service.Postgres.Tx.finish
    company_service.Postgres.Tx.roll_back company_service.Postgres.asked
    company_service.Postgres.on_executor company_service.Postgres.put_back
    company_service.Postgres.seen company_service.Sample.Memory.exec
    company_service.Sample.Memory.run_mark company_service.Sample.Table.find
    company_service.Sample.Table.alter company_service.Sample.Memory.query_pending
    company_service.Sample.Memory.as_rows company_service.Sample.Memory.pending
    company_service.Sample.Memory.is_pending company_service.Sample.Memory.insert_by_age
    company_service.Sample.Table.remove read_rows company_service.Json.Events.unmarshal_event
    company_service.Json.Events.read_uuid company_service.Json.Events.read_string
    company_service.Json.Events.read_time equal_fold fold_code tally
    company_service.Common.Text.rune_count
settled_rows = refl

run-times_example :
    run texts publisher request_ctx (tick ∷ tick ∷ done ∷ tick ∷ []) waiting
    ≡ times 3 (process_and_log texts publisher request_ctx) waiting
run-times_example = run-times texts publisher request_ctx (tick ∷ tick ∷ done ∷ tick ∷ []) waiting

-- A company is created, and then a batch is taken.
abbrev at_end : World Tables ℕ
at_end =
    publish_batch memory counter unary texts picky (pos 1) (pos 5)
      (serve_call memory counter unary texts (create acme_input) fresh)

to_end : Reach memory counter unary texts picky (pos 1) (pos 5) fresh at_end
to_end = later (later start (serves (create acme_input))) publishes

no_tables-Announced : Announced memory no_tables
unfolding find
no_tables-Announced = record { at = λ i c there. ground arith }

no_tables-IsGood : IsGood memory no_tables
unfolding find
no_tables-IsGood = record {
  valid = λ i row at. ground arith;
  distinct = λ i j a b at_i at_j same. ground arith;
}

Reach-Announced_example : Announced memory at_end.committed
Reach-Announced_example =
    Reach-Announced memory memory-PostgresLaws memory-PendingLaws counter unary texts picky (pos 1)
      (pos 5) to_end no_tables-Announced

-- A batch is taken while two events wait, of which the broker refuses one.
abbrev after_batch : World Tables ℕ
after_batch = publish_batch memory counter unary texts picky (pos 1) (pos 5) waiting

waiting-PublishedTaken : PublishedTaken memory unary picky waiting.committed
unfolding find
waiting-PublishedTaken = record {
  at = λ k row there published. absurd (published (ground (arith, there)));
}

Reach-PublishedTaken_example :
    OutboxGrows memory waiting.committed after_batch.committed
    × PublishedTaken memory unary picky after_batch.committed
Reach-PublishedTaken_example =
    Reach-PublishedTaken memory memory-PostgresLaws memory-PendingLaws counter unary texts picky
      (pos 1) (pos 5) (later start publishes) waiting-PublishedTaken

Reach-IsGood_example : IsGood memory at_end.committed
Reach-IsGood_example =
    Reach-IsGood memory memory-PostgresLaws memory-PendingLaws counter unary texts picky (pos 1)
      (pos 5) to_end no_tables-IsGood
