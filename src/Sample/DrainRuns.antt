-- ===== src/Sample/DrainRuns.antt =====
-- The theorems on emptying the outbox at a concrete run.
use company_service.Common.{
  length, ℕ, ◌+◌, ◌*◌, ◌≤◌, ◌≡◌, refl, arith, subst, none, some, List, [], ◌∷◌, inl, inr, nat_eq,
  Bool-cases,
}
use company_service.Common.Int.{pos}
use company_service.Action.{ok}
use company_service.Application.{Event, EventProducer, event_company_created}
use company_service.Json.{equal_fold, fold_code}
use company_service.Json.Events.{unmarshal_event, read_uuid, read_string, read_time}
use company_service.Publisher.{done, tick, run, new_publisher}
use company_service.Postgres.{OutboxRow, World}
use company_service.Wiring.{request_ctx}
use company_service.Wiring.Publishing.{app_publisher}
use company_service.Wiring.Draining.{run_drains}
use company_service.Wiring.Draining.Backlog.{IsBacklog, IsPublished}
use company_service.Wiring.Draining.Published.{TakesAll, IsDecodable}
use company_service.Sample.Memory.{Tables, memory}
use company_service.Sample.Memory.Meets.{memory-PostgresLaws}
use company_service.Sample.Memory.Queue.{memory-PendingLaws, memory-ClockLaws}
use company_service.Sample.Memory.Up.{memory-Available}
use company_service.Sample.Table.{find}
use company_service.Sample.Texts.{unary, tally}
use company_service.Sample.Setting.{texts, counter, fresh, acme_input}
use company_service.Sample.Live.{created}
use company_service.Wiring.Invariant.{create, serve_call}
use company_service.Wiring.Spec.{EventAdded}
use company_service.Wiring.Announcing.{succeeded-IsPublished}
use company_service.Domain.{Company}
use company_service.Sample.PublisherRuns.{event_about, row_about, waiting}

-- A broker that counts the events, and takes them all.
abbrev willing : EventProducer ℕ
willing = record { publish = λ ctx event n. (ok tt, n + 1); close = λ ctx n. (ok tt, n) }

willing-TakesAll : TakesAll willing
willing-TakesAll = record { at = λ ctx event n. refl }

waiting-IsBacklog : IsBacklog memory (1 ∷ 2 ∷ []) waiting.committed
unfolding find
waiting-IsBacklog = record {
  at = λ i row there unpublished. elim (Bool-cases (nat_eq 2 i)) [
    | inl two ↦ inr (inl (ground arith))
    | inr not_two ↦ elim (Bool-cases (nat_eq 1 i)) [
      | inl one ↦ inl (ground arith)
      | inr not_one ↦ absurd (ground arith)
    ]
  ];
}

abbrev Decodes : OutboxRow → Type 0
Decodes row = (e : Event) × (unmarshal_event unary row.payload ≡ ok e)

first-Decodes : Decodes (row_about 1 7)
unfolding unmarshal_event read_uuid read_string read_time equal_fold fold_code tally
    company_service.Common.Text.rune_count
first-Decodes = (event_about 1 7, refl)

second-Decodes : Decodes (row_about 2 9)
unfolding unmarshal_event read_uuid read_string read_time equal_fold fold_code tally
    company_service.Common.Text.rune_count
second-Decodes = (event_about 2 9, refl)

waiting-IsDecodable : IsDecodable memory unary waiting.committed
unfolding find
waiting-IsDecodable = record {
  at = λ i row there. elim (Bool-cases (nat_eq 2 i)) [
    | inl two ↦ let is : row_about 2 9 ≡ row = ground (arith) in subst Decodes is second-Decodes
    | inr not_two ↦ elim (Bool-cases (nat_eq 1 i)) [
      | inl one ↦ let is : row_about 1 7 ≡ row = ground (arith) in subst Decodes is first-Decodes
      | inr not_one ↦ absurd (ground arith)
    ]
  ];
}

short :
    length {A = ℕ} (1 ∷ 2 ∷ [])
    ≤ 2 * (app_publisher memory unary texts willing (pos 1) (pos 1)).batch
unfolding app_publisher new_publisher
short = omega arith

one_batch : 1 ≤ 1 * (app_publisher memory unary texts willing (pos 1) (pos 1)).batch
unfolding app_publisher new_publisher
one_batch = omega arith

-- With batches of one event, the second batch publishes the second event.
run_drains_example :
    IsPublished memory 2
      (run texts
        (app_publisher memory unary texts willing (pos 1) (pos 1))
        request_ctx
        (tick ∷ done ∷ [])
        waiting).committed
unfolding find
run_drains_example =
    run_drains memory memory-PostgresLaws memory-PendingLaws memory-ClockLaws memory-Available unary
      texts willing willing-TakesAll (pos 1) (pos 1) (tick ∷ done ∷ []) waiting (1 ∷ 2 ∷ [])
      waiting-IsBacklog short waiting-IsDecodable 2 (row_about 2 9) refl (omega arith)

abbrev acme_created : World Tables ℕ
acme_created = serve_call memory counter unary texts (create acme_input) fresh

created_outbox : (row : OutboxRow) × (acme_created.committed.outbox ≡ row ∷ []) × Decodes row
unfolding serve_call unmarshal_event read_uuid read_string read_time equal_fold fold_code tally
    company_service.Json.Events.read_int company_service.Json.is_int64
    company_service.Json.Events.read_bool company_service.Service.create_company
    company_service.Domain.new_with_id company_service.Domain.validate
    company_service.Errors.new_validation_error company_service.Domain.validation_fields
    company_service.Domain.validate_type company_service.Domain.is_valid
    company_service.Domain.validate_amount_of_employees company_service.Domain.validate_description
    company_service.Common.Text.rune_count company_service.Common.Text.trim_space
    company_service.Common.Text.trim_right company_service.Common.Text.trim_left
    company_service.Common.Text.is_space company_service.Domain.validate_name
    company_service.Service.within_transaction company_service.Wiring.app_service
    company_service.Service.new_service_with_outbox company_service.Domain.utc
    company_service.Errors.as_pg_error company_service.Errors.error_is company_service.Errors.set
    company_service.Json.Events.marshal_event company_service.Postgres.Companies.company_repository
    company_service.Postgres.Companies.create company_service.Postgres.Companies.get_by_name
    company_service.Postgres.Companies.map_postgres_error
    company_service.Postgres.Companies.scan_company
    company_service.Postgres.Outbox.outbox_repository company_service.Postgres.Outbox.store
    company_service.Postgres.Tx.commit company_service.Postgres.Tx.finish
    company_service.Postgres.Tx.roll_back company_service.Postgres.Tx.transaction_manager
    company_service.Postgres.Tx.within_transaction company_service.Postgres.asked
    company_service.Postgres.on_executor company_service.Postgres.put_back
    company_service.Postgres.seen company_service.Service.create_in_tx
    company_service.Service.name_is_free company_service.Service.publish
    company_service.Sample.Memory.exec company_service.Sample.Memory.query_company
    company_service.Sample.Memory.run_insert company_service.Sample.Memory.run_insert_event
    company_service.Sample.Table.find company_service.Sample.Table.find_row
created_outbox = (_, refl, (_, refl))

acme_created-IsDecodable : IsDecodable memory unary acme_created.committed
unfolding find
acme_created-IsDecodable = record {
  at = λ i row there.
      let (first, is, decodes) = created_outbox in
      let is_row : first ≡ row = ground (arith, there, is) in subst Decodes is_row decodes;
}

no_rows-IsBacklog : IsBacklog memory [] fresh.committed
unfolding find
no_rows-IsBacklog = record { at = λ i row there unpublished. absurd (ground arith) }

succeeded-IsPublished_example :
    (c : Company) × (added : EventAdded memory unary event_company_created c fresh.committed
      acme_created.committed)
    × IsPublished memory added.event.id
        (run texts
          (app_publisher memory unary texts willing (pos 1) (pos 1))
          request_ctx
          (done ∷ [])
          acme_created).committed
succeeded-IsPublished_example =
    succeeded-IsPublished memory memory-PostgresLaws memory-PendingLaws memory-ClockLaws
      memory-Available counter unary texts willing willing-TakesAll (pos 1) (pos 1)
      (create acme_input) fresh [] (done ∷ []) (_, created) no_rows-IsBacklog one_batch
      acme_created-IsDecodable
