-- ===== src/Sample/EventRuns.antt =====
-- The theorems on the producers of events at concrete inputs.
use company_service.Common.{ℕ, ◌+◌, ◌≡◌, refl, arith, some, [], ◌∷◌}
use company_service.Common.Int.{pos}
use company_service.Action.{ok}
use company_service.Domain.{in_utc, utc}
use company_service.Application.{Event, event_company_created}
use company_service.Json.{is_int64}
use company_service.Json.Events.RoundTrip.{IsGoEvent}
use company_service.Publisher.{process_batch}
use company_service.Wiring.{request_ctx}
use company_service.Wiring.Atomic.{Commits}
use company_service.Wiring.Publishing.{app_publisher}
use company_service.Events.{Message, kafka_publish, Logger, log_producer}
use company_service.Events.Payload.{to_kafka_event, marshal_kafka_event}
use company_service.Events.Kafka.{recorder, kafka_publish-injective}
use company_service.Events.Log.{Logged, log_producer-process_batch}
use company_service.Sample.Memory.{memory}
use company_service.Sample.Memory.Meets.{memory-PostgresLaws}
use company_service.Sample.Memory.Queue.{memory-PendingLaws}
use company_service.Sample.Texts.{unary, unary-CodecLaws}
use company_service.Sample.Setting.{texts, acme}
use company_service.Sample.PublisherRuns.{waiting}

-- A logger that counts the lines.
abbrev counting : Logger ℕ
counting = record { info = λ fields text n. n + 1 }

abbrev acme_made : Event
acme_made = record {
  id = 1;
  event_type = event_company_created;
  occurred_at = record { instant = 2; location = in_utc };
  company_id = 7;
  company =
      some (record acme { created_at = utc acme.created_at; updated_at = utc acme.updated_at });
}

kafka_message :
    (message : Message) × (kafka_publish unary (recorder "company.events") request_ctx acme_made []
      ≡ (ok tt, message ∷ []))
unfolding marshal_kafka_event to_kafka_event kafka_publish
kafka_message = (_, refl)

acme_made-IsGoEvent : IsGoEvent acme_made
unfolding is_int64 utc
acme_made-IsGoEvent = record {
  id = omega arith;
  company_id = omega arith;
  occurred_at = refl;
  company = record {
    id = omega arith;
    created_at = refl;
    updated_at = refl;
    amount = ground arith;
  };
}

kafka_publish-injective_example : acme_made ≡ acme_made
kafka_publish-injective_example =
    kafka_publish-injective unary unary-CodecLaws "company.events" request_ctx acme_made acme_made
      kafka_message.0 acme_made-IsGoEvent acme_made-IsGoEvent kafka_message.1 kafka_message.1

log_producer-process_batch_example :
    Commits memory {M = ℕ} {A = Unit}
      (λ _ db db'. Logged memory unary 10 db db')
      waiting
      (process_batch texts
        (app_publisher memory unary texts (log_producer unary counting) (pos 0) (pos 10))
        request_ctx
        waiting)
unfolding app_publisher company_service.Publisher.new_publisher
log_producer-process_batch_example =
    log_producer-process_batch memory memory-PostgresLaws memory-PendingLaws unary texts counting
      (pos 0) (pos 10) waiting
