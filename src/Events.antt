-- ===== src/Events.antt =====
-- internal/infrastructure/events: the producers of events, into the log and into Kafka. The logger of
-- zerolog and the writer of kafka-go are parameters.
pub mod Choice
pub mod Kafka
pub mod Log
pub mod Payload
use Prim.Native.Char.{code}
use Prim.Native.String.{[], ◌∷◌, ◌++◌}
use company_service.Common.{
  ℕ, ◌+◌, String, Bool, true, false, ◌&&◌, ◌||◌, Option, none, some, List, ◌==◌, leb, nat_eq,
  if◌then◌else◌,
}
use company_service.Common.Int.{ℤ}
use company_service.Common.Text.{trim_space}
use company_service.Errors.{GoError, failure}
use company_service.Action.{Result, ok, err, Action, lift, pure, wrapping, ◌>>=◌, ◌>>◌}
use company_service.Domain.{Time, Company, CompanyType}
use company_service.Application.{Context, Event, EventProducer}
use company_service.Config.{EventsConfig}
use company_service.Json.{Json, bool, int, string, object, Members, end, member, Codec}
use company_service.Events.Payload.{to_kafka_event, marshal_kafka_event}

abbrev pub producer_log : String
producer_log = "log"

abbrev pub producer_kafka : String
producer_kafka = "kafka"

-- A field of a line of the log
pub data Field : Type 0 where
  str : String → String → Field
  time : String → Time → Field

-- `zerolog.Logger`: a line of level info with its fields and its message
pub record Logger (M : Type 0) : Type 0 where
  pub info : List Field → String → M → M

-- `kafka.Message`, as far as the code sets it
pub record Message : Type 0 where
  pub key : String
  pub value : Json
  pub time : Time

-- The interface kafkaWriter
pub record KafkaWriter (M : Type 0) : Type 0 where
  pub write_messages : Context → List Message → Action M Unit
  pub close : Action M Unit

-- `kafka.Writer`: the settings that the code gives
pub data Balancer : Type 0 where
  hash : Balancer
  other_balancer : String → Balancer

pub data RequiredAcks : Type 0 where
  require_none require_one require_all : RequiredAcks

pub record WriterSettings : Type 0 where
  pub addr : List String
  pub topic : String
  pub balancer : Balancer
  pub required_acks : RequiredAcks

pub record KafkaProducer (M : Type 0) : Type 0 where
  pub writer : KafkaWriter M
  pub topic : String
  pub logger : Logger M

-- The lower case of a letter, as far as the result is ASCII: the dotted capital i and the Kelvin sign
-- have ASCII letters.
unfoldable pub lower_code : ℕ → ℕ
lower_code c =
    if leb b'A' c && leb c b'Z'
    then c + 32
    else if nat_eq c 0x130
    then b'i'
    else if nat_eq c 0x212a
    then b'k'
    else c

-- `strings.ToLower(s) == t`, where `t` is ASCII
unfoldable pub lowers_to : String → String → Bool
lowers_to [] [] = true
lowers_to [] (d ∷ t) = false
lowers_to (c ∷ s) [] = false
lowers_to (c ∷ s) (d ∷ t) = nat_eq (lower_code (code c)) (code d) && lowers_to s t

-- `Info().…Msg(…)` as an action
abbrev pub log_line : {M : Type 0} → Logger M → List Field → String → Action M Unit
log_line logger fields text m = (ok tt, logger.info fields text m)

-- The fields that LogProducer.Publish adds for a company
abbrev pub company_fields : Option Company → List Field
company_fields none = List.[]
company_fields (some c) =
    List.◌∷◌ (str "company_name" c.name) (List.◌∷◌ (str "company_type" c.company_type) List.[])

module _ (codec : Codec) where
  module _ {M : Type 0} where
    -- KafkaProducer.Publish
    unfoldable pub kafka_publish : KafkaProducer M → Context → Event → Action M Unit
    kafka_publish p ctx event = do
      payload ←
          wrapping "marshal kafka event: "
            (lift (marshal_kafka_event codec (to_kafka_event codec event)))
      let message : Message = record {
        key = codec.uuid_string event.company_id;
        value = payload;
        time = event.occurred_at;
      }
      wrapping "publish kafka event: " (p.writer.write_messages ctx (List.◌∷◌ message List.[]))
      log_line p.logger
          (List.◌∷◌ (str "event_id" (codec.uuid_string event.id)) (
            List.◌∷◌ (str "event_type" event.event_type) (
              List.◌∷◌ (str "company_id" (codec.uuid_string event.company_id))
                (List.◌∷◌ (str "topic" p.topic) List.[]))))
          "company event published to kafka"

    -- KafkaProducer.Close
    abbrev pub kafka_close : KafkaProducer M → Context → Action M Unit
    kafka_close p ctx = wrapping "close kafka writer: " p.writer.close

    abbrev pub kafka_producer : KafkaProducer M → EventProducer M
    kafka_producer p = record { publish = kafka_publish p; close = kafka_close p }

    -- LogProducer.Publish
    unfoldable pub log_publish : Logger M → Context → Event → Action M Unit
    log_publish logger ctx event =
        log_line logger
          (List.◌∷◌ (str "event_id" (codec.uuid_string event.id)) (
            List.◌∷◌ (str "event_type" event.event_type) (
              List.◌∷◌ (time "occurred_at" event.occurred_at) (
                List.◌∷◌ (str "company_id" (codec.uuid_string event.company_id))
                  (company_fields event.company)))))
          "company event published"

    -- LogProducer.Close
    abbrev pub log_close : Logger M → Context → Action M Unit
    log_close logger ctx = log_line logger List.[] "event producer closed"

    -- NewLogProducer
    abbrev pub log_producer : Logger M → EventProducer M
    log_producer logger = record { publish = log_publish logger; close = log_close logger }

    -- NewKafkaProducer. `open_writer` is the `kafka.Writer` with the settings.
    unfoldable pub new_kafka_producer :
        (WriterSettings → KafkaWriter M) → List String → String → Logger M → KafkaProducer M
    new_kafka_producer open_writer brokers topic logger = record {
      writer =
          open_writer (record {
            addr = brokers;
            topic = topic;
            balancer = hash;
            required_acks = require_all;
          });
      topic = topic;
      logger = logger;
    }

    -- NewProducer. `quote` is the verb %q.
    unfoldable pub new_producer :
        (WriterSettings → KafkaWriter M)
        → (String → String)
        → EventsConfig
        → Logger M
        → Result (EventProducer M)
    new_producer open_writer quote cfg logger =
        let name = trim_space cfg.producer in
        if lowers_to name "" || lowers_to name producer_log
        then ok (log_producer logger)
        else if lowers_to name producer_kafka
        then ok (
            kafka_producer
              (new_kafka_producer open_writer cfg.kafka_brokers cfg.kafka_topic logger))
        else err (failure ("unsupported event producer " ++ quote cfg.producer))
