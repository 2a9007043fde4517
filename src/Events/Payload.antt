-- ===== src/Events/Payload.antt =====
-- internal/infrastructure/events/kafka_producer.go: the payload of a message.
use company_service.Common.{String, Bool, Option, none, some}
use company_service.Common.Int.{ℤ}
use company_service.Action.{Result, ok}
use company_service.Domain.{Time, Company, CompanyType}
use company_service.Application.{Event}
use company_service.Json.{Json, bool, int, string, object, Members, end, member, Codec}
use company_service.Json.Events.{◌>>=◌ as ◌then◌}

pub record EventCompany : Type 0 where
  pub id : String
  pub name : String
  pub description : String
  pub amount_of_employees : ℤ
  pub registered : Bool
  pub company_type : CompanyType
  pub created_at : Time
  pub updated_at : Time

pub record KafkaEvent : Type 0 where
  pub id : String
  pub event_type : String
  pub occurred_at : Time
  pub company_id : String
  pub company : Option EventCompany

module _ (codec : Codec) where
  abbrev pub to_event_company : Company → EventCompany
  to_event_company c = record {
    id = codec.uuid_string c.id;
    name = c.name;
    description = c.description;
    amount_of_employees = c.amount_of_employees;
    registered = c.registered;
    company_type = c.company_type;
    created_at = c.created_at;
    updated_at = c.updated_at;
  }

  abbrev pub to_kafka_company : Option Company → Option EventCompany
  to_kafka_company none = none
  to_kafka_company (some c) = some (to_event_company c)

  -- toKafkaEvent
  unfoldable pub to_kafka_event : Event → KafkaEvent
  to_kafka_event event = record {
    id = codec.uuid_string event.id;
    event_type = event.event_type;
    occurred_at = event.occurred_at;
    company_id = codec.uuid_string event.company_id;
    company = to_kafka_company event.company;
  }

  abbrev pub company_members : EventCompany → String → String → Json
  company_members c created_at updated_at = object (
      member "id" (string c.id) (
        member "name" (string c.name) (
          member "description" (string c.description) (
            member "amount_of_employees" (int c.amount_of_employees) (
              member "registered" (bool c.registered) (
                member "type" (string c.company_type) (
                  member "created_at" (string created_at)
                    (member "updated_at" (string updated_at) end))))))))

  -- The member of a company, left out if there is none
  unfoldable pub company_member : Option EventCompany → Result Members
  company_member none = ok end
  company_member (some c) = codec.time_text c.created_at then λ created_at.
      codec.time_text c.updated_at then λ updated_at.
      ok (member "company" (company_members c created_at updated_at) end)

  abbrev pub event_members : KafkaEvent → String → Members → Json
  event_members e occurred_at company = object (
      member "id" (string e.id) (
        member "type" (string e.event_type) (
          member "occurred_at" (string occurred_at)
            (member "company_id" (string e.company_id) company))))

  -- `json.Marshal` of a kafkaEvent
  unfoldable pub marshal_kafka_event : KafkaEvent → Result Json
  unfolding company_member
  marshal_kafka_event e = codec.time_text e.occurred_at then λ occurred_at.
      company_member e.company then λ company. ok (event_members e occurred_at company)
