-- ===== src/Events/Kafka.antt =====
-- What a message for Kafka carries.
use company_service.Common.{◌≡◌, ◌∙◌, sym, ap, refl, String, Option, none, some, arith}
use company_service.Action.{Result, ok, err}
use company_service.Action.Inversion.{eq-ok_of_is_ok}
use company_service.Domain.{Uuid, Time, Company, in_utc}
use company_service.Application.{Context, Event}
use company_service.Json.{Json, Members, Codec, CodecLaws}
use company_service.Json.Events.RoundTrip.{IsUuid, IsGoCompany, IsGoPointer, IsGoEvent}
use company_service.Json.Events.{◌>>=◌ as ◌then◌}
use company_service.Common.{List, [], ◌∷◌, ◌++◌, inl, inr}
use company_service.Action.Inversion.{Result-cases}
use company_service.Events.{KafkaProducer, Message, kafka_publish}
use company_service.Events.Payload.{
  KafkaEvent, to_event_company, to_kafka_event, to_kafka_company, company_member, company_members,
  event_members, marshal_kafka_event,
}

ok_injective : {A : Type 0} (a b : A) → ◌≡◌ {A = Result A} (ok a) (ok b) → a ≡ b
ok_injective a b h = cc

same_event :
    (d e : Event)
    → d.id ≡ e.id
    → d.event_type ≡ e.event_type
    → d.occurred_at ≡ e.occurred_at
    → d.company_id ≡ e.company_id
    → d.company ≡ e.company
    → d ≡ e
same_event d e id kind at company_id company = cc

then-eq-ok :
    {A B : Type 0} (r : Result A) (f : A → Result B) {b : B}
    → (r then f) ≡ ok b
    → (a : A) × (r ≡ ok a) × (f a ≡ ok b)
then-eq-ok (ok a) f h = (a, refl, h)
then-eq-ok (err e) f h = cc

marshal_kafka_event-eq-ok :
    (codec : Codec) (e : KafkaEvent) (j : Json)
    → marshal_kafka_event codec e ≡ ok j
    → (t : String) × (ms : Members) × (codec.time_text e.occurred_at ≡ ok t)
      × (company_member codec e.company ≡ ok ms)
      × (event_members codec e t ms ≡ j)
unfolding marshal_kafka_event
marshal_kafka_event-eq-ok codec e j h =
    let (t, is_t, h1) = then-eq-ok (codec.time_text e.occurred_at) _ h in
    let (ms, is_ms, h2) = then-eq-ok (company_member codec e.company) _ h1 in
    (t, ms, is_t, is_ms, ok_injective _ _ h2)

module _ (codec : Codec) (laws : CodecLaws codec) where
  uuid_string_injective :
      (i k : Uuid) → IsUuid i → IsUuid k → codec.uuid_string i ≡ codec.uuid_string k → i ≡ k
  uuid_string_injective i k v u h = ok_injective i k (
      sym (laws.uuid_parse-uuid_string i v)
      ∙ ap codec.uuid_parse h
      ∙ laws.uuid_parse-uuid_string k u)

  time_text_injective :
      (t u : Time) (s r : String)
      → t.location ≡ in_utc
      → u.location ≡ in_utc
      → codec.time_text t ≡ ok s
      → codec.time_text u ≡ ok r
      → s ≡ r
      → t ≡ u
  time_text_injective t u s r at_t at_u h k same = ok_injective t u (
      sym (laws.time_parse-time_text t s at_t h)
      ∙ ap codec.time_parse same
      ∙ laws.time_parse-time_text u r at_u k)

  company_members_injective :
      (c d : Company) (t u t' u' : String)
      → IsGoCompany c
      → IsGoCompany d
      → codec.time_text c.created_at ≡ ok t
      → codec.time_text c.updated_at ≡ ok u
      → codec.time_text d.created_at ≡ ok t'
      → codec.time_text d.updated_at ≡ ok u'
      → company_members codec (to_event_company codec c) t u
        ≡ company_members codec (to_event_company codec d) t' u'
      → c ≡ d
  company_members_injective c d t u t' u' v w ct cu dt du h =
      let id = uuid_string_injective c.id d.id v.id w.id cc in
      let created_at =
        time_text_injective c.created_at d.created_at t t' v.created_at w.created_at ct dt cc in
      let updated_at =
        time_text_injective c.updated_at d.updated_at u u' v.updated_at w.updated_at cu du cc in
      cc

  company_member_injective :
      (o p : Option Company) (ms ms' : Members)
      → IsGoPointer o
      → IsGoPointer p
      → company_member codec (to_kafka_company codec o) ≡ ok ms
      → company_member codec (to_kafka_company codec p) ≡ ok ms'
      → ms ≡ ms'
      → o ≡ p
  unfolding company_member
  company_member_injective none none ms ms' v w h k same = refl
  company_member_injective none (some d) ms ms' v w h k same = ground arith
  company_member_injective (some c) none ms ms' v w h k same = ground arith
  company_member_injective (some c) (some d) ms ms' v w h k same =
      let (t, ct) = eq-ok_of_is_ok (codec.time_text c.created_at) (ground arith) in
      let (u, cu) = eq-ok_of_is_ok (codec.time_text c.updated_at) (ground arith) in
      let (t', dt) = eq-ok_of_is_ok (codec.time_text d.created_at) (ground arith) in
      let (u', du) = eq-ok_of_is_ok (codec.time_text d.updated_at) (ground arith) in
      let is = ok_injective _ _ (rw (ct, cu) at h) in
      let is' = ok_injective _ _ (rw (dt, du) at k) in
      ap some (company_members_injective c d t u t' u' v w ct cu dt du (ground arith))

  event_members_injective :
      (x y : KafkaEvent) (t u : String) (ms ms' : Members)
      → event_members codec x t ms ≡ event_members codec y u ms'
      → (x.id ≡ y.id)
        × (x.event_type ≡ y.event_type)
        × (t ≡ u)
        × (x.company_id ≡ y.company_id)
        × (ms ≡ ms')
  event_members_injective x y t u ms ms' h = (cc, cc, cc, cc, cc)

  -- The payload loses nothing.
  pub to_kafka_event-injective :
      (d e : Event) (j : Json)
      → IsGoEvent d
      → IsGoEvent e
      → marshal_kafka_event codec (to_kafka_event codec d) ≡ ok j
      → marshal_kafka_event codec (to_kafka_event codec e) ≡ ok j
      → d ≡ e
  unfolding marshal_kafka_event to_kafka_event
  to_kafka_event-injective d e j v w h k =
      let (t, ms, dt, dm, is) = marshal_kafka_event-eq-ok codec (to_kafka_event codec d) j h in
      let (u, ms', eu, em, is') = marshal_kafka_event-eq-ok codec (to_kafka_event codec e) j k in
      let (id, kind, at, company_id, members) =
        event_members_injective (to_kafka_event codec d) (to_kafka_event codec e) t u ms ms'
          (is ∙ sym is') in
      same_event d e (uuid_string_injective d.id e.id v.id w.id id) kind
        (time_text_injective d.occurred_at e.occurred_at t u v.occurred_at w.occurred_at dt eu at)
        (uuid_string_injective d.company_id e.company_id v.company_id w.company_id company_id)
        (company_member_injective d.company e.company ms ms' v.company w.company dm em members)

-- A writer that keeps what it is given, and a logger that keeps nothing.
abbrev pub recorder : String → KafkaProducer (List Message)
recorder topic = record {
  writer = record {
    write_messages = λ ctx messages sent. (ok tt, sent ++ messages);
    close = λ sent. (ok tt, sent);
  };
  topic = topic;
  logger = record { info = λ fields text sent. sent };
}

-- The value of a message that Publish has written is the payload of the event.
message_value :
    (codec : Codec) (topic : String) (ctx : Context) (e : Event) (message : Message)
    → kafka_publish codec (recorder topic) ctx e [] ≡ (ok tt, message ∷ [])
    → marshal_kafka_event codec (to_kafka_event codec e) ≡ ok message.value
unfolding kafka_publish
message_value codec topic ctx e message h =
    elim (Result-cases (marshal_kafka_event codec (to_kafka_event codec e))) [
      | inr (error, failed) ↦ ground arith
      | inl (payload, made) ↦ ground arith
    ]

-- Publish writes different messages for different events: if it writes one message for each of two
-- events whose values are in the range of their Go types, and the two messages are the same, the
-- events are.
pub kafka_publish-injective :
    (codec : Codec)
    → CodecLaws codec
    → (topic : String) (ctx : Context) (d e : Event) (message : Message) → IsGoEvent d
    → IsGoEvent e
    → kafka_publish codec (recorder topic) ctx d [] ≡ (ok tt, message ∷ [])
    → kafka_publish codec (recorder topic) ctx e [] ≡ (ok tt, message ∷ [])
    → d ≡ e
kafka_publish-injective codec laws topic ctx d e message v w h k =
    to_kafka_event-injective codec laws d e message.value v w
      (message_value codec topic ctx d message h) (message_value codec topic ctx e message k)
