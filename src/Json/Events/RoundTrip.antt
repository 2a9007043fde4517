-- ===== src/Json/Events/RoundTrip.antt =====
-- An outbox event comes back from its payload.
use company_service.Common.{suc, ◌^◌, ◌≤◌, ◌≡◌, Option, none, some, true, arith}
use company_service.Action.{Result, ok}
use company_service.Action.Inversion.{eq-ok_of_is_ok}
use company_service.Domain.{Uuid, in_utc, Company}
use company_service.Application.{Event}
use company_service.Json.{Json, Codec, CodecLaws, equal_fold, fold_code, is_int64}
use company_service.Json.Events.{
  company_object, event_object, company_json, company_pointer_json, marshal_event, unmarshal_event,
  read_company_pointer, read_company, read_company_field, read_event, read_event_field, read_string,
  read_bool, read_int, read_uuid, read_time,
}

abbrev pub IsUuid : Uuid → Type 0
IsUuid id = suc id ≤ 2 ^ 128

-- The range of the Go values: sixteen bytes, UTC times, an `int` of 64 bits.
pub record IsGoCompany (c : Company) : Type 0 where
  pub id : IsUuid c.id
  pub created_at : c.created_at.location ≡ in_utc
  pub updated_at : c.updated_at.location ≡ in_utc
  pub amount : is_int64 c.amount_of_employees ≡ true

abbrev pub IsGoPointer : Option Company → Type 0
IsGoPointer none = Unit
IsGoPointer (some c) = IsGoCompany c

pub record IsGoEvent (e : Event) : Type 0 where
  pub id : IsUuid e.id
  pub company_id : IsUuid e.company_id
  pub occurred_at : e.occurred_at.location ≡ in_utc
  pub company : IsGoPointer e.company

ok_injective : (i j : Json) → ◌≡◌ {A = Result Json} (ok i) (ok j) → i ≡ j
ok_injective i j h = cc

module _ (codec : Codec) (laws : CodecLaws codec) where
  company_pointer_round_trip :
      (o : Option Company) (j : Json)
      → IsGoPointer o
      → company_pointer_json codec o ≡ ok j
      → read_company_pointer codec none j ≡ ok o
  unfolding company_pointer_json company_json read_company_pointer read_company read_company_field
      read_uuid read_string read_int read_bool read_time equal_fold fold_code
  company_pointer_round_trip none j v h = ground arith
  company_pointer_round_trip (some c) j v h =
      let (t, is_t) = eq-ok_of_is_ok (codec.time_text c.created_at) (ground arith) in
      let (u, is_u) = eq-ok_of_is_ok (codec.time_text c.updated_at) (ground arith) in
      let same : company_object codec c t u ≡ j = ok_injective _ _ (rw (is_t, is_u) at h) in
      rw (← same) (
        rw (
          laws.uuid_parse-uuid_string c.id v.id,
          laws.time_parse-time_text c.created_at t v.created_at is_t,
          laws.time_parse-time_text c.updated_at u v.updated_at is_u,
          v.amount,
        ))

  -- The payload of an event whose values are in the range of their Go types is read back, by
  -- json.Unmarshal into a zero event, as the same event.
  pub unmarshal_event-marshal_event :
      (e : Event) (j : Json)
      → IsGoEvent e
      → marshal_event codec e ≡ ok j
      → unmarshal_event codec j ≡ ok e
  unfolding marshal_event unmarshal_event read_event read_event_field read_uuid read_string
      read_time equal_fold fold_code
  unmarshal_event-marshal_event e j v h =
      let (t, is_t) = eq-ok_of_is_ok (codec.time_text e.occurred_at) (ground arith) in
      let (k, is_k) = eq-ok_of_is_ok (company_pointer_json codec e.company) (ground arith) in
      let same : event_object codec e t k ≡ j = ok_injective _ _ (rw (is_t, is_k) at h) in
      rw (← same) (
        rw (
          laws.uuid_parse-uuid_string e.id v.id,
          laws.time_parse-time_text e.occurred_at t v.occurred_at is_t,
          laws.uuid_parse-uuid_string e.company_id v.company_id,
          company_pointer_round_trip e.company k v.company is_k,
        ))
