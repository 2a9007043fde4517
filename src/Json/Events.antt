-- ===== src/Json/Events.antt =====
-- The payload column: `json.Marshal` of an `appcompany.Event` and `json.Unmarshal` into one.
pub mod RoundTrip
use company_service.Common.{String, Bool, true, false, Option, none, some, ◌==◌, if◌then◌else◌}
use company_service.Common.Int.{ℤ, pos}
use company_service.Errors.{GoError, failure}
use company_service.Action.{Result, ok, err}
use company_service.Domain.{Uuid, nil_uuid, Time, in_utc, Company}
use company_service.Application.{Event}
use company_service.Json.{
  Json, null, bool, int, string, object, Members, end, member, equal_fold, is_int64, Codec,
}

infixl 10 ◌>>=◌
abbrev pub ◌>>=◌ : {A B : Type 0} → Result A → (A → Result B) → Result B
ok a >>= f = f a
err e >>= f = err e

-- The zero value of `time.Time`, January 1 of the year 1, UTC
abbrev pub zero_time : Time
zero_time = record { instant = 0; location = in_utc }

abbrev pub zero_company : Company
zero_company = record {
  id = nil_uuid;
  name = "";
  description = "";
  amount_of_employees = pos 0;
  registered = false;
  company_type = "";
  created_at = zero_time;
  updated_at = zero_time;
}

abbrev pub zero_event : Event
zero_event = record {
  id = nil_uuid;
  event_type = "";
  occurred_at = zero_time;
  company_id = nil_uuid;
  company = none;
}

abbrev pub type_error : GoError
type_error = failure "json: cannot unmarshal"

-- A JSON `null` leaves the old value.
unfoldable pub read_string : String → Json → Result String
read_string old null = ok old
read_string old (string s) = ok s
read_string old _ = err type_error

unfoldable pub read_bool : Bool → Json → Result Bool
read_bool old null = ok old
read_bool old (bool b) = ok b
read_bool old _ = err type_error

unfoldable pub read_int : ℤ → Json → Result ℤ
read_int old null = ok old
read_int old (int n) = if is_int64 n then ok n else err type_error
read_int old _ = err type_error

module _ (codec : Codec) where
  unfoldable pub read_uuid : Uuid → Json → Result Uuid
  read_uuid old null = ok old
  read_uuid old (string s) = codec.uuid_parse s
  read_uuid old _ = err type_error

  unfoldable pub read_time : Time → Json → Result Time
  read_time old null = ok old
  read_time old (string s) = codec.time_parse s
  read_time old _ = err type_error

  abbrev pub company_object : Company → String → String → Json
  company_object c created_at updated_at = object (
      member "ID" (string (codec.uuid_string c.id)) (
        member "Name" (string c.name) (
          member "Description" (string c.description) (
            member "AmountOfEmployees" (int c.amount_of_employees) (
              member "Registered" (bool c.registered) (
                member "Type" (string c.company_type) (
                  member "CreatedAt" (string created_at)
                    (member "UpdatedAt" (string updated_at) end))))))))

  pub company_json : Company → Result Json
  company_json c = do
    created_at ← codec.time_text c.created_at
    updated_at ← codec.time_text c.updated_at
    ok (company_object c created_at updated_at)

  pub company_pointer_json : Option Company → Result Json
  company_pointer_json none = ok null
  company_pointer_json (some c) = company_json c

  abbrev pub event_object : Event → String → Json → Json
  event_object e occurred_at company = object (
      member "ID" (string (codec.uuid_string e.id)) (
        member "Type" (string e.event_type) (
          member "OccurredAt" (string occurred_at) (
            member "CompanyID" (string (codec.uuid_string e.company_id))
              (member "Company" company end)))))

  -- `json.Marshal(event)`
  unfoldable pub marshal_event : Event → Result Json
  unfolding company_json company_pointer_json
  marshal_event e = do
    occurred_at ← codec.time_text e.occurred_at
    company ← company_pointer_json e.company
    ok (event_object e occurred_at company)

  read_company_field : String → Json → Company → Result Company
  read_company_field key v c =
      if equal_fold key "ID"
      then (do x ← read_uuid c.id v; ok (record c { id = x }))
      else if equal_fold key "Name"
      then (do x ← read_string c.name v; ok (record c { name = x }))
      else if equal_fold key "Description"
      then (do x ← read_string c.description v; ok (record c { description = x }))
      else if equal_fold key "AmountOfEmployees"
      then (do x ← read_int c.amount_of_employees v; ok (record c { amount_of_employees = x }))
      else if equal_fold key "Registered"
      then (do x ← read_bool c.registered v; ok (record c { registered = x }))
      else if equal_fold key "Type"
      then (do x ← read_string c.company_type v; ok (record c { company_type = x }))
      else if equal_fold key "CreatedAt"
      then (do x ← read_time c.created_at v; ok (record c { created_at = x }))
      else if equal_fold key "UpdatedAt"
      then (do x ← read_time c.updated_at v; ok (record c { updated_at = x }))
      else ok c

  read_company : Members → Company → Result Company
  read_company end c = ok c
  read_company (member key v ms) c = read_company_field key v c >>= read_company ms

  -- A pointer is set to a new zero value first, unless it points at one already.
  read_company_pointer : Option Company → Json → Result (Option Company)
  read_company_pointer old null = ok none
  read_company_pointer none (object ms) = do c ← read_company ms zero_company; ok (some c)
  read_company_pointer (some c) (object ms) = do d ← read_company ms c; ok (some d)
  read_company_pointer old _ = err type_error

  read_event_field : String → Json → Event → Result Event
  read_event_field key v e =
      if equal_fold key "ID"
      then (do x ← read_uuid e.id v; ok (record e { id = x }))
      else if equal_fold key "Type"
      then (do x ← read_string e.event_type v; ok (record e { event_type = x }))
      else if equal_fold key "OccurredAt"
      then (do x ← read_time e.occurred_at v; ok (record e { occurred_at = x }))
      else if equal_fold key "CompanyID"
      then (do x ← read_uuid e.company_id v; ok (record e { company_id = x }))
      else if equal_fold key "Company"
      then (do x ← read_company_pointer e.company v; ok (record e { company = x }))
      else ok e

  read_event : Members → Event → Result Event
  read_event end e = ok e
  read_event (member key v ms) e = read_event_field key v e >>= read_event ms

  -- `json.Unmarshal(payload, &event)`, where `event` has its zero value
  unfoldable pub unmarshal_event : Json → Result Event
  unfolding read_company_field read_company read_company_pointer read_event_field read_event
  unmarshal_event null = ok zero_event
  unmarshal_event (object ms) = read_event ms zero_event
  unmarshal_event _ = err type_error
