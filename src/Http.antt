-- ===== src/Http.antt =====
-- internal/interfaces/http: response.go and dto.go. The children have the handlers, the
-- authentication middleware and the router.
pub mod Decode
pub mod Handlers
pub mod Auth
pub mod Router
pub mod Status
use company_service.Common.{
  ℕ, ◌≡◌, String, Bool, true, false, not, ◌||◌, Option, none, some, List, [], ◌∷◌, ◌==◌, is_nil,
  is_empty, if◌then◌else◌,
}
use company_service.Common.Int.{ℤ}
use company_service.Errors.{
  Fields, set, GoError, validation_error, new_validation_error, error_is, as_validation_error,
  is_not_found, is_duplicate_id, is_duplicate_name, is_empty_patch,
}
use company_service.Action.{Result, ok, err}
use company_service.Domain.{Uuid, Time, CompanyType, Company}
use company_service.Application.{CreateInput, PatchInput}
use company_service.Json.{Json, bool, int, string, object, Members, end, member, Codec}
use company_service.Json.Events.{◌>>=◌}

pub record CreateCompanyRequest : Type 0 where
  pub id : Option String
  pub name : Option String
  pub description : Option String
  pub amount_of_employees : Option ℤ
  pub registered : Option Bool
  pub company_type : Option String

pub record PatchCompanyRequest : Type 0 where
  pub name : Option String
  pub description : Option String
  pub amount_of_employees : Option ℤ
  pub registered : Option Bool
  pub company_type : Option String

-- The map `fields` of createCompanyRequest.toInput
unfoldable pub missing_fields : CreateCompanyRequest → Fields
missing_fields r =
    let fields = if is_nil r.id then set "id" "is required" [] else [] in
    let fields = if is_nil r.name then set "name" "is required" fields else fields in
    let fields =
      if is_nil r.amount_of_employees
      then set "amount_of_employees" "is required" fields
      else fields in
    let fields = if is_nil r.registered then set "registered" "is required" fields else fields in
    if is_nil r.company_type then set "type" "is required" fields else fields

-- `*p`, for a pointer that is not nil
abbrev deref {ℓ} : {A : Type ℓ} → Option A → A → A
deref none zero = zero
deref (some a) zero = a

-- createCompanyRequest.toInput
unfoldable pub create_to_input : Codec → CreateCompanyRequest → Result CreateInput
unfolding missing_fields
create_to_input codec r = elim (new_validation_error (missing_fields r)) [
  | some e ↦ err e
  | none ↦ elim (codec.uuid_parse (deref r.id "")) [
    | err e ↦ err (validation_error (("id", "must be a valid uuid") ∷ []))
    | ok id ↦ ok (record {
      id = id;
      name = deref r.name "";
      description = deref r.description "";
      amount_of_employees = deref r.amount_of_employees (ℤ.pos 0);
      registered = deref r.registered false;
      company_type = deref r.company_type "";
    })
  ]
]

-- patchCompanyRequest.toInput
unfoldable pub patch_to_input : PatchCompanyRequest → Result PatchInput
patch_to_input r = ok (record {
  name = r.name;
  description = r.description;
  amount_of_employees = r.amount_of_employees;
  registered = r.registered;
  company_type = r.company_type;
})

pub record CompanyResponse : Type 0 where
  pub id : String
  pub name : String
  pub description : String
  pub amount_of_employees : ℤ
  pub registered : Bool
  pub company_type : String
  pub created_at : Time
  pub updated_at : Time

unfoldable pub to_company_response : Codec → Company → CompanyResponse
to_company_response codec c = record {
  id = codec.uuid_string c.id;
  name = c.name;
  description = c.description;
  amount_of_employees = c.amount_of_employees;
  registered = c.registered;
  company_type = c.company_type;
  created_at = c.created_at;
  updated_at = c.updated_at;
}

-- The values that are written as a body.
pub data Payload : Type 0 where
  -- errorResponse{Error: message, Fields: fields}
  error_response : (message : String) → Fields → Payload
  company_response : CompanyResponse → Payload
  -- map[string]string{"status": "ok"}
  status_ok : Payload

-- What the client gets; `none` is no body, and then no Content-Type is set.
pub record Response : Type 0 where
  pub status : ℕ
  pub payload : Option Payload

unfoldable pub write_json : ℕ → Payload → Response
write_json status value = record { status = status; payload = some value }

fields_members : Fields → Members
fields_members [] = end
fields_members ((field, message) ∷ fields) = member field (string message) (fields_members fields)

-- The JSON of a body. The keys of a Go map are written in sorted order, which is not modelled.
unfoldable pub payload_json : Codec → Payload → Result Json
unfolding fields_members
payload_json codec (error_response message fields) = ok (
    object (
      member "error" (string message)
        (if is_empty fields then end else member "fields" (object (fields_members fields)) end)))
payload_json codec (company_response c) = do
  created_at ← codec.time_text c.created_at
  updated_at ← codec.time_text c.updated_at
  ok (
      object (
        member "id" (string c.id) (
          member "name" (string c.name) (
            member "description" (string c.description) (
              member "amount_of_employees" (int c.amount_of_employees) (
                member "registered" (bool c.registered) (
                  member "type" (string c.company_type) (
                    member "created_at" (string created_at)
                      (member "updated_at" (string updated_at) end)))))))))
payload_json codec status_ok = ok (object (member "status" (string "ok") end))

-- writeAppError
unfoldable pub write_app_error : GoError → Response
unfolding write_json
write_app_error e = elim (as_validation_error e) [
  | some fields ↦ write_json 400 (error_response "validation failed" fields)
  | none ↦
      if error_is e is_empty_patch
      then write_json 400 (error_response "empty patch body" [])
      else if error_is e is_not_found
      then write_json 404 (error_response "company not found" [])
      else if error_is e is_duplicate_id
      then write_json 409 (error_response "company id already exists" [])
      else if error_is e is_duplicate_name
      then write_json 409 (error_response "company name already exists" [])
      else write_json 500 (error_response "internal server error" [])
]

unfoldable pub app_error_status : GoError → ℕ
app_error_status e =
    if not (is_nil (as_validation_error e)) || error_is e is_empty_patch
    then 400
    else if error_is e is_not_found
    then 404
    else if error_is e is_duplicate_id || error_is e is_duplicate_name
    then 409
    else 500
