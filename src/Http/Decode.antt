-- ===== src/Http/Decode.antt =====
-- decodeJSON of handlers.go: one JSON object in the body, with no unknown field.
use company_service.Common.{String, false, Option, none, some, if◌then◌else◌}
use company_service.Common.Int.{pos}
use company_service.Errors.{GoError, failure}
use company_service.Action.{Result, ok, err}
use company_service.Json.{Json, null, object, Members, end, member, equal_fold}
use company_service.Json.Events.{◌>>=◌, read_string, read_bool, read_int, type_error}
use company_service.Http.{CreateCompanyRequest, PatchCompanyRequest}

-- What `decoder.Decode` finds in the body, one JSON value after the other, up to the end or to the
-- first text that is no JSON.
pub data Stream : Type 0 where
  eof : Stream
  malformed : Stream
  value : Json → Stream → Stream

-- A pointer field: `null` sets it to nil.
unfoldable pub read_pointer : {A : Type 0} → (Json → Result A) → Json → Result (Option A)
read_pointer read null = ok none
read_pointer read v = do a ← read v; ok (some a)

abbrev unknown_field : GoError
unknown_field = failure "json: unknown field"

abbrev pub empty_create_request : CreateCompanyRequest
empty_create_request = record {
  id = none;
  name = none;
  description = none;
  amount_of_employees = none;
  registered = none;
  company_type = none;
}

abbrev pub empty_patch_request : PatchCompanyRequest
empty_patch_request = record {
  name = none;
  description = none;
  amount_of_employees = none;
  registered = none;
  company_type = none;
}

-- One member of the object; an unknown field is an error.
create_field : String → Json → CreateCompanyRequest → Result CreateCompanyRequest
create_field key v r =
    if equal_fold key "id"
    then (do x ← read_pointer (read_string "") v; ok (record r { id = x }))
    else if equal_fold key "name"
    then (do x ← read_pointer (read_string "") v; ok (record r { name = x }))
    else if equal_fold key "description"
    then (do x ← read_pointer (read_string "") v; ok (record r { description = x }))
    else if equal_fold key "amount_of_employees"
    then (do x ← read_pointer (read_int (pos 0)) v; ok (record r { amount_of_employees = x }))
    else if equal_fold key "registered"
    then (do x ← read_pointer (read_bool false) v; ok (record r { registered = x }))
    else if equal_fold key "type"
    then (do x ← read_pointer (read_string "") v; ok (record r { company_type = x }))
    else err unknown_field

patch_field : String → Json → PatchCompanyRequest → Result PatchCompanyRequest
patch_field key v r =
    if equal_fold key "name"
    then (do x ← read_pointer (read_string "") v; ok (record r { name = x }))
    else if equal_fold key "description"
    then (do x ← read_pointer (read_string "") v; ok (record r { description = x }))
    else if equal_fold key "amount_of_employees"
    then (do x ← read_pointer (read_int (pos 0)) v; ok (record r { amount_of_employees = x }))
    else if equal_fold key "registered"
    then (do x ← read_pointer (read_bool false) v; ok (record r { registered = x }))
    else if equal_fold key "type"
    then (do x ← read_pointer (read_string "") v; ok (record r { company_type = x }))
    else err unknown_field

module _ {R : Type 0} (field : String → Json → R → Result R) where
  read_members : Members → R → Result R
  read_members end r = ok r
  read_members (member key v ms) r = field key v r >>= read_members ms

  -- Into a struct, `null` writes nothing, and any other value than an object is an error.
  read_struct : R → Json → Result R
  read_struct old null = ok old
  read_struct old (object ms) = read_members ms old
  read_struct old _ = err type_error

  -- After the first value the body must end.
  single : Stream → R → Result R
  single eof r = ok r
  single _ r = err (failure "body must contain a single JSON object")

  unfoldable pub decode_json : R → Option Stream → Result R
  unfolding read_members read_struct single
  decode_json old none = err (failure "missing body")
  decode_json old (some eof) = err (failure "EOF")
  decode_json old (some malformed) = err (failure "invalid character")
  decode_json old (some (value v rest)) = read_struct old v >>= single rest

unfoldable pub decode_create : Option Stream → Result CreateCompanyRequest
unfolding create_field read_pointer
decode_create = decode_json create_field empty_create_request

unfoldable pub decode_patch : Option Stream → Result PatchCompanyRequest
unfolding patch_field read_pointer
decode_patch = decode_json patch_field empty_patch_request
