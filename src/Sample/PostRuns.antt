-- ===== src/Sample/PostRuns.antt =====
-- The theorems on POST /companies and on the statuses of errors at concrete inputs.
use company_service.Common.{◌≡◌, ◌≢◌, refl, true, none, some, arith, eq_iff}
use company_service.Common.Int.{pos}
use company_service.Common.Text.{rune_count, is_space, trim_left, trim_right, trim_space}
use company_service.Errors.{
  new_validation_error, duplicate_id, error_is, as_validation_error, is_not_found, is_duplicate_id,
  is_duplicate_name, is_empty_patch,
}
use company_service.Domain.Making.{IsInput}
use company_service.Json.{Json, is_int64, equal_fold, fold_code, object, Members, member, end}
use company_service.Postgres.Laws.{NameFree}
use company_service.Wiring.Success.{company_of}
use company_service.Wiring.Responses.{Asks}
use company_service.Wiring.Responses.Verdict.{answered}
use company_service.Wiring.Responses.Creating.{CanCreate, can_create, handle_create-HasVerdict}
use company_service.Http.{
  CreateCompanyRequest, create_to_input, company_response, to_company_response, write_json,
}
use company_service.Http.Status.{write_app_error-table}
use company_service.Http.Decode.{value, eof, decode_create, decode_json}
use company_service.Json.Events.{read_string, read_int, read_bool}
use company_service.Http.Handlers.{handle_create}
use company_service.Sample.Memory.Up.{memory-Available}
use company_service.Sample.Texts.{unary, tally, unary-PlainCodec}
use company_service.Sample.Table.{find}
use company_service.Sample.Memory.{memory}
use company_service.Sample.Memory.Meets.{memory-PostgresLaws}
use company_service.Domain.{utc}
use company_service.Wiring.{request_ctx}
use company_service.Http.{write_app_error}
use company_service.Http.Handlers.{Request}
use company_service.Sample.Setting.{counter, texts, env, service, no_tables, fresh, acme_input}

-- POST /companies with the input.
abbrev acme_members : Members
acme_members = member "id" (Json.string "xxxxxxx") (
    member "name" (Json.string " Acme ") (
      member "description" (Json.string "Anvils") (
        member "amount_of_employees" (Json.int (pos 3))
          (member "registered" (Json.bool true) (member "type" (Json.string "NonProfit") end)))))

abbrev post_acme : Request
post_acme = record {
  id_param = "";
  authorization = "Bearer abc";
  body = some (value (object acme_members) eof);
  ctx = request_ctx;
}

abbrev acme_request : CreateCompanyRequest
acme_request = record {
  id = some "xxxxxxx";
  name = some " Acme ";
  description = some "Anvils";
  amount_of_employees = some (pos 3);
  registered = some true;
  company_type = some "NonProfit";
}

post_acme-Asks :
    Asks memory memory-Available memory-PostgresLaws counter unary unary-PlainCodec texts post_acme
      acme_input
unfolding decode_create decode_json read_string read_int read_bool equal_fold fold_code
    create_to_input new_validation_error rune_count is_int64
post_acme-Asks = record { req = acme_request; decoded = refl; converted = refl; at_request = refl }

acme_input-IsInput : IsInput 7 " Acme " "Anvils" (pos 3) "NonProfit"
unfolding trim_space trim_left trim_right is_space rune_count
acme_input-IsInput = record {
  id_given = omega arith;
  name_given = ground (arith, eq_iff "Acme" "");
  name_short = omega arith;
  description_short = omega arith;
  amount_nonneg = omega arith;
  type_known = ground arith;
}

no_name_taken : NameFree memory no_tables (trim_space " Acme ")
unfolding find
no_name_taken = record { at = λ i c there. ground arith }

acme_input-CanCreate :
    CanCreate memory memory-Available memory-PostgresLaws counter unary unary-PlainCodec texts
      acme_input fresh
unfolding utc find trim_space trim_left trim_right is_space
acme_input-CanCreate = record {
  accepted = acme_input-IsInput;
  fits = record {
    amount = omega arith;
    name = ground arith;
    description = ground arith;
    created_at = omega arith;
    updated_at = omega arith;
  };
  stamp = omega arith;
  id_free = refl;
  name_free = no_name_taken;
  event_free = refl;
  created = tally 12;
  created_text = refl;
  occurred = tally 12;
  occurred_text = refl;
}

handle_create-HasVerdict_example :
    (handle_create unary env service post_acme fresh).0
    ≡ write_json 201 (
        company_response (
          to_company_response unary (
            company_of memory memory-Available memory-PostgresLaws counter unary unary-PlainCodec
              texts acme_input fresh)))
handle_create-HasVerdict_example =
    handle_create-HasVerdict memory memory-Available memory-PostgresLaws counter unary
      unary-PlainCodec texts post_acme fresh
      (answered 201 (
        company_of memory memory-Available memory-PostgresLaws counter unary unary-PlainCodec texts
          acme_input fresh))
      (can_create acme_input post_acme-Asks acme_input-CanCreate)

write_app_error-table_example :
    (as_validation_error duplicate_id ≢ none → (write_app_error duplicate_id).status ≡ 400)
    × (error_is duplicate_id is_empty_patch ≡ true → (write_app_error duplicate_id).status ≡ 400)
    × (error_is duplicate_id is_not_found ≡ true → (write_app_error duplicate_id).status ≡ 404)
    × (error_is duplicate_id is_duplicate_id ≡ true → (write_app_error duplicate_id).status ≡ 409)
    × (error_is duplicate_id is_duplicate_name ≡ true → (write_app_error duplicate_id).status ≡ 409)
write_app_error-table_example = write_app_error-table duplicate_id
