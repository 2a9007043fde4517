-- ===== src/Sample/PatchRuns.antt =====
-- The theorem on PATCH /companies/{id} at a concrete request.
use company_service.Common.{◌≡◌, refl, none, some, arith, eq_iff}
use company_service.Common.Text.{rune_count, is_space, trim_left, trim_right, trim_space}
use company_service.Errors.{new_validation_error, set}
use company_service.Domain.{
  validate, validation_fields, validate_name, validate_description, validate_amount_of_employees,
  validate_type, is_valid, is_empty_patch, utc,
}
use company_service.Domain.Validation.{IsValid, validate_iff}
use company_service.Domain.Patching.{IsAcceptable, or_trim}
use company_service.Json.{Json, object, member, end, equal_fold, fold_code}
use company_service.Json.Events.{read_string}
use company_service.Service.{patch_of}
use company_service.Postgres.Laws.{loaded}
use company_service.Postgres.Available.{FreeFor}
use company_service.Wiring.{request_ctx}
use company_service.Wiring.Amendment.Steps.{amended}
use company_service.Wiring.Responses.ById.{Names}
use company_service.Wiring.Responses.Verdict.{answered}
use company_service.Wiring.Responses.Patching.{
  Amends, CanChange, can_change, handle_patch-HasVerdict,
}
use company_service.Http.{patch_to_input, company_response, to_company_response, write_json}
use company_service.Http.Decode.{value, eof, decode_patch, decode_json}
use company_service.Http.Handlers.{Request, handle_patch}
use company_service.Sample.Memory.{memory}
use company_service.Sample.Memory.Meets.{memory-PostgresLaws}
use company_service.Sample.Memory.Up.{memory-Available}
use company_service.Sample.Table.{find}
use company_service.Sample.Texts.{unary, tally, unary-PlainCodec}
use company_service.Sample.Setting.{counter, texts, env, service, renaming, acme, with_acme}

-- PATCH /companies/{id} with a new name.
abbrev rename_seven : Request
rename_seven = record {
  id_param = "xxxxxxx";
  authorization = "Bearer abc";
  body = some (value (object (member "name" (Json.string "Acme Ltd") end)) eof);
  ctx = request_ctx;
}

rename_seven-Names : Names unary rename_seven 7
unfolding rune_count
rename_seven-Names = record { parsed = refl; at_request = refl }

rename_seven-Amends : Amends rename_seven renaming
unfolding decode_patch decode_json read_string equal_fold fold_code patch_to_input
rename_seven-Amends = record {
  req = record {
    name = some "Acme Ltd";
    description = none;
    amount_of_employees = none;
    registered = none;
    company_type = none;
  };
  decoded = refl;
  converted = refl;
}

name-FreeFor : FreeFor memory with_acme.committed 7 (or_trim renaming.name acme.name)
unfolding find
name-FreeFor = record { at = λ i d there other. absurd (ground arith) }

renaming-IsAcceptable : IsAcceptable (patch_of renaming)
unfolding trim_space trim_left trim_right is_space rune_count
renaming-IsAcceptable = record {
  name = (ground (arith, eq_iff "Acme Ltd" ""), omega arith);
  description = tt;
  amount = tt;
  company_type = tt;
}

pub loaded-IsValid : IsValid (loaded acme)
unfolding validate validation_fields validate_name validate_description validate_amount_of_employees
    validate_type is_valid new_validation_error set trim_space trim_left trim_right is_space
    rune_count
loaded-IsValid = (validate_iff (loaded acme)).0 refl

seven-CanChange :
    CanChange memory memory-Available memory-PostgresLaws counter unary unary-PlainCodec texts 7
      renaming acme with_acme
unfolding is_empty_patch find tally utc trim_space trim_left trim_right is_space
seven-CanChange = record {
  full = refl;
  there = refl;
  free = name-FreeFor;
  acceptable = renaming-IsAcceptable;
  valid = loaded-IsValid;
  fits = record {
    amount = omega arith;
    name = ground arith;
    description = ground arith;
    created_at = omega arith;
    updated_at = omega arith;
  };
  stamp = omega arith;
  event_free = refl;
  created = tally 0;
  created_text = refl;
  updated = tally 12;
  updated_text = refl;
  occurred = tally 12;
  occurred_text = refl;
}

handle_patch-HasVerdict_example :
    (handle_patch unary env service rename_seven with_acme).0
    ≡ write_json 200 (
        company_response (
          to_company_response unary (
            amended memory memory-Available memory-PostgresLaws counter unary unary-PlainCodec texts
              renaming acme with_acme)))
handle_patch-HasVerdict_example =
    handle_patch-HasVerdict memory memory-Available memory-PostgresLaws counter unary
      unary-PlainCodec texts rename_seven 7 renaming with_acme
      (answered 200 (
        amended memory memory-Available memory-PostgresLaws counter unary unary-PlainCodec texts
          renaming acme with_acme))
      rename_seven-Names rename_seven-Amends (can_change acme seven-CanChange)
