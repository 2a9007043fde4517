-- ===== src/Sample/ByIdRuns.antt =====
-- The theorems on DELETE and GET /companies/{id} at a concrete request.
use company_service.Common.{◌≡◌, refl, none, some, arith}
use company_service.Common.Text.{rune_count}
use company_service.Action.{ok}
use company_service.Domain.{local, utc}
use company_service.Postgres.Laws.{loaded}
use company_service.Postgres.Available.{FitsColumn, IsTimestamp}
use company_service.Wiring.{request_ctx}
use company_service.Wiring.Responses.ById.{
  Names, IsAnnounceable, IsDeleteAnswer, IsGetAnswer, handle_delete-IsDeleteAnswer,
  handle_get-IsGetAnswer,
}
use company_service.Http.Handlers.{Request, handle_delete, handle_get}
use company_service.Sample.Memory.{memory}
use company_service.Sample.Memory.Meets.{memory-PostgresLaws}
use company_service.Sample.Memory.Up.{memory-Available}
use company_service.Sample.Texts.{unary, tally, unary-PlainCodec}
use company_service.Sample.Setting.{counter, texts, env, service, with_acme, acme}
use company_service.Sample.Table.{find}
use company_service.Sample.PatchRuns.{loaded-IsValid}

abbrev of_seven : Request
of_seven = record { id_param = "xxxxxxx"; authorization = ""; body = none; ctx = request_ctx }

of_seven-Names : Names unary of_seven 7
unfolding rune_count
of_seven-Names = record { parsed = refl; at_request = refl }

acme-FitsColumn : FitsColumn (loaded acme)
unfolding utc
acme-FitsColumn = record {
  amount = omega arith;
  name = ground arith;
  description = ground arith;
  created_at = omega arith;
  updated_at = omega arith;
}

noon-IsTimestamp : IsTimestamp (utc (record { instant = 12; location = local }))
unfolding utc
noon-IsTimestamp = omega arith

acme_texts :
    IsAnnounceable memory memory-Available memory-PostgresLaws counter unary unary-PlainCodec texts
      (memory.company_at with_acme.committed 7)
unfolding find tally utc
acme_texts = (loaded-IsValid, acme-FitsColumn, ("", refl), ("", refl))

noon_text : unary.time_text (utc (record { instant = 12; location = local })) ≡ ok "xxxxxxxxxxxx"
unfolding tally utc
noon_text = refl

handle_delete-IsDeleteAnswer_example :
    IsDeleteAnswer memory memory-Available memory-PostgresLaws counter unary unary-PlainCodec texts
      (some acme)
      (handle_delete unary env service of_seven with_acme)
unfolding find
handle_delete-IsDeleteAnswer_example =
    handle_delete-IsDeleteAnswer memory memory-Available memory-PostgresLaws counter unary
      unary-PlainCodec texts of_seven 7 with_acme "xxxxxxxxxxxx" of_seven-Names refl
      noon-IsTimestamp acme_texts noon_text

handle_get-IsGetAnswer_example :
    IsGetAnswer memory memory-Available memory-PostgresLaws counter unary unary-PlainCodec texts
      with_acme
      (some acme)
      (handle_get unary env service of_seven with_acme)
unfolding find
handle_get-IsGetAnswer_example =
    handle_get-IsGetAnswer memory memory-Available memory-PostgresLaws counter unary
      unary-PlainCodec texts of_seven 7 with_acme of_seven-Names
