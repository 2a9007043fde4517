-- ===== src/Sample/ServiceRuns.antt =====
-- The theorems on the use cases, the events, the authentication and the routes at concrete inputs.
use company_service.Common.{
  true, ℕ, ◌≡◌, ◌↔◌, refl, String, none, some, arith, eq_iff, ◌==◌, if◌then◌else◌,
}
use company_service.Common.Text.{is_space, trim_left, trim_right, trim_space}
use company_service.Errors.{wrap, not_found, failure}
use company_service.Action.{Action, Result, ok, err}
use company_service.Domain.{Company, in_utc, utc}
use company_service.Application.{Context, Event, event_company_created}
use company_service.Json.{Json, is_int64}
use company_service.Json.Events.{marshal_event, unmarshal_event}
use company_service.Json.Events.RoundTrip.{IsGoEvent, unmarshal_event-marshal_event}
use company_service.Service.{create_company, patch_company, delete_company}
use company_service.Postgres.{World, Postgres}
use company_service.Postgres.Tx.{within_transaction}
use company_service.Wiring.{request_ctx}
use company_service.Wiring.Atomic.{Commits}
use company_service.Wiring.Spec.{Changed, Removed}
use company_service.Wiring.Create.{CreateSpec, create_company-Commits}
use company_service.Wiring.Patch.{patch_company-Commits}
use company_service.Wiring.Delete.{delete_company-Commits}
use company_service.Wiring.Invariant.{IsGood}
use company_service.Http.{write_app_error, app_error_status}
use company_service.Http.Status.{write_app_error-status}
use company_service.Http.Handlers.{Request, Handler, no_content}
use company_service.Http.Auth.{auth_middleware, unauthorized, bearer_token, split_at_space}
use company_service.Http.Auth.Bearer.{Carries, bearer_token_iff}
use company_service.Http.Router.{Route, delete_companies_id, handler_of}
use company_service.Http.Router.Guarded.{Authorized, unguarded, handler_of_guarded}
use company_service.Sample.Memory.{Tables, memory}
use company_service.Sample.Memory.Meets.{memory-PostgresLaws}
use company_service.Sample.Table.{find}
use company_service.Sample.Texts.{unary, unary-CodecLaws}
use company_service.Json.{equal_fold, fold_code}
use company_service.Sample.Setting.{
  counter, texts, env, service, no_tables, fresh, acme_input, renaming, acme, with_acme,
}

create_company-Commits_example :
    Commits memory {M = ℕ}
      (CreateSpec memory memory-PostgresLaws counter unary texts acme_input)
      fresh
      (create_company env service request_ctx acme_input fresh)
create_company-Commits_example =
    create_company-Commits memory memory-PostgresLaws counter unary texts acme_input fresh

no_tables-IsGood : IsGood memory no_tables
unfolding find
no_tables-IsGood = record {
  valid = λ i row at. ground arith;
  distinct = λ i j a b at_i at_j same. ground arith;
}

patch_company-Commits_example :
    Commits memory {M = ℕ}
      (Changed memory unary 7 renaming)
      with_acme
      (patch_company env service request_ctx 7 renaming with_acme)
patch_company-Commits_example =
    patch_company-Commits memory memory-PostgresLaws counter unary texts 7 renaming with_acme

delete_company-Commits_example :
    Commits memory {M = ℕ} {A = Unit}
      (λ _ db db'. (c : Company) × Removed memory unary 7 c db db')
      with_acme
      (delete_company env service request_ctx 7 with_acme)
delete_company-Commits_example =
    delete_company-Commits memory memory-PostgresLaws counter unary texts 7 with_acme

-- A database that commits and then loses the connection
abbrev doubtful : Postgres
doubtful = record memory {
  commit_error = λ db. some (failure "connection lost");
  committed_anyway = λ db. true;
}

-- A transaction that takes a company away and then succeeds.
abbrev empty_out : Context → Action (World Tables ℕ) ℕ
empty_out ctx w = (ok 5, record w { working = no_tables })

-- The caller sees an error, and the company is gone.
in_doubt : within_transaction doubtful ℕ texts request_ctx empty_out with_acme ≡ (
  err (wrap "commit transaction: " (failure "connection lost")),
  record with_acme { committed = no_tables; working = no_tables },
)
unfolding within_transaction company_service.Postgres.Tx.finish company_service.Postgres.Tx.commit
in_doubt = refl

write_app_error-status_example :
    (write_app_error (wrap "get company by id: " not_found)).status
    ≡ app_error_status (wrap "get company by id: " not_found)
write_app_error-status_example = write_app_error-status (wrap "get company by id: " not_found)

bearer_token_iff_example : (bearer_token "bearer  abc " ≡ "abc") ↔ Carries "bearer  abc " "abc"
bearer_token_iff_example = bearer_token_iff "bearer  abc " "abc" (ground (arith, eq_iff "abc" ""))

-- A company in the ranges of the Go types, and its event.
abbrev acme_event : Event
acme_event = record {
  id = 1;
  event_type = event_company_created;
  occurred_at = record { instant = 2; location = in_utc };
  company_id = 7;
  company =
      some (record acme { created_at = utc acme.created_at; updated_at = utc acme.updated_at });
}

acme_payload : (j : Json) × (marshal_event unary acme_event ≡ ok j)
unfolding marshal_event
acme_payload = (_, refl)

acme_event-IsGoEvent : IsGoEvent acme_event
unfolding is_int64 utc
acme_event-IsGoEvent = record {
  id = omega arith;
  company_id = omega arith;
  occurred_at = refl;
  company = record {
    id = omega arith;
    created_at = refl;
    updated_at = refl;
    amount = ground arith;
  };
}

unmarshal_event-marshal_event_example : unmarshal_event unary acme_payload.0 ≡ ok acme_event
unmarshal_event-marshal_event_example =
    unmarshal_event-marshal_event unary unary-CodecLaws acme_event acme_payload.0
      acme_event-IsGoEvent acme_payload.1

-- A validator that takes one token, and a server of no documents.
abbrev only_abc : String → Result ℕ
only_abc token = if token == "abc" then ok 1 else err (failure "invalid token")

abbrev no_documents : Handler (World Tables ℕ)
no_documents r w = (no_content, w)

abbrev unauthorized_request : Request
unauthorized_request = record {
  id_param = "xxxxxxx";
  authorization = "Bearer abd";
  body = none;
  ctx = request_ctx;
}

abbrev app : Route → Handler (World Tables ℕ)
app = handler_of unary env service only_abc (λ ctx w. (ok tt, w)) no_documents

abbrev app_behind : Route → Handler (World Tables ℕ)
app_behind = unguarded unary env service only_abc (λ ctx w. (ok tt, w)) no_documents

abbrev IsLetIn : Request → Type 0
IsLetIn = Authorized unary env service only_abc (λ ctx w. (ok tt, w)) no_documents

handler_of_guarded_example :
    (IsLetIn unauthorized_request
      → app delete_companies_id unauthorized_request with_acme
        ≡ app_behind delete_companies_id unauthorized_request with_acme)
    × (¬ IsLetIn unauthorized_request
        → ((app delete_companies_id unauthorized_request with_acme).0.status ≡ 401)
          × ((app delete_companies_id unauthorized_request with_acme).1 ≡ with_acme))
handler_of_guarded_example =
    handler_of_guarded unary env service only_abc (λ ctx w. (ok tt, w)) no_documents
      delete_companies_id unauthorized_request with_acme tt

-- The request is turned away, and the company stays.
turned_away :
    app delete_companies_id unauthorized_request with_acme
    ≡ (unauthorized "invalid bearer token", with_acme)
unfolding handler_of auth_middleware bearer_token split_at_space equal_fold fold_code trim_space
    trim_right trim_left is_space
turned_away = refl
