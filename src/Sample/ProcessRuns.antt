-- ===== src/Sample/ProcessRuns.antt =====
-- The theorems on a whole run of the program at a concrete environment.
use company_service.Common.{ℕ, zero, suc, ◌≡◌, ◌≢◌, refl, arith, none, Option-cases, inl, inr}
use company_service.Common.Text.{is_space, trim_left, trim_right, trim_space}
use company_service.Errors.{failure}
use company_service.Action.{Action, err}
use company_service.Application.{Context}
use company_service.Jwt.{validate}
use company_service.Postgres.{World}
use company_service.Postgres.Laws.{SameCompanies}
use company_service.Config.{load}
use company_service.Events.{new_producer, lowers_to, lower_code}
use company_service.Postgres.Pool.{new_pool, pinged}
use company_service.Startup.{App, started, with_producer, with_pool, with_config, main}
use company_service.Startup.Process.{
  serving, ended, Run, begin, next, handles, publishes, is_interrupted, stops_server,
  closes_producer, closes_pool, router, publish_turn, stop_server, close_producer, close_pool,
}
use company_service.Startup.Process.Requests.{SameRows-refl}
use company_service.Startup.Process.Runs.{IdleLaws, Run-Reach}
use company_service.Startup.Process.Quiet.{IsQuiet, Run-SameCompanies}
use company_service.Startup.Tokens.{PlainLaws, printed-let_in}
use company_service.Http.Handlers.{Request, Handler, no_content}
use company_service.Http.Auth.{bearer_token}
use company_service.Http.Auth.Bearer.{joined}
use company_service.Http.Router.{delete_companies_id}
use company_service.Http.Router.Guarded.{unguarded}
use company_service.Wiring.{request_ctx, app_env}
use company_service.Wiring.System.{Reach}
use company_service.Sample.Memory.{Tables, memory}
use company_service.Sample.Memory.Meets.{memory-PostgresLaws}
use company_service.Sample.Memory.Queue.{memory-PendingLaws}
use company_service.Sample.Texts.{unary, tally}
use company_service.Sample.Setting.{counter, texts, fresh, with_acme}
use company_service.Sample.StartRuns.{answering, silent, written, part_of, environment}
use company_service.Sample.ToolRuns.{
  environment as tool_environment, counted, counted-SigningLaws, IsOurs, noon, printed_token,
}

abbrev W : Type 0
W = World Tables ℕ

abbrev no_documents : Handler W
no_documents r w = (no_content, w)

-- A shutdown that runs into its time limit.
abbrev slow_shutdown : Context → Action W Unit
slow_shutdown ctx w = (err (failure "context deadline exceeded"), w)

slow-IdleLaws : IdleLaws memory answering no_documents slow_shutdown
slow-IdleLaws = record {
  pinged = λ pool ctx w. SameRows-refl memory w.committed;
  documented = λ r w. SameRows-refl memory w.committed;
  shut_down = λ ctx w. SameRows-refl memory w.committed;
  closed = λ pool w. SameRows-refl memory w.committed;
}

begun :
    (app : App W ℕ Unit) × ((main memory counter unary texts answering written
        (λ s. s)
        silent
        part_of
        environment
        request_ctx
        fresh).0
      ≡ started app)
unfolding main with_config load with_pool new_pool pinged with_producer new_producer lowers_to
    trim_space trim_right trim_left is_space lower_code
begun = (_, refl)

abbrev app : App W ℕ Unit
app = begun.0

-- The whole of the program: the request without a token is refused, a batch is taken, and the signal
-- comes.
abbrev no_token : Request
no_token = record { id_param = "xxxxxxx"; authorization = ""; body = none; ctx = request_ctx }

abbrev refused : W
refused =
    (router memory counter unary texts answering counted no_documents slow_shutdown app
      delete_companies_id no_token with_acme).1

abbrev turned : W
turned =
    publish_turn memory counter unary texts answering counted no_documents slow_shutdown app refused

abbrev stopped : W
stopped = close_pool memory counter unary texts answering counted no_documents slow_shutdown app (
    close_producer memory counter unary texts answering counted no_documents slow_shutdown app (
      stop_server memory counter unary texts answering counted no_documents slow_shutdown app
        turned))

abbrev whole_run :
    Run memory counter unary texts answering counted no_documents slow_shutdown app serving
      with_acme ended stopped
whole_run =
    next
      (next
        (next
          (next (next (next begin (handles tt delete_companies_id no_token refl)) (publishes tt))
            is_interrupted)
          stops_server)
        closes_producer)
      closes_pool

Run-Reach_example :
    Reach memory counter unary texts app.producer app.config.events.outbox_poll_interval
      app.config.events.outbox_batch_size with_acme stopped
Run-Reach_example =
    Run-Reach memory counter unary texts answering written (λ s. s) silent part_of environment
      request_ctx counted no_documents slow_shutdown slow-IdleLaws app fresh with_acme ended stopped
      begun.1 whole_run

no_bearer : bearer_token "" ≡ ""
unfolding bearer_token
no_bearer = refl

whole_run-IsQuiet :
    IsQuiet memory counter unary texts answering written
      (λ s. s)
      silent
      part_of
      environment
      request_ctx
      counted
      no_documents
      slow_shutdown
      slow-IdleLaws
      app
      whole_run
whole_run-IsQuiet = ((((((tt, λ let_in. let_in.1.0 no_bearer), tt), tt), tt), tt), tt)

Run-SameCompanies_example : SameCompanies memory with_acme.committed stopped.committed
Run-SameCompanies_example =
    Run-SameCompanies memory counter unary texts answering written (λ s. s) silent part_of
      environment request_ctx counted no_documents slow_shutdown slow-IdleLaws app
      memory-PostgresLaws memory-PendingLaws fresh with_acme ended stopped begun.1 whole_run
      whole_run-IsQuiet

trim_right-tally : (n : ℕ) → trim_right (tally n) ≡ tally n
unfolding tally trim_right is_space
trim_right-tally zero = refl
trim_right-tally (suc zero) = refl
trim_right-tally (suc (suc n)) = rw (trim_right-tally (suc n)) refl

trim_space-tally : (n : ℕ) → trim_space (tally (suc n)) ≡ tally (suc n)
unfolding tally trim_space trim_left is_space
trim_space-tally n = trim_right-tally (suc n)

tally_full : (n : ℕ) → tally (suc n) ≢ ""
unfolding tally
tally_full n e = cc

counted-PlainLaws : PlainLaws counted
counted-PlainLaws = record {
  plain = λ claims secret text made. elim (Option-cases claims.expires_at) [
    | inl endless ↦ absurd (ground arith)
    | inr (t, ends) ↦
        let is : text ≡ tally (suc t.instant) = ground arith in
        rw is (tally_full t.instant, trim_space-tally t.instant)
  ];
}

abbrev with_token : Request
with_token = record no_token { authorization = joined "Bearer" printed_token.0 }

printed-let_in_example :
    router memory counter unary texts answering counted no_documents slow_shutdown app
      delete_companies_id with_token with_acme
    ≡ unguarded unary
        (app_env memory counter unary texts)
        app.service
        (validate counted app.jwt_secret)
        (answering.ping app.pool)
        no_documents
        delete_companies_id
        with_token
        with_acme
printed-let_in_example =
    printed-let_in memory counter unary texts answering written (λ s. s) silent part_of environment
      request_ctx counted no_documents slow_shutdown IsOurs counted-SigningLaws counted-PlainLaws
      fresh app begun.1 tool_environment noon noon printed_token.0 printed_token.1 refl refl
      delete_companies_id with_token with_acme tt refl
