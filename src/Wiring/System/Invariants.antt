-- ===== src/Wiring/System/Invariants.antt =====
-- What holds in every reachable state.
use company_service.Common.{◌∙◌, sym, String}
use company_service.Common.Int.{ℤ}
use company_service.Errors.{GoError}
use company_service.Domain.{Company}
use company_service.Application.{EventProducer}
use company_service.Json.{Codec}
use company_service.Service.{get_company, new_service_with_outbox}
use company_service.Postgres.{Postgres, Machine, World}
use company_service.Postgres.Companies.{company_repository}
use company_service.Postgres.Laws.{PostgresLaws, SameCompanies}
use company_service.Postgres.Pending.{PendingLaws}
use company_service.Publisher.{process_and_log}
use company_service.Wiring.{request_ctx, app_service}
use company_service.Wiring.Steps.{get_by_id_keeps}
use company_service.Wiring.Spec.{Removed, Changed}
use company_service.Wiring.Create.{CreateSpec, create_company-Commits}
use company_service.Wiring.Patch.{patch_company-Commits}
use company_service.Wiring.Delete.{delete_company-Commits}
use company_service.Wiring.Invariant.{
  IsGood, Call, create, patch, delete, get, serve_call, serve_call-IsGood,
}
use company_service.Wiring.NoLoss.{
  OutboxGrows, OutboxGrows-trans, SameOutbox-OutboxGrows, Batched-OutboxGrows,
}
use company_service.Wiring.Publishing.{app_publisher}
use company_service.Wiring.Publishing.Atomic.{BatchSpec, process_batch-Commits}
use company_service.Wiring.System.{
  Step, serves, publishes, moves, Reach, start, later, publish_batch,
}
use company_service.Wiring.System.Careful.{
  Announced, Commits-keeps, Careful, Careful-refl, Careful-of_old, Removed-Careful, Changed-Careful,
  Created-Careful,
}

module _ (pg : Postgres) (laws : PostgresLaws pg) (pending : PendingLaws pg) (machine : Machine)
    (codec : Codec) (text : GoError → String) (producer : EventProducer machine.State)
    (interval batch_size : ℤ) where
  abbrev W : Type 0
  W = World pg.Db machine.State

  serve_call-Careful :
      (call : Call) (w : W)
      → Careful pg w.committed (serve_call pg machine codec text call w).committed
  unfolding serve_call get_company app_service new_service_with_outbox company_repository
  serve_call-Careful (create input) w =
      Commits-keeps pg (Careful pg) (CreateSpec pg laws machine codec text input) w _
        (create_company-Commits pg laws machine codec text input w) (Careful-refl pg)
        λ c db db' (made, created). Created-Careful pg codec db db' c created
  serve_call-Careful (patch id input) w =
      Commits-keeps pg (Careful pg) (Changed pg codec id input) w _
        (patch_company-Commits pg laws machine codec text id input w) (Careful-refl pg)
        λ c db db' changed. Changed-Careful pg codec db db' id input c changed
  serve_call-Careful (delete id) w =
      Commits-keeps pg {A = Unit} (Careful pg)
        (λ _ db db'. (c : Company) × Removed pg codec id c db db') w _
        (delete_company-Commits pg laws machine codec text id w) (Careful-refl pg)
        λ _ db db' (c, gone). Removed-Careful pg codec db db' id c gone
  serve_call-Careful (get id) w =
      rw (get_by_id_keeps pg machine.State w request_ctx id) (Careful-refl pg w.committed)

  -- A batch changes no company and loses no event.
  pub publish_batch-Batched :
      (P : pg.Db → pg.Db → Type 0) (w : W)
      → ((db : pg.Db) → P db db)
      → ((db db' : pg.Db) → SameCompanies pg db db' → OutboxGrows pg db db' → P db db')
      → P w.committed (publish_batch pg machine codec text producer interval batch_size w).committed
  unfolding process_and_log
  publish_batch-Batched P w stay does =
      Commits-keeps pg {A = Unit} P
        (λ _ db db'.
          BatchSpec pg codec text producer
            (app_publisher pg codec text producer interval batch_size).batch w.machine db db')
        w _ (process_batch-Commits pg laws pending codec text producer interval batch_size w) stay
        λ _ db db' batch.
          does db db' batch.done.companies
            (Batched-OutboxGrows pg text producer batch.events w.machine db db' batch.done)

  Step-Careful :
      {w w' : W}
      → Step pg machine codec text producer interval batch_size w w'
      → Careful pg w.committed w'.committed
  Step-Careful {w} (serves call) = serve_call-Careful call w
  Step-Careful {w} publishes =
      publish_batch-Batched (Careful pg) w (Careful-refl pg) λ db db' same grows.
        Careful-of_old pg db db' grows (λ i c there. (c, sym (same.at i) ∙ there))
  Step-Careful {w} (moves {w'} same outbox) =
      Careful-of_old pg w.committed w'.committed
        (SameOutbox-OutboxGrows pg w.committed w'.committed outbox)
        (λ i c there. (c, sym (same.at i) ∙ there))

  -- In every state that the program reaches from a start where each company was announced, by
  -- requests and batches in any order and with any errors, the outbox has an event company.created
  -- for each company.
  pub Reach-Announced :
      {w w' : W}
      → Reach pg machine codec text producer interval batch_size w w'
      → Announced pg w.committed
      → Announced pg w'.committed
  Reach-Announced start h = h
  Reach-Announced (later r step) h = (Step-Careful step).announced (Reach-Announced r h)

  -- No event is lost: each row of the outbox is in every later state, with the same event, type,
  -- company and payload, tried no less often, and published if it was.
  pub Reach-OutboxGrows :
      {w w' : W}
      → Reach pg machine codec text producer interval batch_size w w'
      → OutboxGrows pg w.committed w'.committed
  Reach-OutboxGrows {w} start = (Careful-refl pg w.committed).grows
  Reach-OutboxGrows {w} {w'} (later {w1} r step) =
      OutboxGrows-trans pg w.committed w1.committed w'.committed (Reach-OutboxGrows r)
        (Step-Careful step).grows

  Same-IsGood : (db db' : pg.Db) → SameCompanies pg db db' → IsGood pg db → IsGood pg db'
  Same-IsGood db db' same good = record {
    valid = λ i row there. good.valid i row (sym (same.at i) ∙ there);
    distinct = λ i j a b at_i at_j.
        good.distinct i j a b (sym (same.at i) ∙ at_i) (sym (same.at j) ∙ at_j);
  }

  Step-IsGood :
      {w w' : W}
      → Step pg machine codec text producer interval batch_size w w'
      → IsGood pg w.committed
      → IsGood pg w'.committed
  Step-IsGood {w} (serves call) = serve_call-IsGood pg machine codec text laws call w
  Step-IsGood {w} publishes =
      publish_batch-Batched (λ db db'. IsGood pg db → IsGood pg db') w (λ db h. h)
        (λ db db' same grows. Same-IsGood db db' same)
  Step-IsGood {w} (moves {w'} same outbox) = Same-IsGood w.committed w'.committed same

  -- In every state that the program reaches from a good one, by requests and batches in any order and
  -- with any errors, the stored companies are valid and no two have one name.
  pub Reach-IsGood :
      {w w' : W}
      → Reach pg machine codec text producer interval batch_size w w'
      → IsGood pg w.committed
      → IsGood pg w'.committed
  Reach-IsGood start good = good
  Reach-IsGood (later r step) good = Step-IsGood step (Reach-IsGood r good)
