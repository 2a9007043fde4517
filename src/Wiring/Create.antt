-- ===== src/Wiring/Create.antt =====
-- CreateCompany on PostgreSQL.
use company_service.Common.{inl, inr, ◌≡◌, refl, ap, String, arith, sym, ◌∙◌}
use mathlib.Core.Path.{subst}
use company_service.Errors.{GoError}
use company_service.Action.{Result, ok, Action, wrapping, attempt, pure, ◌>>◌}
use company_service.Action.Inversion.{wrap_err-eq-ok, >>=_runs, Result-cases}
use company_service.Domain.{Time, Company, new_with_id}
use company_service.Common.Text.{trim_space}
use company_service.Domain.Validation.{IsValid}
use company_service.Domain.Making.{new_with_id_iff}
use company_service.Application.{event_company_created, CreateInput}
use company_service.Json.{Codec}
use company_service.Service.{
  publish, new_service_with_outbox, create_in_tx, create_company, name_is_free, within_transaction,
}
use company_service.Postgres.{Postgres, Machine, World, insert_company}
use company_service.Postgres.Laws.{PostgresLaws}
use company_service.Postgres.Companies.{create, get_by_name, company_repository}
use company_service.Wiring.{tx_ctx, request_ctx, app_env, app_service}
use company_service.Postgres.Tx.{transaction_manager}
use company_service.Wiring.Atomic.{Commits, Commits-mono, within_transaction-Commits}
use company_service.Wiring.Local.{create_in_tx-Local}
use company_service.Wiring.Steps.{create-ok, get_by_name_keeps}
use company_service.Wiring.Spec.{Created, EventAdded-after}
use company_service.Wiring.Publish.{publish-EventAdded}

-- The company that was asked for.
pub record MadeFrom (input : CreateInput) (c : Company) : Type 0 where
  pub valid : IsValid c
  pub id : c.id ≡ input.id
  pub name : c.name ≡ trim_space input.name
  pub description : c.description ≡ trim_space input.description
  pub amount : c.amount_of_employees ≡ input.amount_of_employees
  pub registered : c.registered ≡ input.registered
  pub company_type : c.company_type ≡ input.company_type

made-MadeFrom :
    (input : CreateInput) (t : Time) (c : Company)
    → new_with_id t input.id input.name input.description input.amount_of_employees input.registered
        input.company_type
      ≡ ok c
    → MadeFrom input c
made-MadeFrom input t c h =
    let (_, valid, id, name, description, amount, registered, company_type, _, _) =
      (new_with_id_iff t input.id input.name input.description input.amount_of_employees
          input.registered input.company_type c).0
        h in
    record {
      valid = valid;
      id = id;
      name = name;
      description = description;
      amount = amount;
      registered = registered;
      company_type = company_type;
    }

module _ (pg : Postgres) (laws : PostgresLaws pg) (machine : Machine) (codec : Codec)
    (text : GoError → String) where
  abbrev W : Type 0
  W = World pg.Db machine.State

  -- The check of the name changes no state.
  abbrev name_check : Company → Action W Unit
  name_check c = attempt (get_by_name pg machine.State tx_ctx c.name) name_is_free

  name_check_keeps : (c : Company) (w : W) → (name_check c w).1 ≡ w
  unfolding name_is_free
  name_check_keeps c w = ground (arith, get_by_name_keeps pg machine.State w tx_ctx c.name)

  abbrev publish_created : Company → Action W Unit
  publish_created c =
      publish (app_env pg machine codec text) (app_service pg machine codec text) tx_ctx
        event_company_created c

  -- What CreateCompany does behind the check of the name.
  abbrev create_rest : Company → Action W Company
  create_rest c = do
    wrapping "create company: " (create pg machine.State tx_ctx c)
    publish_created c
    pure c

  create_rest-Created :
      (c : Company) (w : W) (a : Company)
      → (create_rest c w).0 ≡ ok a
      → (a ≡ c) × Created pg codec c w.working (create_rest c w).1.working
  create_rest-Created c w a h =
      let (_, e1, h1, r1) =
        >>=_runs (wrapping "create company: " (create pg machine.State tx_ctx c)) _ w h in
      let ran =
        create-ok pg machine.State w c
          (wrap_err-eq-ok _ (create pg machine.State tx_ctx c w).0 e1) in
      let w1 : W = (create pg machine.State tx_ctx c w).1 in
      let (_, e2, h2, r2) = >>=_runs (publish_created c) _ w1 h1 in
      let (added, kept) =
        publish-EventAdded pg laws machine codec text event_company_created c w1 e2 in
      let row = laws.inserted c w.working ran.affected ran.succeeded in
      let w2 : W = (publish_created c w1).1 in
      let same : w1.working ≡ (pg.exec (insert_company c) w.working).1 =
        ap (λ (x : W). x.working) ran.after in
      let total : create_rest c w ≡ (ok c, w2) = r1 ∙ r2 in
      (
        ground arith,
        subst (λ (r : Result Company × W). Created pg codec c w.working r.1.working) (sym total)
            (record {
              id_was_free = row.id_was_free;
              name_was_free = row.name_was_free;
              rows = λ i. kept.at i ∙ ap (λ (db : pg.Db). pg.company_at db i) same ∙ row.rows i;
              event = EventAdded-after pg codec (rw same row.outbox) added;
            }),
      )

  create_in_tx-Created :
      (c : Company) (w : W) (a : Company)
      → (create_in_tx
          (app_env pg machine codec text)
          (app_service pg machine codec text)
          c
          tx_ctx
          w).0
        ≡ ok a
      → (a ≡ c)
        × Created pg codec c w.working
            (create_in_tx
              (app_env pg machine codec text)
              (app_service pg machine codec text)
              c
              tx_ctx
              w).1.working
  unfolding create_in_tx app_service new_service_with_outbox company_repository
  create_in_tx-Created c w a h =
      let (_, _, h1, r1) = >>=_runs (name_check c) _ w h in
      let total : create_in_tx (app_env pg machine codec text) (app_service pg machine codec text) c
            tx_ctx w
          ≡ create_rest c w =
        r1 ∙ ap (create_rest c) (name_check_keeps c w) in
      rw total (create_rest-Created c w a (rw total at h))

  abbrev Just : Company → Company → pg.Db → pg.Db → Type 0
  Just c a db db' = (a ≡ c) × Created pg codec c db db'

  -- The promise of a successful CreateCompany.
  abbrev pub CreateSpec : CreateInput → Company → pg.Db → pg.Db → Type 0
  CreateSpec input c db db' = MadeFrom input c × Created pg codec c db db'

  -- CreateCompany on PostgreSQL, however it ends. An error, from whatever call, leaves the committed
  -- rows as they were, unless it is the error of Commit, which may leave what a success leaves. A
  -- success commits exactly two rows: the company that the input asks for, which
  -- is valid, under an identifier and a name that no row had, and one event company.created with it.
  pub create_company-Commits :
      (input : CreateInput) (w : W)
      → Commits pg {M = machine.State} (CreateSpec input) w (
          create_company
            (app_env pg machine codec text)
            (app_service pg machine codec text)
            request_ctx
            input
            w)
  unfolding create_company within_transaction app_service new_service_with_outbox
      transaction_manager
  create_company-Commits input w =
      let (t, m) = machine.time_now w.machine in
      let w' : W = record w { machine = m } in
      elim (Result-cases (
        new_with_id t input.id input.name input.description input.amount_of_employees
          input.registered input.company_type)) [
            | inr (e, failed) ↦ rw failed (inl refl)
            | inl (c, made) ↦ rw made (
                Commits-mono pg (Just c) (CreateSpec input) w' _
                  (λ a db db' done. rw done.0 (made-MadeFrom input t c made, done.1))
                  (within_transaction-Commits pg text (Just c)
                    (create_in_tx (app_env pg machine codec text)
                      (app_service pg machine codec text) c)
                    w' (λ db. create_in_tx-Local pg machine codec text db c)
                    (create_in_tx-Created c)))
          ]
