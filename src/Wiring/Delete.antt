-- ===== src/Wiring/Delete.antt =====
-- DeleteCompany on PostgreSQL.
use company_service.Common.{◌≡◌, ap, String, arith, ◌∙◌}
use company_service.Errors.{GoError}
use company_service.Action.{ok, Action, wrapping, pure, ◌>>◌}
use company_service.Action.Inversion.{wrap_err-eq-ok, >>=_runs}
use company_service.Domain.{Uuid, Company}
use company_service.Application.{event_company_deleted}
use company_service.Json.{Codec}
use company_service.Service.{
  publish, new_service_with_outbox, delete_in_tx, delete_company, within_transaction,
}
use company_service.Postgres.{Postgres, Machine, World, delete_company as delete_statement, seen}
use company_service.Postgres.Laws.{PostgresLaws}
use company_service.Postgres.Companies.{delete, get_by_id, company_repository}
use company_service.Postgres.Tx.{transaction_manager}
use company_service.Wiring.{tx_ctx, request_ctx, app_env, app_service}
use company_service.Wiring.Atomic.{Commits, Commits-dropped, within_transaction-Commits}
use company_service.Wiring.Local.{delete_in_tx-Local}
use company_service.Wiring.Steps.{delete-ok, get_by_id-ok, get_by_id_keeps}
use company_service.Wiring.Spec.{Removed, EventAdded-after}
use company_service.Wiring.Publish.{publish-EventAdded}

module _ (pg : Postgres) (laws : PostgresLaws pg) (machine : Machine) (codec : Codec)
    (text : GoError → String) where
  abbrev W : Type 0
  W = World pg.Db machine.State

  abbrev publish_deleted : Company → Action W Unit
  publish_deleted c =
      publish (app_env pg machine codec text) (app_service pg machine codec text) tx_ctx
        event_company_deleted c

  abbrev load : Uuid → Action W Company
  load id = wrapping "get company by id: " (get_by_id pg machine.State tx_ctx id)

  -- What DeleteCompany does once it has the company.
  abbrev delete_rest : Uuid → Company → Action W Company
  delete_rest id c = do
    wrapping "delete company: " (delete pg machine.State tx_ctx id)
    publish_deleted c
    pure c

  delete_in_tx-Removed :
      (id : Uuid) (w : W) (a : Company)
      → (delete_in_tx
          (app_env pg machine codec text)
          (app_service pg machine codec text)
          id
          tx_ctx
          w).0
        ≡ ok a
      → Removed pg codec id a w.working
          (delete_in_tx
            (app_env pg machine codec text)
            (app_service pg machine codec text)
            id
            tx_ctx
            w).1.working
  unfolding delete_in_tx app_service new_service_with_outbox company_repository seen
  delete_in_tx-Removed id w a h =
      let (c, e0, h0, r0) = >>=_runs (load id) _ w h in
      let (row, found, is_row) =
        get_by_id-ok pg machine.State w tx_ctx id c
          (wrap_err-eq-ok _ (get_by_id pg machine.State tx_ctx id w).0 e0) in
      let there = laws.found_by_id w.working id row found in
      let back : (get_by_id pg machine.State tx_ctx id w).1 ≡ w =
        get_by_id_keeps pg machine.State w tx_ctx id in
      let h1 : (delete_rest id c w).0 ≡ ok a = rw back at h0 in
      let (_, e1, h2, r1) =
        >>=_runs (wrapping "delete company: " (delete pg machine.State tx_ctx id)) _ w h1 in
      let (ran, _) =
        delete-ok pg machine.State w id
          (wrap_err-eq-ok _ (delete pg machine.State tx_ctx id w).0 e1) in
      let w1 : W = (delete pg machine.State tx_ctx id w).1 in
      let (_, e2, h3, r2) = >>=_runs (publish_deleted c) _ w1 h2 in
      let (added, kept) =
        publish-EventAdded pg laws machine codec text event_company_deleted c w1 e2 in
      let gone = laws.deleted id w.working ran.affected ran.succeeded in
      let same : w1.working ≡ (pg.exec (delete_statement id) w.working).1 =
        ap (λ (x : W). x.working) ran.after in
      let w2 : W = (publish_deleted c w1).1 in
      let total : delete_in_tx (app_env pg machine codec text) (app_service pg machine codec text)
            id tx_ctx w
          ≡ (ok c, w2) =
        r0 ∙ ap (delete_rest id c) back ∙ r1 ∙ r2 in
      let is_c : a ≡ c = ground arith in
      rw (total, is_c)
        (record {
          row = row;
          was_there = there;
          company = is_row;
          rows = λ i. kept.at i ∙ ap (λ (db : pg.Db). pg.company_at db i) same ∙ gone.rows i;
          event = EventAdded-after pg codec (rw same gone.outbox) added;
        })

  -- DeleteCompany on PostgreSQL, however it ends. An error leaves the committed rows as they were,
  -- unless it is the error of Commit, which may leave what a success leaves. A success takes away the row with the identifier, which was there, and no other, and adds exactly
  -- one event company.deleted with the company that the row held.
  pub delete_company-Commits :
      (id : Uuid) (w : W)
      → Commits pg {M = machine.State} {A = Unit}
          (λ _ db db'. (c : Company) × Removed pg codec id c db db')
          w
          (delete_company
            (app_env pg machine codec text)
            (app_service pg machine codec text)
            request_ctx
            id
            w)
  unfolding delete_company within_transaction app_service new_service_with_outbox
      transaction_manager
  delete_company-Commits id w = Commits-dropped pg (Removed pg codec id) w _ _ (
      within_transaction-Commits pg text (Removed pg codec id)
        (delete_in_tx (app_env pg machine codec text) (app_service pg machine codec text) id) w
        (λ db. delete_in_tx-Local pg machine codec text db id) (delete_in_tx-Removed id))
