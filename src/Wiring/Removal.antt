-- ===== src/Wiring/Removal.antt =====
-- When DeleteCompany and GetCompany succeed, and what they answer for a company that is missing.
use company_service.Common.{◌≡◌, ◌∙◌, refl, String, true, none, some, inr}
use company_service.Errors.{GoError, error_is, is_not_found, not_found, wrap}
use company_service.Action.{ok, err}
use company_service.Domain.{Uuid, Time, Company, utc}
use company_service.Domain.Validation.{IsValid}
use company_service.Application.{Context, event_company_deleted}
use company_service.Json.{Codec}
use company_service.Service.{
  publish, delete_in_tx, delete_company, get_company, new_service_with_outbox,
}
use company_service.Postgres.{Postgres, Machine, World, seen}
use company_service.Postgres.Laws.{PostgresLaws, loaded}
use company_service.Postgres.Available.{Available, FitsColumn, IsTimestamp, PlainCodec}
use company_service.Postgres.Tx.{transaction_manager}
use company_service.Postgres.Companies.{company_repository, delete, get_by_id, scan_company}
use company_service.Wiring.{request_ctx, tx_ctx, app_env, app_service}
use company_service.Wiring.Reachable.{within_transaction_succeeds, within_transaction_fails}
use company_service.Wiring.Success.{publish_succeeds}

module _ (pg : Postgres) (up : Available pg) {M : Type 0} where
  pub get_by_id_succeeds :
      (ctx : Context) (id : Uuid) (c : Company) (w : World pg.Db M)
      → pg.company_at (seen ctx w) id ≡ some c
      → get_by_id pg M ctx id w ≡ (ok (loaded c), w)
  unfolding get_by_id scan_company
  get_by_id_succeeds ctx id c w there = rw (up.builds _, up.finds (seen ctx w) id c there) refl

  pub get_by_id_fails :
      (ctx : Context) (id : Uuid) (w : World pg.Db M)
      → pg.company_at (seen ctx w) id ≡ none
      → get_by_id pg M ctx id w
        ≡ (err (wrap "get company by id: " (wrap "scan company: " not_found)), w)
  unfolding get_by_id scan_company error_is
  get_by_id_fails ctx id w missing =
      let (e, answer, no_rows) = up.misses (seen ctx w) id missing in
      rw (up.builds _, answer) (rw no_rows refl)

  delete_succeeds :
      (laws : PostgresLaws pg) (id : Uuid) (c : Company) (w : World pg.Db M)
      → pg.company_at w.working id ≡ some c
      → delete pg M tx_ctx id w ≡ (
        ok tt,
        record w { working = (pg.exec (company_service.Postgres.delete_company id) w.working).1 },
      )
  unfolding delete
  delete_succeeds laws id c w there =
      let (n, ran) = up.deletes w.working id in
      let matched = (laws.deleted id w.working n ran).matched in
      let some_row : n ≡ 1 = matched ∙ rw there refl in rw (up.builds _, ran, some_row) refl

module _ (pg : Postgres) (up : Available pg) (laws : PostgresLaws pg) (machine : Machine)
    (codec : Codec) (plain : PlainCodec codec) (text : GoError → String) where
  abbrev W : Type 0
  W = World pg.Db machine.State

  -- What the clock and the source of identifiers give for the event of DeleteCompany.
  abbrev pub deletion_id : W → Uuid
  deletion_id w = (machine.uuid_new w.machine).0

  abbrev pub deletion_now : W → Time
  deletion_now w = (machine.time_now (machine.uuid_new w.machine).1).0

  delete_in_tx_succeeds :
      (id : Uuid) (c : Company) (w : W) (created updated occurred : String)
      → pg.company_at w.working id ≡ some c
      → IsValid (loaded c)
      → FitsColumn (loaded c)
      → IsTimestamp (utc (deletion_now w))
      → pg.outbox_at w.working (deletion_id w) ≡ none
      → codec.time_text (utc c.created_at) ≡ ok created
      → codec.time_text (utc c.updated_at) ≡ ok updated
      → codec.time_text (utc (deletion_now w)) ≡ ok occurred
      → (delete_in_tx
          (app_env pg machine codec text)
          (app_service pg machine codec text)
          id
          tx_ctx
          w).0
        ≡ ok (loaded c)
  unfolding delete_in_tx app_service new_service_with_outbox company_repository seen
  delete_in_tx_succeeds id c w created updated occurred there valid fits stamp event_free h h' h'' =
      let (n, ran) = up.deletes w.working id in
      let deleted = laws.deleted id w.working n ran in
      let w' : W = record w {
        working = (pg.exec (company_service.Postgres.delete_company id) w.working).1;
      } in
      let published =
        publish_succeeds pg up laws machine codec plain text event_company_deleted (loaded c) w'
          created updated occurred (inr (inr refl)) valid fits stamp h h' h''
          (deleted.outbox.at _ ∙ event_free) in
      rw (get_by_id_succeeds pg up tx_ctx id c w there, delete_succeeds pg up laws id c w there)
        (rw published refl)

  delete_in_tx_misses :
      (id : Uuid) (w : W)
      → pg.company_at w.working id ≡ none
      → (delete_in_tx
          (app_env pg machine codec text)
          (app_service pg machine codec text)
          id
          tx_ctx
          w).0
        ≡ err (
            wrap "get company by id: "
              (wrap "get company by id: " (wrap "scan company: " not_found)))
  unfolding delete_in_tx app_service new_service_with_outbox company_repository seen
  delete_in_tx_misses id w missing = rw (get_by_id_fails pg up tx_ctx id w missing) refl

  pub delete_company_succeeds :
      (id : Uuid) (c : Company) (w : W) (created updated occurred : String)
      → pg.company_at w.committed id ≡ some c
      → IsValid (loaded c)
      → FitsColumn (loaded c)
      → IsTimestamp (utc (deletion_now w))
      → pg.outbox_at w.committed (deletion_id w) ≡ none
      → codec.time_text (utc c.created_at) ≡ ok created
      → codec.time_text (utc c.updated_at) ≡ ok updated
      → codec.time_text (utc (deletion_now w)) ≡ ok occurred
      → (delete_company
          (app_env pg machine codec text)
          (app_service pg machine codec text)
          request_ctx
          id
          w).0
        ≡ ok tt
  unfolding delete_company company_service.Service.within_transaction app_service
      new_service_with_outbox transaction_manager
  delete_company_succeeds id c w created updated occurred there valid fits stamp event_free h h'
        h'' =
      let opened : W = record w { working = w.committed } in
      rw
        (within_transaction_succeeds pg up text
          (delete_in_tx (app_env pg machine codec text) (app_service pg machine codec text) id) w
          (loaded c)
          (delete_in_tx_succeeds id c opened created updated occurred there valid fits stamp
            event_free h h' h''))
        refl

  pub delete_company-missing :
      (id : Uuid) (w : W)
      → pg.company_at w.committed id ≡ none
      → (e : GoError) × ((delete_company
            (app_env pg machine codec text)
            (app_service pg machine codec text)
            request_ctx
            id
            w).0
          ≡ err e)
        × (error_is e is_not_found ≡ true)
  unfolding delete_company company_service.Service.within_transaction app_service
      new_service_with_outbox transaction_manager error_is
  delete_company-missing id w missing =
      let opened : W = record w { working = w.committed } in
      let (e, failed, found) =
        within_transaction_fails pg up text
          (delete_in_tx (app_env pg machine codec text) (app_service pg machine codec text) id) w
          (wrap "get company by id: "
            (wrap "get company by id: " (wrap "scan company: " not_found)))
          is_not_found refl (delete_in_tx_misses id opened missing) in
      (e, rw failed refl, found)

  pub get_company_succeeds :
      (id : Uuid) (c : Company) (w : W)
      → pg.company_at w.committed id ≡ some c
      → get_company
          (app_env pg machine codec text)
          (app_service pg machine codec text)
          request_ctx
          id
          w
        ≡ (ok (loaded c), w)
  unfolding get_company app_service new_service_with_outbox company_repository seen
  get_company_succeeds id c w there = rw (get_by_id_succeeds pg up request_ctx id c w there) refl

  pub get_company-missing :
      (id : Uuid) (w : W)
      → pg.company_at w.committed id ≡ none
      → (e : GoError) × (get_company
            (app_env pg machine codec text)
            (app_service pg machine codec text)
            request_ctx
            id
            w
          ≡ (err e, w))
        × (error_is e is_not_found ≡ true)
  unfolding get_company app_service new_service_with_outbox company_repository error_is seen
  get_company-missing id w missing = (
    wrap "get company by id: " (wrap "get company by id: " (wrap "scan company: " not_found)),
    rw (get_by_id_fails pg up request_ctx id w missing) refl,
    refl,
  )
