-- ===== src/Wiring/Patch/Written.antt =====
-- PatchCompany on PostgreSQL, from the patched company on.
use company_service.Common.{◌≡◌, ◌≢◌, ap, String, some, arith, ◌∙◌, nat_eq, if◌then◌else◌}
use company_service.Errors.{GoError}
use company_service.Action.{ok, Action, wrapping, pure, ◌>>◌}
use company_service.Action.Inversion.{wrap_err-eq-ok, >>=_runs}
use company_service.Domain.{Uuid, Company}
use company_service.Application.{event_company_updated}
use company_service.Json.{Codec}
use company_service.Service.{publish}
use company_service.Postgres.{Postgres, Machine, World, update_company}
use company_service.Postgres.Laws.{PostgresLaws, overwritten}
use company_service.Postgres.Companies.{update}
use company_service.Wiring.{tx_ctx, app_env, app_service}
use company_service.Wiring.Steps.{update-ok}
use company_service.Wiring.Spec.{EventAdded, EventAdded-after}
use company_service.Wiring.Publish.{publish-EventAdded}

module _ (pg : Postgres) (laws : PostgresLaws pg) (machine : Machine) (codec : Codec)
    (text : GoError → String) where
  abbrev W : Type 0
  W = World pg.Db machine.State

  abbrev publish_updated : Company → Action W Unit
  publish_updated c =
      publish (app_env pg machine codec text) (app_service pg machine codec text) tx_ctx
        event_company_updated c

  -- What PatchCompany does once it has the patched company.
  abbrev pub update_rest : Company → Action W Company
  update_rest c = do
    wrapping "update company: " (update pg machine.State tx_ctx c)
    publish_updated c
    pure c

  pub record Wrote (c : Company) (db db' : pg.Db) : Type 0 where
    pub name_was_free :
        (i : Uuid) (d : Company) → pg.company_at db i ≡ some d → i ≢ c.id → d.name ≢ c.name
    pub rows :
        (i : Uuid)
        → pg.company_at db' i
          ≡ (if nat_eq c.id i then overwritten pg c (pg.company_at db c.id) else pg.company_at db i)
    pub event : EventAdded pg codec event_company_updated c db db'

  pub update_rest-Wrote :
      (c : Company) (w : W) (a : Company)
      → (update_rest c w).0 ≡ ok a
      → (a ≡ c) × Wrote c w.working (update_rest c w).1.working
  update_rest-Wrote c w a h =
      let (_, e1, h1, r1) =
        >>=_runs (wrapping "update company: " (update pg machine.State tx_ctx c)) _ w h in
      let (ran, matched) =
        update-ok pg machine.State w c
          (wrap_err-eq-ok _ (update pg machine.State tx_ctx c w).0 e1) in
      let w1 : W = (update pg machine.State tx_ctx c w).1 in
      let (_, e2, h2, r2) = >>=_runs (publish_updated c) _ w1 h1 in
      let (added, kept) =
        publish-EventAdded pg laws machine codec text event_company_updated c w1 e2 in
      let row = laws.updated c w.working ran.affected ran.succeeded in
      let w2 : W = (publish_updated c w1).1 in
      let same : w1.working ≡ (pg.exec (update_company c) w.working).1 =
        ap (λ (x : W). x.working) ran.after in
      let total : update_rest c w ≡ (ok c, w2) = r1 ∙ r2 in
      (
        ground arith,
        rw total (record {
          name_was_free = row.name_was_free matched;
          rows = λ i. kept.at i ∙ ap (λ (db : pg.Db). pg.company_at db i) same ∙ row.rows i;
          event = EventAdded-after pg codec (rw same row.outbox) added;
        }),
      )
