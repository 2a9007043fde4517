-- ===== src/Wiring/Publish.antt =====
-- What `publish` has done to the outbox, inside a transaction.
use company_service.Common.{◌≡◌, refl, String, some}
use company_service.Errors.{GoError}
use company_service.Action.{ok}
use company_service.Action.Inversion.{wrap_err-eq-ok}
use company_service.Domain.{Company, utc}
use company_service.Application.{Event}
use company_service.Json.{Codec}
use company_service.Service.{publish, new_service_with_outbox}
use company_service.Postgres.{Postgres, Machine, World}
use company_service.Postgres.Laws.{PostgresLaws, SameCompanies}
use company_service.Postgres.Outbox.{store, outbox_repository}
use company_service.Wiring.{tx_ctx, app_env, app_service}
use company_service.Wiring.Steps.{store-ok}
use company_service.Wiring.Spec.{EventAdded}

module _ (pg : Postgres) (laws : PostgresLaws pg) (machine : Machine) (codec : Codec)
    (text : GoError → String) where
  pub publish-EventAdded :
      (kind : String) (c : Company) (w : World pg.Db machine.State)
      → (publish
          (app_env pg machine codec text)
          (app_service pg machine codec text)
          tx_ctx
          kind
          c
          w).0
        ≡ ok tt
      → EventAdded pg codec kind c w.working
          (publish
            (app_env pg machine codec text)
            (app_service pg machine codec text)
            tx_ctx
            kind
            c
            w).1.working
        × SameCompanies pg w.working
            (publish
              (app_env pg machine codec text)
              (app_service pg machine codec text)
              tx_ctx
              kind
              c
              w).1.working
  unfolding publish app_service new_service_with_outbox outbox_repository utc
  publish-EventAdded kind c w h =
      let (id, m) = machine.uuid_new w.machine in
      let (t, m') = machine.time_now m in
      let w' : World pg.Db machine.State = record w { machine = m' } in
      let event : Event = record {
        id = id;
        event_type = kind;
        occurred_at = utc t;
        company_id = c.id;
        company = some c;
      } in
      let (payload, encoded, ran) =
        store-ok pg machine.State w' codec text event
          (wrap_err-eq-ok _ (store pg machine.State codec text tx_ctx event w').0 h) in
      let added =
        laws.event_inserted id kind c.id payload (utc t) w.working ran.affected ran.succeeded in
      rw ran.after (
        record {
          event = event;
          payload = payload;
          kind_of = refl;
          about = refl;
          about_id = refl;
          at_utc = refl;
          encoded = encoded;
          id_was_free = added.id_was_free;
          available_at = pg.now w.working;
          due = added.forward;
          rows = added.rows;
        },
        added.companies,
      )
