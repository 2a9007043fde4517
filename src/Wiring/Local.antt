-- ===== src/Wiring/Local.antt =====
-- Inside a transaction the repositories and the closures of the service leave the committed rows
-- alone.
use company_service.Common.{◌≡◌, String, Option, none, some, arith}
use company_service.Errors.{GoError}
use company_service.Action.{Result, Action}
use company_service.Action.Keeps.{Keeps, keeps_rules}
use company_service.Domain.{Uuid, Company, utc}
use company_service.Application.{Event, PatchInput}
use company_service.Json.{Codec}
use company_service.Service.{
  name_is_free, name_is_free_for, publish, create_in_tx, check_new_name, patch_in_tx, delete_in_tx,
  new_service_with_outbox, draw, Source,
}
use company_service.Postgres.{Postgres, Machine, World}
use company_service.Postgres.Companies.{
  create, update, delete, get_by_id, get_by_name, company_repository,
}
use company_service.Postgres.Outbox.{store, outbox_repository}
use company_service.Wiring.{tx_ctx, app_env, app_service, on_machine}

module _ (pg : Postgres) (M : Type 0) where
  abbrev pub Local : {A : Type 0} → Action (World pg.Db M) A → pg.Db → Type 0
  Local m db = Keeps (λ w. w.committed ≡ db) m

  module _ (db : pg.Db) where
    create-Local : (c : Company) → Local (create pg M tx_ctx c) db
    unfolding create
    create-Local c = record { at = λ w h. ground arith }

    update-Local : (c : Company) → Local (update pg M tx_ctx c) db
    unfolding update
    update-Local c = record { at = λ w h. ground arith }

    delete-Local : (id : Uuid) → Local (delete pg M tx_ctx id) db
    unfolding delete
    delete-Local id = record { at = λ w h. ground arith }

    get_by_id-Local : (id : Uuid) → Local (get_by_id pg M tx_ctx id) db
    unfolding get_by_id
    get_by_id-Local id = record { at = λ w h. ground arith }

    get_by_name-Local : (name : String) → Local (get_by_name pg M tx_ctx name) db
    unfolding get_by_name
    get_by_name-Local name = record { at = λ w h. ground arith }

    store-Local :
        (codec : Codec) (text : GoError → String) (e : Event)
        → Local (store pg M codec text tx_ctx e) db
    unfolding store
    store-Local codec text e = record { at = λ w h. ground arith }

    draw-Local :
        {A B : Type 0} (source : Source M A) (f : A → Action (World pg.Db M) B)
        → ((a : A) → Local (f a) db)
        → Local (draw (on_machine source) f) db
    draw-Local source f k = record { at = λ w h. (k (source w.machine).0).at _ h }

    name_is_free-Local : (r : Result Company) → Local (name_is_free r) db
    unfolding name_is_free
    name_is_free-Local r = record { at = λ w h. ground arith }

    name_is_free_for-Local : (id : Uuid) (r : Result Company) → Local (name_is_free_for id r) db
    unfolding name_is_free_for
    name_is_free_for-Local id r = record { at = λ w h. ground arith }

ruleset local_rules = (
  keeps_rules, create-Local, update-Local, delete-Local, get_by_id-Local, get_by_name-Local,
  store-Local, draw-Local, name_is_free-Local, name_is_free_for-Local,
)

module _ (pg : Postgres) (machine : Machine) (codec : Codec) (text : GoError → String)
    (db : pg.Db) where
  publish-Local :
      (kind : String) (c : Company)
      → Local pg machine.State
          (publish
            (app_env pg machine codec text)
            (app_service pg machine codec text)
            tx_ctx
            kind
            c)
          db
  unfolding publish app_service new_service_with_outbox outbox_repository
  publish-Local kind c = record {
    at = λ w h.
        let (id, m) = machine.uuid_new w.machine in
        let (t, m') = machine.time_now m in
        let event : Event = record {
          id = id;
          event_type = kind;
          occurred_at = utc t;
          company_id = c.id;
          company = some c;
        } in
        (store-Local pg machine.State db codec text event).at (record w { machine = m' }) h;
  }

  pub create_in_tx-Local :
      (c : Company)
      → Local pg machine.State
          (create_in_tx
            (app_env pg machine codec text)
            (app_service pg machine codec text)
            c
            tx_ctx)
          db
  unfolding create_in_tx app_service new_service_with_outbox company_repository
  create_in_tx-Local c = search (local_rules, publish-Local)

  pub delete_in_tx-Local :
      (id : Uuid)
      → Local pg machine.State
          (delete_in_tx
            (app_env pg machine codec text)
            (app_service pg machine codec text)
            id
            tx_ctx)
          db
  unfolding delete_in_tx app_service new_service_with_outbox company_repository
  delete_in_tx-Local id = search (local_rules, publish-Local)

  check_new_name-Local :
      (id : Uuid) (o : Option String)
      → Local pg machine.State
          (check_new_name
            (app_env pg machine codec text)
            (app_service pg machine codec text)
            tx_ctx
            id
            o)
          db
  unfolding check_new_name app_service new_service_with_outbox company_repository
  check_new_name-Local id none = search local_rules
  check_new_name-Local id (some name) = search local_rules

  pub patch_in_tx-Local :
      (id : Uuid) (input : PatchInput)
      → Local pg machine.State
          (patch_in_tx
            (app_env pg machine codec text)
            (app_service pg machine codec text)
            id
            input
            tx_ctx)
          db
  unfolding patch_in_tx app_service new_service_with_outbox company_repository
  patch_in_tx-Local id input = search (local_rules, publish-Local, check_new_name-Local) depth 9
