-- ===== src/Wiring/Steps.antt =====
-- What a repository call that succeeds inside a transaction has done.
use company_service.Common.{◌≡◌, ◌≢◌, true, String, ℕ, arith}
use company_service.Errors.{GoError}
use company_service.Action.{ok}
use company_service.Action.Inversion.{eq-ok_of_is_ok}
use company_service.Domain.{Uuid, Company}
use company_service.Application.{Context, Event}
use company_service.Json.{Json, Codec}
use company_service.Json.Events.{marshal_event}
use company_service.Postgres.{
  Postgres, World, seen, insert_company, update_company, delete_company, select_by_id,
  insert_outbox_event, Statement,
}
use company_service.Postgres.Laws.{loaded}
use company_service.Postgres.Companies.{create, update, delete, get_by_id, get_by_name}
use company_service.Postgres.Outbox.{store}

abbrev tx : Context
tx = record { has_tx = true }

module _ (pg : Postgres) (M : Type 0) (w : World pg.Db M) where
  -- The statement ran on the rows of the transaction, and nothing else changed.
  pub record Ran (st : Statement) (w' : World pg.Db M) : Type 0 where
    pub affected : ℕ
    pub succeeded : (pg.exec st w.working).0 ≡ ok affected
    pub after : w' ≡ record w { working = (pg.exec st w.working).1 }

  pub create-ok :
      (c : Company) → (create pg M tx c w).0 ≡ ok tt → Ran (insert_company c) (create pg M tx c w).1
  unfolding create
  create-ok c h =
      let (n, e) = eq-ok_of_is_ok (pg.exec (insert_company c) w.working).0 (ground arith) in
      record { affected = n; succeeded = e; after = ground arith }

  pub update-ok :
      (c : Company)
      → (update pg M tx c w).0 ≡ ok tt
      → (r : Ran (update_company c) (update pg M tx c w).1) × (r.affected ≢ 0)
  unfolding update
  update-ok c h =
      let (n, e) = eq-ok_of_is_ok (pg.exec (update_company c) w.working).0 (ground arith) in
      (record { affected = n; succeeded = e; after = ground arith }, ground arith)

  pub delete-ok :
      (id : Uuid)
      → (delete pg M tx id w).0 ≡ ok tt
      → (r : Ran (delete_company id) (delete pg M tx id w).1) × (r.affected ≢ 0)
  unfolding delete
  delete-ok id h =
      let (n, e) = eq-ok_of_is_ok (pg.exec (delete_company id) w.working).0 (ground arith) in
      (record { affected = n; succeeded = e; after = ground arith }, ground arith)

  pub get_by_id-ok :
      (ctx : Context) (id : Uuid) (c : Company)
      → (get_by_id pg M ctx id w).0 ≡ ok c
      → (row : Company) × (pg.query_company (select_by_id id) (seen ctx w) ≡ ok row)
        × (c ≡ loaded row)
  unfolding get_by_id seen
  get_by_id-ok ctx id c h =
      let (row, e) =
        eq-ok_of_is_ok (pg.query_company (select_by_id id) (seen ctx w)) (ground arith) in
      (row, e, ground arith)

  -- Reads leave the state as it is.
  pub get_by_id_keeps : (ctx : Context) (id : Uuid) → (get_by_id pg M ctx id w).1 ≡ w
  unfolding get_by_id
  get_by_id_keeps ctx id = ground arith

  pub get_by_name_keeps : (ctx : Context) (name : String) → (get_by_name pg M ctx name w).1 ≡ w
  unfolding get_by_name
  get_by_name_keeps ctx name = ground arith

  -- The event that `store` inserts.
  abbrev pub insert_event : Event → Json → Statement
  insert_event e payload = insert_outbox_event e.id e.event_type e.company_id payload e.occurred_at

  pub store-ok :
      (codec : Codec) (text : GoError → String) (e : Event)
      → (store pg M codec text tx e w).0 ≡ ok tt
      → (payload : Json) × (marshal_event codec e ≡ ok payload)
        × Ran (insert_event e payload) (store pg M codec text tx e w).1
  unfolding store
  store-ok codec text e h =
      let (payload, m) = eq-ok_of_is_ok (marshal_event codec e) (ground arith) in
      let (n, x) = eq-ok_of_is_ok (pg.exec (insert_event e payload) w.working).0 (ground arith) in
      (payload, m, record { affected = n; succeeded = x; after = ground arith })
