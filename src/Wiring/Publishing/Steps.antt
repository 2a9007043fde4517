-- ===== src/Wiring/Publishing/Steps.antt =====
-- What a mark that succeeds inside a transaction has done, and when it succeeds.
use company_service.Common.{◌≡◌, String, arith}
use company_service.Errors.{GoError}
use company_service.Action.{ok}
use company_service.Action.Inversion.{eq-ok_of_is_ok}
use company_service.Domain.{Uuid}
use company_service.Json.{Codec}
use company_service.Postgres.{Postgres, World, mark_published, mark_failed}
use company_service.Postgres.Outbox.{set_published, set_failed}
use company_service.Wiring.{tx_ctx}
use company_service.Wiring.Steps.{Ran}

module _ (pg : Postgres) {M : Type 0} (codec : Codec) (text : GoError → String) (w : World pg.Db M)
    (id : Uuid) where
  pub set_published-ok :
      (set_published pg M codec text tx_ctx id w).0 ≡ ok tt
      → Ran pg M w (mark_published id) (set_published pg M codec text tx_ctx id w).1
  unfolding set_published
  set_published-ok h =
      let (n, e) = eq-ok_of_is_ok (pg.exec (mark_published id) w.working).0 (ground arith) in
      record { affected = n; succeeded = e; after = ground arith }

  pub set_failed-ok :
      (publish_err : GoError)
      → (set_failed pg M codec text tx_ctx id publish_err w).0 ≡ ok tt
      → Ran pg M w
          (mark_failed id (text publish_err))
          (set_failed pg M codec text tx_ctx id publish_err w).1
  unfolding set_failed
  set_failed-ok publish_err h =
      let (n, e) =
        eq-ok_of_is_ok (pg.exec (mark_failed id (text publish_err)) w.working).0 (ground arith) in
      record { affected = n; succeeded = e; after = ground arith }
