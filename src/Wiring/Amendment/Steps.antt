-- ===== src/Wiring/Amendment/Steps.antt =====
-- The closure of PatchCompany with a database that is reachable.
use company_service.Common.{
  ◌≡◌, ◌≢◌, ◌∙◌, refl, sym, ap, subst, String, false, Option, none, some, inl, inr,
}
use company_service.Common.Text.{trim_space}
use company_service.Errors.{GoError, duplicate_name, not_found, wrap}
use company_service.Action.{Result, ok, err}
use company_service.Domain.{Uuid, Time, Company, utc, apply_patch, is_empty_patch}
use company_service.Domain.Validation.{IsValid}
use company_service.Domain.Patching.{IsAcceptable, or_trim, patched}
use company_service.Domain.Patching.Outcome.{apply_patch_accepts, patched-IsValid}
use company_service.Application.{PatchInput, event_company_updated}
use company_service.Json.{Codec}
use company_service.Service.{
  check_new_name, patch_in_tx, patch_of, on_receiver, new_service_with_outbox,
}
use company_service.Postgres.{Postgres, Machine, World, update_company, seen}
use company_service.Postgres.Laws.{PostgresLaws, loaded}
use company_service.Postgres.Available.{
  Available, FitsColumn, FreeFor, NoNul, IsTimestamp, PlainCodec,
}
use company_service.Postgres.Companies.{company_repository, update}
use company_service.Wiring.{tx_ctx, app_env, app_service}
use company_service.Wiring.Success.{publish_succeeds}
use company_service.Wiring.Removal.{get_by_id_succeeds, get_by_id_fails}
use company_service.Wiring.Amendment.{name_check_passes, name_check_refuses}

module _ (pg : Postgres) (up : Available pg) (laws : PostgresLaws pg) (machine : Machine)
    (codec : Codec) (plain : PlainCodec codec) (text : GoError → String) where
  abbrev W : Type 0
  W = World pg.Db machine.State

  -- What the clock and the source of identifiers give to PatchCompany, in their order.
  abbrev pub patch_now : W → Time
  patch_now w = (machine.time_now w.machine).0

  abbrev pub ticked : W → W
  ticked w = record w { machine = (machine.time_now w.machine).1 }

  abbrev pub amendment_id : W → Uuid
  amendment_id w = (machine.uuid_new (ticked w).machine).0

  abbrev pub amendment_now : W → Time
  amendment_now w = (machine.time_now (machine.uuid_new (ticked w).machine).1).0

  -- The company that a patch makes of a row.
  abbrev pub amended : PatchInput → Company → W → Company
  amended input row w = patched (patch_now w) (patch_of input) (loaded row)

  update_succeeds :
      (c row : Company) (w : W)
      → pg.company_at w.working c.id ≡ some row
      → FreeFor pg w.working c.id c.name
      → IsValid c
      → FitsColumn c
      → update pg machine.State tx_ctx c w
        ≡ (ok tt, record w { working = (pg.exec (update_company c) w.working).1 })
  unfolding update
  update_succeeds c row w there free valid fits =
      let (n, ran) = up.updates w.working c row there free valid fits in
      let matched = (laws.updated c w.working n ran).matched in
      let one : n ≡ 1 = matched ∙ rw there refl in rw (up.builds _, ran, one) refl

  check_passes :
      (id : Uuid) (row : Company) (o : Option String) (w : W)
      → pg.company_at w.working id ≡ some row
      → NoNul (or_trim o row.name)
      → FreeFor pg w.working id (or_trim o row.name)
      → check_new_name
          (app_env pg machine codec text)
          (app_service pg machine codec text)
          tx_ctx
          id
          o
          w
        ≡ (ok tt, w)
  unfolding check_new_name app_service new_service_with_outbox company_repository
  check_passes id row none w there plain_name free = refl
  check_passes id row (some s) w there plain_name free =
      name_check_passes pg up laws id row (trim_space s) w there plain_name free

  check_refuses :
      (id : Uuid) (row : Company) (s : String) (w : W) (i : Uuid) (d : Company)
      → pg.company_at w.working id ≡ some row
      → pg.company_at w.working i ≡ some d
      → d.name ≡ trim_space s
      → row.name ≢ trim_space s
      → check_new_name
          (app_env pg machine codec text)
          (app_service pg machine codec text)
          tx_ctx
          id
          (some s)
          w
        ≡ (err (wrap "patch company: " duplicate_name), w)
  unfolding check_new_name app_service new_service_with_outbox company_repository
  check_refuses id row s w i d there d_there same other =
      name_check_refuses pg up laws id row (trim_space s) w there i d d_there same other

  pub patch_in_tx_misses :
      (id : Uuid) (input : PatchInput) (w : W)
      → pg.company_at w.working id ≡ none
      → (patch_in_tx
          (app_env pg machine codec text)
          (app_service pg machine codec text)
          id
          input
          tx_ctx
          w).0
        ≡ err (
            wrap "get company by id: "
              (wrap "get company by id: " (wrap "scan company: " not_found)))
  unfolding patch_in_tx app_service new_service_with_outbox company_repository seen
  patch_in_tx_misses id input w missing = rw (get_by_id_fails pg up tx_ctx id w missing) refl

  pub patch_in_tx_taken :
      (id : Uuid) (input : PatchInput) (row : Company) (s : String) (w : W) (i : Uuid) (d : Company)
      → pg.company_at w.working id ≡ some row
      → input.name ≡ some s
      → pg.company_at w.working i ≡ some d
      → d.name ≡ trim_space s
      → row.name ≢ trim_space s
      → (patch_in_tx
          (app_env pg machine codec text)
          (app_service pg machine codec text)
          id
          input
          tx_ctx
          w).0
        ≡ err (wrap "patch company: " duplicate_name)
  unfolding patch_in_tx app_service new_service_with_outbox company_repository seen
  patch_in_tx_taken id input row s w i d there given d_there same other =
      rw (get_by_id_succeeds pg up tx_ctx id row w there)
        (rw given (rw (check_refuses id row s w i d there d_there same other) refl))

  module _ (id : Uuid) (input : PatchInput) (row : Company) (w : W)
      (there : pg.company_at w.working id ≡ some row)
      (plain_name : NoNul (or_trim input.name row.name))
      (free : FreeFor pg w.working id (or_trim input.name row.name)) where
    -- An error of ApplyPatch is that of the closure.
    pub patch_in_tx_refused :
        (e : GoError)
        → (apply_patch (patch_now w) (patch_of input) (loaded row)).0 ≡ err e
        → (patch_in_tx
            (app_env pg machine codec text)
            (app_service pg machine codec text)
            id
            input
            tx_ctx
            w).0
          ≡ err (wrap "apply company patch: " e)
    unfolding patch_in_tx app_service new_service_with_outbox company_repository seen
    patch_in_tx_refused e refused = rw (get_by_id_succeeds pg up tx_ctx id row w there) (
        rw (check_passes id row input.name w there plain_name free)
          (rw (on_receiver, refused) refl))

    pub patch_in_tx_succeeds :
        (created updated occurred : String)
        → is_empty_patch (patch_of input) ≡ false
        → IsAcceptable (patch_of input)
        → IsValid (loaded row)
        → FitsColumn (amended input row w)
        → IsTimestamp (utc (amendment_now w))
        → pg.outbox_at w.working (amendment_id w) ≡ none
        → codec.time_text (utc row.created_at) ≡ ok created
        → codec.time_text (utc (patch_now w)) ≡ ok updated
        → codec.time_text (utc (amendment_now w)) ≡ ok occurred
        → (patch_in_tx
            (app_env pg machine codec text)
            (app_service pg machine codec text)
            id
            input
            tx_ctx
            w).0
          ≡ ok (amended input row w)
    unfolding patch_in_tx app_service new_service_with_outbox company_repository seen
    patch_in_tx_succeeds created updated occurred full acceptable valid fits stamp event_free h h'
          h'' =
        let c : Company = amended input row w in
        let valid' : IsValid c =
          patched-IsValid (patch_now w) (patch_of input) (loaded row) acceptable valid in
        let same : row.id ≡ id = laws.keyed w.working id row there in
        let c_there : pg.company_at w.working c.id ≡ some row =
          ap (pg.company_at w.working) same ∙ there in
        let c_free : FreeFor pg w.working c.id c.name =
          subst (λ (k : Uuid). FreeFor pg w.working k c.name) (sym same) free in
        let (n, ran) = up.updates w.working c row c_there c_free valid' fits in
        let done = laws.updated c w.working n ran in
        let accepted =
          apply_patch_accepts (patch_now w) (patch_of input) (loaded row) valid full acceptable in
        let w' : W = record (ticked w) { working = (pg.exec (update_company c) w.working).1 } in
        let published =
          publish_succeeds pg up laws machine codec plain text event_company_updated c w' created
            updated occurred (inr (inl refl)) valid' fits stamp h h' h''
            (done.outbox.at _ ∙ event_free) in
        rw (get_by_id_succeeds pg up tx_ctx id row w there) (
          rw (check_passes id row input.name w there plain_name free) (
            rw
              (
                on_receiver,
                ap (λ (r : Result Unit × Company). r.0) accepted,
                ap (λ (r : Result Unit × Company). r.1) accepted,
              )
              (rw (update_succeeds c row (ticked w) c_there c_free valid' fits)
                (rw published refl))))
