-- ===== src/Wiring/Patch.antt =====
-- PatchCompany on PostgreSQL.
pub mod Written
use mathlib.Core.Path.{subst}
use company_service.Common.{
  inl, inr, ◌≡◌, ◌≢◌, refl, ap, String, Option, none, some, arith, sym, ◌∙◌, Bool-cases, nat_eq,
  if◌then◌else◌,
}
use company_service.Common.Text.{trim_space}
use company_service.Errors.{GoError}
use company_service.Action.{Result, ok, Action, wrapping, pure, lift, ◌>>=◌, ◌>>◌}
use company_service.Action.Inversion.{wrap_err-eq-ok, >>=_runs}
use company_service.Domain.{Uuid, Time, Company, Patch, apply_patch, is_empty_patch}
use company_service.Domain.Validation.{IsValid}
use company_service.Domain.Patching.{patched, apply_patch-Stays}
use company_service.Domain.Patching.Outcome.{apply_patch-eq-patched}
use company_service.Application.{event_company_updated, PatchInput}
use company_service.Json.{Codec}
use company_service.Service.{
  publish, new_service_with_outbox, patch_in_tx, patch_company, within_transaction, patch_of,
  on_receiver, check_new_name, name_is_free_for, draw,
}
use company_service.Postgres.{Postgres, Machine, World, update_company, seen}
use company_service.Postgres.Laws.{PostgresLaws, loaded, overwritten}
use company_service.Postgres.Companies.{update, get_by_id, company_repository}
use company_service.Postgres.Tx.{transaction_manager}
use company_service.Wiring.{tx_ctx, request_ctx, app_env, app_service}
use company_service.Wiring.Atomic.{Commits, within_transaction-Commits}
use company_service.Wiring.Local.{patch_in_tx-Local}
use company_service.Wiring.Steps.{update-ok, get_by_id-ok, get_by_id_keeps, get_by_name_keeps}
use company_service.Wiring.Spec.{EventAdded, Changed, EventAdded-after}
use company_service.Wiring.Publish.{publish-EventAdded}
use company_service.Wiring.Patch.Written.{update_rest, Wrote, update_rest-Wrote}

-- What a successful ApplyPatch says of the company.
on_receiver-eq-ok :
    (now : Time) (p : Patch) (c d : Company)
    → on_receiver c (apply_patch now p) ≡ ok d
    → ((apply_patch now p c).0 ≡ ok tt) × (d ≡ (apply_patch now p c).1)
on_receiver-eq-ok now p c d h = ground arith

module _ (pg : Postgres) (laws : PostgresLaws pg) (machine : Machine) (codec : Codec)
    (text : GoError → String) where
  abbrev W : Type 0
  W = World pg.Db machine.State

  abbrev load : Uuid → Action W Company
  load id = wrapping "get company by id: " (get_by_id pg machine.State tx_ctx id)

  abbrev name_check : Uuid → PatchInput → Action W Unit
  name_check id input =
      check_new_name (app_env pg machine codec text) (app_service pg machine codec text) tx_ctx id
        input.name

  name_check_keeps :
      (id : Uuid) (o : Option String) (w : W)
      → (check_new_name
          (app_env pg machine codec text)
          (app_service pg machine codec text)
          tx_ctx
          id
          o
          w).1
        ≡ w
  unfolding check_new_name name_is_free_for app_service new_service_with_outbox company_repository
  name_check_keeps id none w = refl
  name_check_keeps id (some name) w =
      ground (arith, get_by_name_keeps pg machine.State w tx_ctx (trim_space name))

  -- What PatchCompany does once it has loaded the company and checked the name.
  abbrev apply_rest : PatchInput → Company → Action W Company
  apply_rest input existing = draw (app_env pg machine codec text).time_now pure >>= λ now.
      wrapping "apply company patch: "
        (lift (on_receiver existing (apply_patch now (patch_of input))))
      >>= update_rest pg laws machine codec text

  patch_in_tx_split :
      (id : Uuid) (input : PatchInput) (w : W) (a : Company)
      → (patch_in_tx
          (app_env pg machine codec text)
          (app_service pg machine codec text)
          id
          input
          tx_ctx
          w).0
        ≡ ok a
      → (existing : Company) × ((get_by_id pg machine.State tx_ctx id w).0 ≡ ok existing)
        × (patch_in_tx
              (app_env pg machine codec text)
              (app_service pg machine codec text)
              id
              input
              tx_ctx
              w
            ≡ apply_rest input existing w)
  unfolding patch_in_tx app_service new_service_with_outbox company_repository
  patch_in_tx_split id input w a h =
      let (existing, e0, h0, r0) = >>=_runs (load id) _ w h in
      let back : (get_by_id pg machine.State tx_ctx id w).1 ≡ w =
        get_by_id_keeps pg machine.State w tx_ctx id in
      let (_, _, h1, r1) =
        >>=_runs (name_check id input) (λ _. apply_rest input existing) w (rw back at h0) in
      (
        existing,
        wrap_err-eq-ok _ (get_by_id pg machine.State tx_ctx id w).0 e0,
        r0
            ∙ ap (name_check id input >> apply_rest input existing) back
            ∙ r1
            ∙ ap (apply_rest input existing) (name_check_keeps id input.name w),
      )

  Wrote-Changed :
      (id : Uuid) (input : PatchInput) (row : Company) (now : Time) (d : Company) (db db' : pg.Db)
      → pg.company_at db id ≡ some row
      → d ≡ patched now (patch_of input) (loaded row)
      → d.id ≡ id
      → (IsValid (loaded row) → IsValid d)
      → Wrote pg laws machine codec text d db db'
      → Changed pg codec id input d db db'
  Wrote-Changed id input row now d db db' there is_patched same_id stays wrote = record {
    row = row;
    was_there = there;
    now = now;
    company = is_patched;
    stays = stays;
    name_was_free = λ i e at ne. wrote.name_was_free i e at (λ same. ne (same ∙ same_id));
    rows = λ i. ground (arith, wrote.rows i, ap (λ (j : Uuid). pg.company_at db j) same_id);
    event = wrote.event;
  }

  apply_rest-Changed :
      (id : Uuid) (input : PatchInput) (row : Company) (w : W) (a : Company)
      → pg.company_at w.working id ≡ some row
      → (apply_rest input (loaded row) w).0 ≡ ok a
      → Changed pg codec id input a w.working (apply_rest input (loaded row) w).1.working
  apply_rest-Changed id input row w a there h =
      let (now, m) = machine.time_now w.machine in
      let w' : W = record w { machine = m } in
      let (d, e1, h1, r1) =
        >>=_runs
          (wrapping "apply company patch: "
            (lift (on_receiver (loaded row) (apply_patch now (patch_of input)))))
          (update_rest pg laws machine codec text) w' h in
      let (applied, is_d) =
        on_receiver-eq-ok now (patch_of input) (loaded row) d (wrap_err-eq-ok _ _ e1) in
      let (is_a, wrote) = update_rest-Wrote pg laws machine codec text d w' a h1 in
      let is_patched : d ≡ patched now (patch_of input) (loaded row) =
        is_d ∙ apply_patch-eq-patched now (patch_of input) (loaded row) applied in
      let changed : Changed pg codec id input d w.working
          (update_rest pg laws machine codec text d w').1.working =
        Wrote-Changed id input row now d w.working
          (update_rest pg laws machine codec text d w').1.working there is_patched
          (ap (λ (x : Company). x.id) is_patched ∙ laws.keyed w.working id row there)
          (λ v. rw is_d (apply_patch-Stays now (patch_of input) (loaded row) v).valid) wrote in
      subst (λ (r : Result Company × W). Changed pg codec id input a w.working r.1.working) (sym r1)
        (subst
          (λ (x : Company).
            Changed pg codec id input x w.working
              (update_rest pg laws machine codec text d w').1.working)
          (sym is_a) changed)

  patch_in_tx-Changed :
      (id : Uuid) (input : PatchInput) (w : W) (a : Company)
      → (patch_in_tx
          (app_env pg machine codec text)
          (app_service pg machine codec text)
          id
          input
          tx_ctx
          w).0
        ≡ ok a
      → Changed pg codec id input a w.working
          (patch_in_tx
            (app_env pg machine codec text)
            (app_service pg machine codec text)
            id
            input
            tx_ctx
            w).1.working
  unfolding seen
  patch_in_tx-Changed id input w a h =
      let (c, e0, whole) = patch_in_tx_split id input w a h in
      let (row, found, is_row) = get_by_id-ok pg machine.State w tx_ctx id c e0 in
      let same = whole ∙ ap (λ (x : Company). apply_rest input x w) is_row in
      subst (λ (r : Result Company × W). Changed pg codec id input a w.working r.1.working)
        (sym same)
        (apply_rest-Changed id input row w a (laws.found_by_id w.working id row found)
          (sym (ap (λ (r : Result Company × W). r.0) same) ∙ h))

  -- PatchCompany on PostgreSQL, however it ends. An error leaves the committed rows as they were,
  -- unless it is the error of Commit, which may leave what a success leaves. A success needs a row with the identifier. It leaves there the company with the fields of the
  -- patch, under a name that no other row has, touches no other row of companies, and adds exactly
  -- one event company.updated with that company.
  pub patch_company-Commits :
      (id : Uuid) (input : PatchInput) (w : W)
      → Commits pg {M = machine.State} (Changed pg codec id input) w (
          patch_company
            (app_env pg machine codec text)
            (app_service pg machine codec text)
            request_ctx
            id
            input
            w)
  unfolding patch_company within_transaction app_service new_service_with_outbox transaction_manager
  patch_company-Commits id input w = elim (Bool-cases (is_empty_patch (patch_of input))) [
    | inl empty ↦ rw empty (inl refl)
    | inr full ↦ rw full (
        within_transaction-Commits pg text (Changed pg codec id input)
          (patch_in_tx (app_env pg machine codec text) (app_service pg machine codec text) id input)
          w (λ db. patch_in_tx-Local pg machine codec text db id input)
          (patch_in_tx-Changed id input))
  ]
