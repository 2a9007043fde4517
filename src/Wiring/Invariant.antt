-- ===== src/Wiring/Invariant.antt =====
-- The stored companies stay valid and their names distinct, whatever requests are served.
use company_service.Common.{◌≡◌, String, some, arith, List, [], ◌∷◌, inl, inr}
use company_service.Errors.{GoError}
use company_service.Action.{Result, ok, err}
use company_service.Domain.{Uuid, Company}
use company_service.Domain.Validation.{IsValid}
use company_service.Application.{CreateInput, PatchInput}
use company_service.Json.{Codec}
use company_service.Service.{
  create_company, patch_company, delete_company, get_company, new_service_with_outbox,
}
use company_service.Postgres.{Postgres, Machine, World}
use company_service.Postgres.Laws.{PostgresLaws, loaded}
use company_service.Postgres.Companies.{company_repository}
use company_service.Wiring.{request_ctx, app_env, app_service}
use company_service.Wiring.Atomic.{Commits}
use company_service.Wiring.Spec.{Created, Removed, Changed}
use company_service.Wiring.Create.{CreateSpec, create_company-Commits}
use company_service.Wiring.Patch.{patch_company-Commits}
use company_service.Wiring.Delete.{delete_company-Commits}
use company_service.Wiring.Steps.{get_by_id_keeps}

module _ (pg : Postgres) where
  -- Every row holds a valid company, and no two rows have one name.
  pub record IsGood (db : pg.Db) : Type 0 where
    pub valid : (i : Uuid) (row : Company) → pg.company_at db i ≡ some row → IsValid (loaded row)
    pub distinct :
        (i j : Uuid) (a b : Company)
        → pg.company_at db i ≡ some a
        → pg.company_at db j ≡ some b
        → a.name ≡ b.name
        → i ≡ j

  module _ (codec : Codec) {db db' : pg.Db} (good : IsGood db) where
    Created-IsGood : {c : Company} → IsValid c → Created pg codec c db db' → IsGood db'
    Created-IsGood {c} v made = record {
      valid = λ i row at. ground (arith, made.rows i, good.valid i row);
      distinct = λ i j a b at_i at_j same. ground (
        arith,
        made.rows i,
        made.rows j,
        good.distinct i j a b,
        made.name_was_free.at i a,
        made.name_was_free.at j b,
      );
    }

    Removed-IsGood : {id : Uuid} {c : Company} → Removed pg codec id c db db' → IsGood db'
    Removed-IsGood gone = record {
      valid = λ i row at. ground (arith, gone.rows i, good.valid i row);
      distinct =
          λ i j a b at_i at_j same. ground (arith, gone.rows i, gone.rows j, good.distinct i j a b);
    }

    Changed-IsGood :
        {id : Uuid} {input : PatchInput} {c : Company}
        → Changed pg codec id input c db db'
        → IsGood db'
    Changed-IsGood {id} new = record {
      valid = λ i row at.
          ground
            (arith, new.rows i, good.valid i row, new.stays (good.valid id new.row new.was_there));
      distinct = λ i j a b at_i at_j same. ground (
        arith,
        new.rows i,
        new.rows j,
        good.distinct i j a b,
        new.name_was_free i a,
        new.name_was_free j b,
      );
    }

Commits-IsGood :
    (pg : Postgres) {M A : Type 0} (Q : A → pg.Db → pg.Db → Type 0) (w : World pg.Db M)
    (r : Result A × World pg.Db M)
    → Commits pg Q w r
    → ((a : A) (db db' : pg.Db) → Q a db db' → IsGood pg db → IsGood pg db')
    → IsGood pg w.committed
    → IsGood pg r.1.committed
Commits-IsGood pg Q w (ok a, w') h keep good = keep a w.committed w'.committed h good
Commits-IsGood pg Q w (err e, w') (inl same) keep good = rw same good
Commits-IsGood pg Q w (err e, w') (inr d) keep good =
    keep d.result w.committed w'.committed d.done good

-- A use case that a request asks for.
pub data Call : Type 0 where
  create : CreateInput → Call
  patch : Uuid → PatchInput → Call
  delete get : Uuid → Call

module _ (pg : Postgres) (machine : Machine) (codec : Codec) (text : GoError → String) where
  abbrev W : Type 0
  W = World pg.Db machine.State

  -- The state behind the interfaces after a call, whether it succeeded or not.
  unfoldable pub serve_call : Call → W → W
  serve_call (create input) w =
      (create_company (app_env pg machine codec text) (app_service pg machine codec text)
        request_ctx input w).1
  serve_call (patch id input) w =
      (patch_company (app_env pg machine codec text) (app_service pg machine codec text) request_ctx
        id input w).1
  serve_call (delete id) w =
      (delete_company (app_env pg machine codec text) (app_service pg machine codec text)
        request_ctx id w).1
  serve_call (get id) w =
      (get_company (app_env pg machine codec text) (app_service pg machine codec text) request_ctx
        id w).1

  unfoldable pub serve : List Call → W → W
  serve [] w = w
  serve (call ∷ calls) w = serve calls (serve_call call w)

  module _ (laws : PostgresLaws pg) where
    pub serve_call-IsGood :
        (call : Call) (w : W) → IsGood pg w.committed → IsGood pg (serve_call call w).committed
    unfolding serve_call get_company app_service new_service_with_outbox company_repository
    serve_call-IsGood (create input) w good =
        Commits-IsGood pg (CreateSpec pg laws machine codec text input) w _
          (create_company-Commits pg laws machine codec text input w)
          (λ c db db' (made, created) good. Created-IsGood pg codec good made.valid created) good
    serve_call-IsGood (patch id input) w good =
        Commits-IsGood pg (Changed pg codec id input) w _
          (patch_company-Commits pg laws machine codec text id input w)
          (λ c db db' changed good. Changed-IsGood pg codec good changed) good
    serve_call-IsGood (delete id) w good =
        Commits-IsGood pg {A = Unit} (λ _ db db'. (c : Company) × Removed pg codec id c db db') w _
          (delete_company-Commits pg laws machine codec text id w)
          (λ _ db db' (c, gone) good. Removed-IsGood pg codec good gone) good
    serve_call-IsGood (get id) w good = rw (get_by_id_keeps pg machine.State w request_ctx id) good

    -- Whatever calls are served, and whichever of them fail: if at the start every stored company is
    -- valid and no two have one name, then so it is at the end.
    pub serve-IsGood :
        (calls : List Call) (w : W) → IsGood pg w.committed → IsGood pg (serve calls w).committed
    unfolding serve
    serve-IsGood [] w good = good
    serve-IsGood (call ∷ calls) w good =
        serve-IsGood calls (serve_call call w) (serve_call-IsGood call w good)
