-- ===== src/Wiring/System/Careful.antt =====
-- What one transaction does to the companies and the outbox together.
use company_service.Common.{
  ◌≡◌, ◌∙◌, refl, sym, Bool-cases, inl, inr, nat_eq_iff, ap, arith, some, nat_eq,
}
use company_service.Action.{Result, ok, err}
use company_service.Domain.{Uuid, Company}
use company_service.Application.{event_company_created, PatchInput}
use company_service.Json.{Codec}
use company_service.Postgres.{Postgres, World, OutboxRow}
use company_service.Postgres.Laws.{fresh_row}
use company_service.Wiring.Atomic.{Commits}
use company_service.Wiring.Spec.{Created, Removed, Changed}
use company_service.Wiring.NoLoss.{Grown-refl, OutboxGrows, EventAdded-OutboxGrows}

-- Each company was announced: the outbox has an event company.created for its identifier.
pub record Announced (pg : Postgres) (db : pg.Db) : Type 0 where
  pub at :
      (i : Uuid) (c : Company)
      → pg.company_at db i ≡ some c
      → (k : Uuid) × (row : OutboxRow) × (pg.outbox_at db k ≡ some row)
        × (row.event_type ≡ event_company_created)
        × (row.aggregate_id ≡ i)

-- A committed change keeps `P` from one database to the next.
pub Commits-keeps :
    (pg : Postgres) {M A : Type 0} (P : pg.Db → pg.Db → Type 0) (Q : A → pg.Db → pg.Db → Type 0)
    (w : World pg.Db M) (r : Result A × World pg.Db M)
    → Commits pg Q w r
    → ((db : pg.Db) → P db db)
    → ((a : A) (db db' : pg.Db) → Q a db db' → P db db')
    → P w.committed r.1.committed
Commits-keeps pg P Q w (ok a, w') h stay does = does a w.committed w'.committed h
Commits-keeps pg P Q w (err e, w') (inl same) stay does = rw same (stay w.committed)
Commits-keeps pg P Q w (err e, w') (inr d) stay does = does d.result w.committed w'.committed d.done

module _ (pg : Postgres) where
  -- What each transaction does to the two tables together.
  pub record Careful (db db' : pg.Db) : Type 0 where
    pub grows : OutboxGrows pg db db'
    pub announced : Announced pg db → Announced pg db'

  pub Careful-refl : (db : pg.Db) → Careful db db
  Careful-refl db = record {
    grows = record { at = λ k row there. (row, there, Grown-refl row) };
    announced = λ h. h;
  }

  -- No company is new.
  pub Careful-of_old :
      (db db' : pg.Db)
      → OutboxGrows pg db db'
      → ((i : Uuid) (c : Company)
          → pg.company_at db' i ≡ some c
          → (d : Company) × (pg.company_at db i ≡ some d))
      → Careful db db'
  Careful-of_old db db' grows old = record {
    grows = grows;
    announced = λ h. record {
      at = λ i c there.
          let (d, before) = old i c there in
          let (k, row, stands, kind, about) = h.at i d before in
          let (row', stands', grown) = grows.at k row stands in
          (k, row', stands', grown.event_type ∙ kind, grown.aggregate_id ∙ about);
    };
  }

  module _ (codec : Codec) (db db' : pg.Db) where
    pub Removed-Careful : (id : Uuid) (c : Company) → Removed pg codec id c db db' → Careful db db'
    Removed-Careful id c gone =
        Careful-of_old db db' (EventAdded-OutboxGrows pg codec _ c db db' gone.event)
          λ i d there. (d, ground (arith, gone.rows i))

    pub Changed-Careful :
        (id : Uuid) (input : PatchInput) (c : Company)
        → Changed pg codec id input c db db'
        → Careful db db'
    Changed-Careful id input c new =
        Careful-of_old db db' (EventAdded-OutboxGrows pg codec _ c db db' new.event) λ i d there.
          elim (Bool-cases (nat_eq id i)) [
            | inl hit ↦
                (new.row, ap (pg.company_at db) (sym ((nat_eq_iff id i).0 hit)) ∙ new.was_there)
            | inr miss ↦ (d, ground (arith, new.rows i))
          ]

    pub Created-Careful : (c : Company) → Created pg codec c db db' → Careful db db'
    Created-Careful c made = record {
      grows = EventAdded-OutboxGrows pg codec event_company_created c db db' made.event;
      announced = λ h. record {
        at = λ i d there. elim (Bool-cases (nat_eq c.id i)) [
          | inl hit ↦ (
            made.event.event.id,
            fresh_row pg made.event.event.id event_company_created c.id made.event.payload
                made.event.event.occurred_at made.event.available_at,
            ground (arith, made.event.rows made.event.event.id),
            refl,
            (nat_eq_iff c.id i).0 hit,
          )
          | inr miss ↦
              let (k, row, stands, kind, about) = h.at i d (ground (arith, made.rows i)) in
              let (row', stands', grown) =
                (EventAdded-OutboxGrows pg codec event_company_created c db db' made.event).at k row
                  stands in
              (k, row', stands', grown.event_type ∙ kind, grown.aggregate_id ∙ about)
        ];
      };
    }
