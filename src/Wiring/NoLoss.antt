-- ===== src/Wiring/NoLoss.antt =====
-- The outbox only grows: what a use case or a batch leaves of the rows that were there.
use company_service.Common.{
  ℕ, ◌≡◌, ◌≢◌, ◌≤◌, ◌⊎◌, inl, inr, ◌∙◌, refl, sym, ap, arith, String, Option, none, some, List, [],
  ◌∷◌, nat_eq, nat_eq_iff, Bool-cases,
}
use company_service.Errors.{GoError}
use company_service.Action.{Result, ok, err}
use company_service.Domain.{Uuid, Company}
use company_service.Application.{OutboxEvent, EventProducer}
use company_service.Json.{Codec}
use company_service.Postgres.{OutboxRow, Postgres}
use company_service.Postgres.Laws.{SameOutbox}
use company_service.Wiring.{tx_ctx}
use company_service.Wiring.Spec.{EventAdded}
use company_service.Wiring.Publishing.Spec.{Fresh, settled, Each, Batched}

-- The row of the same event, tried no less often, and still published if it was.
pub record Grown (row row' : OutboxRow) : Type 0 where
  pub id : row'.id ≡ row.id
  pub event_type : row'.event_type ≡ row.event_type
  pub aggregate_id : row'.aggregate_id ≡ row.aggregate_id
  pub payload : row'.payload ≡ row.payload
  pub created_at : row'.created_at ≡ row.created_at
  pub attempts : row.attempts ≤ row'.attempts
  pub published : row.published_at ≢ none → row'.published_at ≢ none

pub Grown-refl : (row : OutboxRow) → Grown row row
Grown-refl row = record {
  id = refl;
  event_type = refl;
  aggregate_id = refl;
  payload = refl;
  created_at = refl;
  attempts = omega arith;
  published = λ h. h;
}

Grown-trans : (a b c : OutboxRow) → Grown a b → Grown b c → Grown a c
Grown-trans a b c f g = record {
  id = g.id ∙ f.id;
  event_type = g.event_type ∙ f.event_type;
  aggregate_id = g.aggregate_id ∙ f.aggregate_id;
  payload = g.payload ∙ f.payload;
  created_at = g.created_at ∙ f.created_at;
  attempts = omega (arith, f.attempts, g.attempts);
  published = λ h. g.published (f.published h);
}

module _ (pg : Postgres) where
  abbrev GrownAt : OutboxRow → Option OutboxRow → Type 0
  GrownAt row o = (row' : OutboxRow) × (o ≡ some row') × Grown row row'

  -- No row of the outbox was lost or forged.
  pub record OutboxGrows (db db' : pg.Db) : Type 0 where
    pub at :
        (k : Uuid) (row : OutboxRow)
        → pg.outbox_at db k ≡ some row
        → (row' : OutboxRow) × (pg.outbox_at db' k ≡ some row') × Grown row row'

  pub OutboxGrows-trans : (a b c : pg.Db) → OutboxGrows a b → OutboxGrows b c → OutboxGrows a c
  OutboxGrows-trans a b c f g = record {
    at = λ k row there.
        let (row1, there1, grown1) = f.at k row there in
        let (row2, there2, grown2) = g.at k row1 there1 in
        (row2, there2, Grown-trans row row1 row2 grown1 grown2);
  }

  pub SameOutbox-OutboxGrows : (db db' : pg.Db) → SameOutbox pg db db' → OutboxGrows db db'
  SameOutbox-OutboxGrows db db' same = record {
    at = λ k row there. (row, same.at k ∙ there, Grown-refl row);
  }

  pub EventAdded-OutboxGrows :
      (codec : Codec) (kind : String) (c : Company) (db db' : pg.Db)
      → EventAdded pg codec kind c db db'
      → OutboxGrows db db'
  EventAdded-OutboxGrows codec kind c db db' added = record {
    at = λ k row there. (row, ground (arith, added.rows k, added.id_was_free), Grown-refl row);
  }

  settled-GrownAt :
      (text : GoError → String) (t : ℕ) (r : Result (Unit {0})) (row : OutboxRow)
      → GrownAt row (settled pg text t r (some row))
  settled-GrownAt text t (ok _) row = (
    _,
    refl,
    record {
      id = refl;
      event_type = refl;
      aggregate_id = refl;
      payload = refl;
      created_at = refl;
      attempts = omega arith;
      published = λ h. ground arith;
    },
  )
  settled-GrownAt text t (err e) row = (
    _,
    refl,
    record {
      id = refl;
      event_type = refl;
      aggregate_id = refl;
      payload = refl;
      created_at = refl;
      attempts = omega arith;
      published = λ h. h;
    },
  )

  module _ (text : GoError → String) {M : Type 0} (producer : EventProducer M) where
    Each-GrownAt :
        (events : List OutboxEvent) (m : M) (db db' : pg.Db) (k : Uuid) (row : OutboxRow)
        → Each pg text producer events m db db'
        → pg.outbox_at db k ≡ some row
        → Fresh k events ⊎ GrownAt row (pg.outbox_at db' k)
    Each-GrownAt [] m db db' k row each there = inl tt
    Each-GrownAt (e ∷ events) m db db' k row ((t, head), tail) there =
        elim (Bool-cases (nat_eq e.id k)) [
          | inl hit ↦
              let is : e.id ≡ k = (nat_eq_iff e.id k).0 hit in
              let now : pg.outbox_at db' k
                  ≡ settled pg text t (producer.publish tx_ctx e.event m).0 (some row) =
                sym (ap (pg.outbox_at db') is)
                ∙ head
                ∙ ap (settled pg text t (producer.publish tx_ctx e.event m).0)
                    (ap (pg.outbox_at db) is ∙ there) in
              inr (rw now (settled-GrownAt text t (producer.publish tx_ctx e.event m).0 row))
          | inr miss ↦
              elim (Each-GrownAt events (producer.publish tx_ctx e.event m).1 db db' k row tail
                there) [ inl free ↦ inl (ground (arith, miss), free) | inr grown ↦ inr grown ]
        ]

    pub Batched-OutboxGrows :
        (events : List OutboxEvent) (m : M) (db db' : pg.Db)
        → Batched pg text producer events m db db'
        → OutboxGrows db db'
    Batched-OutboxGrows events m db db' batched = record {
      at = λ k row there. elim (Each-GrownAt events m db db' k row batched.each there) [
        | inl free ↦ (row, batched.others k free ∙ there, Grown-refl row)
        | inr grown ↦ grown
      ];
    }
