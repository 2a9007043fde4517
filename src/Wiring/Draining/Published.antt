-- ===== src/Wiring/Draining/Published.antt =====
-- A batch with a producer that takes every event.
use company_service.Common.{
  ℕ, ◌≡◌, ◌⊎◌, inl, inr, ◌∙◌, refl, sym, ap, arith, String, none, some, List, [], ◌∷◌, All, nat_eq,
  nat_eq_iff, Bool-cases, Option-cases,
}
use company_service.Errors.{GoError}
use company_service.Action.{Result, ok}
use company_service.Domain.{Uuid}
use company_service.Application.{Context, Event, OutboxEvent, EventProducer}
use company_service.Json.{Codec}
use company_service.Json.Events.{unmarshal_event}
use company_service.Postgres.{OutboxRow, PendingRow, Postgres}
use company_service.Postgres.Laws.{published_row}
use company_service.Postgres.Pending.{IsDue}
use company_service.Wiring.{tx_ctx}
use company_service.Wiring.Publishing.Spec.{Fresh, Each, Batched, settled}

-- The producer takes whatever it is given.
pub record TakesAll {M : Type 0} (producer : EventProducer M) : Type 0 where
  pub at : (ctx : Context) (event : Event) (m : M) → (producer.publish ctx event m).0 ≡ ok tt

module _ (pg : Postgres) (codec : Codec) where
  -- The payload of every row is that of an event.
  pub record IsDecodable (db : pg.Db) : Type 0 where
    pub at :
        (i : Uuid) (row : OutboxRow)
        → pg.outbox_at db i ≡ some row
        → (e : Event) × (unmarshal_event codec row.payload ≡ ok e)

  pub All-IsDecodable :
      (db : pg.Db) (rows : List PendingRow)
      → IsDecodable db
      → All (IsDue pg db) rows
      → All (λ p. (e : Event) × (unmarshal_event codec p.payload ≡ ok e)) rows
  All-IsDecodable db [] decodable due = tt
  All-IsDecodable db (p ∷ rows) decodable (here, due) =
      let (e, decoded) = decodable.at p.id here.row here.there in
      (
        (e, ap (unmarshal_event codec) here.payload ∙ decoded),
        All-IsDecodable db rows decodable due,
      )

  module _ (text : GoError → String) {M : Type 0} (producer : EventProducer M)
      (takes : TakesAll producer) where
    -- The row of each event is published, and every other row is not among them.
    Each-published :
        (events : List OutboxEvent) (m : M) (db db' : pg.Db) (i : Uuid)
        → Each pg text producer events m db db'
        → Fresh i events ⊎ ((t : ℕ) × (pg.outbox_at db' i ≡ published_row pg t (pg.outbox_at db i)))
    Each-published [] m db db' i each = inl tt
    Each-published (e ∷ events) m db db' i ((t, head), tail) = elim (Bool-cases (nat_eq e.id i)) [
      | inl hit ↦
          let is : e.id ≡ i = (nat_eq_iff e.id i).0 hit in
          inr (
            t,
            sym (ap (pg.outbox_at db') is)
                ∙ head
                ∙ ap (λ (r : Result Unit). settled pg text t r (pg.outbox_at db e.id))
                    (takes.at tx_ctx e.event m)
                ∙ ap (λ (k : Uuid). published_row pg t (pg.outbox_at db k)) is,
          )
      | inr miss ↦
          elim (Each-published events (producer.publish tx_ctx e.event m).1 db db' i tail) [
            | inl free ↦ inl (ground (arith, miss), free)
            | inr published ↦ inr published
          ]
    ]

    module _ (events : List OutboxEvent) (m : M) (db db' : pg.Db)
        (batch : Batched pg text producer events m db db') (i : Uuid) (row' : OutboxRow)
        (there : pg.outbox_at db' i ≡ some row') where
      -- A row that is not published after the batch was not in it.
      pub unpublished-Fresh : row'.published_at ≡ none → Fresh i events
      unpublished-Fresh unpublished = elim (Each-published events m db db' i batch.each) [
        | inl free ↦ free
        | inr (t, is) ↦ elim (Option-cases (pg.outbox_at db i)) [
          | inl missing ↦ absurd (ground arith)
          | inr (row, was_there) ↦ absurd (ground arith)
        ]
      ]

      -- No row of the outbox is new.
      pub row_before :
          (row : OutboxRow) × (pg.outbox_at db i ≡ some row) × (row'.payload ≡ row.payload)
      row_before = elim (Each-published events m db db' i batch.each) [
        | inl free ↦ (row', sym (batch.others i free) ∙ there, refl)
        | inr (t, is) ↦ elim (Option-cases (pg.outbox_at db i)) [
          | inl missing ↦ absurd (ground arith)
          | inr (row, was_there) ↦ (row, was_there, ground arith)
        ]
      ]

    pub Batched-IsDecodable :
        (events : List OutboxEvent) (m : M) (db db' : pg.Db)
        → Batched pg text producer events m db db'
        → IsDecodable db
        → IsDecodable db'
    Batched-IsDecodable events m db db' batch decodable = record {
      at = λ i row' there.
          let (row, was_there, payload) = row_before events m db db' batch i row' there in
          let (e, decoded) = decodable.at i row was_there in
          (e, ap (unmarshal_event codec) payload ∙ decoded);
    }
