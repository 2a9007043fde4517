-- ===== src/Wiring/Draining/Backlog.antt =====
-- The events that are not published: lists of identifiers that get shorter with each event of a
-- batch.
use company_service.Common.{
  none, some, suc, ◌+◌, ◌≡◌, ◌≢◌, ◌≤◌, ◌⊎◌, inl, inr, sym, ◌∙◌, arith, List, [], ◌∷◌, length, All,
  nat_eq, nat_eq_iff, if◌then◌else◌, Bool-cases,
}
use company_service.Domain.{Uuid}
use company_service.Postgres.{OutboxRow, Postgres}
use company_service.Wiring.NoLoss.{OutboxGrows}
use company_service.Application.{OutboxEvent}
use company_service.Wiring.Publishing.Spec.{Fresh, Distinct}

-- The identifier is in the list.
abbrev pub Listed : Uuid → List Uuid → Type 0
Listed i [] = ⊥
Listed i (k ∷ ids) = (k ≡ i) ⊎ Listed i ids

unfoldable without : Uuid → List Uuid → List Uuid
without k [] = []
without k (i ∷ ids) = let rest = without k ids in if nat_eq i k then rest else i ∷ rest

-- The list without the events of a batch
unfoldable pub less_events : List OutboxEvent → List Uuid → List Uuid
unfolding without
less_events [] ids = ids
less_events (e ∷ events) ids = less_events events (without e.id ids)

Listed-without : (k i : Uuid) (ids : List Uuid) → k ≢ i → Listed i ids → Listed i (without k ids)
unfolding without
Listed-without k i [] ne h = h
Listed-without k i (j ∷ ids) ne (inl is) = elim (Bool-cases (nat_eq j k)) [
  | inl hit ↦ absurd (ne (sym ((nat_eq_iff j k).0 hit) ∙ is))
  | inr miss ↦ rw miss (inl is)
]
Listed-without k i (j ∷ ids) ne (inr h) = elim (Bool-cases (nat_eq j k)) [
  | inl hit ↦ rw hit (Listed-without k i ids ne h)
  | inr miss ↦ rw miss (inr (Listed-without k i ids ne h))
]

length-without : (k : Uuid) (ids : List Uuid) → length (without k ids) ≤ length ids
unfolding without
length-without k [] = omega arith
length-without k (j ∷ ids) = ground (arith, length-without k ids)

length-without-Listed :
    (k : Uuid) (ids : List Uuid) → Listed k ids → suc (length (without k ids)) ≤ length ids
unfolding without
length-without-Listed k [] h = absurd h
length-without-Listed k (j ∷ ids) (inl is) =
    ground (arith, length-without k ids, (nat_eq_iff j k).1 is)
length-without-Listed k (j ∷ ids) (inr h) =
    ground (arith, length-without k ids, length-without-Listed k ids h)

pub Listed-less_events :
    (i : Uuid) (events : List OutboxEvent) (ids : List Uuid)
    → Fresh i events
    → Listed i ids
    → Listed i (less_events events ids)
unfolding less_events
Listed-less_events i [] ids free h = h
Listed-less_events i (e ∷ events) ids (ne, free) h =
    Listed-less_events i events (without e.id ids) free (Listed-without e.id i ids ne h)

All-without :
    (k : Uuid) (events : List OutboxEvent) (ids : List Uuid)
    → Fresh k events
    → All (λ e. Listed e.id ids) events
    → All (λ e. Listed e.id (without k ids)) events
All-without k [] ids free h = tt
All-without k (e ∷ events) ids (ne, free) (listed, h) =
    (Listed-without k e.id ids (λ is. ne (sym is)) listed, All-without k events ids free h)

-- The events of a batch are that many fewer.
pub length-less_events :
    (events : List OutboxEvent) (ids : List Uuid)
    → Distinct events
    → All (λ e. Listed e.id ids) events
    → length (less_events events ids) + length events ≤ length ids
unfolding less_events
length-less_events [] ids distinct h = omega arith
length-less_events (e ∷ events) ids (free, distinct) (listed, h) = omega (
  arith,
  length-less_events events (without e.id ids) distinct (All-without e.id events ids free h),
  length-without-Listed e.id ids listed,
)

module _ (pg : Postgres) where
  -- The identifiers of all events that are not published are in the list.
  pub record IsBacklog (ids : List Uuid) (db : pg.Db) : Type 0 where
    pub at :
        (i : Uuid) (row : OutboxRow)
        → pg.outbox_at db i ≡ some row
        → row.published_at ≡ none
        → Listed i ids

  abbrev pub IsPublished : Uuid → pg.Db → Type 0
  IsPublished i db = (row : OutboxRow) × (pg.outbox_at db i ≡ some row) × (row.published_at ≢ none)

  pub IsPublished-later :
      (i : Uuid) (db db' : pg.Db) → OutboxGrows pg db db' → IsPublished i db → IsPublished i db'
  IsPublished-later i db db' grows (row, there, published) =
      let (row', there', grown) = grows.at i row there in (row', there', grown.published published)
