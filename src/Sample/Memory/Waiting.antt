-- ===== src/Sample/Memory/Waiting.antt =====
-- The pending rows of the database in memory: each once, in a row that counts, the older first.
use company_service.Common.{
  ap, ◌∙◌, ℕ, ◌≡◌, ◌≢◌, ◌≤◌, arith, true, false, some, List, [], ◌∷◌, All, nat_eq, leb, Bool-cases,
  inl, inr, sym,
}
use company_service.Domain.{Uuid}
use company_service.Postgres.{OutboxRow}
use company_service.Sample.Table.{find, remove}
use company_service.Sample.Memory.{row_key, is_pending, insert_by_age, pending}

abbrev pub Absent : Uuid → List OutboxRow → Type 0
Absent i [] = Unit
Absent i (s ∷ l) = (s.id ≢ i) × Absent i l

abbrev pub Once : List OutboxRow → Type 0
Once [] = Unit
Once (s ∷ l) = Absent s.id l × Once l

-- The row that counts, and it is pending.
abbrev pub Stands : ℕ → List OutboxRow → OutboxRow → Type 0
Stands clock rows s = (find row_key s.id rows ≡ some s) × (is_pending clock s ≡ true)

module _ (r : OutboxRow) where
  pub Absent-insert_by_age :
      (i : Uuid) (l : List OutboxRow) → r.id ≢ i → Absent i l → Absent i (insert_by_age r l)
  unfolding insert_by_age
  Absent-insert_by_age i [] ne h = (ne, tt)
  Absent-insert_by_age i (s ∷ l) ne (other, h) =
      elim (Bool-cases (leb r.created_at.instant s.created_at.instant)) [
        | inl older ↦ rw older (ne, (other, h))
        | inr newer ↦ rw newer (other, Absent-insert_by_age i l ne h)
      ]

  pub Once-insert_by_age : (l : List OutboxRow) → Absent r.id l → Once l → Once (insert_by_age r l)
  unfolding insert_by_age
  Once-insert_by_age [] free h = (tt, tt)
  Once-insert_by_age (s ∷ l) (other, free) (alone, h) =
      elim (Bool-cases (leb r.created_at.instant s.created_at.instant)) [
        | inl older ↦ rw older ((other, free), (alone, h))
        | inr newer ↦
            rw newer
              (Absent-insert_by_age s.id l (λ e. other (sym e)) alone, Once-insert_by_age l free h)
      ]

  pub All-insert_by_age :
      (P : OutboxRow → Type 0) (l : List OutboxRow) → P r → All P l → All P (insert_by_age r l)
  unfolding insert_by_age
  All-insert_by_age P [] p h = (p, tt)
  All-insert_by_age P (s ∷ l) p (q, h) =
      elim (Bool-cases (leb r.created_at.instant s.created_at.instant)) [
        | inl older ↦ rw older (p, (q, h))
        | inr newer ↦ rw newer (q, All-insert_by_age P l p h)
      ]

module _ (k : Uuid) where
  remove-Absent : (l : List OutboxRow) → Absent k (remove row_key k l)
  unfolding remove
  remove-Absent [] = tt
  remove-Absent (s ∷ l) = elim (Bool-cases (nat_eq s.id k)) [
    | inl hit ↦ rw hit (remove-Absent l)
    | inr miss ↦ rw miss (ground arith, remove-Absent l)
  ]

  pub Absent-remove : (i : Uuid) (l : List OutboxRow) → Absent i l → Absent i (remove row_key k l)
  unfolding remove
  Absent-remove i [] h = tt
  Absent-remove i (s ∷ l) (other, h) = elim (Bool-cases (nat_eq s.id k)) [
    | inl hit ↦ rw hit (Absent-remove i l h)
    | inr miss ↦ rw miss (other, Absent-remove i l h)
  ]

  pub Once-remove : (l : List OutboxRow) → Once l → Once (remove row_key k l)
  unfolding remove
  Once-remove [] h = tt
  Once-remove (s ∷ l) (alone, h) = elim (Bool-cases (nat_eq s.id k)) [
    | inl hit ↦ rw hit (Once-remove l h)
    | inr miss ↦ rw miss (Absent-remove s.id l alone, Once-remove l h)
  ]

  pub All-remove :
      (P Q : OutboxRow → Type 0) (l : List OutboxRow)
      → ((s : OutboxRow) → nat_eq s.id k ≡ false → P s → Q s)
      → All P l
      → All Q (remove row_key k l)
  unfolding remove
  All-remove P Q [] f h = tt
  All-remove P Q (s ∷ l) f (p, h) = elim (Bool-cases (nat_eq s.id k)) [
    | inl hit ↦ rw hit (All-remove P Q l f h)
    | inr miss ↦ rw miss (f s miss p, All-remove P Q l f h)
  ]

pub Stands-later :
    (clock : ℕ) (r : OutboxRow) (rows : List OutboxRow) (s : OutboxRow)
    → nat_eq s.id r.id ≡ false
    → Stands clock rows s
    → Stands clock (r ∷ rows) s
unfolding find
Stands-later clock r rows s ne (found, waits) = (ground arith, waits)

pub Stands-first :
    (clock : ℕ) (r : OutboxRow) (rows : List OutboxRow)
    → is_pending clock r ≡ true
    → Stands clock (r ∷ rows) r
unfolding find
Stands-first clock r rows waits = (ground arith, waits)

pub pending-Stands :
    (clock : ℕ) (rows : List OutboxRow) → All (Stands clock rows) (pending clock rows)
unfolding pending
pending-Stands clock [] = tt
pending-Stands clock (r ∷ rows) =
    let kept =
      All-remove r.id (Stands clock rows) (Stands clock (r ∷ rows)) (pending clock rows)
        (Stands-later clock r rows) (pending-Stands clock rows) in
    elim (Bool-cases (is_pending clock r)) [
      | inl waits ↦ rw waits (
          All-insert_by_age r (Stands clock (r ∷ rows)) (remove row_key r.id (pending clock rows))
            (Stands-first clock r rows waits) kept)
      | inr does_not ↦ rw does_not kept
    ]

pub pending-Once : (clock : ℕ) (rows : List OutboxRow) → Once (pending clock rows)
unfolding pending
pending-Once clock [] = tt
pending-Once clock (r ∷ rows) =
    let kept = Once-remove r.id (pending clock rows) (pending-Once clock rows) in
    elim (Bool-cases (is_pending clock r)) [
      | inl waits ↦ rw waits (
          Once-insert_by_age r (remove row_key r.id (pending clock rows))
            (remove-Absent r.id (pending clock rows)) kept)
      | inr does_not ↦ rw does_not kept
    ]

pub Absent-of_insert_by_age :
    (r : OutboxRow) (i : Uuid) (l : List OutboxRow)
    → Absent i (insert_by_age r l)
    → (r.id ≢ i) × Absent i l
unfolding insert_by_age
Absent-of_insert_by_age r i [] (ne, free) = (ne, tt)
Absent-of_insert_by_age r i (s ∷ l) h =
    elim (Bool-cases (leb r.created_at.instant s.created_at.instant)) [
      | inl older ↦ let (ne, rest) = rw older at h in (ne, rest)
      | inr newer ↦
          let (other, rest) = rw newer at h in
          let (ne, free) = Absent-of_insert_by_age r i l rest in (ne, (other, free))
    ]

pub Absent-of_remove :
    (k i : Uuid) (l : List OutboxRow) → k ≢ i → Absent i (remove row_key k l) → Absent i l
unfolding remove
Absent-of_remove k i [] ne h = tt
Absent-of_remove k i (s ∷ l) ne h = elim (Bool-cases (nat_eq s.id k)) [
  | inl hit ↦ (ground arith, Absent-of_remove k i l ne (rw hit at h))
  | inr miss ↦ let (other, free) = rw miss at h in (other, Absent-of_remove k i l ne free)
]

-- Every pending row that counts is listed.
pub Stands-listed :
    (clock : ℕ) (rows : List OutboxRow) (i : Uuid) (row : OutboxRow)
    → find row_key i rows ≡ some row
    → is_pending clock row ≡ true
    → ¬ Absent i (pending clock rows)
unfolding find pending
Stands-listed clock [] i row there waits free = cc
Stands-listed clock (r ∷ rows) i row there waits free = elim (Bool-cases (nat_eq r.id i)) [
  | inl hit ↦
      let same : r ≡ row = ground arith in
      let due : is_pending clock r ≡ true = ap (is_pending clock) same ∙ waits in
      (Absent-of_insert_by_age r i (remove row_key r.id (pending clock rows)) (rw due at free)).0
        (ground arith)
  | inr miss ↦
      let later = Stands-listed clock rows i row (ground arith) waits in
      elim (Bool-cases (is_pending clock r)) [
        | inl due ↦ later (
            Absent-of_remove r.id i (pending clock rows) (ground arith)
              (Absent-of_insert_by_age r i (remove row_key r.id (pending clock rows))
                (rw due at free)).1)
        | inr not_due ↦
            later (Absent-of_remove r.id i (pending clock rows) (ground arith) (rw not_due at free))
      ]
]

-- The older rows come first.
abbrev pub Sorted : List OutboxRow → Type 0
Sorted [] = Unit
Sorted (s ∷ l) = All (λ x. s.created_at.instant ≤ x.created_at.instant) l × Sorted l

All-after :
    (r s : OutboxRow) (l : List OutboxRow)
    → r.created_at.instant ≤ s.created_at.instant
    → All (λ x. s.created_at.instant ≤ x.created_at.instant) l
    → All (λ x. r.created_at.instant ≤ x.created_at.instant) l
All-after r s [] le h = tt
All-after r s (x ∷ l) le (p, h) = (omega (arith, le, p), All-after r s l le h)

Sorted-insert_by_age : (r : OutboxRow) (l : List OutboxRow) → Sorted l → Sorted (insert_by_age r l)
unfolding insert_by_age
Sorted-insert_by_age r [] h = (tt, tt)
Sorted-insert_by_age r (s ∷ l) (first, h) =
    elim (Bool-cases (leb r.created_at.instant s.created_at.instant)) [
      | inl older ↦
          let le : r.created_at.instant ≤ s.created_at.instant = ground arith in
          rw older ((le, All-after r s l le first), (first, h))
      | inr newer ↦ rw newer (
        All-insert_by_age r (λ x. s.created_at.instant ≤ x.created_at.instant) l (ground arith)
            first,
        Sorted-insert_by_age r l h,
      )
    ]

Sorted-remove : (k : Uuid) (l : List OutboxRow) → Sorted l → Sorted (remove row_key k l)
unfolding remove
Sorted-remove k [] h = tt
Sorted-remove k (s ∷ l) (first, h) = elim (Bool-cases (nat_eq s.id k)) [
  | inl hit ↦ rw hit (Sorted-remove k l h)
  | inr miss ↦ rw miss (
    All-remove k (λ x. s.created_at.instant ≤ x.created_at.instant)
        (λ x. s.created_at.instant ≤ x.created_at.instant) l (λ x _ p. p) first,
    Sorted-remove k l h,
  )
]

pub pending-Sorted : (clock : ℕ) (rows : List OutboxRow) → Sorted (pending clock rows)
unfolding pending
pending-Sorted clock [] = tt
pending-Sorted clock (r ∷ rows) =
    let kept = Sorted-remove r.id (pending clock rows) (pending-Sorted clock rows) in
    elim (Bool-cases (is_pending clock r)) [
      | inl waits ↦
          rw waits (Sorted-insert_by_age r (remove row_key r.id (pending clock rows)) kept)
      | inr does_not ↦ rw does_not kept
    ]
