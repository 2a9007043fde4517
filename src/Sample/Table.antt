-- ===== src/Sample/Table.antt =====
-- A table as a list of rows under a key; of two rows under one key the first counts.
use company_service.Common.{
  ℕ, ◌≡◌, Bool, true, false, Option, none, some, List, [], ◌∷◌, arith, nat_eq, if◌then◌else◌,
  Option-cases, inl, inr,
}

module _ {R : Type 0} (key : R → ℕ) where
  unfoldable pub find : ℕ → List R → Option R
  find i [] = none
  find i (r ∷ rows) = if nat_eq (key r) i then some r else find i rows

  unfoldable pub alter : ℕ → (R → R) → List R → List R
  alter k f [] = []
  alter k f (r ∷ rows) = if nat_eq (key r) k then f r ∷ rows else r ∷ alter k f rows

  unfoldable pub remove : ℕ → List R → List R
  remove k [] = []
  remove k (r ∷ rows) = let rest = remove k rows in if nat_eq (key r) k then rest else r ∷ rest

  -- A row that counts and passes the test, among the keys of `some_rows`.
  unfoldable pub find_row : (R → Bool) → List R → List R → Option R
  find_row p [] rows = none
  find_row p (r ∷ some_rows) rows =
      let later = find_row p some_rows rows in
      elim (find (key r) rows) [ none ↦ later | some d ↦ if p d then some d else later ]

  abbrev pub map_row : (R → R) → Option R → Option R
  map_row f none = none
  map_row f (some r) = some (f r)

  pub find-key : (i : ℕ) (rows : List R) (r : R) → find i rows ≡ some r → key r ≡ i
  unfolding find
  find-key i [] r h = cc
  find-key i (s ∷ rows) r h = ground (arith, find-key i rows r)

  pub find-alter :
      (k : ℕ) (f : R → R) (rows : List R) (i : ℕ)
      → ((r : R) → key (f r) ≡ key r)
      → find i (alter k f rows) ≡ (if nat_eq k i then map_row f (find k rows) else find i rows)
  unfolding find alter
  find-alter k f [] i same = ground arith
  find-alter k f (r ∷ rows) i same = ground (arith, same r, find-alter k f rows i same)

  pub find-remove :
      (k : ℕ) (rows : List R) (i : ℕ)
      → find i (remove k rows) ≡ (if nat_eq k i then none else find i rows)
  unfolding find remove
  find-remove k [] i = ground arith
  find-remove k (r ∷ rows) i = ground (arith, find-remove k rows i)

  pub find_row-some :
      (p : R → Bool) (some_rows rows : List R) (d : R)
      → find_row p some_rows rows ≡ some d
      → (p d ≡ true) × (find (key d) rows ≡ some d)
  unfolding find_row
  find_row-some p [] rows d h = cc
  find_row-some p (r ∷ some_rows) rows d h = elim (Option-cases (find (key r) rows)) [
    | inl missing ↦ find_row-some p some_rows rows d (ground arith)
    | inr (e, found) ↦
        ground (arith, find_row-some p some_rows rows d, find-key (key r) rows e found)
  ]

  pub find_row-none :
      (p : R → Bool) (some_rows rows : List R) (i : ℕ) (d : R)
      → find_row p some_rows rows ≡ none
      → find i some_rows ≡ some d
      → find i rows ≡ some d
      → p d ≡ false
  unfolding find_row find
  find_row-none p [] rows i d h at there = cc
  find_row-none p (r ∷ some_rows) rows i d h at there =
      ground (arith, find_row-none p some_rows rows i d)
