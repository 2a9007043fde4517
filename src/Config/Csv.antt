-- ===== src/Config/Csv.antt =====
-- getCSV: the list that a variable with commas stands for.
use Prim.Native.Char.{Char, code}
use Prim.Native.String.{String, [], ◌∷◌, ◌++◌}
use text.Mathlib.TextLemmas.{nil-append, cons-append, cons≢nil}
use company_service.Common.{
  ℕ, ◌≡◌, ◌≢◌, refl, arith, false, ◌==◌, eq_iff, nat_eq, is_empty, All, Bool-cases, inl, inr,
}
use mathlib.Core.List.{List}
use company_service.Common.Text.{trim_space}
use company_service.Common.Text.Trim.{trim_space_idempotent}
use company_service.Common.Text.Split.{split}
use company_service.Errors.{join}
use company_service.Config.{kept_parts, get_csv}

abbrev NoComma : String → Type 0
NoComma [] = Unit
NoComma (c ∷ s) = (nat_eq (code c) b',' ≡ false) × NoComma s

-- A part that getCSV gives back as it is.
pub record IsClean (part : String) : Type 0 where
  pub no_comma : NoComma part
  pub trimmed : trim_space part ≡ part
  pub not_empty : part ≢ ""

split-NoComma : (part : String) → NoComma part → split b',' part ≡ List.◌∷◌ part List.[]
unfolding split
split-NoComma [] h = refl
split-NoComma (c ∷ s) (solid, h) = rw (solid, split-NoComma s h) refl

split-comma :
    (part rest : String)
    → NoComma part
    → split b',' (part ++ ("," ++ rest)) ≡ List.◌∷◌ part (split b',' rest)
unfolding split
split-comma [] rest h = rw (nil-append, cons-append, nil-append) refl
split-comma (c ∷ s) rest (solid, h) = rw cons-append (rw (solid, split-comma s rest h) refl)

split-join :
    (part : String) (parts : List String)
    → All NoComma (List.◌∷◌ part parts)
    → split b',' (join (List.◌∷◌ part parts) ",") ≡ List.◌∷◌ part parts
unfolding join
split-join part List.[] (h, _) = split-NoComma part h
split-join part (List.◌∷◌ next parts) (h, later) =
    rw (split-comma part (join (List.◌∷◌ next parts) ",") h, split-join next parts later) refl

kept_parts-IsClean : (parts : List String) → All IsClean parts → kept_parts parts ≡ parts
unfolding kept_parts
kept_parts-IsClean List.[] h = refl
kept_parts-IsClean (List.◌∷◌ part parts) (clean, h) =
    ground (arith, clean.trimmed, clean.not_empty, eq_iff part "", kept_parts-IsClean parts h)

cons-not_empty : (c : Char) (s : String) → ((c ∷ s) == "") ≡ false
cons-not_empty c s = elim (Bool-cases ((c ∷ s) == "")) [
  | inl same ↦ absurd (cons≢nil ((eq_iff (c ∷ s) "").0 same))
  | inr other ↦ other
]

join-not_empty :
    (part : String) (parts : List String)
    → part ≢ ""
    → (join (List.◌∷◌ part parts) "," == "") ≡ false
unfolding join
join-not_empty [] parts h = absurd (h refl)
join-not_empty (c ∷ s) List.[] h = cons-not_empty c s
join-not_empty (c ∷ s) (List.◌∷◌ next parts) h =
    rw cons-append (cons-not_empty c (s ++ ("," ++ join (List.◌∷◌ next parts) ",")))

All-NoComma : (parts : List String) → All IsClean parts → All NoComma parts
All-NoComma List.[] h = tt
All-NoComma (List.◌∷◌ part parts) (clean, h) = (clean.no_comma, All-NoComma parts h)

-- What holds of every entry: it is not empty and has no spaces at its ends.
abbrev pub IsEntry : String → Type 0
IsEntry part = (part ≢ "") × (trim_space part ≡ part)

kept_parts-IsEntry : (parts : List String) → All IsEntry (kept_parts parts)
unfolding kept_parts
kept_parts-IsEntry List.[] = tt
kept_parts-IsEntry (List.◌∷◌ part parts) = elim (Bool-cases (trim_space part == "")) [
  | inl blank ↦ rw blank (kept_parts-IsEntry parts)
  | inr full ↦ rw full (
    (ground (arith, full, eq_iff (trim_space part) ""), trim_space_idempotent part),
    kept_parts-IsEntry parts,
  )
]

module _ (float_part : (f unit k : ℕ) → ℕ) (getenv : String → String) (key : String) where
  -- A list of texts that are not empty, have no comma and no spaces at their ends is read back from
  -- the variable that holds them with commas in between.
  pub get_csv-join :
      (fallback : List String) (part : String) (parts : List String)
      → All IsClean (List.◌∷◌ part parts)
      → getenv key ≡ join (List.◌∷◌ part parts) ","
      → get_csv float_part getenv key fallback ≡ List.◌∷◌ part parts
  unfolding get_csv
  get_csv-join fallback part parts clean is =
      rw
        (
          is,
          join-not_empty part parts clean.0.not_empty,
          split-join part parts (All-NoComma (List.◌∷◌ part parts) clean),
          kept_parts-IsClean (List.◌∷◌ part parts) clean,
        )
        refl

  -- Whatever the variable holds, getCSV gives a list that is not empty, of texts that are not empty
  -- and have no spaces at their ends, if its fallback is such a list.
  pub get_csv-entries :
      (fallback : List String)
      → All IsEntry fallback
      → is_empty fallback ≡ false
      → All IsEntry (get_csv float_part getenv key fallback)
        × (is_empty (get_csv float_part getenv key fallback) ≡ false)
  unfolding get_csv
  get_csv-entries fallback entries some_entry = elim (Bool-cases (getenv key == "")) [
    | inl unset ↦ rw unset (entries, some_entry)
    | inr set ↦ elim (Bool-cases (is_empty (kept_parts (split b',' (getenv key))))) [
      | inl blank ↦ rw (set, blank) (entries, some_entry)
      | inr full ↦ rw (set, full) (kept_parts-IsEntry (split b',' (getenv key)), full)
    ]
  ]
