-- ===== src/Http/Auth/Bearer.antt =====
-- What is taken as a bearer token, and that nothing runs without one.
use Prim.Native.Char.{Char, code}
use Prim.Native.String.{[], ◌∷◌, ◌++◌}
use text.Mathlib.TextLemmas.{nil-append, cons-append}
use text.Mathlib.TextEquality.{Char-path}
use company_service.Common.{
  String, ◌≡◌, ◌≢◌, ◌↔◌, refl, ap, ◌∙◌, true, Option, none, some, arith, nat_eq, nat_eq_iff, ◌==◌,
  eq_iff, Option-cases, Bool-cases, inl, inr,
}
use company_service.Common.Text.{trim_space}
use company_service.Json.{equal_fold}
use company_service.Http.Auth.{split_at_space, bearer_token}

abbrev pub NoSpace : String → Type 0
NoSpace [] = Unit
NoSpace (c ∷ s) = (code c ≢ 0x20) × NoSpace s

-- The two texts of a split, with the space between them.
abbrev pub joined : String → String → String
joined before behind = before ++ (" " ++ behind)

pair_eq :
    (a b c d : String)
    → ◌≡◌ {A = Option (String × String)} (some (a, b)) (some (c, d))
    → (a ≡ c) × (b ≡ d)
pair_eq a b c d h = ground arith

split_sound :
    (s : String) (before behind : String)
    → split_at_space s ≡ some (before, behind)
    → (s ≡ joined before behind) × NoSpace before
unfolding split_at_space
split_sound [] before behind h = cc
split_sound (c ∷ s) before behind h = elim (Bool-cases (nat_eq (code c) 0x20)) [
  | inl space ↦
      let (e, f) = pair_eq "" s before behind (rw space at h) in
      rw (← e, ← f)
        (
          rw (nil-append, cons-append, nil-append)
              (ap (λ (d : Char). d ∷ s) (Char-path c " " ((nat_eq_iff (code c) 0x20).0 space))),
          tt,
        )
  | inr solid ↦ elim (Option-cases (split_at_space s)) [
    | inl missing ↦ ground arith
    | inr ((b, r), found) ↦
        let (e, f) = pair_eq (c ∷ b) r before behind (rw (solid, found) at h) in
        let (whole, free) = split_sound s b r found in
        rw (← e, ← f) (rw cons-append (ap (λ (t : String). c ∷ t) whole), (ground arith, free))
  ]
]

split_complete :
    (before behind : String)
    → NoSpace before
    → split_at_space (joined before behind) ≡ some (before, behind)
unfolding split_at_space
split_complete [] behind free = rw (nil-append, cons-append, nil-append) refl
split_complete (c ∷ s) behind free = elim (Bool-cases (nat_eq (code c) 0x20)) [
  | inl space ↦ absurd (free.0 ((nat_eq_iff (code c) 0x20).0 space))
  | inr solid ↦ rw cons-append (rw (solid, split_complete s behind free.1) refl)
]

split-empty : split_at_space "" ≡ none
unfolding split_at_space
split-empty = refl

-- The header names the scheme Bearer, in any case, and then the token.
abbrev pub Carries : String → String → Type 0
Carries header token =
    (scheme : String) × (rest : String) × (header ≡ joined scheme rest)
    × NoSpace scheme
    × (equal_fold scheme "Bearer" ≡ true)
    × (trim_space rest ≡ token)

bearer_sound :
    (header token : String) → token ≢ "" → bearer_token header ≡ token → Carries header token
unfolding bearer_token
bearer_sound header token some_token h = elim (Option-cases (split_at_space header)) [
  | inl missing ↦ absurd (some_token (ground arith))
  | inr ((scheme, rest), found) ↦
      let (whole, free) = split_sound header scheme rest found in
      (scheme, rest, whole, free, ground arith, ground arith)
]

bearer_complete : (header token : String) → Carries header token → bearer_token header ≡ token
unfolding bearer_token
bearer_complete header token (scheme, rest, whole, free, is_bearer, trimmed) =
    let found : split_at_space header ≡ some (scheme, rest) =
      ap split_at_space whole ∙ split_complete scheme rest free in
    elim (Bool-cases (header == "")) [
      | inl empty ↦ cc (found, ap split_at_space ((eq_iff header "").0 empty), split-empty)
      | inr full ↦ rw (full, found, is_bearer) trimmed
    ]

-- A token that is not empty is taken from the header exactly where the header is the scheme Bearer, in
-- any case, a space, and a text that is the token up to spaces at its ends.
pub bearer_token_iff :
    (header token : String) → token ≢ "" → (bearer_token header ≡ token) ↔ Carries header token
bearer_token_iff header token h = (bearer_sound header token h, bearer_complete header token)
