-- ===== src/Common/Text/Trim.antt =====
-- `TrimSpace` is idempotent and never lengthens a text.
use Prim.Native.Nat.{suc, ◌≤◌}
use Prim.Native.Char.{Char, code}
use Prim.Native.String.{String, [], ◌∷◌}
use mathlib.Core.Path.{◌≡◌, refl, ap, ◌∙◌}
use mathlib.Core.Logic.{inl, inr}
use mathlib.Core.Bool.{false}
use native.Mathlib.Omega.{arith}
use company_service.Common.Tests.{Bool-cases}
use company_service.Common.Text.{is_space, rune_count, trim_left, trim_right, trim_space, keep}

-- A text that does not begin with a space.
abbrev StartsSolid : String → Type 0
StartsSolid [] = Unit
StartsSolid (c ∷ s) = is_space (code c) ≡ false

trim_left-StartsSolid : (s : String) → StartsSolid (trim_left s)
unfolding trim_left
trim_left-StartsSolid [] = tt
trim_left-StartsSolid (c ∷ s) = elim (Bool-cases (is_space (code c))) [
  | inl e ↦ rw e (trim_left-StartsSolid s)
  | inr e ↦ rw e e
]

trim_left_of_StartsSolid : (s : String) → StartsSolid s → trim_left s ≡ s
unfolding trim_left
trim_left_of_StartsSolid [] h = refl
trim_left_of_StartsSolid (c ∷ s) h = rw h

keep-StartsSolid : (c : Char) (s : String) → is_space (code c) ≡ false → StartsSolid (keep c s)
keep-StartsSolid c [] h = rw h h
keep-StartsSolid c (d ∷ s) h = h

trim_right-StartsSolid : (s : String) → StartsSolid s → StartsSolid (trim_right s)
unfolding trim_right
trim_right-StartsSolid [] h = tt
trim_right-StartsSolid (c ∷ s) h = keep-StartsSolid c (trim_right s) h

trim_right-keep : (c : Char) (s : String) → trim_right s ≡ s → trim_right (keep c s) ≡ keep c s
unfolding trim_right
trim_right-keep c [] h = elim (Bool-cases (is_space (code c))) [ inl e ↦ rw e | inr e ↦ rw (e, e) ]
trim_right-keep c (d ∷ s) h = rw h

trim_right_idempotent : (s : String) → trim_right (trim_right s) ≡ trim_right s
unfolding trim_right
trim_right_idempotent [] = refl
trim_right_idempotent (c ∷ s) = trim_right-keep c (trim_right s) (trim_right_idempotent s)

pub trim_space_idempotent : (s : String) → trim_space (trim_space s) ≡ trim_space s
unfolding trim_space
trim_space_idempotent s =
    ap trim_right (
      trim_left_of_StartsSolid (trim_right (trim_left s))
        (trim_right-StartsSolid (trim_left s) (trim_left-StartsSolid s)))
    ∙ trim_right_idempotent (trim_left s)

rune_count-keep : (c : Char) (s : String) → rune_count (keep c s) ≤ suc (rune_count s)
unfolding rune_count
rune_count-keep c [] = elim (Bool-cases (is_space (code c))) [
  | inl e ↦ rw e (omega arith)
  | inr e ↦ rw e (omega arith)
]
rune_count-keep c (d ∷ s) = omega arith

rune_count-trim_left : (s : String) → rune_count (trim_left s) ≤ rune_count s
unfolding trim_left rune_count
rune_count-trim_left [] = omega arith
rune_count-trim_left (c ∷ s) = ground (arith, rune_count-trim_left s)

rune_count-trim_right : (s : String) → rune_count (trim_right s) ≤ rune_count s
unfolding trim_right rune_count
rune_count-trim_right [] = omega arith
rune_count-trim_right (c ∷ s) =
    omega (arith, rune_count-keep c (trim_right s), rune_count-trim_right s)

pub rune_count-trim_space : (s : String) → rune_count (trim_space s) ≤ rune_count s
unfolding trim_space
rune_count-trim_space s = omega (arith, rune_count-trim_right (trim_left s), rune_count-trim_left s)

trim_example : trim_space "  Acme Ltd  " ≡ "Acme Ltd"
unfolding trim_space trim_left trim_right is_space
trim_example = refl
