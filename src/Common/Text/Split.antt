-- ===== src/Common/Text/Split.antt =====
-- `strings.Split` by a separator of one character.
use Prim.Native.Char.{Char, code}
use Prim.Native.String.{String, [], ◌∷◌}
use company_service.Common.Tests.{nat_eq, if◌then◌else◌}
use mathlib.Core.List.{List}
use Prim.Native.Nat.{ℕ}

-- A character before the first part
abbrev pub onto_first : Char → List String → List String
onto_first c List.[] = List.◌∷◌ (c ∷ "") List.[]
onto_first c (List.◌∷◌ s parts) = List.◌∷◌ (c ∷ s) parts

-- `strings.Split(s, sep)`, for a separator of one character with the given code
unfoldable pub split : ℕ → String → List String
split sep [] = List.◌∷◌ "" List.[]
split sep (c ∷ s) =
    let parts = split sep s in if nat_eq (code c) sep then List.◌∷◌ "" parts else onto_first c parts
