-- ===== src/Config/Numbers.antt =====
-- What the configuration uses of `strconv` and `time`: Atoi and ParseDuration.
use Prim.Native.Char.{code}
use Prim.Native.String.{String, [], ◌∷◌}
use company_service.Common.{
  ℕ, zero, suc, ◌+◌, ◌-◌, ◌*◌, ◌^◌, Bool, ◌&&◌, Option, none, some, leb, nat_eq, if◌then◌else◌,
}
use company_service.Common.Int.{ℤ, pos, negsuc}

abbrev pub is_digit : ℕ → Bool
is_digit c = leb b'0' c && leb c b'9'

-- The digits of a number, behind the digits that were read into `n`.
unfoldable pub digits : ℕ → String → Option ℕ
digits n [] = some n
digits n (c ∷ s) =
    let rest = digits (n * 10 + (code c - b'0')) s in if is_digit (code c) then rest else none

-- A number of one digit at least
unfoldable pub number : String → Option ℕ
number [] = none
number (c ∷ s) = digits 0 (c ∷ s)

-- `-n`
abbrev pub negated : ℕ → ℤ
negated zero = pos 0
negated (suc n) = negsuc n

abbrev pub up_to : ℕ → (ℕ → ℤ) → Option ℕ → Option ℤ
up_to limit sign none = none
up_to limit sign (some n) = if leb n limit then some (sign n) else none

-- A sign, and the number behind it as an int of 64 bits; none is an error.
unfoldable pub with_sign : (String → Option ℕ) → String → Option ℤ
with_sign read [] = none
with_sign read (c ∷ s) =
    if nat_eq (code c) b'-'
    then up_to (2 ^ 63) negated (read s)
    else if nat_eq (code c) b'+'
    then up_to (2 ^ 63 - 1) pos (read s)
    else up_to (2 ^ 63 - 1) pos (read (c ∷ s))

-- `strconv.Atoi`
unfoldable pub atoi : String → Option ℤ
unfolding number with_sign
atoi s = with_sign number s
