-- ===== src/Config/Durations.antt =====
-- `time.ParseDuration`, in one pass over the text. An error is none: the configuration only logs it.
use Prim.Native.Char.{code}
use Prim.Native.String.{String, [], ◌∷◌, ◌++◌}
use company_service.Common.{
  ℕ, ◌+◌, ◌-◌, ◌*◌, ◌/◌, ◌%◌, ◌^◌, Bool, true, false, ◌||◌, Option, none, some, ◌==◌, ltb, nat_eq,
  if◌then◌else◌,
}
use company_service.Common.Int.{ℤ}
use company_service.Config.Numbers.{is_digit, with_sign}

-- Where the pass stands: in the whole part of a number, in its fraction, or in the unit behind it.
-- `has_digits` says whether the number has a digit, `f` is the fraction as a number of `k` digits,
-- and `full` says that further digits of it do not count.
pub data Phase : Type 0 where
  whole : (v : ℕ) (has_digits : Bool) → Phase
  fraction : (v f k : ℕ) (full has_digits : Bool) → Phase
  in_unit : (v f k : ℕ) (unit : String) → Phase

-- unitMap, in nanoseconds
unfoldable pub unit_of : String → Option ℕ
unit_of u =
    if u == "ns"
    then some 1
    else if u == "us" || u == "µs" || u == "μs"
    then some 1_000
    else if u == "ms"
    then some 1_000_000
    else if u == "s"
    then some 1_000_000_000
    else if u == "m"
    then some 60_000_000_000
    else if u == "h"
    then some 3_600_000_000_000
    else none

-- Another digit of the whole part
abbrev pub whole_digit : ℕ → ℕ → Option Phase
whole_digit v c =
    if ltb (2 ^ 63 / 10) v || ltb (2 ^ 63) (v * 10 + (c - b'0'))
    then none
    else some (whole (v * 10 + (c - b'0')) true)

-- Another digit of the fraction
abbrev pub fraction_digit : ℕ → ℕ → ℕ → Bool → ℕ → Phase
fraction_digit v f k full c =
    if full || ltb ((2 ^ 63 - 1) / 10) f || ltb (2 ^ 63) (f * 10 + (c - b'0'))
    then fraction v f k true true
    else fraction v (f * 10 + (c - b'0')) (k + 1) false true

-- `uint64(float64(f) * (float64(unit) / scale))`, for the scale 10 ^ k: the arithmetic of floating
-- point is not modelled.
module _ (float_part : (f unit k : ℕ) → ℕ) where
  abbrev with_fraction : ℕ → ℕ → ℕ → ℕ → ℕ
  with_fraction v unit f k = if nat_eq f 0 then v * unit else v * unit + float_part f unit k

  -- A number and its unit, added to `d`, a uint64
  close_unit : ℕ → ℕ → ℕ → ℕ → String → Option ℕ
  close_unit d v f k u = elim (unit_of u) [
    | none ↦ none
    | some unit ↦
        if ltb (2 ^ 63 / unit) v
          || ltb (2 ^ 63) (with_fraction v unit f k)
          || ltb (2 ^ 63) ((d + with_fraction v unit f k) % 2 ^ 64)
        then none
        else some ((d + with_fraction v unit f k) % 2 ^ 64)
  ]

  -- One character: the nanoseconds so far and the phase
  step : ℕ → Phase → ℕ → String → Option (ℕ × Phase)
  step d (whole v has_digits) c s =
      if is_digit c
      then elim (whole_digit v c) [ none ↦ none | some phase ↦ some (d, phase) ]
      else if nat_eq c b'.'
      then some (d, fraction v 0 0 false has_digits)
      else if has_digits
      then some (d, in_unit v 0 0 s)
      else none
  step d (fraction v f k full has_digits) c s =
      if is_digit c
      then some (d, fraction_digit v f k full c)
      else if nat_eq c b'.'
      then none
      else if has_digits
      then some (d, in_unit v f k s)
      else none
  step d (in_unit v f k u) c s =
      if is_digit c
      then elim (close_unit d v f k u) [
        | none ↦ none
        | some d' ↦ elim (whole_digit 0 c) [ none ↦ none | some phase ↦ some (d', phase) ]
      ]
      else if nat_eq c b'.'
      then elim (close_unit d v f k u) [
        | none ↦ none
        | some d' ↦ some (d', fraction 0 0 0 false false)
      ]
      else some (d, in_unit v f k (u ++ s))

  pub steps : ℕ → Phase → String → Option ℕ
  steps d (in_unit v f k u) [] = close_unit d v f k u
  steps d (whole v has_digits) [] = none
  steps d (fraction v f k full has_digits) [] = none
  steps d phase (c ∷ s) = elim (step d phase (code c) (c ∷ "")) [
    | none ↦ none
    | some (d', phase') ↦ steps d' phase' s
  ]

  -- The text behind the sign
  unfoldable pub unsigned : String → Option ℕ
  unsigned s = if s == "0" then some 0 else steps 0 (whole 0 false) s

  unfoldable pub parse_duration : String → Option ℤ
  unfolding unit_of close_unit step steps unsigned with_sign
  parse_duration s = with_sign unsigned s
