-- ===== src/Json.antt =====
-- JSON values, and of `encoding/json` what the code uses: a struct is written with its field names,
-- and read member by member, a later member over an earlier one, names without regard to case.
pub mod Events
use Prim.Native.Char.{code}
use Prim.Native.String.{[], ◌∷◌}
use company_service.Common.{
  ℕ, suc, ◌+◌, ◌-◌, ◌^◌, ◌≤◌, String, ◌≡◌, Bool, true, false, ◌&&◌, Option, none, some, ltb, leb,
  nat_eq, if◌then◌else◌,
}
use company_service.Common.Int.{ℤ, pos, negsuc}
use company_service.Errors.{GoError, failure}
use company_service.Action.{Result, ok, err}
use company_service.Domain.{Uuid, Time, in_utc}

mutual
  pub data Json : Type 0 where
    null : Json
    bool : Bool → Json
    -- a number literal with neither a fraction nor an exponent
    int : ℤ → Json
    -- any other number literal
    fraction : String → Json
    string : String → Json
    array : Items → Json
    object : Members → Json

  pub data Items : Type 0 where
    nil : Items
    cons : Json → Items → Items

  pub data Members : Type 0 where
    end : Members
    member : String → Json → Members → Members

-- Simple case folding, as far as a letter of ASCII is concerned: the long s and the Kelvin sign fold
-- to ASCII letters.
unfoldable pub fold_code : ℕ → ℕ
fold_code c =
    if leb b'A' c && leb c b'Z'
    then c + 32
    else if nat_eq c 0x17f
    then b's'
    else if nat_eq c 0x212a
    then b'k'
    else c

-- `strings.EqualFold(s, t)`, where one of the two is ASCII
unfoldable pub equal_fold : String → String → Bool
equal_fold [] [] = true
equal_fold [] (d ∷ t) = false
equal_fold (c ∷ s) [] = false
equal_fold (c ∷ s) (d ∷ t) = nat_eq (fold_code (code c)) (fold_code (code d)) && equal_fold s t

-- The range of Go's `int`, of 64 bits
unfoldable pub is_int64 : ℤ → Bool
is_int64 (pos n) = ltb n (2 ^ 63)
is_int64 (negsuc n) = ltb n (2 ^ 63)

-- Texts that libraries outside the repository write and read: uuid.UUID.String and uuid.Parse, and
-- the RFC 3339 text of a `time.Time`, which exists for the years 0 to 9999.
pub record Codec : Type 0 where
  pub uuid_string : Uuid → String
  pub uuid_parse : String → Result Uuid
  pub time_text : Time → Result String
  pub time_parse : String → Result Time

-- What is documented of them: a UUID of sixteen bytes, and a UTC time that has a text, are read back
-- from their text.
pub record CodecLaws (codec : Codec) : Type 0 where
  pub uuid_parse-uuid_string :
      (id : Uuid) → suc id ≤ 2 ^ 128 → codec.uuid_parse (codec.uuid_string id) ≡ ok id
  pub time_parse-time_text :
      (t : Time) (s : String)
      → t.location ≡ in_utc
      → codec.time_text t ≡ ok s
      → codec.time_parse s ≡ ok t
