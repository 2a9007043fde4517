-- ===== src/Jwt.antt =====
-- internal/infrastructure/auth/jwt.go: the token manager. The library jwt/v4 is a parameter.
pub mod Accepted
use company_service.Common.{
  suc, ◌-◌, ℕ, ◌+◌, String, Bool, not, Option, none, some, is_nil, if◌then◌else◌,
}
use company_service.Common.Int.{ℤ, pos, negsuc}
use company_service.Errors.{failure}
use company_service.Action.{Result, ok, err}
use company_service.Domain.{Time, utc}

-- Claims: the registered claims, with the pointers that may be nil
pub record Claims : Type 0 where
  pub subject : String
  pub expires_at : Option Time
  pub issued_at : Option Time

-- `jwt.SigningMethodHS256`, and every other method
pub data SigningMethod : Type 0 where
  hs256 : SigningMethod
  other_method : String → SigningMethod

-- A `*jwt.Token`; `claims` is none where it is not a `*Claims`.
pub record Token : Type 0 where
  pub method : SigningMethod
  pub claims : Option Claims
  pub valid : Bool

-- `jwt.ParseWithClaims(text, &Claims{}, key)`, where `key` gives the secret for the method of the
-- token or an error; `token.SignedString(secret)`, for a token with HS256; jwt.NewNumericDate.
pub record JwtLibrary : Type 0 where
  pub new_numeric_date : Time → Time
  pub parse_with_claims : String → (SigningMethod → Result String) → Result Token
  pub signed_string : Claims → String → Result String

-- The key function of Validate
unfoldable pub key_for : String → SigningMethod → Result String
key_for secret hs256 = ok secret
key_for secret (other_method name) = err (failure "unexpected signing method")

-- The checks of Validate on the parsed token
unfoldable pub check_token : Token → Result Claims
check_token token = elim token.claims [
  | none ↦ err (failure "invalid token")
  | some claims ↦
      if not token.valid
      then err (failure "invalid token")
      else if is_nil claims.expires_at
      then err (failure "token expiration is required")
      else ok claims
]

-- `t.Add(ttl)`, for a result that is not before the first instant
unfoldable pub later : ℤ → Time → Time
later (pos n) t = record t { instant = t.instant + n }
later (negsuc n) t = record t { instant = t.instant - suc n }

module _ (jwt : JwtLibrary) (secret : String) where
  -- JWTManager.Validate
  unfoldable pub validate : String → Result Claims
  unfolding check_token
  validate text = elim (jwt.parse_with_claims text (key_for secret)) [
    | err e ↦ err e
    | ok token ↦ check_token token
  ]

  -- JWTManager.Generate, where `time.Now()` gives first `now` and then `now'`
  unfoldable pub generate : Time → Time → String → ℤ → Result String
  unfolding later
  generate now now' subject ttl =
      jwt.signed_string
        (record {
          subject = subject;
          expires_at = some (jwt.new_numeric_date (later ttl (utc now)));
          issued_at = some (jwt.new_numeric_date (utc now'));
        })
        secret
