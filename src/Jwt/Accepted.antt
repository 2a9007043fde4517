-- ===== src/Jwt/Accepted.antt =====
-- Which tokens JWTManager.Validate accepts.
use company_service.Common.{
  ◌≡◌, ◌≢◌, ◌↔◌, refl, String, true, none, some, arith, Option-cases, inl, inr,
}
use company_service.Action.{Result, ok}
use company_service.Action.Inversion.{Result-cases}
use company_service.Jwt.{
  Claims, SigningMethod, hs256, Token, JwtLibrary, key_for, check_token, validate,
}

-- What is documented of the library: it parses a token only with the key that the function gives
-- for the method of the token.
pub record JwtLaws (jwt : JwtLibrary) : Type 0 where
  pub keyed :
      (text : String) (key : SigningMethod → Result String) (token : Token)
      → jwt.parse_with_claims text key ≡ ok token
      → (k : String) × (key token.method ≡ ok k)

key_for-eq-ok : (secret k : String) (m : SigningMethod) → key_for secret m ≡ ok k → m ≡ hs256
unfolding key_for
key_for-eq-ok secret k m h = ground arith

-- What the checks on the parsed token want.
abbrev IsUsable : Token → Claims → Type 0
IsUsable token claims =
    (token.claims ≡ some claims) × (token.valid ≡ true) × (claims.expires_at ≢ none)

check_token_sound :
    (token : Token) (claims : Claims) → check_token token ≡ ok claims → IsUsable token claims
unfolding check_token
check_token_sound token claims h = elim (Option-cases token.claims) [
  | inl missing ↦ ground arith
  | inr (found, there) ↦ elim (Option-cases found.expires_at) [
    | inl endless ↦ ground arith
    | inr (t, expires) ↦ ground arith
  ]
]

check_token_complete :
    (token : Token) (claims : Claims) → IsUsable token claims → check_token token ≡ ok claims
unfolding check_token
check_token_complete token claims (there, valid, expires) = elim (Option-cases claims.expires_at) [
  | inl endless ↦ absurd (expires endless)
  | inr (t, ends) ↦ rw there (rw valid (rw ends refl))
]

-- A token behind a text, as Validate wants it.
pub record IsAccepted (jwt : JwtLibrary) (secret text : String) (claims : Claims) : Type 0 where
  pub token : Token
  pub parsed : jwt.parse_with_claims text (key_for secret) ≡ ok token
  pub method : token.method ≡ hs256
  pub claimed : token.claims ≡ some claims
  pub valid : token.valid ≡ true
  pub expires : claims.expires_at ≢ none

module _ (jwt : JwtLibrary) (laws : JwtLaws jwt) (secret text : String) (claims : Claims) where
  validate_sound : validate jwt secret text ≡ ok claims → IsAccepted jwt secret text claims
  unfolding validate
  validate_sound h = elim (Result-cases (jwt.parse_with_claims text (key_for secret))) [
    | inr (e, failed) ↦ ground arith
    | inl (token, parsed) ↦
        let (k, given) = laws.keyed text (key_for secret) token parsed in
        let (claimed, valid, expires) = check_token_sound token claims (ground arith) in
        record {
          token = token;
          parsed = parsed;
          method = key_for-eq-ok secret k token.method given;
          claimed = claimed;
          valid = valid;
          expires = expires;
        }
  ]

  validate_complete : IsAccepted jwt secret text claims → validate jwt secret text ≡ ok claims
  unfolding validate
  validate_complete a =
      rw (validate, a.parsed) (check_token_complete a.token claims (a.claimed, a.valid, a.expires))

  -- With a library that parses a token only with the key for its method, Validate returns claims
  -- exactly when the library parses the text with the secret as a valid token with these claims, which
  -- have an expiration; the method of the token is then HS256.
  pub validate-IsAccepted :
      (validate jwt secret text ≡ ok claims) ↔ IsAccepted jwt secret text claims
  validate-IsAccepted = (validate_sound, validate_complete)
