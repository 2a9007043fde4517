-- ===== src/Sample/TokenRuns.antt =====
-- The theorem on the token manager with a library that takes the secret itself for a token.
use company_service.Common.{◌≡◌, ◌↔◌, refl, String, none, some, arith, ◌==◌}
use company_service.Action.{Result, ok, err}
use company_service.Action.Inversion.{Result-cases}
use company_service.Common.{inl, inr}
use company_service.Domain.{in_utc}
use company_service.Jwt.{Claims, hs256, Token, JwtLibrary, validate, key_for, check_token}
use company_service.Jwt.Accepted.{JwtLaws, IsAccepted, validate-IsAccepted}

abbrev session : Claims
session = record {
  subject = "user";
  expires_at = some (record { instant = 90; location = in_utc });
  issued_at = none;
}

abbrev with_key : String → Result String → Result Token
with_key text (err e) = err e
with_key text (ok k) = ok (record { method = hs256; claims = some session; valid = text == k })

abbrev plain : JwtLibrary
plain = record {
  new_numeric_date = λ t. t;
  parse_with_claims = λ text key. with_key text (key hs256);
  signed_string = λ claims k. ok k;
}

plain-JwtLaws : JwtLaws plain
plain-JwtLaws = record {
  keyed = λ text key token parsed. elim (Result-cases (key hs256)) [
    | inl (k, given) ↦ (k, ground arith)
    | inr (e, failed) ↦ ground arith
  ];
}

validate-IsAccepted_example :
    (validate plain "secret" "secret" ≡ ok session) ↔ IsAccepted plain "secret" "secret" session
validate-IsAccepted_example = validate-IsAccepted plain plain-JwtLaws "secret" "secret" session

accepted : validate plain "secret" "secret" ≡ ok session
unfolding validate key_for check_token
accepted = refl
