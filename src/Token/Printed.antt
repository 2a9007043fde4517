-- ===== src/Token/Printed.antt =====
-- What the printed token is good for.
use company_service.Common.{
  ◌≡◌, refl, arith, String, true, Option, none, some, ◌==◌, Bool-cases, inl, inr,
}
use company_service.Action.{ok}
use company_service.Action.Inversion.{Result-cases}
use company_service.Domain.{Time, utc}
use company_service.Jwt.{Claims, Token, JwtLibrary, later, key_for, check_token, validate, generate}
use company_service.Token.{
  printed, outcome_of, hour, subject_or_default, main, SameInstant, SigningLaws,
}

-- The claims of the tool: they expire an hour after the first reading of the clock.
abbrev pub claims_of : JwtLibrary → (String → String) → Time → Time → Claims
claims_of jwt getenv now now' = record {
  subject = subject_or_default (getenv "JWT_SUBJECT");
  expires_at = some (jwt.new_numeric_date (later hour (utc now)));
  issued_at = some (jwt.new_numeric_date (utc now'));
}

pub printed-signed :
    (jwt : JwtLibrary) (getenv : String → String) (now now' : Time) (text : String)
    → main jwt getenv now now' ≡ printed text
    → jwt.signed_string (claims_of jwt getenv now now') (getenv "JWT_SECRET") ≡ ok text
unfolding main outcome_of generate later
printed-signed jwt getenv now now' text h = elim (Bool-cases (getenv "JWT_SECRET" == "")) [
  | inl unset ↦ ground arith
  | inr set ↦
      elim (Result-cases
        (jwt.signed_string (claims_of jwt getenv now now') (getenv "JWT_SECRET"))) [
          | inl (token, made) ↦ ground arith
          | inr (e, failed) ↦ ground arith
        ]
]

expires_some : (o : Option Time) (t : Time) → SameInstant o (some t) → (u : Time) × (o ≡ some u)
expires_some none t h = absurd h
expires_some (some u) t h = (u, refl)

check_token-current :
    (token : Token) (read : Claims) (t : Time)
    → token.claims ≡ some read
    → token.valid ≡ true
    → SameInstant read.expires_at (some t)
    → check_token token ≡ ok read
unfolding check_token
check_token-current token read t there valid ends =
    let (u, expires) = expires_some read.expires_at t ends in rw there (rw valid (rw expires refl))

-- A token that the tool prints is accepted by Validate with the same secret, for as long as it is
-- current, with the subject of the tool and an expiration one hour after the clock's reading.
pub main-validate :
    (jwt : JwtLibrary) (IsCurrent : Claims → Type 0)
    → SigningLaws jwt IsCurrent
    → (getenv : String → String) (now now' : Time) (text : String)
    → main jwt getenv now now' ≡ printed text
    → IsCurrent (claims_of jwt getenv now now')
    → (read : Claims) × (validate jwt (getenv "JWT_SECRET") text ≡ ok read)
      × (read.subject ≡ subject_or_default (getenv "JWT_SUBJECT"))
      × (SameInstant read.expires_at (some (jwt.new_numeric_date (later hour (utc now)))))
unfolding validate key_for
main-validate jwt IsCurrent laws getenv now now' text h current =
    let (token, read, parsed, there, valid, subject, ends) =
      laws.signed (subject_or_default (getenv "JWT_SUBJECT")) (getenv "JWT_SECRET") text
        (later hour (utc now)) (utc now') (key_for (getenv "JWT_SECRET")) current
        (printed-signed jwt getenv now now' text h) refl in
    (read, rw (validate, parsed) (check_token-current token read _ there valid ends), subject, ends)
