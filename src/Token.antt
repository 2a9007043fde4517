-- ===== src/Token.antt =====
-- cmd/token/main.go: the tool that prints a token. `os.Getenv` is a function, as in Config.
pub mod Printed
use company_service.Common.{
  ℕ, ◌+◌, ◌*◌, ◌^◌, ◌≡◌, ◌≢◌, refl, arith, String, true, Option, none, some, ◌==◌, if◌then◌else◌,
  Bool-cases, inl, inr,
}
use company_service.Common.Int.{ℤ, pos}
use company_service.Action.{Result, ok, err}
use company_service.Action.Inversion.{Result-cases}
use company_service.Domain.{Time, utc}
use company_service.Config.{seconds, load, loaded_config}
use company_service.Jwt.{
  Claims, SigningMethod, hs256, Token, JwtLibrary, later, key_for, check_token, validate, generate,
}

-- How the process ends: with a fatal line of the log, or with the token on its output.
pub data Outcome : Type 0 where
  fatal : String → Outcome
  printed : String → Outcome

-- `time.Hour`
abbrev pub hour : ℤ
hour = seconds (60 * 60)

unfoldable pub outcome_of : Result String → Outcome
outcome_of (ok token) = printed token
outcome_of (err e) = fatal "failed to generate JWT token"

abbrev pub subject_or_default : String → String
subject_or_default subject = if subject == "" then "local-user" else subject

-- main
unfoldable pub main : JwtLibrary → (String → String) → Time → Time → Outcome
unfolding outcome_of
main jwt getenv now now' =
    if getenv "JWT_SECRET" == ""
    then fatal "JWT_SECRET is required"
    else outcome_of (
        generate jwt (getenv "JWT_SECRET") now now' (subject_or_default (getenv "JWT_SUBJECT"))
          hour)

-- The instants of two times that may be missing are the same.
abbrev pub SameInstant : Option Time → Option Time → Type 0
SameInstant none none = Unit
SameInstant (some t) (some u) = t.instant ≡ u.instant
SameInstant _ _ = ⊥

-- What is documented of the library: a token that it signed with HS256 and a secret is parsed, with
-- that secret, as a valid token with the claims, for as long as they are current. The times come back
-- in the zone of the machine.
pub record SigningLaws (jwt : JwtLibrary) (IsCurrent : Claims → Type 0) : Type 0 where
  pub signed :
      (subject secret text : String) (t u : Time) (key : SigningMethod → Result String)
      → let claims : Claims = record {
        subject = subject;
        expires_at = some (jwt.new_numeric_date t);
        issued_at = some (jwt.new_numeric_date u);
      } in
        IsCurrent claims
        → jwt.signed_string claims secret ≡ ok text
        → key hs256 ≡ ok secret
        → (token : Token) × (read : Claims) × (jwt.parse_with_claims text key ≡ ok token)
          × (token.claims ≡ some read)
          × (token.valid ≡ true)
          × (read.subject ≡ subject)
          × (SameInstant read.expires_at (some (jwt.new_numeric_date t)))
