-- ===== src/Sample/ToolRuns.antt =====
-- The theorem on the token tool at a concrete input.
use company_service.Common.{
  suc, ◌-◌, ◌≡◌, refl, arith, String, true, Option, none, some, ◌==◌, if◌then◌else◌,
}
use company_service.Common.Text.{rune_count}
use company_service.Errors.{failure}
use company_service.Action.{Result, ok, err}
use company_service.Domain.{Time, local, utc}
use company_service.Jwt.{Claims, hs256, Token, JwtLibrary, later, validate, generate}
use company_service.Token.{printed, outcome_of, hour, main, SameInstant, SigningLaws}
use company_service.Token.Printed.{main-validate}
use company_service.Sample.Texts.{tally, rune_count-tally}

-- A library whose tokens are the instants of their expiration, counted from one, for one subject and one secret.
abbrev pub signed_by : Option Time → Result String
signed_by none = err (failure "endless")
signed_by (some t) = ok (tally (suc t.instant))

abbrev pub token_of : String → Result String → Result Token
token_of text (err e) = err e
token_of text (ok k) = ok (record {
  method = hs256;
  claims = some (record {
    subject = "local-user";
    expires_at = some (record { instant = rune_count text - 1; location = local });
    issued_at = none;
  });
  valid = k == "secret";
})

abbrev pub counted : JwtLibrary
counted = record {
  new_numeric_date = λ t. t;
  parse_with_claims = λ text key. token_of text (key hs256);
  signed_string =
      λ claims k. if k == "secret" then signed_by claims.expires_at else err (failure "bad key");
}

abbrev pub IsOurs : Claims → Type 0
IsOurs claims = claims.subject ≡ "local-user"

pub counted-SigningLaws : SigningLaws counted IsOurs
counted-SigningLaws = record {
  signed = λ subject secret text t u key ours made given.
      let key_fits : (secret == "secret") ≡ true = ground arith in
      let is : text ≡ tally (suc t.instant) = ground arith in
      (
        record {
          method = hs256;
          claims = some (record {
            subject = "local-user";
            expires_at = some (record { instant = rune_count text - 1; location = local });
            issued_at = none;
          });
          valid = secret == "secret";
        },
        record {
          subject = "local-user";
          expires_at = some (record { instant = rune_count text - 1; location = local });
          issued_at = none;
        },
        rw given refl,
        refl,
        key_fits,
        ground (arith, ours),
        rw is (ground (arith, rune_count-tally (suc t.instant))),
      );
}

abbrev pub environment : String → String
environment key = if key == "JWT_SECRET" then "secret" else ""

abbrev pub noon : Time
noon = record { instant = 5; location = local }

pub printed_token : (text : String) × (main counted environment noon noon ≡ printed text)
unfolding main outcome_of generate later
printed_token = (_, refl)

main-validate_example :
    (read : Claims) × (validate counted "secret" printed_token.0 ≡ ok read)
    × (read.subject ≡ "local-user")
    × (SameInstant read.expires_at (some (later hour (utc noon))))
main-validate_example =
    main-validate counted IsOurs counted-SigningLaws environment noon noon printed_token.0
      printed_token.1 refl
