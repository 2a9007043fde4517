-- ===== src/Sample/Texts.antt =====
-- A codec with texts in unary, which meets the laws of a codec.
use Prim.Native.String.{◌∷◌}
use company_service.Common.{ℕ, zero, suc, ◌≡◌, refl, String, ap, arith, subst}
use company_service.Common.Text.{rune_count}
use company_service.Action.{Result, ok}
use company_service.Domain.{in_utc}
use company_service.Json.{Codec, CodecLaws}
use company_service.Postgres.Available.{NoNul, PlainCodec}

unfoldable pub tally : ℕ → String
tally zero = ""
tally (suc n) = "x" ∷ tally n

pub rune_count-tally : (n : ℕ) → rune_count (tally n) ≡ n
unfolding tally rune_count
rune_count-tally zero = refl
rune_count-tally (suc n) = ap suc (rune_count-tally n)

tally-NoNul : (n : ℕ) → NoNul (tally n)
unfolding tally
tally-NoNul zero = tt
tally-NoNul (suc n) = (ground arith, tally-NoNul n)

ok_injective : (s t : String) → ◌≡◌ {A = Result String} (ok s) (ok t) → s ≡ t
ok_injective s t h = cc

abbrev pub unary : Codec
unary = record {
  uuid_string = tally;
  uuid_parse = λ s. ok (rune_count s);
  time_text = λ t. ok (tally t.instant);
  time_parse = λ s. ok (record { instant = rune_count s; location = in_utc });
}

pub unary-CodecLaws : CodecLaws unary
unary-CodecLaws = record {
  uuid_parse-uuid_string = λ id h. ap ok (rune_count-tally id);
  time_parse-time_text = λ t s at_utc h. ground (arith, rune_count-tally t.instant);
}

pub unary-PlainCodec : PlainCodec unary
unary-PlainCodec = record {
  uuid_string = tally-NoNul;
  time_text = λ t s h. subst NoNul (ok_injective _ _ h) (tally-NoNul t.instant);
}
