-- ===== src/Sample/ConfigRuns.antt =====
-- The theorems on the configuration at concrete environments.
use company_service.Common.{
  ℕ, ◌*◌, ◌/◌, ◌%◌, ◌<◌, ◌^◌, ◌≡◌, refl, arith, String, false, [], ◌∷◌, ◌==◌, All, is_empty, eq_iff,
  if◌then◌else◌,
}
use company_service.Common.Int.{pos, negsuc}
use company_service.Common.Text.{trim_space, trim_left, trim_right, is_space, rune_count}
use company_service.Errors.{join}
use company_service.Config.{get_csv, int32_of, loaded_config}
use company_service.Common.{none, some}
use company_service.Config.Numbers.{atoi, number, digits}
use company_service.Config.Durations.{parse_duration, unsigned}
use company_service.Config.Decimal.{shown, IsDecimal, loaded_config-shown}
use company_service.Config.Csv.{IsClean, IsEntry, get_csv-join, get_csv-entries}

-- The part of a unit that a fraction of `k` digits is, rounded down.
abbrev part_of : (f unit k : ℕ) → ℕ
part_of f unit k = f * unit / 10 ^ k

abbrev environment : String → String
environment key =
    if key == "KAFKA_BROKERS"
    then "a:1,b:2"
    else if key == "DATABASE_URL"
    then "postgres://db"
    else if key == "JWT_SECRET"
    then "secret"
    else if key == "HTTP_READ_TIMEOUT"
    then "9223372036s"
    else ""

brokers-IsClean : All IsClean ("a:1" ∷ "b:2" ∷ [])
unfolding trim_space trim_left trim_right is_space
brokers-IsClean = (
  record {
    no_comma = (refl, (refl, (refl, tt)));
    trimmed = refl;
    not_empty = ground (arith, eq_iff "a:1" "");
  },
  (
    record {
      no_comma = (refl, (refl, (refl, tt)));
      trimmed = refl;
      not_empty = ground (arith, eq_iff "b:2" "");
    },
    tt,
  ),
)

brokers_set : environment "KAFKA_BROKERS" ≡ join ("a:1" ∷ "b:2" ∷ []) ","
unfolding join
brokers_set = refl

get_csv-join_example :
    get_csv part_of environment "KAFKA_BROKERS" ("localhost:9092" ∷ []) ≡ "a:1" ∷ "b:2" ∷ []
get_csv-join_example =
    get_csv-join part_of environment "KAFKA_BROKERS" ("localhost:9092" ∷ []) "a:1" ("b:2" ∷ [])
      brokers-IsClean brokers_set

localhost-IsEntry : All IsEntry ("localhost:9092" ∷ [])
unfolding trim_space trim_left trim_right is_space
localhost-IsEntry = ((ground (arith, eq_iff "localhost:9092" ""), refl), tt)

get_csv-entries_example :
    All IsEntry (get_csv part_of environment "KAFKA_BROKERS" ("localhost:9092" ∷ []))
    × (is_empty (get_csv part_of environment "KAFKA_BROKERS" ("localhost:9092" ∷ [])) ≡ false)
get_csv-entries_example =
    get_csv-entries part_of environment "KAFKA_BROKERS" ("localhost:9092" ∷ []) localhost-IsEntry
      refl

-- The number wraps around.
wraps_around : int32_of (pos 4294967297) ≡ pos 1
unfolding int32_of
wraps_around = refl

-- Numbers in decimal, one of them beyond 32 bits
abbrev numbered : String → String
numbered key =
    if key == "DB_MAX_CONNS"
    then "4294967297"
    else if key == "DB_MIN_CONNS"
    then "02"
    else if key == "OUTBOX_BATCH_SIZE"
    then "25"
    else ""

max-IsDecimal : IsDecimal (numbered "DB_MAX_CONNS")
unfolding shown rune_count
max-IsDecimal = record {
  digits = ground arith;
  not_empty = ground (arith, eq_iff "4294967297" "");
  fits = omega arith;
}

min-IsDecimal : IsDecimal (numbered "DB_MIN_CONNS")
unfolding shown rune_count
min-IsDecimal = record {
  digits = ground arith;
  not_empty = ground (arith, eq_iff "02" "");
  fits = omega arith;
}

batch-IsDecimal : IsDecimal (numbered "OUTBOX_BATCH_SIZE")
unfolding shown rune_count
batch-IsDecimal = record {
  digits = ground arith;
  not_empty = ground (arith, eq_iff "25" "");
  fits = omega arith;
}

max_low : shown (numbered "DB_MAX_CONNS") % 2 ^ 32 < 2 ^ 31
unfolding shown rune_count
max_low = omega arith

min_low : shown (numbered "DB_MIN_CONNS") % 2 ^ 32 < 2 ^ 31
unfolding shown rune_count
min_low = omega arith

loaded_config-shown_example :
    ((loaded_config part_of numbered).database.max_conns
      ≡ pos (shown (numbered "DB_MAX_CONNS") % 2 ^ 32))
    × ((loaded_config part_of numbered).database.min_conns
        ≡ pos (shown (numbered "DB_MIN_CONNS") % 2 ^ 32))
    × ((loaded_config part_of numbered).events.outbox_batch_size
        ≡ pos (shown (numbered "OUTBOX_BATCH_SIZE")))
loaded_config-shown_example =
    loaded_config-shown part_of numbered max-IsDecimal min-IsDecimal batch-IsDecimal max_low min_low

-- Durations as time.ParseDuration reads them.
durations :
    (parse_duration part_of "1h30m" ≡ some (pos 5400000000000))
    × (parse_duration part_of "-1.5s" ≡ some (negsuc 1499999999))
    × (parse_duration part_of "0" ≡ some (pos 0))
    × (parse_duration part_of ".5ms" ≡ some (pos 500000))
    × (parse_duration part_of "10" ≡ none)
    × (parse_duration part_of "1d" ≡ none)
    × (parse_duration part_of "9223372036854775808ns" ≡ none)
    × (parse_duration part_of "-9223372036854775808ns" ≡ some (negsuc 9223372036854775807))
unfolding parse_duration unsigned number
durations = (refl, refl, refl, refl, refl, refl, refl, refl)

numbers :
    (atoi "+12" ≡ some (pos 12))
    × (atoi "-0" ≡ some (pos 0))
    × (atoi "1_000" ≡ none)
    × (atoi "" ≡ none)
    × (atoi "9223372036854775808" ≡ none)
unfolding atoi number digits
numbers = (refl, refl, refl, refl, refl)
