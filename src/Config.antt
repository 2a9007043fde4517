-- ===== src/Config.antt =====
-- internal/config/config.go. `os.Getenv` is a function from keys to texts, with the empty text for a
-- variable that is not set.
pub mod Numbers
pub mod Durations
pub mod Csv
pub mod Load
pub mod Decimal
use company_service.Common.{
  ℕ, ◌+◌, ◌-◌, ◌*◌, ◌%◌, ◌^◌, String, Bool, Option, none, some, List, [], ◌∷◌, ◌==◌, ltb, is_empty,
  if◌then◌else◌,
}
use company_service.Common.Int.{ℤ, pos, negsuc}
use company_service.Common.Text.{trim_space}
use company_service.Common.Text.Split.{split}
use company_service.Errors.{failure}
use company_service.Action.{Result, ok, err}
use company_service.Config.Numbers.{atoi}
use company_service.Config.Durations.{parse_duration}

pub record HttpConfig : Type 0 where
  pub addr : String
  pub read_timeout : ℤ
  pub write_timeout : ℤ
  pub idle_timeout : ℤ
  pub shutdown_timeout : ℤ

pub record DatabaseConfig : Type 0 where
  pub url : String
  pub max_conns : ℤ
  pub min_conns : ℤ
  pub max_conn_lifetime : ℤ
  pub max_conn_idle_time : ℤ

pub record AuthConfig : Type 0 where
  pub jwt_secret : String

pub record EventsConfig : Type 0 where
  pub producer : String
  pub kafka_brokers : List String
  pub kafka_topic : String
  pub outbox_poll_interval : ℤ
  pub outbox_batch_size : ℤ

pub record Config : Type 0 where
  pub http : HttpConfig
  pub database : DatabaseConfig
  pub auth : AuthConfig
  pub events : EventsConfig

-- `n * time.Second`
abbrev pub seconds : ℕ → ℤ
seconds n = pos (n * 10 ^ 9)

-- The low 32 bits of an int
abbrev low_bits : ℤ → ℕ
low_bits (pos k) = k % 2 ^ 32
low_bits (negsuc k) = 2 ^ 32 - 1 - k % 2 ^ 32

-- `int32(n)`
unfoldable pub int32_of : ℤ → ℤ
int32_of n =
    if ltb (low_bits n) (2 ^ 31) then pos (low_bits n) else negsuc (2 ^ 32 - 1 - low_bits n)

-- The loop of getCSV
unfoldable pub kept_parts : List String → List String
kept_parts [] = []
kept_parts (part ∷ parts) =
    let rest = kept_parts parts in
    let part = trim_space part in if part == "" then rest else part ∷ rest

abbrev pub or_fallback {ℓ} : {A : Type ℓ} → A → Option A → A
or_fallback fallback none = fallback
or_fallback fallback (some a) = a

module _ (float_part : (f unit k : ℕ) → ℕ) (getenv : String → String) where
  unfoldable pub get_env : String → String → String
  get_env key fallback = if getenv key == "" then fallback else getenv key

  unfoldable pub get_int : String → ℤ → ℤ
  get_int key fallback =
      if getenv key == "" then fallback else or_fallback fallback (atoi (getenv key))

  unfoldable pub get_duration : String → ℤ → ℤ
  get_duration key fallback =
      if getenv key == ""
      then fallback
      else or_fallback fallback (parse_duration float_part (getenv key))

  unfoldable pub get_csv : String → List String → List String
  get_csv key fallback =
      if getenv key == ""
      then fallback
      else let result = kept_parts (split b',' (getenv key)) in
        if is_empty result then fallback else result

  -- The struct that Load fills
  unfoldable pub loaded_config : Config
  unfolding get_env get_int get_duration get_csv
  loaded_config = record {
    http = record {
      addr = get_env "HTTP_ADDR" ":8080";
      read_timeout = get_duration "HTTP_READ_TIMEOUT" (seconds 5);
      write_timeout = get_duration "HTTP_WRITE_TIMEOUT" (seconds 10);
      idle_timeout = get_duration "HTTP_IDLE_TIMEOUT" (seconds 60);
      shutdown_timeout = get_duration "HTTP_SHUTDOWN_TIMEOUT" (seconds 10);
    };
    database = record {
      url = getenv "DATABASE_URL";
      max_conns = int32_of (get_int "DB_MAX_CONNS" (pos 10));
      min_conns = int32_of (get_int "DB_MIN_CONNS" (pos 1));
      max_conn_lifetime = get_duration "DB_MAX_CONN_LIFETIME" (seconds (60 * 60));
      max_conn_idle_time = get_duration "DB_MAX_CONN_IDLE_TIME" (seconds (30 * 60));
    };
    auth = record { jwt_secret = getenv "JWT_SECRET" };
    events = record {
      producer = get_env "EVENT_PRODUCER" "log";
      kafka_brokers = get_csv "KAFKA_BROKERS" ("localhost:9092" ∷ []);
      kafka_topic = get_env "KAFKA_TOPIC" "company.events";
      outbox_poll_interval = get_duration "OUTBOX_POLL_INTERVAL" (seconds 2);
      outbox_batch_size = get_int "OUTBOX_BATCH_SIZE" (pos 10);
    };
  }

  -- Load
  unfoldable pub load : Result Config
  unfolding loaded_config
  load =
      if loaded_config.database.url == ""
      then err (failure "DATABASE_URL is required")
      else if loaded_config.auth.jwt_secret == ""
      then err (failure "JWT_SECRET is required")
      else ok loaded_config
