-- ===== src/Config/Load.antt =====
-- internal/config/config.go: `Config` and `Load`. The environment, the library's parsers of numbers and
-- durations, and the floating-point numbers are parameters. A duration is a number of nanoseconds; the
-- slot is a list of code points.
use ssh_idlefarmer.Prelude.{
  some, none, pos, true, false, [], ◌∷◌, ◌*◌, Option, String, Bool, List, ltb_ℤ, ℕ, if◌then◌else◌,
  not, ℤ, ◌||◌, str_eq, ◌&&◌,
}
use ssh_idlefarmer.Identity.Slots.{sanitize_slot}

pub data ConfigError : Type 0 where
  invalid_integer invalid_float invalid_duration : String → ConfigError
  bad_port : ℤ → ConfigError
  too_few_sessions too_few_connections bad_rate bad_burst bad_idle_timeout bad_slot : ConfigError
  bad_autosave no_db_path : ConfigError
  bad_policy : String → ConfigError

pub data Setting (A : Type 0) : Type 0 where
  valid : A → Setting A
  invalid : ConfigError → Setting A

infixl 5 ◌>>=◌ ◌>>◌
abbrev pub ◌>>=◌ : {A B : Type 0} → Setting A → (A → Setting B) → Setting B
valid a >>= f = f a
invalid e >>= f = invalid e

abbrev pub ◌>>◌ : {B : Type 0} → Setting (Unit {0}) → Setting B → Setting B
m >> k = m >>= λ _. k

abbrev pub refuse_if : Bool → ConfigError → Setting (Unit {0})
refuse_if true e = invalid e
refuse_if false e = valid tt

-- What the standard library and the environment give; `F` is float64.
pub record Host (F : Type 0) : Type 0 where
  pub getenv : String → String
  pub atoi : String → Option ℤ
  pub parse_float : String → Option F
  pub parse_duration : String → Option ℤ
  pub two : F  -- the constant 2
  pub at_most_0 : F → Bool  -- f <= 0
  pub runes : String → List ℕ  -- the code points of a text
  pub to_lower : ℕ → ℕ

pub record Config (F : Type 0) : Type 0 where
  pub listen_host : String
  pub listen_port : ℤ
  pub host_key_path : String
  pub idle_timeout : ℤ
  pub max_sessions_per_key : ℤ
  pub max_connections : ℤ
  pub default_slot : List ℕ
  pub log_level : String
  pub log_format : String
  pub rate_limit_per_second : F
  pub rate_limit_burst : ℤ
  pub rate_limit_max_entries : ℤ
  pub db_path : String
  pub autosave_interval : ℤ
  pub session_policy : String
  pub data_dir : String

abbrev pub second : ℕ
second = 1000000000

abbrev pub is_empty : List ℕ → Bool
is_empty [] = true
is_empty (r ∷ rs) = false

module _ {F : Type 0} (host : Host F) where
  unfoldable pub env_or : String → String → String
  env_or key fallback = let v = host.getenv key in if str_eq v "" then fallback else v

  unfoldable pub or_invalid : {A : Type 0} → ConfigError → Option A → Setting A
  or_invalid e none = invalid e
  or_invalid e (some a) = valid a

  -- `envIntOr`, `envFloatOr` and `envDurationOr`, which differ in the parser and the error.
  unfoldable pub env_parsed_or :
      {A : Type 0} → (String → Option A) → (String → ConfigError) → String → A → Setting A
  unfolding or_invalid
  env_parsed_or parse error key fallback =
      let v = host.getenv key in
      if str_eq v "" then valid fallback else or_invalid (error key) (parse v)

  abbrev pub env_int_or : String → ℤ → Setting ℤ
  env_int_or = env_parsed_or host.atoi invalid_integer

  abbrev pub env_float_or : String → F → Setting F
  env_float_or = env_parsed_or host.parse_float invalid_float

  abbrev pub env_duration_or : String → ℤ → Setting ℤ
  env_duration_or = env_parsed_or host.parse_duration invalid_duration

  -- The first half of `Load`: the settings as they are read.
  unfoldable pub read_config : Setting (Config F)
  unfolding env_or env_parsed_or
  read_config = do
    port ← env_int_or "IDLEFARM_LISTEN_PORT" (pos 22)
    idle ← env_duration_or "IDLEFARM_IDLE_TIMEOUT" (pos (1800 * second))
    sessions ← env_int_or "IDLEFARM_MAX_SESSIONS_PER_KEY" (pos 2)
    connections ← env_int_or "IDLEFARM_MAX_CONNECTIONS" (pos 100)
    rate ← env_float_or "IDLEFARM_RATE_LIMIT_PER_SECOND" host.two
    burst ← env_int_or "IDLEFARM_RATE_LIMIT_BURST" (pos 5)
    entries ← env_int_or "IDLEFARM_RATE_LIMIT_MAX_IPS" (pos 1000)
    autosave ← env_duration_or "IDLEFARM_AUTOSAVE_INTERVAL" (pos (30 * second))
    valid (record {
      listen_host = env_or "IDLEFARM_LISTEN_HOST" "0.0.0.0";
      listen_port = port;
      host_key_path = env_or "IDLEFARM_HOST_KEY_PATH" "var/ssh_host_key";
      idle_timeout = idle;
      max_sessions_per_key = sessions;
      max_connections = connections;
      default_slot = host.runes (env_or "IDLEFARM_DEFAULT_SLOT" "default");
      log_level = env_or "IDLEFARM_LOG_LEVEL" "info";
      log_format = env_or "IDLEFARM_LOG_FORMAT" "text";
      rate_limit_per_second = rate;
      rate_limit_burst = burst;
      rate_limit_max_entries = entries;
      db_path = env_or "IDLEFARM_DB_PATH" "var/idlefarm.db";
      autosave_interval = autosave;
      session_policy = env_or "IDLEFARM_SESSION_POLICY" "takeover";
      data_dir = host.getenv "IDLEFARM_DATA_DIR";
    })

  -- The checks on the settings that come before the one on the slot.
  unfoldable pub check_limits : Config F → Setting (Unit {0})
  check_limits cfg = do
    refuse_if (ltb_ℤ cfg.listen_port (pos 1) || ltb_ℤ (pos 65535) cfg.listen_port)
        (bad_port cfg.listen_port)
    refuse_if (ltb_ℤ cfg.max_sessions_per_key (pos 1)) too_few_sessions
    refuse_if (ltb_ℤ cfg.max_connections (pos 1)) too_few_connections
    refuse_if (host.at_most_0 cfg.rate_limit_per_second) bad_rate
    refuse_if (ltb_ℤ cfg.rate_limit_burst (pos 1)) bad_burst
    refuse_if (ltb_ℤ cfg.idle_timeout (pos 0)) bad_idle_timeout

  -- Those after it.
  unfoldable pub check_service : Config F → Setting (Unit {0})
  check_service cfg = do
    refuse_if (ltb_ℤ cfg.autosave_interval (pos second)) bad_autosave
    refuse_if
        (not (str_eq cfg.session_policy "takeover") && not (str_eq cfg.session_policy "refuse"))
        (bad_policy cfg.session_policy)
    refuse_if (str_eq cfg.db_path "") no_db_path

  unfoldable pub load : Setting (Config F)
  unfolding read_config check_limits check_service
  load = do
    cfg ← read_config
    check_limits cfg
    let slot = sanitize_slot host.to_lower cfg.default_slot
    refuse_if (is_empty slot) bad_slot
    check_service (record cfg { default_slot = slot })
    valid (record cfg { default_slot = slot })
