-- ===== src/Examples/Config.antt =====
-- The theorems on the settings, for an empty environment.
use ssh_idlefarmer.Config.Load.{
  Config, second, read_config, Host, load, env_parsed_or, env_or, valid, check_limits,
  check_service,
}
use ssh_idlefarmer.Examples.Slots.{ascii_lower, slots_stay_low, ada}
use ssh_idlefarmer.Prelude.{pos, true, pos, refl, none, ◌∷◌, [], ℕ, leb, ◌*◌, ◌≡◌, ◌↔◌}
use ssh_idlefarmer.Store.Saves.{valid_keys}
use ssh_idlefarmer.Identity.Slots.{resolve_slot, sanitize_slot, keep_runes, is_slot_rune}
use ssh_idlefarmer.Config.Accepted.{
  valid_keys-resolve_slot, with_slot, IsAcceptable, load_iff_IsAcceptable,
}
use ssh_idlefarmer.Examples.Store.{named}
use ssh_idlefarmer.Prelude.Runes.{trim_space, trim_left, is_space}

-- Rates in whole numbers; each text is read as "b".
abbrev bare_host : Host ℕ
bare_host = record {
  getenv = λ key. "";
  atoi = λ s. none;
  parse_float = λ s. none;
  parse_duration = λ s. none;
  two = 2;
  at_most_0 = λ f. leb f 0;
  runes = λ s. 98 ∷ [];
  to_lower = ascii_lower;
}

abbrev defaults : Config ℕ
defaults = record {
  listen_host = "0.0.0.0";
  listen_port = pos 22;
  host_key_path = "var/ssh_host_key";
  idle_timeout = pos (1800 * second);
  max_sessions_per_key = pos 2;
  max_connections = pos 100;
  default_slot = 98 ∷ [];
  log_level = "info";
  log_format = "text";
  rate_limit_per_second = 2;
  rate_limit_burst = pos 5;
  rate_limit_max_entries = pos 1000;
  db_path = "var/idlefarm.db";
  autosave_interval = pos (30 * second);
  session_policy = "takeover";
  data_dir = "";
}

defaults_read : read_config bare_host ≡ valid defaults
unfolding read_config env_parsed_or env_or
defaults_read = refl

load_iff_IsAcceptable_example :
    (load bare_host ≡ valid (with_slot bare_host defaults))
    ↔ IsAcceptable bare_host (with_slot bare_host defaults)
load_iff_IsAcceptable_example = load_iff_IsAcceptable bare_host defaults defaults_read

defaults_loaded : load bare_host ≡ valid defaults
unfolding load read_config env_parsed_or env_or check_limits check_service sanitize_slot keep_runes
    is_slot_rune trim_space trim_left is_space
defaults_loaded = refl

valid_keys-resolve_slot_example :
    valid_keys
      (record { fingerprint = "fp"; slot = resolve_slot ascii_lower ada defaults.default_slot })
    ≡ true
valid_keys-resolve_slot_example =
    valid_keys-resolve_slot bare_host "fp" ada defaults_loaded slots_stay_low named
