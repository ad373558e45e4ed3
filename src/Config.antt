-- ===== src/Config.antt =====
-- config/config.go: the settings that the modelled components read, and the methods that derive
-- durations from them. `uint64` settings are numbers, `int` settings and durations are integers.
pub mod Derived
use hm.Prelude.{ℕ, ◌+◌, ◌*◌, ◌%◌, ◌^◌, ◌/◌, ◌==◌, if◌then◌else◌, List, [], ◌∷◌}
use hm.Prelude.Int.{ℤ, pos, negsuc, ◌*ℤ◌, wrap, from_bits64, sub_ℕ}
use hm.Prelude.Text.{GoString, codes, string_eq}
use hm.Prelude.Time.{second}
use hm.Prelude.{Result, ok, err}

pub record Config : Type 0 where
  pub heartbeat_period : ℕ
  pub heartbeat_ttl_in_heartbeats : ℕ
  pub actual_freshness_ttl_in_heartbeats : ℕ
  pub grace_period_in_heartbeats : ℕ
  pub desired_freshness_ttl_in_heartbeats : ℕ
  pub sender_polling_interval_in_heartbeats : ℤ
  pub sender_timeout_in_heartbeats : ℤ
  pub fetcher_polling_interval_in_heartbeats : ℤ
  pub fetcher_timeout_in_heartbeats : ℤ
  pub shredder_polling_interval_in_heartbeats : ℤ
  pub shredder_timeout_in_heartbeats : ℤ
  pub analyzer_polling_interval_in_heartbeats : ℤ
  pub analyzer_timeout_in_heartbeats : ℤ
  pub listener_heartbeat_sync_interval_in_milliseconds : ℤ
  pub store_heartbeat_cache_refresh_interval_in_milliseconds : ℤ
  pub desired_state_batch_size : ℤ
  pub fetcher_network_timeout_in_seconds : ℤ
  pub actual_freshness_key : GoString
  pub cc_auth_user : GoString
  pub cc_auth_password : GoString
  pub cc_base_url : GoString
  pub cc_internal_url : GoString
  pub store_schema_version : ℤ
  pub sender_message_limit : ℤ
  pub number_of_crashes_before_backoff_begins : ℤ
  pub starting_backoff_delay_in_heartbeats : ℤ
  pub maximum_backoff_delay_in_heartbeats : ℤ
  pub api_server_username : GoString
  pub api_server_password : GoString
  pub log_level_string : GoString

-- A setting that `defaults` does not name keeps Go's zero value.
abbrev pub defaults : Config
defaults = record {
  heartbeat_period = 10;
  heartbeat_ttl_in_heartbeats = 3;
  actual_freshness_ttl_in_heartbeats = 3;
  grace_period_in_heartbeats = 3;
  desired_freshness_ttl_in_heartbeats = 12;
  sender_polling_interval_in_heartbeats = pos 1;
  sender_timeout_in_heartbeats = pos 10;
  fetcher_polling_interval_in_heartbeats = pos 6;
  fetcher_timeout_in_heartbeats = pos 60;
  shredder_polling_interval_in_heartbeats = pos 360;
  shredder_timeout_in_heartbeats = pos 6;
  analyzer_polling_interval_in_heartbeats = pos 1;
  analyzer_timeout_in_heartbeats = pos 10;
  listener_heartbeat_sync_interval_in_milliseconds = pos 1000;
  store_heartbeat_cache_refresh_interval_in_milliseconds = pos 60000;
  desired_state_batch_size = pos 0;
  fetcher_network_timeout_in_seconds = pos 0;
  actual_freshness_key = codes "/actual-fresh";
  cc_auth_user = [];
  cc_auth_password = [];
  cc_base_url = [];
  cc_internal_url = [];
  store_schema_version = pos 0;
  sender_message_limit = pos 60;
  number_of_crashes_before_backoff_begins = pos 3;
  starting_backoff_delay_in_heartbeats = pos 3;
  maximum_backoff_delay_in_heartbeats = pos 96;
  api_server_username = codes "magnet";
  api_server_password = codes "orangutan4sale";
  log_level_string = codes "INFO";
}

-- The product of two uint64 values.
abbrev pub mul_u64 : ℕ → ℕ → ℕ
mul_u64 a b = (a * b) % 2 ^ 64

-- int(u) and time.Duration(u) of a uint64 u
abbrev pub to_int64 : ℕ → ℤ
to_int64 u = from_bits64 (u % 2 ^ 64)

unfoldable pub heartbeat_duration : Config → ℤ
unfolding wrap ◌*ℤ◌
heartbeat_duration conf = wrap (to_int64 conf.heartbeat_period *ℤ pos second)

unfoldable pub heartbeat_ttl : Config → ℕ
heartbeat_ttl conf = mul_u64 conf.heartbeat_ttl_in_heartbeats conf.heartbeat_period

unfoldable pub actual_freshness_ttl : Config → ℕ
actual_freshness_ttl conf = mul_u64 conf.actual_freshness_ttl_in_heartbeats conf.heartbeat_period

unfoldable pub grace_period : Config → ℤ
grace_period conf = to_int64 (mul_u64 conf.grace_period_in_heartbeats conf.heartbeat_period)

unfoldable pub desired_freshness_ttl : Config → ℕ
desired_freshness_ttl conf = mul_u64 conf.desired_freshness_ttl_in_heartbeats conf.heartbeat_period

-- time.Duration(n) * conf.HeartbeatDuration()
abbrev pub in_heartbeats : Config → ℤ → ℤ
in_heartbeats conf n = wrap (n *ℤ heartbeat_duration conf)

pub fetcher_network_timeout : Config → ℤ
fetcher_network_timeout conf = wrap (conf.fetcher_network_timeout_in_seconds *ℤ pos second)

pub sender_polling_interval : Config → ℤ
sender_polling_interval conf = in_heartbeats conf conf.sender_polling_interval_in_heartbeats

pub sender_timeout : Config → ℤ
sender_timeout conf = in_heartbeats conf conf.sender_timeout_in_heartbeats

pub fetcher_polling_interval : Config → ℤ
fetcher_polling_interval conf = in_heartbeats conf conf.fetcher_polling_interval_in_heartbeats

pub fetcher_timeout : Config → ℤ
fetcher_timeout conf = in_heartbeats conf conf.fetcher_timeout_in_heartbeats

pub shredder_polling_interval : Config → ℤ
shredder_polling_interval conf = in_heartbeats conf conf.shredder_polling_interval_in_heartbeats

pub shredder_timeout : Config → ℤ
shredder_timeout conf = in_heartbeats conf conf.shredder_timeout_in_heartbeats

pub analyzer_polling_interval : Config → ℤ
analyzer_polling_interval conf = in_heartbeats conf conf.analyzer_polling_interval_in_heartbeats

pub analyzer_timeout : Config → ℤ
analyzer_timeout conf = in_heartbeats conf conf.analyzer_timeout_in_heartbeats

unfoldable pub starting_backoff_delay : Config → ℤ
starting_backoff_delay conf = in_heartbeats conf conf.starting_backoff_delay_in_heartbeats

unfoldable pub maximum_backoff_delay : Config → ℤ
maximum_backoff_delay conf = in_heartbeats conf conf.maximum_backoff_delay_in_heartbeats

abbrev pub millisecond : ℕ
millisecond = 1000000

pub listener_heartbeat_sync_interval : Config → ℤ
listener_heartbeat_sync_interval conf =
    wrap (pos millisecond *ℤ conf.listener_heartbeat_sync_interval_in_milliseconds)

unfoldable pub store_heartbeat_cache_refresh_interval : Config → ℤ
store_heartbeat_cache_refresh_interval conf =
    wrap (pos millisecond *ℤ conf.store_heartbeat_cache_refresh_interval_in_milliseconds)

-- int(d.Seconds()): the whole seconds of a duration, rounded towards zero.
unfoldable pub whole_seconds : ℤ → ℤ
whole_seconds (pos n) = pos (n / second)
whole_seconds (negsuc n) = sub_ℕ 0 ((n + 1) / second)

pub data LogLevel : Type 0 where
  debug info : LogLevel

pub data LogLevelError : Type 0 where
  unknown_log_level : GoString → LogLevelError

pub log_level : Config → Result LogLevelError LogLevel
log_level conf =
    if conf.log_level_string == codes "INFO"
    then ok info
    else if conf.log_level_string == codes "DEBUG"
    then ok debug
    else if conf.log_level_string == codes ""
    then ok info
    else err (unknown_log_level conf.log_level_string)
