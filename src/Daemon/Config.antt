-- ===== src/Daemon/Config.antt =====
-- cmd/webblockd/config.go, and the flags of cmd/webblockd/main.go that override it. Package flag is
-- outside: a flag is a value, or is not given. Durations are nanoseconds.
use request_blocker.Shared.{ℕ, ◌*◌, ◌^◌, Bool, Option, none, some}
use request_blocker.Text.{Text, ℤ, pos}
use request_blocker.Proto
use request_blocker.Store.Disk.{default_dir}

abbrev pub second : ℕ
second = 10 ^ 9

abbrev pub minute : ℕ
minute = 60 * second

pub record Config : Type 0 where
  pub socket_path : Text
  pub store_dir : Text
  pub refresh_interval : ℤ
  pub dns_cache_ttl : ℤ
  pub resolve_timeout : ℤ
  pub resolve_concurrency : ℤ
  pub conn_deadline : ℕ
  pub socket_mode : ℕ
  pub rate_limit : ℕ
  pub rate_window : ℕ

abbrev pub default_config : Config
default_config = record {
  socket_path = Proto.socket_path;
  store_dir = default_dir;
  refresh_interval = pos (5 * minute);
  dns_cache_ttl = pos (15 * minute);
  resolve_timeout = pos (5 * second);
  resolve_concurrency = pos 12;
  conn_deadline = 30 * second;
  -- 0o666
  socket_mode = 438;
  rate_limit = 20;
  rate_window = 10 * second;
}

pub record Flags : Type 0 where
  pub socket : Option Text
  pub store : Option Text
  pub refresh : Option ℤ
  pub dns_ttl : Option ℤ
  pub resolve_timeout : Option ℤ
  pub resolve_concurrency : Option ℤ
  pub teardown : Bool

-- A flag that is given is the value of its field, one that is not leaves it.
abbrev pub given {ℓ} : {A : Type ℓ} → Option A → A → A
given none old = old
given (some new) old = new

unfoldable pub parse_flags : Flags → Config → Config
parse_flags flags cfg = record cfg {
  socket_path = given flags.socket cfg.socket_path;
  store_dir = given flags.store cfg.store_dir;
  refresh_interval = given flags.refresh cfg.refresh_interval;
  dns_cache_ttl = given flags.dns_ttl cfg.dns_cache_ttl;
  resolve_timeout = given flags.resolve_timeout cfg.resolve_timeout;
  resolve_concurrency = given flags.resolve_concurrency cfg.resolve_concurrency;
}
