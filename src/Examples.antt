-- ===== src/Examples.antt =====
-- A configuration and its surroundings, on which the children apply the theorems about the program.
pub mod Stores
pub mod Working
pub mod Pooling
pub mod Checks
pub mod Applying
pub mod Access
pub mod Generating
pub mod Importing
pub mod Running
use mihomo_tui.Base.{
  ℕ, String, Bool, true, false, Option, none, some, List, [], ◌∷◌, ◌≡◌, refl, is_blank, ◌==◌,
}
use mihomo_tui.Base.Int.{ℤ, pos, negsuc}
use mihomo_tui.Config.{
  Config, SubscriptionMeta, SubscriptionPool, BuiltInRule, MihomoConfig, zero_subscription,
  kind_match,
}
use mihomo_tui.Pools.Runtime.{Stat, entry}
use mihomo_tui.Store.{Host, FlushOutcome, Store}
use mihomo_tui.Validate.{validate}
use mihomo_tui.Validate.Hosts.{NetParsers}
use mihomo_tui.Validate.Spec.{IsValid, validate_iff}

abbrev pub parsers : NetParsers
parsers = record {
  parses_ip = λ s. s == "10.0.0.1";
  parses_cidr = λ s. s == "10.0.0.0/8";
  http_url = λ s. s == "http://x";
  split_host_port = λ s. "127.0.0.1" ∷ "9090" ∷ [];
}

abbrev pub host : Host
host = record { net = parsers; default_log_dir = "/logs"; runs_as_root = true }

abbrev pub sample : String → String → SubscriptionMeta
sample id name = record zero_subscription {
  id = id;
  name = name;
  url = "http://x";
  cache_file = name;
  failure_count = pos 2;
}

abbrev pub main_pool : SubscriptionPool
main_pool = record {
  id = "p";
  name = "main";
  mode = "failover";
  members = "a" ∷ "b" ∷ [];
  active_member_id = "a";
  enabled = true;
  refresh_interval = pos 3600;
  last_switch_at = "";
  last_switch_reason = "";
  degraded = false;
}

abbrev pub last_rule : BuiltInRule
last_rule = record {
  id = "builtin-match";
  name = "MATCH";
  kind = kind_match;
  enabled = true;
  order = pos 0;
  rule = "";
  url = "";
  behavior = "";
  format = "";
  interval = pos 0;
  proxy_group = "Auto";
}

abbrev pub kernel : MihomoConfig
kernel = record {
  http_port = pos 7890;
  socks5_port = pos 7891;
  mixed_port = pos 7892;
  redir_port = pos 0;
  tproxy_port = pos 0;
  allow_lan = false;
  ipv6 = true;
  unified_delay = true;
  auto_redirect = false;
  log_level = "info";
  test_url = "http://x";
  external_controller = "127.0.0.1:9090";
  secret = "s";
}

abbrev pub config : Config
config = record {
  version = pos 3;
  mihomo_config_path = "/c";
  mihomo_binary_path = "/m";
  mihomo_active_version = "";
  mihomo_running_version = "";
  mihomo_running_version_at = "";
  mihomo_versions = [];
  mihomo_versions_checked_at = "";
  mihomo_versions_source = "";
  mihomo_versions_last_error = "";
  system = record { auto_start = false; system_proxy = true; tun = false; language = "zh-CN" };
  mihomo = kernel;
  subscriptions = sample "a" "A" ∷ sample "b" "B" ∷ sample "c" "C" ∷ [];
  subscription_pools = main_pool ∷ [];
  subscription_pools_initialized = true;
  active_subscription = pos 2;
  rule_provider_subscriptions = [];
  custom_rules = [];
  pre_custom_rules = [];
  post_custom_rules = [];
  built_in_rules_initialized = true;
  built_in_rules = last_rule ∷ [];
  external_resources = record { geoip = "http://x"; geosite = "http://x"; mihomo = "" };
  proxy_mode = "rule";
  default_proxy_group = "Auto";
  log_dir = "/logs";
  log_level = "info";
  exclude_addresses = [];
  fake_ip_filter = [];
}

pub config-IsValid : IsValid parsers config
unfolding validate mihomo_tui.Validate.Ports.check_ports mihomo_tui.Validate.check_controller
    mihomo_tui.Base.trim_space mihomo_tui.Validate.check_levels mihomo_tui.Validate.check_urls
    mihomo_tui.Validate.check_modes is_blank mihomo_tui.Validate.Subscriptions.check_subscriptions
    mihomo_tui.Validate.Subscriptions.check_fields mihomo_tui.Validate.Subscriptions.check_active
    mihomo_tui.Validate.Pools.check_pools mihomo_tui.Validate.Pools.check_pool_fields
    mihomo_tui.Base.contains mihomo_tui.Validate.Pools.check_members
    mihomo_tui.Config.Lookup.index_of_id mihomo_tui.Validate.Pools.check_pool_activity
    mihomo_tui.Validate.Providers.check_providers mihomo_tui.Validate.Hosts.check_entries
    mihomo_tui.Validate.Rules.check_custom_rules mihomo_tui.Validate.Rules.check_kind
    mihomo_tui.Validate.Rules.check_rules
config-IsValid = (validate_iff parsers config).0 refl

-- Every path is a file with content.
abbrev pub all_cached : String → Stat
all_cached path = entry false 1

abbrev pub all_good : FlushOutcome
all_good = record { marshals = true; writes = true; renames = true; chmods = true }

abbrev pub no_chmod : FlushOutcome
no_chmod = record { marshals = true; writes = true; renames = true; chmods = false }

abbrev pub store : Store
store = record { memory = config; disk = config }
