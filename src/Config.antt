-- ===== src/Config.antt =====
-- The configuration's data (mihomotui/config.go, mihomotui/builtin_rules.go and the version record
-- of mihomotui/mihomo_versions.go). A Go slice is a list, `int` and `int64` are `ℤ`, and a string
-- type with named constants stays a text, since a client may send any text. The two float fields
-- hold bytes divided by 2^30 and are kept in those units, as whole numbers of bytes.
pub mod Lookup
pub mod Edit
pub mod Removal
pub mod BuiltIn
pub mod Load
use mihomo_tui.Base.{ℕ, String, Bool, List, [], false, ◌==◌, if◌then◌else◌}
use mihomo_tui.Base.Int.{ℤ, pos}

pub record SystemConfig : Type 0 where
  pub auto_start : Bool
  pub system_proxy : Bool
  pub tun : Bool
  pub language : String

pub record MihomoConfig : Type 0 where
  pub http_port : ℤ
  pub socks5_port : ℤ
  pub mixed_port : ℤ
  pub redir_port : ℤ
  pub tproxy_port : ℤ
  pub allow_lan : Bool
  pub ipv6 : Bool
  pub unified_delay : Bool
  pub auto_redirect : Bool
  pub log_level : String
  pub test_url : String
  pub external_controller : String
  pub secret : String

pub record ExternalResources : Type 0 where
  pub geoip : String
  pub geosite : String
  pub mihomo : String

abbrev pub source_url : String
source_url = "url"

abbrev pub source_file : String
source_file = "file"

abbrev pub source_content : String
source_content = "content"

abbrev pub mode_failover : String
mode_failover = "failover"

abbrev pub mode_merge : String
mode_merge = "merge"

abbrev pub fetch_direct : String
fetch_direct = "direct"

abbrev pub fetch_local_mihomo : String
fetch_local_mihomo = "local_mihomo"

abbrev pub fetch_system : String
fetch_system = "system"

pub record SubscriptionPool : Type 0 where
  pub id : String
  pub name : String
  pub mode : String
  pub members : List String
  pub active_member_id : String
  pub enabled : Bool
  pub refresh_interval : ℤ
  pub last_switch_at : String
  pub last_switch_reason : String
  pub degraded : Bool

pub record SubscriptionMeta : Type 0 where
  pub id : String
  pub name : String
  pub url : String
  pub updated_at : String
  pub last_success_at : String
  pub last_failure_at : String
  pub last_error : String
  pub used_gb : ℤ
  pub total_gb : ℤ
  pub upload_bytes : ℤ
  pub download_bytes : ℤ
  pub total_bytes : ℤ
  pub remaining_bytes : ℤ
  pub expire_at : String
  pub metadata_available : Bool
  pub metadata_status : String
  pub profile_update_interval : ℤ
  pub user_agent : String
  pub fetch_proxy_strategy : String
  pub source_type : String
  pub cache_file : String
  pub content_sha256 : String
  pub failure_count : ℤ
  pub last_checked_at : String
  pub use_local_proxy : Bool
  pub disabled : Bool

-- `SubscriptionMeta{}`, Go's zero value
abbrev pub zero_subscription : SubscriptionMeta
zero_subscription = record {
  id = "";
  name = "";
  url = "";
  updated_at = "";
  last_success_at = "";
  last_failure_at = "";
  last_error = "";
  used_gb = pos 0;
  total_gb = pos 0;
  upload_bytes = pos 0;
  download_bytes = pos 0;
  total_bytes = pos 0;
  remaining_bytes = pos 0;
  expire_at = "";
  metadata_available = false;
  metadata_status = "";
  profile_update_interval = pos 0;
  user_agent = "";
  fetch_proxy_strategy = "";
  source_type = "";
  cache_file = "";
  content_sha256 = "";
  failure_count = pos 0;
  last_checked_at = "";
  use_local_proxy = false;
  disabled = false;
}

pub record RuleProviderSubscription : Type 0 where
  pub name : String
  pub url : String
  pub behavior : String
  pub format : String
  pub interval : ℤ
  pub proxy_group : String
  pub updated_at : String
  pub last_success_at : String
  pub last_failure_at : String
  pub last_error : String

pub record MihomoVersionInfo : Type 0 where
  pub version : String
  pub published_at : String
  pub prerelease : Bool
  pub downloaded : Bool
  pub active : Bool
  pub path : String
  pub size : ℤ
  pub source : String
  pub asset_url : String
  pub asset_name : String
  pub manual : Bool

abbrev pub kind_literal : String
kind_literal = "literal"

abbrev pub kind_provider : String
kind_provider = "provider"

abbrev pub kind_match : String
kind_match = "match"

pub record BuiltInRule : Type 0 where
  pub id : String
  pub name : String
  pub kind : String
  pub enabled : Bool
  pub order : ℤ
  pub rule : String
  pub url : String
  pub behavior : String
  pub format : String
  pub interval : ℤ
  pub proxy_group : String

pub record Config : Type 0 where
  pub version : ℤ
  pub mihomo_config_path : String
  pub mihomo_binary_path : String
  pub mihomo_active_version : String
  pub mihomo_running_version : String
  pub mihomo_running_version_at : String
  pub mihomo_versions : List MihomoVersionInfo
  pub mihomo_versions_checked_at : String
  pub mihomo_versions_source : String
  pub mihomo_versions_last_error : String
  pub system : SystemConfig
  pub mihomo : MihomoConfig
  pub subscriptions : List SubscriptionMeta
  pub subscription_pools : List SubscriptionPool
  pub subscription_pools_initialized : Bool
  pub active_subscription : ℤ
  pub rule_provider_subscriptions : List RuleProviderSubscription
  pub custom_rules : List String
  pub pre_custom_rules : List String
  pub post_custom_rules : List String
  pub built_in_rules_initialized : Bool
  pub built_in_rules : List BuiltInRule
  pub external_resources : ExternalResources
  pub proxy_mode : String
  pub default_proxy_group : String
  pub log_dir : String
  pub log_level : String
  pub exclude_addresses : List String
  pub fake_ip_filter : List String

-- `normalizedSubscriptionPoolMode` of mihomotui/subscription_pool.go
abbrev pub normalized_pool_mode : String → String
normalized_pool_mode mode = if mode == "" then mode_failover else mode

-- `normalizedSource` of mihomotui/subscription_pool.go
abbrev pub normalized_source : String → String
normalized_source t = if t == "" then source_url else t
