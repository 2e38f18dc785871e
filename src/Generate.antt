-- ===== src/Generate.antt =====
-- The configuration of the kernel (mihomotui/mihomo_config.go): the data that `GenerateMihomoConfig`
-- writes as YAML. Two of its steps are library calls and arguments here: the first four bytes of an
-- MD5 digest in hexadecimal digits, and the decimal digits of a number.
pub mod Names
pub mod Proxies
pub mod ProxyLaws
pub mod RuleLines
pub mod RuleLaws
pub mod MatchLast
pub mod RuleNames
pub mod Addresses
pub mod Global
pub mod Write
pub mod WriteLaws
use mihomo_tui.Base.{ℕ, String, Bool, List}
use mihomo_tui.Base.Int.{ℤ, pos}

pub record Formats : Type 0 where
  -- `hex.EncodeToString(sum[:4])` with `sum := md5.Sum([]byte(s))`
  pub hash8 : String → String
  -- `%d` of `fmt.Sprintf`
  pub decimal : ℕ → String
  -- `s[:64]`, which may end inside a character
  pub first64 : String → String

-- `healthCheckYAML`
pub record HealthCheckYaml : Type 0 where
  pub enable : Bool
  pub url : String
  pub interval : ℤ

-- `proxyProviderYAML`, with the one field of `providerOverrideYAML`
pub record ProxyProviderYaml : Type 0 where
  pub url : String
  pub path : String
  pub type : String
  pub interval : ℤ
  pub health_check : HealthCheckYaml
  pub additional_prefix : String

-- `ruleProviderYAML`
pub record RuleProviderYaml : Type 0 where
  pub type : String
  pub behavior : String
  pub url : String
  pub path : String
  pub format : String
  pub interval : ℤ
  pub proxy_group : String

-- `proxyGroupYAML`
pub record ProxyGroupYaml : Type 0 where
  pub name : String
  pub type : String
  pub proxies : List String
  pub uses : List String
  pub url : String
  pub interval : ℤ
  pub tolerance : ℤ

-- `geoxURLYAML`
pub record GeoxUrlYaml : Type 0 where
  pub geoip : String
  pub geosite : String
  pub mmdb : String
  pub asn : String

-- `tunYAML`
pub record TunYaml : Type 0 where
  pub enable : Bool
  pub stack : String
  pub device : String
  pub dns_hijack : List String
  pub auto_route : Bool
  pub auto_redirect : Bool
  pub auto_detect_interface : Bool
  pub route_exclude_address : List String

-- `dnsYAML`
pub record DnsYaml : Type 0 where
  pub enable : Bool
  pub ipv6 : Bool
  pub enhanced_mode : String
  pub fake_ip_filter : List String
  pub default_nameserver : List String
  pub nameserver : List String

-- An entry of the `Sniff` map of `snifferYAML`: the protocol, its ports, and `override-destination`
-- where it is given.
pub record SniffYaml : Type 0 where
  pub protocol : String
  pub ports : List String
  pub override_destination : Bool

-- `snifferYAML`
pub record SnifferYaml : Type 0 where
  pub enable : Bool
  pub sniff : List SniffYaml
  pub skip_domain : List String

-- `mihomoConfigYAML`, with the two fields of `profileYAML`; the list of fixed proxies is always empty.
pub record MihomoYaml : Type 0 where
  pub port : ℤ
  pub socks_port : ℤ
  pub mixed_port : ℤ
  pub redir_port : ℤ
  pub tproxy_port : ℤ
  pub allow_lan : Bool
  pub bind_address : String
  pub ipv6 : Bool
  pub unified_delay : Bool
  pub tcp_concurrent : Bool
  pub log_level : String
  pub mode : String
  pub external_controller : String
  pub secret : String
  pub external_ui : String
  pub external_ui_url : String
  pub geodata_mode : Bool
  pub geox_url : GeoxUrlYaml
  pub find_process_mode : String
  pub store_selected : Bool
  pub store_fake_ip : Bool
  pub sniffer : SnifferYaml
  pub tun : TunYaml
  pub dns : DnsYaml
  pub proxy_providers : List (String × ProxyProviderYaml)
  pub proxy_groups : List ProxyGroupYaml
  pub rule_providers : List (String × RuleProviderYaml)
  pub rules : List String

abbrev pub health_check_interval : ℤ
health_check_interval = pos 300

abbrev pub day_in_seconds : ℤ
day_in_seconds = pos 86400
