-- ===== src/Validate.antt =====
-- `Config.Validate` (mihomotui/config_validate.go): the checks, part by part, in the order of the
-- source. A part with a loop of its own has a child, where its specification stands too.
pub mod Problem
pub mod Unique
pub mod Ports
pub mod Hosts
pub mod Atoi
pub mod Subscriptions
pub mod Pools
pub mod PoolSpec
pub mod Providers
pub mod Rules
pub mod RuleSpec
pub mod FieldSpec
pub mod Spec
pub mod Removal
pub mod Load
pub mod Restart
use mihomo_tui.Base.{
  ℕ, String, Bool, true, false, ◌||◌, ◌&&◌, not, Option, none, some, List, [], ◌∷◌, ◌++◌, ◌==◌,
  trim_space, is_blank, if◌then◌else◌,
}
use text.Mathlib.Text.{find?}
use mihomo_tui.Base.Int.{ℤ, pos, int_lt}
use mihomo_tui.Config.{Config, ExternalResources}
use Problem.{
  concat, controller_has_scheme, controller_format, controller_port, mihomo_log_level,
  app_log_level, test_url, resource_url, proxy_mode, no_default_group, no_language, exclude_empty,
  exclude_invalid, filter_empty, filter_invalid, when,
}
use Ports.{check_ports, port_table}
use Hosts.{NetParsers, is_exclude_address, is_filter_entry, check_entries}
use Atoi.{atoi}
use Subscriptions.{check_subscriptions, check_active}
use Pools.{check_pools}
use Providers.{check_providers}
use Rules.{check_rules, check_custom_rules}

-- `validMihomoLogLevels`
unfoldable pub is_mihomo_log_level : String → Bool
is_mihomo_log_level l =
    l == "debug" || l == "info" || l == "warning" || l == "error" || l == "silent"

-- `validAppLogLevels`
unfoldable pub is_app_log_level : String → Bool
is_app_log_level l = l == "debug" || l == "info" || l == "warn" || l == "error"

-- `validProxyModes`
unfoldable pub is_proxy_mode : String → Bool
is_proxy_mode m = m == "rule" || m == "global" || m == "direct"

-- `strings.Contains(s, part)`
abbrev pub has_part : String → String → Bool
has_part s part = elim (find? s part) [ none ↦ false | some i ↦ true ]

abbrev is_tcp_port : Option ℤ → Bool
is_tcp_port none = false
is_tcp_port (some port) = not (int_lt port (pos 1) || int_lt (pos 65535) port)

-- `net.SplitHostPort` fails, or the port is no TCP port.
abbrev check_host_port : String → List String → List Problem.Problem
check_host_port ec (host ∷ port ∷ []) = when (not (is_tcp_port (atoi port))) (controller_port ec)
check_host_port ec _ = controller_format ec ∷ []

-- An empty external controller turns the API off.
unfoldable pub check_controller : NetParsers → String → List Problem.Problem
unfolding atoi
check_controller net raw =
    let ec = trim_space raw in
    if ec == ""
    then []
    else if has_part ec "://"
    then controller_has_scheme ec ∷ []
    else check_host_port ec (net.split_host_port ec)

-- The checks of single fields between the ports and the subscriptions.
unfoldable pub check_levels : Config → List Problem.Problem
unfolding is_mihomo_log_level is_app_log_level
check_levels c =
    when (not (is_mihomo_log_level c.mihomo.log_level)) (mihomo_log_level c.mihomo.log_level)
    ++ when (not (is_app_log_level c.log_level)) (app_log_level c.log_level)

unfoldable pub check_urls : NetParsers → Config → List Problem.Problem
check_urls net c =
    let tu = trim_space c.mihomo.test_url in
    when (not (tu == "") && not (net.http_url tu)) (test_url tu)
    ++ (when (not (net.http_url (trim_space c.external_resources.geoip)))
          (resource_url "GeoIP" c.external_resources.geoip)
        ++ when (not (net.http_url (trim_space c.external_resources.geosite)))
            (resource_url "GeoSite" c.external_resources.geosite))

unfoldable pub check_modes : Config → List Problem.Problem
unfolding is_proxy_mode
check_modes c =
    when (not (is_proxy_mode c.proxy_mode)) (proxy_mode c.proxy_mode)
    ++ (when (is_blank c.default_proxy_group) no_default_group
        ++ when (is_blank c.system.language) no_language)

abbrev pub parts : NetParsers → Config → List (List Problem.Problem)
parts net c =
    check_ports (port_table c.mihomo) []
    ∷ check_controller net c.mihomo.external_controller
    ∷ check_levels c
    ∷ check_urls net c
    ∷ check_modes c
    ∷ check_subscriptions 0 [] [] c.subscriptions
    ∷ check_active c
    ∷ check_pools c.subscriptions [] [] c.subscription_pools
    ∷ check_providers 0 [] c.rule_provider_subscriptions
    ∷ check_rules c.built_in_rules_initialized c.built_in_rules
    ∷ check_custom_rules (c.pre_custom_rules ++ c.post_custom_rules)
    ∷ check_entries (is_exclude_address net) exclude_empty exclude_invalid 0 c.exclude_addresses
    ∷ check_entries is_filter_entry filter_empty filter_invalid 0 c.fake_ip_filter
    ∷ []

-- `c.Validate()`: all problems, in the source's order; none means that the configuration is valid.
unfoldable pub validate : NetParsers → Config → List Problem.Problem
validate net c = concat (parts net c)
