-- ===== src/Examples/Checks.antt =====
-- The theorems about validation and loading, on the sample configuration.
use mihomo_tui.Base.{true, false, [], ◌≡◌, refl, ◌↔◌, length, All, ◌==◌}
use mihomo_tui.Base.Int.{pos}
use mihomo_tui.Config.{Config, RuleProviderSubscription}
use mihomo_tui.Config.Load.{Defaults, load_config}
use mihomo_tui.Config.Removal.{IsIndex}
use mihomo_tui.Examples.{parsers, host, config, config-IsValid, kernel}
use mihomo_tui.Store.{persisted}
use mihomo_tui.Validate.{validate}
use mihomo_tui.Validate.Load.{load_config-turns_on, load_config_lem}
use mihomo_tui.Validate.Restart.{IsFilled, load_config-persisted}
use mihomo_tui.Validate.RuleSpec.{AreRules}
use mihomo_tui.Validate.Spec.{IsValid, validate_iff}

validate_iff_example : (validate parsers config ≡ []) ↔ IsValid parsers config
validate_iff_example = validate_iff parsers config

abbrev provider : RuleProviderSubscription
provider = record {
  name = "ads";
  url = "http://x";
  behavior = "domain";
  format = "yaml";
  interval = pos 86400;
  proxy_group = "REJECT";
  updated_at = "";
  last_success_at = "";
  last_failure_at = "";
  last_error = "";
}

abbrev defaults : Defaults
defaults = record { config_path = "/d"; log_dir = "/logs"; new_id = λ n. "id" }

config-IsFilled : IsFilled config
config-IsFilled = record { path = refl; binary = refl; controller = refl; log = refl; once = refl }

load_config-persisted_example : load_config defaults (persisted host config) ≡ config
load_config-persisted_example =
    load_config-persisted defaults host config refl config-IsValid config-IsFilled

abbrev without_controller : Config
without_controller = record config { mihomo = record kernel { external_controller = "" } }

load_config-turns_on_example :
    (load_config defaults (persisted host without_controller)).mihomo.external_controller
    ≡ "127.0.0.1:9090"
load_config-turns_on_example = load_config-turns_on defaults host without_controller refl

abbrev old_file : Config
old_file = record config { built_in_rules_initialized = false; built_in_rules = [] }

load_config_lem_example :
    let c' = load_config defaults old_file in
    IsIndex (length c'.subscriptions) c'.active_subscription
    × All (λ s. (s.id == "") ≡ false) c'.subscriptions
    × (c'.built_in_rules_initialized ≡ true)
    × (false ≡ false → AreRules c'.built_in_rules)
load_config_lem_example = load_config_lem defaults old_file (λ n. refl)
