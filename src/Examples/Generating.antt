-- ===== src/Examples/Generating.antt =====
-- The theorems about the generated configuration of the kernel, on the sample configuration.
use mihomo_tui.Base.{
  map, String, ◌≡◌, refl, true, false, ◌||◌, none, some, List, [], ◌∷◌, ◌↔◌, ◌++◌, All, Distinct,
  length, contains, ◌==◌,
}
use Prim.Native.String.{◌++◌ as join}
use mihomo_tui.Base.Maps.{keys}
use mihomo_tui.Base.Result.{ok}
use mihomo_tui.Config.{Config, SubscriptionMeta}
use mihomo_tui.Examples.{parsers, config, config-IsValid, all_cached, main_pool, sample}
use mihomo_tui.Generate.{Formats, MihomoYaml}
use mihomo_tui.Generate.MatchLast.{build_rule_config-match, is_literal_match}
use mihomo_tui.Generate.Names.{provider_names_for, provider_names_for-Distinct}
use mihomo_tui.Generate.Proxies.{ProxyConfig, build_proxy_config}
use mihomo_tui.Generate.ProxyLaws.{entries_for, build_proxy_config_lem}
use mihomo_tui.Generate.RuleLines.{build_rule_config}
use mihomo_tui.Generate.RuleNames.{custom_names, built_in_names, keys-build_rule_config}
use mihomo_tui.Generate.Write.{System, generate_mihomo_config}
use mihomo_tui.Generate.WriteLaws.{
  Ends, IsSecured, generate_mihomo_config-cases, generate_mihomo_config-succeeds,
}
use mihomo_tui.Pools.Runtime.{active_pool_subscriptions}
use mihomo_tui.Validate.Rules.{is_custom_match}

-- Every text has one digest here, so that all provider names collide.
abbrev formats : Formats
formats = record { hash8 = λ s. "0a1b2c3d"; decimal = λ n. "7"; first64 = λ s. s }

provider_names_test :
    provider_names_for formats config.subscriptions
    ≡ "provider-0a1b2c3d" ∷ "provider-0a1b2c3d-7" ∷ "provider-0a1b2c3d-7x" ∷ []
unfolding provider_names_for
provider_names_test = refl

provider_names_for-Distinct_example :
    Distinct (provider_names_for formats config.subscriptions)
    × (length (provider_names_for formats config.subscriptions) ≡ length config.subscriptions)
provider_names_for-Distinct_example = provider_names_for-Distinct formats config.subscriptions

-- The pool lets both of its members run.
abbrev merging : Config
merging = record config { subscription_pools = record main_pool { mode = "merge" } ∷ [] }

abbrev members : List SubscriptionMeta
members = sample "a" "A" ∷ sample "b" "B" ∷ []

members_run : active_pool_subscriptions all_cached merging ≡ ok members
unfolding active_pool_subscriptions mihomo_tui.Pools.Runtime.collect_subscriptions
    mihomo_tui.Pools.Runtime.pool_subscriptions mihomo_tui.Pools.Runtime.merge_members
    mihomo_tui.Config.Lookup.find_subscription mihomo_tui.Pools.Runtime.is_available
members_run = refl

build_proxy_config_lem_example :
    (built : ProxyConfig) × (build_proxy_config formats all_cached merging ≡ ok built)
    × (built.providers ≡ entries_for "http://x" members (provider_names_for formats members))
    × (keys built.providers ≡ provider_names_for formats members)
    × Distinct (keys built.providers)
    × (length (keys built.providers) ≡ 2)
    × (map (λ g. g.name) built.groups ≡ "Auto" ∷ "Manual" ∷ "Fallback" ∷ "Load-Balance" ∷ [])
    × All (λ g. g.uses ≡ provider_names_for formats members) built.groups
build_proxy_config_lem_example =
    build_proxy_config_lem formats all_cached merging members members_run

build_rule_config-match_example :
    (before : List String) × (group : String) × ((build_rule_config formats config).rules
      ≡ before ++ join "MATCH," group ∷ [])
    × (All (λ r. is_custom_match r ≡ false) before
        ↔ All (λ e. is_literal_match config e ≡ false) config.built_in_rules)
build_rule_config-match_example =
    build_rule_config-match formats parsers config config-IsValid refl refl

keys-build_rule_config_example :
    contains (keys (build_rule_config formats config).providers) "ads" ≡ (
      contains (custom_names formats config config.rule_provider_subscriptions) "ads"
      || contains (built_in_names formats config config.built_in_rules) "ads")
keys-build_rule_config_example = keys-build_rule_config formats config "ads" refl refl

abbrev system : System
system = record {
  formats = formats;
  net = record { parse_ip = λ s. none; parses_cidr = λ s. true; lookup_ip = λ s. none };
  stat = all_cached;
  config_path = "/k";
  new_secret = "s";
  marshals = true;
  makes_dir = true;
  chmods_dir = true;
  writes = true;
  renames = true;
  chmods_file = true;
}

generate_mihomo_config-cases_example :
    (secured : Config) × IsSecured "s" merging secured
    × Ends system secured none (generate_mihomo_config system merging none)
generate_mihomo_config-cases_example = generate_mihomo_config-cases system merging none

generate_mihomo_config-succeeds_example :
    let g = generate_mihomo_config system merging none in
    (file : MihomoYaml) × (g.file ≡ some file)
    × (g.failure ≡ none)
    × (keys file.proxy_providers ≡ provider_names_for formats members)
    × (file.rules ≡ (build_rule_config formats merging).rules)
    × ((file.secret == "") ≡ false)
generate_mihomo_config-succeeds_example =
    generate_mihomo_config-succeeds system merging none members members_run refl refl
