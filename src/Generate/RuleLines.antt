-- ===== src/Generate/RuleLines.antt =====
-- `buildRuleConfig` (mihomotui/mihomo_config.go), with `normalizeRuleGroup` of
-- mihomotui/builtin_rules.go and `SanitizeFileName` of mihomotui/config.go.
use Prim.Native.Char.{code}
use Prim.Native.String.{◌++◌ as join, len}
use mihomo_tui.Base.{
  ℕ, String, Bool, ◌||◌, not, Option, none, some, List, [], ◌∷◌, ◌++◌, ◌==◌, if◌then◌else◌, nat_eq,
  ltb, cut_suffix,
}
use mihomo_tui.Base.Int.{pos, int_le}
use mihomo_tui.Base.Maps.{put}
use mihomo_tui.Config.{
  Config, BuiltInRule, RuleProviderSubscription, kind_literal, kind_provider, kind_match,
}
use mihomo_tui.Generate.{Formats, RuleProviderYaml, day_in_seconds}

-- `normalizeRuleGroup`
unfoldable pub normalize_rule_group : String → String → String
unfolding cut_suffix
normalize_rule_group rule default_group = elim (cut_suffix ",Auto" rule) [
  | some before ↦ join before (join "," default_group)
  | none ↦ rule
]

-- A character that `SanitizeFileName` replaces.
abbrev is_unsafe : ℕ → Bool
is_unsafe c =
    nat_eq c b'/'
    || nat_eq c 92
    || nat_eq c b':'
    || nat_eq c b'*'
    || nat_eq c b'?'
    || nat_eq c 34
    || nat_eq c b'<'
    || nat_eq c b'>'
    || nat_eq c b'|'
    || nat_eq c 32

-- `replacer.Replace(name)`
unfoldable pub replace_unsafe : String → String
replace_unsafe String.[] = String.[]
replace_unsafe (String.◌∷◌ c s) =
    let rest = replace_unsafe s in if is_unsafe (code c) then join "_" rest else String.◌∷◌ c rest

-- `defaultProxyGroup`
unfoldable pub default_group_of : Config → String
default_group_of c = if c.default_proxy_group == "" then "Auto" else c.default_proxy_group

abbrev pub yaml_format : String → String
yaml_format format = if format == "" then "yaml" else format

abbrev file_ending : String → String
file_ending format = if format == "text" then "txt" else format

-- `if group == "" || group == "Auto" { group = c.defaultProxyGroup() }`
unfoldable pub group_or_default : Config → String → String
unfolding default_group_of
group_or_default c group = if group == "" || group == "Auto" then default_group_of c else group

-- `fmt.Sprintf("RULE-SET,%s,%s", providerName, group)`
unfoldable pub rule_set_line : String → String → String
rule_set_line name group = join "RULE-SET," (join name (join "," group))

-- A named rule provider with the group of its rule.
pub record NamedProvider : Type 0 where
  pub name : String
  pub provider : RuleProviderYaml
  pub group : String

-- The two results of `buildRuleConfig`.
pub record RuleConfig : Type 0 where
  pub providers : List (String × RuleProviderYaml)
  pub rules : List String

abbrev pub no_rules : RuleConfig
no_rules = record { providers = []; rules = [] }

module _ (formats : Formats) where
  -- `SanitizeFileName`
  unfoldable pub sanitize_file_name : String → String
  unfolding replace_unsafe
  sanitize_file_name name =
      let sanitized = replace_unsafe name in
      if ltb 64 (len sanitized) then formats.first64 sanitized else sanitized

  -- `fmt.Sprintf("./rules/%s.%s", …)`
  abbrev rules_path : String → String → String
  rules_path sanitized format = join "./rules/" (join sanitized (join "." (file_ending format)))

  -- `ruleProviderFromSubscription`
  unfoldable pub rule_provider_from_subscription :
      Config → RuleProviderSubscription → String → Option NamedProvider
  unfolding sanitize_file_name group_or_default
  rule_provider_from_subscription c rp prefix =
      let format = yaml_format rp.format in
      let group = group_or_default c rp.proxy_group in
      let sanitized = sanitize_file_name rp.name in
      if rp.url == ""
      then none
      else some (record {
        name = join prefix (join sanitized (join "-" (formats.hash8 rp.url)));
        provider = record {
          type = "http";
          behavior = rp.behavior;
          url = rp.url;
          path = rules_path sanitized format;
          format = format;
          interval = if int_le rp.interval (pos 0) then day_in_seconds else rp.interval;
          proxy_group = group;
        };
        group = group;
      })

  -- The provider of a built-in rule of that kind.
  unfoldable pub built_in_provider : Config → BuiltInRule → NamedProvider
  unfolding sanitize_file_name group_or_default
  built_in_provider c entry =
      let format = yaml_format entry.format in
      let group = group_or_default c entry.proxy_group in
      let sanitized = sanitize_file_name entry.id in
      record {
        name = join "builtin-" sanitized;
        provider = record {
          type = "http";
          behavior = entry.behavior;
          url = entry.url;
          path = rules_path sanitized format;
          format = format;
          interval = entry.interval;
          proxy_group = group;
        };
        group = group;
      }

  -- `ruleProviders[name] = provider; rules = append(rules, "RULE-SET,…")`
  unfoldable pub append_provider : RuleConfig → NamedProvider → RuleConfig
  unfolding put rule_set_line
  append_provider built p = record {
    providers = put p.name p.provider built.providers;
    rules = built.rules ++ rule_set_line p.name p.group ∷ [];
  }

  abbrev pub append_found : RuleConfig → Option NamedProvider → RuleConfig
  append_found built none = built
  append_found built (some p) = append_provider built p

  -- The loop over the rule subscriptions.
  unfoldable pub add_custom_providers :
      Config → RuleConfig → List RuleProviderSubscription → RuleConfig
  unfolding append_provider rule_provider_from_subscription
  add_custom_providers c built [] = built
  add_custom_providers c built (rp ∷ rps) =
      add_custom_providers c (append_found built (rule_provider_from_subscription c rp "custom-"))
        rps

  -- The body of the loop over the built-in rules.
  unfoldable pub add_built_in : Config → RuleConfig → BuiltInRule → RuleConfig
  unfolding append_provider normalize_rule_group default_group_of built_in_provider
  add_built_in c built entry =
      if entry.kind == kind_match || not entry.enabled
      then built
      else if entry.kind == kind_literal
      then record built {
        rules = built.rules ++ normalize_rule_group entry.rule (default_group_of c) ∷ [];
      }
      else if entry.kind == kind_provider
      then append_provider built (built_in_provider c entry)
      else built

  unfoldable pub add_built_ins : Config → RuleConfig → List BuiltInRule → RuleConfig
  unfolding add_built_in
  add_built_ins c built [] = built
  add_built_ins c built (entry ∷ entries) = add_built_ins c (add_built_in c built entry) entries

  -- The last loop: the first MATCH rule
  unfoldable pub match_lines : Config → List BuiltInRule → List String
  unfolding group_or_default
  match_lines c [] = []
  match_lines c (entry ∷ entries) =
      let rest = match_lines c entries in
      if entry.kind == kind_match
      then join "MATCH," (group_or_default c entry.proxy_group) ∷ []
      else rest

  -- `buildRuleConfig`
  unfoldable pub build_rule_config : Config → RuleConfig
  unfolding add_custom_providers add_built_ins match_lines default_group_of
  build_rule_config c =
      if c.proxy_mode == "global"
      then record { providers = []; rules = join "MATCH," (default_group_of c) ∷ [] }
      else if c.proxy_mode == "direct"
      then record { providers = []; rules = "MATCH,DIRECT" ∷ [] }
      else (let started = record no_rules { rules = c.pre_custom_rules } in
          let custom = add_custom_providers c started c.rule_provider_subscriptions in
          let built = add_built_ins c custom c.built_in_rules in
          record built {
            rules = (built.rules ++ c.post_custom_rules) ++ match_lines c c.built_in_rules;
          })
