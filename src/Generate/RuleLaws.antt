-- ===== src/Generate/RuleLaws.antt =====
-- The order of the generated rules, and the providers they name (`buildRuleConfig` of
-- mihomotui/mihomo_config.go).
use mathlib.Core.List.{append-nil, append_assoc}
use mihomo_tui.Base.{
  String, false, ◌||◌, not, List, [], ◌∷◌, ◌++◌, ◌≡◌, refl, sym, ap, ◌∙◌, arith, ◌==◌,
  if◌then◌else◌, none, some, Option,
}
use mihomo_tui.Config.{
  Config, BuiltInRule, RuleProviderSubscription, kind_literal, kind_provider, kind_match,
}
use mihomo_tui.Generate.{Formats}
use mihomo_tui.Generate.RuleLines.{
  RuleConfig, NamedProvider, no_rules, normalize_rule_group, default_group_of, rule_set_line,
  rule_provider_from_subscription, built_in_provider, append_provider, append_found,
  add_custom_providers, add_built_in, add_built_ins, match_lines, build_rule_config,
}

abbrev found_lines : Option NamedProvider → List String
found_lines none = []
found_lines (some p) = rule_set_line p.name p.group ∷ []

module _ (formats : Formats) (c : Config) where
  -- The lines that the rule subscriptions stand for, each at its place.
  unfoldable pub custom_lines : List RuleProviderSubscription → List String
  custom_lines [] = []
  custom_lines (rp ∷ rps) =
      found_lines (rule_provider_from_subscription formats c rp "custom-") ++ custom_lines rps

  -- The line of one built-in rule, where it has one.
  unfoldable pub built_in_line : BuiltInRule → List String
  built_in_line entry =
      if entry.kind == kind_match || not entry.enabled
      then []
      else if entry.kind == kind_literal
      then normalize_rule_group entry.rule (default_group_of c) ∷ []
      else if entry.kind == kind_provider
      then found_lines (some (built_in_provider formats c entry))
      else []

  unfoldable pub built_in_lines : List BuiltInRule → List String
  built_in_lines [] = []
  built_in_lines (entry ∷ entries) = built_in_line entry ++ built_in_lines entries

  rules-append_found :
      (built : RuleConfig) (found : Option NamedProvider)
      → (append_found formats built found).rules ≡ built.rules ++ found_lines found
  unfolding append_provider
  rules-append_found built none = sym (append-nil built.rules)
  rules-append_found built (some p) = refl

  rules-add_custom_providers :
      (built : RuleConfig) (rps : List RuleProviderSubscription)
      → (add_custom_providers formats c built rps).rules ≡ built.rules ++ custom_lines rps
  unfolding add_custom_providers custom_lines
  rules-add_custom_providers built [] = sym (append-nil built.rules)
  rules-add_custom_providers built (rp ∷ rps) =
      let found = rule_provider_from_subscription formats c rp "custom-" in
      rules-add_custom_providers (append_found formats built found) rps
      ∙ ap (λ l. l ++ custom_lines rps) (rules-append_found built found)
      ∙ append_assoc built.rules (found_lines found) (custom_lines rps)

  rules-add_built_in :
      (built : RuleConfig) (entry : BuiltInRule)
      → (add_built_in formats c built entry).rules ≡ built.rules ++ built_in_line entry
  unfolding add_built_in built_in_line append_provider
  rules-add_built_in built entry = ground (arith, append-nil built.rules)

  rules-add_built_ins :
      (built : RuleConfig) (entries : List BuiltInRule)
      → (add_built_ins formats c built entries).rules ≡ built.rules ++ built_in_lines entries
  unfolding add_built_ins built_in_lines
  rules-add_built_ins built [] = sym (append-nil built.rules)
  rules-add_built_ins built (entry ∷ entries) =
      rules-add_built_ins (add_built_in formats c built entry) entries
      ∙ ap (λ l. l ++ built_in_lines entries) (rules-add_built_in built entry)
      ∙ append_assoc built.rules (built_in_line entry) (built_in_lines entries)

  -- In a mode that is neither global nor direct, the rules are in this order: the custom rules that go
  -- first, the rule subscriptions, the enabled built-in rules, the other custom rules, and the MATCH
  -- rule.
  pub rules-build_rule_config :
      (c.proxy_mode == "global") ≡ false
      → (c.proxy_mode == "direct") ≡ false
      → (build_rule_config formats c).rules
        ≡ (c.pre_custom_rules
            ++ (custom_lines c.rule_provider_subscriptions
                ++ (built_in_lines c.built_in_rules ++ c.post_custom_rules)))
          ++ match_lines formats c c.built_in_rules
  unfolding build_rule_config
  rules-build_rule_config g d =
      let start : RuleConfig = record no_rules { rules = c.pre_custom_rules } in
      let custom = add_custom_providers formats c start c.rule_provider_subscriptions in
      let customs = custom_lines c.rule_provider_subscriptions in
      let built_in = built_in_lines c.built_in_rules in
      let after = rules-add_built_ins custom c.built_in_rules in
      let before = rules-add_custom_providers start c.rule_provider_subscriptions in
      let order : (add_built_ins formats c custom c.built_in_rules).rules ++ c.post_custom_rules
          ≡ c.pre_custom_rules ++ (customs ++ (built_in ++ c.post_custom_rules)) =
        ap (λ l. l ++ c.post_custom_rules) (after ∙ ap (λ l. l ++ built_in) before)
        ∙ append_assoc (c.pre_custom_rules ++ customs) built_in c.post_custom_rules
        ∙ append_assoc c.pre_custom_rules customs (built_in ++ c.post_custom_rules) in
      simp (g, d) (ap (λ l. l ++ match_lines formats c c.built_in_rules) order)
