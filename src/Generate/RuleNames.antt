-- ===== src/Generate/RuleNames.antt =====
-- The rule providers of the generated configuration and the RULE-SET rules that name them
-- (`buildRuleConfig` of mihomotui/mihomo_config.go).
use Prim.Native.String.{◌++◌ as join}
use mihomo_tui.Base.{
  Bool-cases, refl, String, false, ◌&&◌, ◌||◌, List, [], ◌∷◌, ◌++◌, ◌≡◌, arith, eq_iff, ◌==◌,
  if◌then◌else◌, none, some, Option, contains, contains-append, Option-cases, inl, inr,
}
use mihomo_tui.Base.Maps.{keys, put-keys}
use mihomo_tui.Config.{
  Config, BuiltInRule, RuleProviderSubscription, kind_literal, kind_provider, kind_match,
}
use mihomo_tui.Generate.{Formats}
use mihomo_tui.Generate.RuleLines.{
  sanitize_file_name, RuleConfig, NamedProvider, no_rules, rule_provider_from_subscription,
  built_in_provider, append_provider, add_custom_providers, add_built_in, add_built_ins,
  build_rule_config,
}

abbrev found_name : Option NamedProvider → List String
found_name none = []
found_name (some p) = p.name ∷ []

module _ (formats : Formats) (c : Config) where
  -- The names of the rule subscriptions that have a link.
  abbrev pub custom_names : List RuleProviderSubscription → List String
  custom_names [] = []
  custom_names (rp ∷ rps) =
      (if rp.url == ""
        then []
        else join "custom-"
            (join (sanitize_file_name formats rp.name) (join "-" (formats.hash8 rp.url)))
          ∷ [])
      ++ custom_names rps

  -- The names of the enabled built-in rules that have a provider.
  abbrev pub built_in_names : List BuiltInRule → List String
  built_in_names [] = []
  built_in_names (entry ∷ entries) =
      (if entry.kind == kind_provider && entry.enabled
        then join "builtin-" (sanitize_file_name formats entry.id) ∷ []
        else [])
      ++ built_in_names entries

  found_name-custom :
      (rp : RuleProviderSubscription)
      → found_name (rule_provider_from_subscription formats c rp "custom-") ++ custom_names []
        ≡ custom_names (rp ∷ [])
  unfolding rule_provider_from_subscription
  found_name-custom rp = elim (Bool-cases (rp.url == "")) [
    | inl e ↦ simp e refl
    | inr e ↦ simp e refl
  ]

  keys-append_provider :
      (built : RuleConfig) (p : NamedProvider) (name : String)
      → contains (keys (append_provider formats built p).providers) name
        ≡ (contains (keys built.providers) name || p.name == name)
  unfolding append_provider
  keys-append_provider built p name = put-keys p.name name p.provider built.providers

  keys-add_custom_providers :
      (built : RuleConfig) (rps : List RuleProviderSubscription) (name : String)
      → contains (keys (add_custom_providers formats c built rps).providers) name
        ≡ (contains (keys built.providers) name || contains (custom_names rps) name)
  unfolding add_custom_providers contains
  keys-add_custom_providers built [] name = ground arith
  keys-add_custom_providers built (rp ∷ rps) name =
      elim (Option-cases (rule_provider_from_subscription formats c rp "custom-")) [
        | inl e ↦ ground (arith, e, found_name-custom rp, keys-add_custom_providers built rps name)
        | inr (p, e) ↦ ground (
          arith,
          e,
          found_name-custom rp,
          keys-append_provider built p name,
          keys-add_custom_providers (append_provider formats built p) rps name,
        )
      ]

  keys-add_built_in :
      (built : RuleConfig) (entry : BuiltInRule) (name : String)
      → contains (keys (add_built_in formats c built entry).providers) name
        ≡ (contains (keys built.providers) name || contains (built_in_names (entry ∷ [])) name)
  unfolding add_built_in contains built_in_provider
  keys-add_built_in built entry name = ground (
    arith,
    eq_iff entry.kind kind_provider,
    eq_iff entry.kind kind_literal,
    eq_iff entry.kind kind_match,
    eq_iff kind_provider kind_literal,
    eq_iff kind_provider kind_match,
    keys-append_provider built (built_in_provider formats c entry) name,
  )

  keys-add_built_ins :
      (built : RuleConfig) (entries : List BuiltInRule) (name : String)
      → contains (keys (add_built_ins formats c built entries).providers) name
        ≡ (contains (keys built.providers) name || contains (built_in_names entries) name)
  unfolding add_built_ins contains
  keys-add_built_ins built [] name = ground arith
  keys-add_built_ins built (entry ∷ entries) name = ground (
    arith,
    keys-add_built_in built entry name,
    keys-add_built_ins (add_built_in formats c built entry) entries name,
    contains-append (built_in_names (entry ∷ [])) (built_in_names entries) name,
  )

  -- In a mode that is neither global nor direct, a rule provider is defined exactly if it is that of a
  -- rule subscription with a link, or that of an enabled built-in rule that has one.
  pub keys-build_rule_config :
      (name : String)
      → (c.proxy_mode == "global") ≡ false
      → (c.proxy_mode == "direct") ≡ false
      → contains (keys (build_rule_config formats c).providers) name ≡ (
          contains (custom_names c.rule_provider_subscriptions) name
          || contains (built_in_names c.built_in_rules) name)
  unfolding build_rule_config contains
  keys-build_rule_config name g d =
      let start : RuleConfig = record no_rules { rules = c.pre_custom_rules } in
      let custom = add_custom_providers formats c start c.rule_provider_subscriptions in
      ground (
        arith,
        g,
        d,
        keys-add_custom_providers start c.rule_provider_subscriptions name,
        keys-add_built_ins custom c.built_in_rules name,
      )
