-- ===== src/Validate/Spec.antt =====
-- What a valid configuration is, as one specification, and that `Validate`
-- (mihomotui/config_validate.go) decides it.
use mihomo_tui.Base.{
  String, ◌≡◌, ◌↔◌, true, false, List, [], ◌∷◌, ◌++◌, arith, Distinct, All, length,
}
use mihomo_tui.Base.Int.{pos, negsuc, int_lt, int_le}
use mihomo_tui.Config.{Config}
use mihomo_tui.Validate.Problem.{
  concat-eq-nil, exclude_empty, exclude_invalid, filter_empty, filter_invalid,
}
use mihomo_tui.Validate.Ports.{port_table, enabled_ports, ArePorts, check_ports_iff}
use mihomo_tui.Validate.Hosts.{NetParsers, is_exclude_address, is_filter_entry}
use mihomo_tui.Validate.Subscriptions.{
  IsSubscription, names, ids, check_active, check_subscriptions_iff,
}
use mihomo_tui.Validate.PoolSpec.{ArePools, check_pools_iff}
use mihomo_tui.Validate.Providers.{IsProvider, provider_names, check_providers_iff}
use mihomo_tui.Validate.Rules.{is_custom_match, check_custom_rules}
use mihomo_tui.Validate.RuleSpec.{AreRules, check_rules_iff}
use mihomo_tui.Validate.FieldSpec.{
  HasValidFields, check_controller_iff, check_levels_iff, check_urls_iff, check_modes_iff,
  check_entries_iff,
}
use mihomo_tui.Validate.{parts, validate}

pub record IsValid (net : NetParsers) (c : Config) : Type 0 where
  pub fields : HasValidFields net c
  pub ports : ArePorts (enabled_ports (port_table c.mihomo))
  pub subscriptions_each : All IsSubscription c.subscriptions
  pub names_distinct : Distinct (names c.subscriptions)
  pub ids_distinct : Distinct (ids c.subscriptions)
  pub active_low : int_lt c.active_subscription (negsuc 0) ≡ false
  pub active_high : int_le (pos (length c.subscriptions)) c.active_subscription ≡ false
  pub pools : ArePools c.subscriptions c.subscription_pools
  pub providers_each : All IsProvider c.rule_provider_subscriptions
  pub provider_names_distinct : Distinct (provider_names c.rule_provider_subscriptions)
  pub rules_initialized : c.built_in_rules_initialized ≡ true
  pub rules : AreRules c.built_in_rules
  pub custom : All (λ r. is_custom_match r ≡ false) (c.pre_custom_rules ++ c.post_custom_rules)

check_active_iff :
    (c : Config)
    → (check_active c ≡ []) ↔ (
        (int_lt c.active_subscription (negsuc 0) ≡ false)
        × (int_le (pos (length c.subscriptions)) c.active_subscription ≡ false))
unfolding check_active
check_active_iff c = ground arith

check_custom_rules_iff :
    (rules : List String)
    → (check_custom_rules rules ≡ []) ↔ All (λ r. is_custom_match r ≡ false) rules
unfolding check_custom_rules
check_custom_rules_iff [] = ground arith
check_custom_rules_iff (r ∷ rules) = ground (arith, check_custom_rules_iff rules)

-- `Validate` reports no problem exactly when the configuration satisfies the specification.
pub validate_iff : (net : NetParsers) (c : Config) → (validate net c ≡ []) ↔ IsValid net c
unfolding validate
validate_iff net c =
    let all = concat-eq-nil (parts net c) in
    let ports = check_ports_iff c.mihomo in
    let subs = check_subscriptions_iff c.subscriptions in
    let active = check_active_iff c in
    let pools = check_pools_iff c.subscriptions c.subscription_pools in
    let providers = check_providers_iff c.rule_provider_subscriptions in
    let rules = check_rules_iff c.built_in_rules_initialized c.built_in_rules in
    let custom = check_custom_rules_iff (c.pre_custom_rules ++ c.post_custom_rules) in
    let controller = check_controller_iff net c.mihomo.external_controller in
    let levels = check_levels_iff net c in
    let urls = check_urls_iff net c in
    let modes = check_modes_iff net c in
    let exclude =
      check_entries_iff (is_exclude_address net) exclude_empty exclude_invalid 0
        c.exclude_addresses in
    let filter = check_entries_iff is_filter_entry filter_empty filter_invalid 0 c.fake_ip_filter in
    (
      λ h.
          let (p, (ec, (l, (u, (m, (ss, (a, (po, (pr, (r, (cu, (ex, (fi, _))))))))))))) = all.0 h in
          record {
            fields = record {
              controller = controller.0 ec;
              levels = levels.0 l;
              urls = urls.0 u;
              modes = modes.0 m;
              exclude = exclude.0 ex;
              filter = filter.0 fi;
            };
            ports = ports.0 p;
            subscriptions_each = (subs.0 ss).0;
            names_distinct = (subs.0 ss).1;
            ids_distinct = (subs.0 ss).2;
            active_low = (active.0 a).0;
            active_high = (active.0 a).1;
            pools = pools.0 po;
            providers_each = (providers.0 pr).0;
            provider_names_distinct = (providers.0 pr).1;
            rules_initialized = (rules.0 r).0;
            rules = (rules.0 r).1;
            custom = custom.0 cu;
          },
      λ v. all.1 (
        ports.1 v.ports,
        (
          controller.1 v.fields.controller,
          (
            levels.1 v.fields.levels,
            (
              urls.1 v.fields.urls,
              (
                modes.1 v.fields.modes,
                (
                  subs.1 (v.subscriptions_each, v.names_distinct, v.ids_distinct),
                  (
                    active.1 (v.active_low, v.active_high),
                    (
                      pools.1 v.pools,
                      (
                        providers.1 (v.providers_each, v.provider_names_distinct),
                        (
                          rules.1 (v.rules_initialized, v.rules),
                          (
                            custom.1 v.custom,
                            (exclude.1 v.fields.exclude, (filter.1 v.fields.filter, tt)),
                          ),
                        ),
                      ),
                    ),
                  ),
                ),
              ),
            ),
          ),
        ),
      ),
    )
