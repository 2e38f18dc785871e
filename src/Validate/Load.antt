-- ===== src/Validate/Load.antt =====
-- What `LoadConfig` (mihomotui/config.go) makes of any file, and of an empty external controller.
use mihomo_tui.Base.{
  ℕ, zero, suc, ◌+◌, String, ◌≡◌, refl, ◌∙◌, ◌↔◌, true, false, List, [], ◌∷◌, ◌==◌, arith, All,
  length, is_blank,
}
use mihomo_tui.Base.Int.{ℤ}
use mihomo_tui.Config.{Config, SubscriptionMeta}
use mihomo_tui.Config.BuiltIn.{ensure_built_in_rules, default_built_in_rules}
use mihomo_tui.Config.Load.{
  count_unnamed, Defaults, fill_ids, migrate_pools, heal_active, fill_fields, load_config,
}
use mihomo_tui.Validate.RuleSpec.{AreRules, check_rules_iff}
use mathlib.Core.Path.{subst}
use mihomo_tui.Base.{contains, sym}
use mihomo_tui.Base.{ap}
use mihomo_tui.Config.Removal.{IsIndex}
use mihomo_tui.Validate.Rules.{check_rules, check_kind}
use mihomo_tui.Validate.Providers.{is_behavior, is_format}
use mihomo_tui.Validate.Subscriptions.{ids}
use mihomo_tui.Base.{map}
use mihomo_tui.Config.Load.{with_source, count_unnamed}
use mihomo_tui.Store.{Host, persisted}

default_built_in_rules-AreRules : AreRules default_built_in_rules
unfolding check_rules default_built_in_rules is_blank contains check_kind is_behavior is_format
default_built_in_rules-AreRules = ((check_rules_iff true default_built_in_rules).0 refl).1

mihomo-persisted : (host : Host) (c : Config) → (persisted host c).mihomo ≡ c.mihomo
unfolding persisted
mihomo-persisted host c = ground arith

mihomo-ensure_built_in_rules : (c : Config) → (ensure_built_in_rules c).mihomo ≡ c.mihomo
unfolding ensure_built_in_rules
mihomo-ensure_built_in_rules c = ground arith

mihomo-migrate_pools : (id : String) (c : Config) → (migrate_pools id c).mihomo ≡ c.mihomo
unfolding migrate_pools
mihomo-migrate_pools id c = ground arith

-- A configuration that turns the external controller off has it turned on again once what `Flush`
-- wrote of it is loaded.
pub load_config-turns_on :
    (d : Defaults) (host : Host) (c : Config)
    → c.mihomo.external_controller ≡ ""
    → (load_config d (persisted host c)).mihomo.external_controller ≡ "127.0.0.1:9090"
unfolding load_config fill_fields
load_config-turns_on d host c off =
    let file = persisted host c in
    let named = record file { subscriptions = fill_ids d.new_id 0 file.subscriptions } in
    let id = d.new_id (count_unnamed file.subscriptions) in
    rw
      (
        mihomo-ensure_built_in_rules (migrate_pools id named),
        mihomo-migrate_pools id named,
        mihomo-persisted host c,
        off,
      )
      refl

fill_ids-identified :
    (new_id : ℕ → String) (drawn : ℕ) (subs : List SubscriptionMeta)
    → ((n : ℕ) → (new_id n == "") ≡ false)
    → All (λ s. (s.id == "") ≡ false) (fill_ids new_id drawn subs)
unfolding fill_ids
fill_ids-identified new_id drawn [] h = tt
fill_ids-identified new_id drawn (s ∷ subs) h = ground (
  arith,
  h drawn,
  fill_ids-identified new_id drawn subs h,
  fill_ids-identified new_id (drawn + 1) subs h,
)

ids-with_source : (subs : List SubscriptionMeta) → ids (map with_source subs) ≡ ids subs
ids-with_source [] = refl
ids-with_source (s ∷ subs) = ap (λ t. s.id ∷ t) (ids-with_source subs)

All-ids :
    (subs : List SubscriptionMeta)
    → All (λ id. (id == "") ≡ false) (ids subs) ↔ All (λ s. (s.id == "") ≡ false) subs
All-ids [] = ground arith
All-ids (s ∷ subs) = ground (arith, All-ids subs)

ids-migrate_pools :
    (id : String) (c : Config) → ids (migrate_pools id c).subscriptions ≡ ids c.subscriptions
unfolding migrate_pools
ids-migrate_pools id c = ground (arith, ids-with_source c.subscriptions)

subscriptions-ensure_built_in_rules :
    (c : Config)
    → ((ensure_built_in_rules c).subscriptions ≡ c.subscriptions)
      × ((ensure_built_in_rules c).built_in_rules_initialized ≡ true)
      × (c.built_in_rules_initialized ≡ false
          → (ensure_built_in_rules c).built_in_rules ≡ default_built_in_rules)
unfolding ensure_built_in_rules
subscriptions-ensure_built_in_rules c = (ground arith, ground arith, λ first. ground (arith, first))

initialized-migrate_pools :
    (id : String) (c : Config)
    → (migrate_pools id c).built_in_rules_initialized ≡ c.built_in_rules_initialized
unfolding migrate_pools
initialized-migrate_pools id c = ground arith

heal_active_lem : (count : ℕ) (active : ℤ) → IsIndex count (heal_active count active)
unfolding heal_active
heal_active_lem zero active = ground arith
heal_active_lem (suc count) active = ground arith

-- Loading any file leaves an active index that is -1 or that of a subscription, no subscription
-- without an identifier if the new identifiers are not empty, and, if the file had no built-in rules
-- yet, rules that are in order.
pub load_config_lem :
    (d : Defaults) (c : Config)
    → ((n : ℕ) → (d.new_id n == "") ≡ false)
    → let c' = load_config d c in
      IsIndex (length c'.subscriptions) c'.active_subscription
      × All (λ s. (s.id == "") ≡ false) c'.subscriptions
      × (c'.built_in_rules_initialized ≡ true)
      × (c.built_in_rules_initialized ≡ false → AreRules c'.built_in_rules)
unfolding load_config fill_fields
load_config_lem d c fresh =
    let named = record c { subscriptions = fill_ids d.new_id 0 c.subscriptions } in
    let pooled = migrate_pools (d.new_id (count_unnamed c.subscriptions)) named in
    let (subs, initialized, rules) = subscriptions-ensure_built_in_rules pooled in
    let keeps = ids-migrate_pools (d.new_id (count_unnamed c.subscriptions)) named in
    let old = initialized-migrate_pools (d.new_id (count_unnamed c.subscriptions)) named in
    let all =
      (All-ids named.subscriptions).1 (fill_ids-identified d.new_id 0 c.subscriptions fresh) in
    (
      heal_active_lem (length (ensure_built_in_rules pooled).subscriptions)
          (ensure_built_in_rules pooled).active_subscription,
      subst (λ t. All (λ s. (s.id == "") ≡ false) t) (sym subs)
          ((All-ids pooled.subscriptions).0
            (subst (λ t. All (λ id. (id == "") ≡ false) t) (sym keeps) all)),
      initialized,
      λ first. subst AreRules (sym (rules (old ∙ first))) default_built_in_rules-AreRules,
    )
