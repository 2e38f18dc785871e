-- ===== src/Validate/Restart.antt =====
-- A valid configuration over a restart: what `Flush` writes of it and `LoadConfig` reads back
-- (mihomotui/config.go).
use mihomo_tui.Base.{
  ℕ, String, ◌≡◌, refl, ◌∙◌, inl, inr, Bool, true, false, ◌&&◌, not, List, [], ◌∷◌, ◌==◌, arith,
  eq_iff, All, length, is_blank, if◌then◌else◌, Bool-cases,
}
use mihomo_tui.Base.Int.{ℤ, pos, negsuc, int_le, int_lt}
use mihomo_tui.Config.{Config, SubscriptionMeta}
use mihomo_tui.Config.BuiltIn.{ensure_built_in_rules}
use mihomo_tui.Config.Load.{
  count_unnamed, Defaults, fill_ids, migrate_pools, heal_active, fill_fields, load_config,
}
use mihomo_tui.Validate.FieldSpec.{is_proxy_mode_iff, is_app_log_level_iff, is_mihomo_log_level_iff}
use mihomo_tui.Validate.{is_proxy_mode, is_app_log_level, is_mihomo_log_level}
use mathlib.Core.Path.{subst}
use mihomo_tui.Base.{sym}
use mihomo_tui.Base.{ap}
use mihomo_tui.Validate.Spec.{IsValid}
use mihomo_tui.Validate.Subscriptions.{IsSubscription}
use mihomo_tui.Config.Load.{count_unnamed}
use mihomo_tui.Store.{Host, persisted}

fill_ids-named :
    (new_id : ℕ → String) (drawn : ℕ) (subs : List SubscriptionMeta)
    → All IsSubscription subs
    → fill_ids new_id drawn subs ≡ subs
unfolding fill_ids
fill_ids-named new_id drawn [] h = refl
fill_ids-named new_id drawn (s ∷ subs) h =
    ground (arith, h.0.identified, fill_ids-named new_id drawn subs h.1)

heal_active-IsIndex :
    (count : ℕ) (active : ℤ)
    → int_lt active (negsuc 0) ≡ false
    → int_le (pos count) active ≡ false
    → heal_active count active ≡ active
unfolding heal_active
heal_active-IsIndex count active low high = ground arith

-- A text is not empty if it passes a test that the empty text fails.
filled_if :
    (test : String → Bool) (s : String) → test "" ≡ false → test s ≡ true → (s == "") ≡ false
filled_if test s base h = elim (Bool-cases (s == "")) [
  | inl empty ↦
      let fails = subst (λ t. test t ≡ false) (sym ((eq_iff s "").0 empty)) base in
      absurd (ground (arith, fails, h))
  | inr other ↦ other
]

is_blank-empty : (s : String) → is_blank s ≡ false → (s == "") ≡ false
unfolding is_blank
is_blank-empty s h = filled_if (λ t. not (is_blank t)) s refl (ground (arith, h))

module _ (host : Host) (c : Config) (h : IsValid host.net c) where
  known_modes :
      (is_proxy_mode c.proxy_mode ≡ true)
      × (is_blank c.default_proxy_group ≡ false)
      × (is_blank c.system.language ≡ false)
      × (is_mihomo_log_level c.mihomo.log_level ≡ true)
      × (is_app_log_level c.log_level ≡ true)
  known_modes =
      let (mode, group, language) = h.fields.modes in
      let (level, app_level) = h.fields.levels in
      (
        (is_proxy_mode_iff c.proxy_mode).1 mode,
        group,
        language,
        (is_mihomo_log_level_iff c.mihomo.log_level).1 level,
        (is_app_log_level_iff c.log_level).1 app_level,
      )

  filled_fields :
      ((c.proxy_mode == "") ≡ false)
      × ((c.default_proxy_group == "") ≡ false)
      × ((c.system.language == "") ≡ false)
      × ((c.mihomo.log_level == "") ≡ false)
      × ((c.log_level == "") ≡ false)
  unfolding is_proxy_mode is_mihomo_log_level is_app_log_level
  filled_fields =
      let (mode, group, language, level, app_level) = known_modes in
      (
        filled_if is_proxy_mode c.proxy_mode refl mode,
        is_blank-empty c.default_proxy_group group,
        is_blank-empty c.system.language language,
        filled_if is_mihomo_log_level c.mihomo.log_level refl level,
        filled_if is_app_log_level c.log_level refl app_level,
      )

migrate_pools-once :
    (id : String) (c : Config) → c.subscription_pools_initialized ≡ true → migrate_pools id c ≡ c
unfolding migrate_pools
migrate_pools-once id c once = ground (arith, once)

ensure_built_in_rules-once :
    (c : Config) → c.built_in_rules_initialized ≡ true → ensure_built_in_rules c ≡ c
unfolding ensure_built_in_rules
ensure_built_in_rules-once c once = ground (arith, once)

-- What is not empty, so that loading has nothing to fill in but the log directory.
pub record IsFilled (c : Config) : Type 0 where
  pub path : (c.mihomo_config_path == "") ≡ false
  pub binary : (c.mihomo_binary_path == "" && c.external_resources.mihomo == "") ≡ false
  pub controller : (c.mihomo.external_controller == "") ≡ false
  pub log : (c.log_dir == "") ≡ false
  pub once : c.subscription_pools_initialized ≡ true

abbrev with_dir : String → Config → Config
with_dir dir c = record c { log_dir = dir }

module _ (d : Defaults) (host : Host) (c : Config) (h : IsValid host.net c)
    (full : IsFilled c) where
  fill_fields-full :
      (dir : String)
      → fill_fields d (with_dir dir c) ≡ with_dir (if dir == "" then d.log_dir else dir) c
  unfolding fill_fields
  fill_fields-full dir =
      let (mode, group, language, level, app_level) = filled_fields host c h in
      rw (full.path, full.binary, full.controller, mode, group, language, level, app_level) refl

  load_config-full :
      (dir : String)
      → load_config d (with_dir dir c) ≡ with_dir (if dir == "" then d.log_dir else dir) c
  unfolding load_config
  load_config-full dir =
      let id = d.new_id (count_unnamed c.subscriptions) in
      let pools = migrate_pools-once id (with_dir dir c) full.once in
      let rules = ensure_built_in_rules-once (with_dir dir c) h.rules_initialized in
      let index =
        heal_active-IsIndex (length c.subscriptions) c.active_subscription h.active_low
          h.active_high in
      rw (fill_ids-named d.new_id 0 c.subscriptions h.subscriptions_each, pools, rules, index)
        (fill_fields-full dir)

-- A valid configuration is read back as it is if the file holds what `Flush` wrote of it, its
-- configuration path, log directory and external controller are not empty, the path or the download
-- link of the kernel is not, and its pools have been initialized once.
pub load_config-persisted :
    (d : Defaults) (host : Host) (c : Config)
    → d.log_dir ≡ host.default_log_dir
    → IsValid host.net c
    → IsFilled c
    → load_config d (persisted host c) ≡ c
unfolding persisted
load_config-persisted d host c dir h full = elim (Bool-cases (c.log_dir == host.default_log_dir)) [
  | inl default ↦
      let same = dir ∙ sym ((eq_iff c.log_dir host.default_log_dir).0 default) in
      rw default (load_config-full d host c h full "" ∙ ap (λ t. with_dir t c) same)
  | inr own ↦
      let keeps : (if c.log_dir == "" then d.log_dir else c.log_dir) ≡ c.log_dir =
        rw full.log refl in
      rw own (load_config-full d host c h full c.log_dir ∙ ap (λ t. with_dir t c) keeps)
]
