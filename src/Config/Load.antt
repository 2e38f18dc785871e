-- ===== src/Config/Load.antt =====
-- What `LoadConfig` (mihomotui/config.go) does with the configuration that the file decodes to: it
-- fills identifiers in, moves old subscriptions into a pool, old rules into the built-in ones, and
-- puts the active index and empty fields right. The default paths and the identifiers that
-- `newSubscriptionID` returns, by the number of its earlier calls, are arguments.
use mihomo_tui.Base.{
  ℕ, ◌+◌, String, true, false, not, List, [], ◌∷◌, ◌==◌, ◌&&◌, map, if◌then◌else◌, length,
  get_elem?, none, some,
}
use mihomo_tui.Base.Int.{ℤ, pos, negsuc, int_le, int_lt}
use mihomo_tui.Config.{Config, SubscriptionMeta, source_url}
use mihomo_tui.Config.BuiltIn.{ensure_built_in_rules}
use mihomo_tui.Config.Edit.{is_empty, first_member, last_index}

pub record Defaults : Type 0 where
  pub config_path : String
  pub log_dir : String
  pub new_id : ℕ → String

abbrev pub mihomo_download_url : String
mihomo_download_url = "https://github.com/MetaCubeX/mihomo/latest/download/"

-- The loop that fills identifiers in; `drawn` of them have been drawn before.
unfoldable pub fill_ids : (ℕ → String) → ℕ → List SubscriptionMeta → List SubscriptionMeta
fill_ids new_id drawn [] = []
fill_ids new_id drawn (s ∷ subs) =
    if s.id == ""
    then record s { id = new_id drawn } ∷ fill_ids new_id (drawn + 1) subs
    else s ∷ fill_ids new_id drawn subs

abbrev pub count_unnamed : List SubscriptionMeta → ℕ
count_unnamed [] = 0
count_unnamed (s ∷ subs) = let rest = count_unnamed subs in if s.id == "" then rest + 1 else rest

abbrev or_text : String → String → String
or_text default text = if text == "" then default else text

abbrev pub with_source : SubscriptionMeta → SubscriptionMeta
with_source s = record s { source_type = or_text source_url s.source_type }

-- `cfg.Subscriptions[cfg.ActiveSubscription].ID` where the index is in range, else `members[0]`
abbrev migrated_active : List SubscriptionMeta → ℤ → List String → String
migrated_active subs (negsuc n) members = first_member members
migrated_active subs (pos n) members = elim (get_elem? subs n) [
  | none ↦ first_member members
  | some s ↦ s.id
]

-- The migration of old subscriptions into one pool, which is done once.
unfoldable pub migrate_pools : String → Config → Config
migrate_pools pool_id c =
    let members = map (λ s. s.id) c.subscriptions in
    if not (is_empty c.subscriptions)
      && is_empty c.subscription_pools
      && not c.subscription_pools_initialized
    then record c {
      subscriptions = map with_source c.subscriptions;
      subscription_pools =
          record {
            id = pool_id;
            name = "默认订阅池";
            mode = "";
            members = members;
            active_member_id = migrated_active c.subscriptions c.active_subscription members;
            enabled = true;
            refresh_interval = pos 86400;
            last_switch_at = "";
            last_switch_reason = "";
            degraded = false;
          }
          ∷ [];
      subscription_pools_initialized = true;
    }
    else record c {
      subscription_pools_initialized =
          if is_empty c.subscription_pools then c.subscription_pools_initialized else true;
    }

-- The two corrections of the active index.
unfoldable pub heal_active : ℕ → ℤ → ℤ
heal_active count active =
    let low = if int_le (pos count) active then last_index count else active in
    if int_lt low (negsuc 0) then negsuc 0 else low

-- The fields that must not be empty.
unfoldable pub fill_fields : Defaults → Config → Config
fill_fields d c = record c {
  mihomo_config_path = or_text d.config_path c.mihomo_config_path;
  external_resources = record c.external_resources {
    mihomo =
        if c.mihomo_binary_path == "" && c.external_resources.mihomo == ""
        then mihomo_download_url
        else c.external_resources.mihomo;
  };
  system = record c.system { language = or_text "zh-CN" c.system.language };
  mihomo = record c.mihomo {
    log_level = or_text "info" c.mihomo.log_level;
    external_controller = or_text "127.0.0.1:9090" c.mihomo.external_controller;
  };
  log_dir = or_text d.log_dir c.log_dir;
  proxy_mode = or_text "rule" c.proxy_mode;
  log_level = or_text "info" c.log_level;
  default_proxy_group = or_text "Auto" c.default_proxy_group;
}

-- `LoadConfig`, from the decoded file on
unfoldable pub load_config : Defaults → Config → Config
unfolding fill_ids migrate_pools ensure_built_in_rules heal_active fill_fields
load_config d c =
    let named = record c { subscriptions = fill_ids d.new_id 0 c.subscriptions } in
    let pooled =
      ensure_built_in_rules (migrate_pools (d.new_id (count_unnamed c.subscriptions)) named) in
    fill_fields d (record pooled {
      active_subscription = heal_active (length pooled.subscriptions) pooled.active_subscription;
    })
