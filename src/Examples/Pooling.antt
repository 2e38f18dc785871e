-- ===== src/Examples/Pooling.antt =====
-- The theorems about pools and subscriptions, on the sample configuration.
use mihomo_tui.Base.{
  ◌↔◌, arith, ℕ, String, Bool, true, false, not, ◌||◌, ◌&&◌, Option, none, some, List, [], ◌∷◌, ◌≡◌,
  refl, ◌↔◌, ◌⊎◌, ◌+◌, length, contains, without, get_elem?, erase_at, All, Distinct, ◌==◌,
}
use mihomo_tui.Base.Int.{pos}
use mihomo_tui.Base.Result.{ok, err}
use mihomo_tui.Config.{Config, SubscriptionMeta, SubscriptionPool}
use mihomo_tui.Config.Edit.{remove_subscription, remove_at}
use mihomo_tui.Config.Lookup.{find_subscription_by_identifier, find_subscription}
use mihomo_tui.Examples.{parsers, config, config-IsValid, all_cached, main_pool, sample}
use mihomo_tui.Pools.Assign.{PoolRequest, release_members}
use mihomo_tui.Pools.Failover.{is_failing, is_candidate, fail_over_pool, fail_over}
use mihomo_tui.Pools.FailoverLaws.{fail_over-IsValid, fail_over_pool-failing}
use mihomo_tui.Pools.Requests.{
  create, apply_edit, apply_edit-Distinct, release_members-stays_enabled,
}
use mihomo_tui.Pools.Runtime.{
  pool_availability, merge_members, active_pool_subscriptions, subscription_affects_runtime,
}
use mihomo_tui.Pools.RuntimeLaws.{ids-active_pool_subscriptions}
use mihomo_tui.Pools.Usable.{CanRun}
use mihomo_tui.Subscriptions.{delete_subscription}
use mihomo_tui.Subscriptions.Delete.{delete_subscription_lem}
use mihomo_tui.Validate.PoolSpec.{IsPool, owned}
use mihomo_tui.Validate.Removal.{remove_subscription-IsValid}
use mihomo_tui.Validate.Spec.{IsValid}
use mihomo_tui.Validate.Subscriptions.{ids}

abbrev request : PoolRequest
request = record {
  name = "other";
  mode = "merge";
  members = "b" ∷ "c" ∷ [];
  active_member_id = "";
  enabled = true;
  refresh_interval = pos 0;
}

abbrev edited : Config
edited = elim (apply_edit "t" (create "q" request) config) [ ok c ↦ c | err e ↦ config ]

apply_edit-Distinct_example : Distinct (owned edited.subscription_pools)
unfolding apply_edit contains mihomo_tui.Base.is_blank
apply_edit-Distinct_example =
    apply_edit-Distinct "t" (create "q" request) config edited refl (refl, (refl, tt))
      (refl, (refl, tt))

abbrev empty_active : SubscriptionPool
empty_active = record main_pool { active_member_id = "" }

release_members-stays_enabled_example :
    let p = release_members "t" ("a" ∷ "b" ∷ []) empty_active in
    (p.enabled ≡ true) × (p.members ≡ []) × ¬ (IsPool config.subscriptions p)
unfolding contains without
release_members-stays_enabled_example =
    release_members-stays_enabled "t" ("a" ∷ "b" ∷ []) empty_active config.subscriptions refl refl
      refl refl

abbrev removed : Config
removed = remove_at "t" config 0 (sample "a" "A")

remove_subscription-IsValid_example :
    IsValid parsers removed
    × ((idx : ℕ) × (gone : SubscriptionMeta) × (get_elem? config.subscriptions idx ≡ some gone)
        × (gone.name ≡ "A")
        × (contains (owned removed.subscription_pools) gone.id ≡ false))
unfolding remove_subscription
remove_subscription-IsValid_example =
    remove_subscription-IsValid parsers "t" "A" config removed refl config-IsValid

ids-active_pool_subscriptions_example : (contains (ids (sample "a" "A" ∷ [])) "a" ≡ true) ↔ (
    (subscription_affects_runtime config "a" ≡ true) × CanRun all_cached config.subscriptions "a")
unfolding active_pool_subscriptions mihomo_tui.Pools.Runtime.collect_subscriptions
    mihomo_tui.Pools.Runtime.pool_subscriptions
    mihomo_tui.Pools.Runtime.active_subscription_for_pool mihomo_tui.Pools.Runtime.is_available
ids-active_pool_subscriptions_example =
    ids-active_pool_subscriptions all_cached config (sample "a" "A" ∷ []) "a" refl refl

fail_over-IsValid_example : IsValid parsers (fail_over all_cached "t" "e" "all: e" "a" config).1
fail_over-IsValid_example =
    fail_over-IsValid parsers all_cached "t" "e" "all: e" "a" config config-IsValid

-- The sample subscriptions, the first of which has failed three times.
abbrev failed : List SubscriptionMeta
failed = record (sample "a" "A") { failure_count = pos 3 } ∷ sample "b" "B" ∷ []

fail_over_pool-failing_example :
    let (switched, p) = fail_over_pool all_cached "t" "e" "all: e" "a" failed false main_pool in
    ((switched ≡ true)
      × (p.degraded ≡ false)
      × (is_candidate all_cached "a" failed p.active_member_id ≡ true)
      × (contains p.members p.active_member_id ≡ true))
    ⊎ (All (λ id. is_candidate all_cached "a" failed id ≡ false) ("a" ∷ "b" ∷ [])
        × (switched ≡ false)
        × (p.active_member_id ≡ "a")
        × (p.degraded ≡ true))
unfolding is_failing find_subscription
fail_over_pool-failing_example =
    fail_over_pool-failing all_cached "t" "e" "all: e" "a" failed false main_pool refl

delete_subscription_lem_example :
    (c' : Config) × (delete_subscription "t" "a" config
      ≡ ok (c', subscription_affects_runtime config "a"))
    × (c'.subscriptions ≡ erase_at config.subscriptions 0)
    × IsValid parsers c'
unfolding find_subscription_by_identifier
delete_subscription_lem_example =
    delete_subscription_lem parsers "t" "a" config 0 (sample "a" "A") config-IsValid refl refl
