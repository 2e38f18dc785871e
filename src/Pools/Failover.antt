-- ===== src/Pools/Failover.antt =====
-- Switching a failover pool to another member once its active one has failed too often
-- (`failoverSubscription` of mihomotui/daemon_handlers_subscription.go). The time stamp and the
-- redacted text of the failure are arguments.
use mihomo_tui.Base.{
  String, Bool, true, false, ◌||◌, ◌&&◌, not, Option, none, some, List, [], ◌∷◌, ◌==◌,
  if◌then◌else◌,
}
use mihomo_tui.Base.Int.{ℤ, pos, int_lt, int_le}
use mihomo_tui.Config.{
  Config, SubscriptionMeta, SubscriptionPool, normalized_pool_mode, mode_failover,
}
use mihomo_tui.Config.Lookup.{find_subscription}
use mihomo_tui.Pools.Runtime.{Stat, has_cache}

abbrev pub subscription_failure_threshold : ℤ
subscription_failure_threshold = pos 3

-- `cfg.Subscriptions[failed].FailureCount < subscriptionFailureThreshold`, or no such subscription
unfoldable pub has_failed : List SubscriptionMeta → String → Bool
has_failed subs id = elim (find_subscription subs id) [
  | none ↦ false
  | some sub ↦ not (int_lt sub.failure_count subscription_failure_threshold)
]

-- The source's `continue`s before the search of a candidate.
unfoldable pub is_failing : List SubscriptionMeta → String → SubscriptionPool → Bool
unfolding has_failed
is_failing subs failed_id pool =
    (normalized_pool_mode pool.mode == mode_failover
      && pool.enabled
      && pool.active_member_id == failed_id)
    && has_failed subs failed_id

module _ (stat : String → Stat) (failed_id : String) where
  unfoldable pub is_candidate : List SubscriptionMeta → String → Bool
  is_candidate subs id = elim (find_subscription subs id) [
    | none ↦ false
    | some sub ↦ not (
        id == failed_id
        || sub.disabled
        || not (has_cache stat sub)
        || int_le subscription_failure_threshold sub.failure_count)
  ]

  -- The inner loop, up to its `break`.
  unfoldable pub choose : List SubscriptionMeta → List String → Option String
  unfolding is_candidate
  choose subs [] = none
  choose subs (id ∷ ids) =
      let rest = choose subs ids in if is_candidate subs id then some id else rest

module _ (stat : String → Stat) (now cause cause_of_all failed_id : String) where
  -- One round of the outer loop, with the flag `switched`, which all pools share.
  unfoldable pub fail_over_pool :
      List SubscriptionMeta → Bool → SubscriptionPool → Bool × SubscriptionPool
  unfolding is_failing choose
  fail_over_pool subs switched pool =
      if not (is_failing subs failed_id pool)
      then (switched, pool)
      else elim (choose stat failed_id subs pool.members) [
        | some id ↦ (
          true,
          record pool {
            active_member_id = id;
            degraded = false;
            last_switch_at = now;
            last_switch_reason = cause;
          },
        )
        | none ↦ (
          switched,
          if switched then pool else record pool {
            degraded = true;
            last_switch_at = now;
            last_switch_reason = cause_of_all;
          },
        )
      ]

  unfoldable pub fail_over_pools :
      List SubscriptionMeta → Bool → List SubscriptionPool → Bool × List SubscriptionPool
  unfolding fail_over_pool
  fail_over_pools subs switched [] = (switched, [])
  fail_over_pools subs switched (pool ∷ pools) =
      let (switched', pool') = fail_over_pool subs switched pool in
      let (final, pools') = fail_over_pools subs switched' pools in (final, pool' ∷ pools')

  -- The function that `failoverSubscription` commits, and whether it asks for a new runtime
  -- configuration.
  unfoldable pub fail_over : Config → Bool × Config
  unfolding fail_over_pools
  fail_over c =
      let (switched, pools) = fail_over_pools c.subscriptions false c.subscription_pools in
      (switched, record c { subscription_pools = pools })
