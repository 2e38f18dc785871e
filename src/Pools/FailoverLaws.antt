-- ===== src/Pools/FailoverLaws.antt =====
-- A failover (mihomotui/daemon_handlers_subscription.go) against the specification of a valid
-- configuration, and the member it chooses.
use mihomo_tui.Base.{
  Bool-cases, String, ◌≡◌, refl, ◌⊎◌, inl, inr, Bool, true, false, ◌||◌, not, none, some, List, [],
  ◌∷◌, contains, arith, eq_iff, All,
}
use mihomo_tui.Config.{Config, SubscriptionMeta, SubscriptionPool}
use mihomo_tui.Validate.Hosts.{NetParsers}
use mihomo_tui.Validate.PoolSpec.{IsPool, pool_ids, owned}
use mihomo_tui.Validate.Spec.{IsValid}
use mihomo_tui.Pools.Runtime.{Stat}
use mihomo_tui.Pools.Failover.{
  is_failing, is_candidate, choose, fail_over_pool, fail_over_pools, fail_over,
}

module _ (stat : String → Stat) (failed_id : String) (subs : List SubscriptionMeta) where
  -- The search finds no candidate among the members, or one of them.
  choose_lem :
      (members : List String)
      → ((choose stat failed_id subs members ≡ none)
          × All (λ id. is_candidate stat failed_id subs id ≡ false) members)
        ⊎ ((id : String) × (choose stat failed_id subs members ≡ some id)
            × (is_candidate stat failed_id subs id ≡ true)
            × (contains members id ≡ true))
  unfolding choose contains
  choose_lem [] = inl (refl, tt)
  choose_lem (m ∷ members) = elim (Bool-cases (is_candidate stat failed_id subs m)) [
    | inl fits ↦ inr (m, ground (arith, fits), fits, ground (arith, eq_iff m m))
    | inr fails ↦ elim (choose_lem members) [
      | inl (nothing, all) ↦ inl (ground (arith, fails, nothing), (fails, all))
      | inr (id, found, good, m) ↦ inr (id, ground (arith, fails, found), good, ground (arith, m))
    ]
  ]

module _ (stat : String → Stat) (now cause cause_of_all failed_id : String)
    (subs : List SubscriptionMeta) where
  fail_over_pool_lem :
      (switched : Bool) (pool : SubscriptionPool)
      → let p = (fail_over_pool stat now cause cause_of_all failed_id subs switched pool).1 in
        (p.id ≡ pool.id)
        × (p.name ≡ pool.name)
        × (p.mode ≡ pool.mode)
        × (p.members ≡ pool.members)
        × (p.enabled ≡ pool.enabled)
        × (p.refresh_interval ≡ pool.refresh_interval)
        × ((p.active_member_id ≡ pool.active_member_id)
            ⊎ (contains pool.members p.active_member_id ≡ true))
  unfolding fail_over_pool
  fail_over_pool_lem switched pool = elim (choose_lem stat failed_id subs pool.members) [
    | inl (nothing, all) ↦ ground (arith, nothing)
    | inr (id, found, good, m) ↦ ground (arith, found, m)
  ]

  fail_over_pool-IsPool :
      (switched : Bool) (pool : SubscriptionPool)
      → IsPool subs pool
      → IsPool subs (fail_over_pool stat now cause cause_of_all failed_id subs switched pool).1
  fail_over_pool-IsPool switched pool h =
      let (id, name, mode, members, enabled, interval, active) = fail_over_pool_lem switched pool in
      record {
        identified = ground (arith, h.identified, id);
        named = ground (arith, h.named, name);
        mode_known = ground (arith, h.mode_known, mode);
        interval_valid = ground (arith, h.interval_valid, interval);
        members_known = rw members h.members_known;
        filled = ground (arith, h.filled, members, enabled);
        active_member = ground (arith, h.active_member, active, members);
      }

  fail_over_pools_lem :
      (switched : Bool) (pools : List SubscriptionPool)
      → All (IsPool subs) pools
      → let ps = (fail_over_pools stat now cause cause_of_all failed_id subs switched pools).1 in
        All (IsPool subs) ps × (pool_ids ps ≡ pool_ids pools) × (owned ps ≡ owned pools)
  unfolding fail_over_pools
  fail_over_pools_lem switched [] h = (tt, refl, refl)
  fail_over_pools_lem switched (pool ∷ pools) h =
      let next = fail_over_pool stat now cause cause_of_all failed_id subs switched pool in
      let (each, ids, members) = fail_over_pools_lem next.0 pools h.1 in
      let same = fail_over_pool_lem switched pool in
      (
        (fail_over_pool-IsPool switched pool h.0, each),
        ground (arith, ids, same),
        ground (arith, members, same),
      )

-- A failover turns a valid configuration into a valid one.
pub fail_over-IsValid :
    (net : NetParsers) (stat : String → Stat) (now cause cause_of_all failed_id : String)
    (c : Config)
    → IsValid net c
    → IsValid net (fail_over stat now cause cause_of_all failed_id c).1
unfolding fail_over
fail_over-IsValid net stat now cause cause_of_all failed_id c h =
    let (each, ids, members) =
      fail_over_pools_lem stat now cause cause_of_all failed_id c.subscriptions false
        c.subscription_pools h.pools.each in
    record {
      fields = record {
        controller = h.fields.controller;
        levels = h.fields.levels;
        urls = h.fields.urls;
        modes = h.fields.modes;
        exclude = h.fields.exclude;
        filter = h.fields.filter;
      };
      ports = h.ports;
      subscriptions_each = h.subscriptions_each;
      names_distinct = h.names_distinct;
      ids_distinct = h.ids_distinct;
      active_low = h.active_low;
      active_high = h.active_high;
      pools = record {
        each = each;
        ids_distinct = rw ids h.pools.ids_distinct;
        members_exclusive = rw members h.pools.members_exclusive;
      };
      providers_each = h.providers_each;
      provider_names_distinct = h.provider_names_distinct;
      rules_initialized = h.rules_initialized;
      rules = h.rules;
      custom = h.custom;
    }

module _ (stat : String → Stat) (now cause cause_of_all failed_id : String)
    (subs : List SubscriptionMeta) where
  -- A pool that a failure concerns is active at a member that can stand in for the failed one and is
  -- not degraded, or it has no such member; then it stays at the failed one, and is marked as
  -- degraded if no earlier pool was switched; else it keeps its mark.
  pub fail_over_pool-failing :
      (switched : Bool) (pool : SubscriptionPool)
      → is_failing subs failed_id pool ≡ true
      → let (switched', p) =
          fail_over_pool stat now cause cause_of_all failed_id subs switched pool in
        ((switched' ≡ true)
          × (p.degraded ≡ false)
          × (is_candidate stat failed_id subs p.active_member_id ≡ true)
          × (contains p.members p.active_member_id ≡ true))
        ⊎ (All (λ id. is_candidate stat failed_id subs id ≡ false) pool.members
            × (switched' ≡ switched)
            × (p.active_member_id ≡ pool.active_member_id)
            × (p.degraded ≡ (not switched || pool.degraded)))
  unfolding fail_over_pool
  fail_over_pool-failing switched pool failing =
      elim (choose_lem stat failed_id subs pool.members) [
        | inl (nothing, all) ↦ inr (
          all,
          ground (arith, failing, nothing),
          ground (arith, failing, nothing),
          ground (arith, failing, nothing),
        )
        | inr (id, found, good, m) ↦ inl (
          ground (arith, failing, found),
          ground (arith, failing, found),
          ground (arith, failing, found, good),
          ground (arith, failing, found, m),
        )
      ]
