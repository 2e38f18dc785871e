-- ===== src/Pools/RuntimeLaws.antt =====
-- The answers about pools (mihomotui/subscription_pool.go) side by side: the counts shown to the user,
-- the subscriptions of the generated configuration, and which of them affect it.
use mihomo_tui.Base.{
  ◌↔◌, true, Bool-cases, ℕ, ◌+◌, String, ◌≡◌, refl, false, ◌&&◌, some, List, [], ◌∷◌, ◌++◌, ◌==◌,
  length, contains, contains-append, arith, eq_iff, Option-cases, inl, inr,
}
use mihomo_tui.Base.Result.{>>=-eq-ok, ok, ◌>>=◌}
use mihomo_tui.Config.{Config, SubscriptionMeta, SubscriptionPool}
use mihomo_tui.Config.Lookup.{find_subscription}
use mihomo_tui.Validate.Subscriptions.{ids}
use mihomo_tui.Pools.Runtime.{
  Stat, is_available, judge_member, judge_members, pool_availability, merge_members,
  pool_subscriptions, collect_subscriptions, explain_nothing, active_pool_subscriptions,
  active_subscription_for_pool, subscription_affects_runtime, runs_in, affects,
}
use mihomo_tui.Pools.Usable.{CanRun, can_run, can_run-CanRun, CanRun-can_run}

-- What a search by identifier finds has that identifier.
pub find_subscription-id :
    (subs : List SubscriptionMeta) (id : String) (sub : SubscriptionMeta)
    → find_subscription subs id ≡ some sub
    → sub.id ≡ id
unfolding find_subscription
find_subscription-id [] id sub h = cc
find_subscription-id (s ∷ subs) id sub h =
    ground (arith, eq_iff s.id id, find_subscription-id subs id sub)

ids-append : (xs ys : List SubscriptionMeta) → ids (xs ++ ys) ≡ ids xs ++ ids ys
ids-append [] ys = refl
ids-append (x ∷ xs) ys = ground (arith, ids-append xs ys)

module _ (stat : String → Stat) (subs : List SubscriptionMeta) where
  judge_members-total :
      (members : List String) (total : ℕ)
      → (judge_members stat subs members total).available
          + length (judge_members stat subs members total).skipped
        ≡ length members
  unfolding judge_members
  judge_members-total [] total = refl
  judge_members-total (id ∷ members) total = ground (arith, judge_members-total members total)

  total-judge_members :
      (members : List String) (total : ℕ) → (judge_members stat subs members total).total ≡ total
  unfolding judge_members
  total-judge_members [] total = refl
  total-judge_members (id ∷ members) total = ground (arith, total-judge_members members total)

  merge_members-available :
      (members : List String) (total : ℕ)
      → length (merge_members stat subs members) ≡ (judge_members stat subs members total).available
  unfolding merge_members judge_members judge_member is_available
  merge_members-available [] total = refl
  merge_members-available (id ∷ members) total =
      ground (arith, merge_members-available members total)

  ids-merge_members :
      (members : List String) (id : String)
      → contains (ids (merge_members stat subs members)) id
        ≡ (contains members id && can_run stat subs id)
  unfolding merge_members contains
  ids-merge_members [] id = refl
  ids-merge_members (m ∷ members) id = elim (Option-cases (find_subscription subs m)) [
    | inl e ↦ ground (arith, e, eq_iff m id, ids-merge_members members id)
    | inr (sub, e) ↦ ground (
      arith,
      e,
      eq_iff m id,
      eq_iff sub.id id,
      find_subscription-id subs m sub e,
      ids-merge_members members id,
    )
  ]

  ids-pool_subscriptions :
      (pool : SubscriptionPool) (found : List SubscriptionMeta) (id : String)
      → pool_subscriptions stat subs pool ≡ ok found
      → contains (ids found) id ≡ (runs_in id pool && can_run stat subs id)
  unfolding pool_subscriptions active_subscription_for_pool contains
  ids-pool_subscriptions pool found id h =
      elim (Option-cases (find_subscription subs pool.active_member_id)) [
        | inl e ↦ ground (arith, e, h, ids-merge_members pool.members id)
        | inr (sub, e) ↦ ground (
          arith,
          e,
          h,
          eq_iff pool.active_member_id id,
          eq_iff sub.id id,
          find_subscription-id subs pool.active_member_id sub e,
          ids-merge_members pool.members id,
        )
      ]

  ids-collect_subscriptions :
      (pools : List SubscriptionPool) (found : List SubscriptionMeta) (id : String)
      → collect_subscriptions stat subs pools ≡ ok found
      → contains (ids found) id ≡ (affects id pools && can_run stat subs id)
  unfolding collect_subscriptions contains
  ids-collect_subscriptions [] found id h = ground arith
  ids-collect_subscriptions (pool ∷ pools) found id h = elim (Bool-cases pool.enabled) [
    | inl on ↦
        let mine = pool_subscriptions stat subs pool in
        let rest = collect_subscriptions stat subs pools in
        let (f, hf, more) = >>=-eq-ok mine (λ f. rest >>= λ m. ok (f ++ m)) (simp on at h) in
        let (m, hm, e) = >>=-eq-ok rest (λ m. ok (f ++ m)) more in
        ground (
          arith,
          on,
          e,
          ids-pool_subscriptions pool f id hf,
          ids-collect_subscriptions pools m id hm,
          ids-append f m,
          contains-append (ids f) (ids m) id,
        )
    | inr off ↦ ground (arith, off, ids-collect_subscriptions pools found id (simp off at h))
  ]

module _ (stat : String → Stat) (c : Config) where
  -- Every member of a pool is either counted as available or listed with a reason, and the members
  -- counted as available are as many as a merge pool puts into the generated configuration.
  pub pool_availability_counts :
      (pool : SubscriptionPool)
      → let a = pool_availability stat c pool in
        (a.available + length a.skipped ≡ length pool.members)
        × (a.total ≡ length pool.members)
        × (length (merge_members stat c.subscriptions pool.members) ≡ a.available)
  unfolding pool_availability
  pool_availability_counts pool = (
    judge_members-total stat c.subscriptions pool.members (length pool.members),
    total-judge_members stat c.subscriptions pool.members (length pool.members),
    merge_members-available stat c.subscriptions pool.members (length pool.members),
  )

  -- If the pools give a configuration to run, a subscription with a non-empty identifier is in it
  -- exactly when it affects the runtime, exists, is not disabled and has a cache.
  pub ids-active_pool_subscriptions :
      (found : List SubscriptionMeta) (id : String)
      → active_pool_subscriptions stat c ≡ ok found
      → (id == "") ≡ false
      → (contains (ids found) id ≡ true)
        ↔ ((subscription_affects_runtime c id ≡ true) × CanRun stat c.subscriptions id)
  unfolding active_pool_subscriptions subscription_affects_runtime
  ids-active_pool_subscriptions found id h named =
      let subs = c.subscriptions in
      let all = collect_subscriptions stat subs c.subscription_pools in
      let (f, hf, e) = >>=-eq-ok all (explain_nothing stat c.subscription_pools) h in
      let same = ids-collect_subscriptions stat subs c.subscription_pools f id hf in
      (
        λ m. (
          ground (arith, e, named, m, same),
          can_run-CanRun stat subs id (ground (arith, e, named, m, same)),
        ),
        λ (touches, runs).
            let can = CanRun-can_run stat subs id runs in
            ground (arith, e, named, touches, can, same),
      )
