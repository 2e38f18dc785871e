-- ===== src/Pools/Runtime.antt =====
-- What the pools let run (mihomotui/subscription_pool.go): the availability of members, the
-- subscriptions of the generated configuration, and which subscriptions affect it.
use mihomo_tui.Base.{
  ℕ, ◌+◌, String, Bool, true, false, ◌||◌, ◌&&◌, not, Option, none, some, List, [], ◌∷◌, ◌++◌, ◌==◌,
  length, contains, nat_eq, if◌then◌else◌,
}
use mihomo_tui.Base.Result.{Result, ok, err, ◌>>=◌}
use mihomo_tui.Config.{Config, SubscriptionMeta, SubscriptionPool, normalized_pool_mode, mode_merge}
use mihomo_tui.Config.Lookup.{find_subscription}
use mihomo_tui.Config.Edit.{is_empty}

-- What `os.Stat` says of a path: a file or directory with its size, no permission, another error.
pub data Stat : Type 0 where
  entry : Bool → ℕ → Stat
  denied failed : Stat

abbrev is_cache : Stat → Bool
is_cache (entry is_dir size) = not is_dir && not (nat_eq size 0)
is_cache denied = true
is_cache failed = false

-- Why a pool member is left out.
pub data SkipReason : Type 0 where
  missing is_disabled no_cache : SkipReason

pub record SkippedMember : Type 0 where
  pub id : String
  pub name : String
  pub reason : SkipReason

pub record Availability : Type 0 where
  pub available : ℕ
  pub total : ℕ
  pub skipped : List SkippedMember

pub data RuntimeError : Type 0 where
  merge_without_cache : String → ℕ → RuntimeError
  no_active : String → RuntimeError
  active_without_cache : String → String → RuntimeError
  no_pools : RuntimeError
  all_disabled : ℕ → RuntimeError
  nothing_cached : RuntimeError

-- The file system, as `hasSubscriptionCache` asks it.
module _ (stat : String → Stat) where
  -- `hasSubscriptionCache`
  unfoldable pub has_cache : SubscriptionMeta → Bool
  has_cache sub = if sub.cache_file == "" then false else is_cache (stat sub.cache_file)

  -- `SubscriptionCacheAvailable`
  unfoldable pub is_available : SubscriptionMeta → Bool
  unfolding has_cache
  is_available sub = not sub.disabled && has_cache sub

  -- One round of `poolAvailability`: whether the member counts, or why not.
  unfoldable pub judge_member : String → Option SubscriptionMeta → Option SkippedMember
  unfolding has_cache
  judge_member id none = some (record { id = id; name = ""; reason = missing })
  judge_member id (some sub) =
      if sub.disabled
      then some (record { id = id; name = sub.name; reason = is_disabled })
      else if not (has_cache sub)
      then some (record { id = id; name = sub.name; reason = no_cache })
      else none

  abbrev record_member : Option SkippedMember → Availability → Availability
  record_member none a = record a { available = a.available + 1 }
  record_member (some s) a = record a { skipped = s ∷ a.skipped }

  -- The loop of `poolAvailability`, from its last member on.
  unfoldable pub judge_members : List SubscriptionMeta → List String → ℕ → Availability
  judge_members subs [] total = record { available = 0; total = total; skipped = [] }
  judge_members subs (id ∷ ids) total =
      record_member (judge_member id (find_subscription subs id)) (judge_members subs ids total)

  -- `poolAvailability`
  unfoldable pub pool_availability : Config → SubscriptionPool → Availability
  unfolding judge_members
  pool_availability c pool = judge_members c.subscriptions pool.members (length pool.members)

  -- `activeSubscriptionForPool`
  unfoldable pub active_subscription_for_pool :
      List SubscriptionMeta → SubscriptionPool → Option SubscriptionMeta
  unfolding find_subscription
  active_subscription_for_pool subs pool = elim (find_subscription subs pool.active_member_id) [
    | none ↦ none
    | some sub ↦ if sub.disabled then none else some sub
  ]

  abbrev keep_available : Option SubscriptionMeta → List SubscriptionMeta → List SubscriptionMeta
  keep_available none rest = rest
  keep_available (some sub) rest = if is_available sub then sub ∷ rest else rest

  -- The members of a merge pool that the configuration is generated from.
  unfoldable pub merge_members : List SubscriptionMeta → List String → List SubscriptionMeta
  merge_members subs [] = []
  merge_members subs (id ∷ ids) =
      keep_available (find_subscription subs id) (merge_members subs ids)

  -- One enabled pool in the loop of `activePoolSubscriptions`.
  unfoldable pub pool_subscriptions :
      List SubscriptionMeta → SubscriptionPool → Result RuntimeError (List SubscriptionMeta)
  pool_subscriptions subs pool =
      if normalized_pool_mode pool.mode == mode_merge
      then (let found = merge_members subs pool.members in
          if is_empty found
          then err (merge_without_cache pool.name (length pool.members))
          else ok found)
      else elim (active_subscription_for_pool subs pool) [
        | none ↦ err (no_active pool.name)
        | some sub ↦
            if is_available sub
            then ok (sub ∷ [])
            else err (active_without_cache pool.name sub.name)
      ]

  -- The loop of `activePoolSubscriptions`.
  unfoldable pub collect_subscriptions :
      List SubscriptionMeta → List SubscriptionPool → Result RuntimeError (List SubscriptionMeta)
  collect_subscriptions subs [] = ok []
  collect_subscriptions subs (pool ∷ pools) =
      let rest = collect_subscriptions subs pools in
      if pool.enabled
      then (do found ← pool_subscriptions subs pool; more ← rest; ok (found ++ more))
      else rest

  unfoldable pub count_enabled : List SubscriptionPool → ℕ
  count_enabled [] = 0
  count_enabled (pool ∷ pools) =
      let rest = count_enabled pools in if pool.enabled then rest + 1 else rest

  abbrev pub explain_nothing :
      List SubscriptionPool → List SubscriptionMeta → Result RuntimeError (List SubscriptionMeta)
  explain_nothing pools (sub ∷ subs) = ok (sub ∷ subs)
  explain_nothing pools [] = err (
      if nat_eq (length pools) 0
      then no_pools
      else if nat_eq (count_enabled pools) 0
      then all_disabled (length pools)
      else nothing_cached)

  -- `activePoolSubscriptions`
  unfoldable pub active_pool_subscriptions : Config → Result RuntimeError (List SubscriptionMeta)
  active_pool_subscriptions c = do
    found ← collect_subscriptions c.subscriptions c.subscription_pools
    explain_nothing c.subscription_pools found

abbrev pub runs_in : String → SubscriptionPool → Bool
runs_in id pool =
    if normalized_pool_mode pool.mode == mode_merge
    then contains pool.members id
    else pool.active_member_id == id

abbrev pub affects : String → List SubscriptionPool → Bool
affects id [] = false
affects id (pool ∷ pools) = (pool.enabled && runs_in id pool) || affects id pools

-- `subscriptionAffectsRuntime`
unfoldable pub subscription_affects_runtime : Config → String → Bool
unfolding contains
subscription_affects_runtime c id = if id == "" then false else affects id c.subscription_pools
