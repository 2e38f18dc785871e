-- ===== src/Validate/Pools.antt =====
-- The subscription-pool checks of `Validate` (mihomotui/config_validate.go).
use mihomo_tui.Base.{
  String, Bool, ◌||◌, ◌&&◌, not, Option, some, none, List, [], ◌∷◌, ◌++◌, ◌==◌, contains, is_blank,
  is_some,
}
use mihomo_tui.Base.Int.{pos, int_lt}
use mihomo_tui.Config.{
  SubscriptionMeta, SubscriptionPool, normalized_pool_mode, mode_failover, mode_merge,
}
use mihomo_tui.Config.Lookup.{index_of_id}
use mihomo_tui.Config.Edit.{is_empty}
use mihomo_tui.Validate.Problem.{
  Problem, pool_id, pool_unnamed, pool_mode, pool_interval, pool_empty, pool_active,
  pool_member_twice, pool_member_unknown, pool_member_shared, when, lookup,
}

-- The keys with their values in `memberOwner`.
abbrev pub Owners : Type 0
Owners = List (String × String)

abbrev pub shared : SubscriptionPool → String → Option String → List Problem
shared pool id (some old) = pool_member_shared id old pool.name ∷ []
shared pool id none = []

abbrev pub own : SubscriptionPool → String → Owners → Option String → Owners
own pool id owners (some old) = owners
own pool id owners none = (id, pool.name) ∷ owners

-- The inner loop over `pool.Members`, with `members` and `memberOwner`; it returns both.
unfoldable pub check_members :
    List SubscriptionMeta
    → SubscriptionPool
    → List String
    → List String
    → Owners
    → List Problem × List String × Owners
unfolding lookup
check_members subs pool [] members owners = ([], members, owners)
check_members subs pool (id ∷ rest) members owners =
    let owner = lookup id owners in
    let (problems, members', owners') =
      check_members subs pool rest (id ∷ members) (own pool id owners owner) in
    (
      when (contains members id) (pool_member_twice pool.name id)
          ++ (when (not (is_some (index_of_id subs id))) (pool_member_unknown pool.name id)
              ++ (shared pool id owner ++ problems)),
      members',
      owners',
    )

unfoldable pub is_pool_mode : String → Bool
is_pool_mode mode =
    let mode' = normalized_pool_mode mode in mode' == mode_failover || mode' == mode_merge

-- The checks of one pool, before and after its members.
unfoldable pub check_pool_fields : SubscriptionPool → List String → List Problem
unfolding is_pool_mode
check_pool_fields pool pool_ids =
    when (is_blank pool.id || contains pool_ids pool.id) (pool_id pool.id)
    ++ (when (is_blank pool.name) pool_unnamed
        ++ (when (not (is_pool_mode pool.mode)) (pool_mode pool.name pool.mode)
            ++ when (int_lt pool.refresh_interval (pos 0)) (pool_interval pool.name)))

unfoldable pub check_pool_activity : SubscriptionPool → List String → List Problem
check_pool_activity pool members =
    when (pool.enabled && is_empty pool.members) (pool_empty pool.name)
    ++ when (not (pool.active_member_id == "") && not (contains members pool.active_member_id))
        (pool_active pool.name)

-- The outer loop, with `poolIDs` and `memberOwner`.
unfoldable pub check_pools :
    List SubscriptionMeta → List String → Owners → List SubscriptionPool → List Problem
check_pools subs pool_ids owners [] = []
check_pools subs pool_ids owners (pool ∷ pools) =
    let (problems, members, owners') = check_members subs pool pool.members [] owners in
    check_pool_fields pool pool_ids
    ++ (problems
        ++ (check_pool_activity pool members
            ++ check_pools subs (pool.id ∷ pool_ids) owners' pools))
