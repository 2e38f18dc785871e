-- ===== src/Pools/Assign.antt =====
-- `assignPoolMembers` and the edits of the pool requests (mihomotui/daemon_handlers_pool.go): a pool
-- is created, changed or deleted. New identifiers and time stamps are arguments.
use mihomo_tui.Base.{
  ℕ, ◌+◌, String, Bool, true, false, ◌||◌, ◌&&◌, not, none, some, List, [], ◌∷◌, ◌++◌, ◌==◌, length,
  modify, erase_at, without, contains, nat_eq, is_blank, is_some, if◌then◌else◌,
}
use mihomo_tui.Base.Int.{ℤ, pos, int_eq, int_lt}
use mihomo_tui.Base.Result.{Result, ok, err, ◌>>◌, refuse_if}
use mihomo_tui.Config.{Config, SubscriptionPool, normalized_pool_mode}
use mihomo_tui.Config.Lookup.{find_pool_by_identifier}
use mihomo_tui.Config.Edit.{first_member, is_empty}
use mihomo_tui.Validate.Pools.{is_pool_mode}

-- The loop body of `assignPoolMembers` for a pool that is not the target.
unfoldable pub release_members : String → List String → SubscriptionPool → SubscriptionPool
unfolding contains without
release_members now wanted pool =
    let kept = without wanted pool.members in
    if not (contains wanted pool.active_member_id)
    then record pool { members = kept }
    else if is_empty kept
    then record pool {
      members = kept;
      active_member_id = "";
      enabled = false;
      degraded = true;
      last_switch_at = now;
      last_switch_reason = "成员已移入其他订阅池";
    }
    else record pool { members = kept; active_member_id = first_member kept }

-- The loop from index `i` on.
unfoldable pub assign_from :
    String → ℕ → ℕ → List String → List SubscriptionPool → List SubscriptionPool
unfolding release_members
assign_from now i target wanted [] = []
assign_from now i target wanted (pool ∷ pools) =
    (if nat_eq i target then pool else release_members now wanted pool)
    ∷ assign_from now (i + 1) target wanted pools

unfoldable pub assign_pool_members :
    String → ℕ → List String → List SubscriptionPool → List SubscriptionPool
unfolding assign_from
assign_pool_members now target members pools = assign_from now 0 target members pools

pub data PoolError : Type 0 where
  pool_unnamed name_taken unknown_mode pool_not_found : PoolError

-- `SubscriptionPoolRequest` of mihomotui/ipc_types.go
pub record PoolRequest : Type 0 where
  pub name : String
  pub mode : String
  pub members : List String
  pub active_member_id : String
  pub enabled : Bool
  pub refresh_interval : ℤ

-- The first member, where no active member is named.
abbrev pub default_active : String → List String → String
default_active active members = if active == "" then first_member members else active

-- The pool of a POST, with the mode and the interval that it gets if it names none.
abbrev pub new_pool : String → PoolRequest → SubscriptionPool
new_pool id req = record {
  id = id;
  name = req.name;
  mode = normalized_pool_mode req.mode;
  members = req.members;
  active_member_id = default_active req.active_member_id req.members;
  enabled = req.enabled;
  refresh_interval = if int_eq req.refresh_interval (pos 0) then pos 3600 else req.refresh_interval;
  last_switch_at = "";
  last_switch_reason = "";
  degraded = false;
}

-- The update of a POST to the pools; `id` is what `newSubscriptionID` returns.
unfoldable pub create_pool : String → String → PoolRequest → Config → Result PoolError Config
unfolding find_pool_by_identifier is_pool_mode
create_pool id now req c = do
  refuse_if (is_blank req.name) pool_unnamed
  refuse_if (is_some (find_pool_by_identifier c req.name)) name_taken
  refuse_if (not (is_pool_mode req.mode)) unknown_mode
  ok (record c {
    subscription_pools =
        assign_pool_members now (length c.subscription_pools) req.members
          (c.subscription_pools ++ new_pool id req ∷ []);
  })

-- Another pool than the one at `i` has the name.
unfoldable pub is_name_taken : ℕ → ℕ → String → List SubscriptionPool → Bool
is_name_taken j i name [] = false
is_name_taken j i name (p ∷ ps) =
    (not (nat_eq j i) && p.name == name) || is_name_taken (j + 1) i name ps

unfoldable pub change_pool : PoolRequest → SubscriptionPool → SubscriptionPool
change_pool req p = record p {
  name = req.name;
  mode = normalized_pool_mode req.mode;
  members = req.members;
  active_member_id = default_active req.active_member_id req.members;
  enabled = req.enabled;
  refresh_interval =
      if int_lt (pos 0) req.refresh_interval then req.refresh_interval else p.refresh_interval;
}

abbrev change_at : String → PoolRequest → Config → ℕ → Config
change_at now req c i = record c {
  subscription_pools =
      assign_pool_members now i req.members (modify c.subscription_pools i (change_pool req));
}

-- The update of a PUT to a pool.
unfoldable pub update_pool : String → String → PoolRequest → Config → Result PoolError Config
unfolding find_pool_by_identifier is_pool_mode is_name_taken change_pool
update_pool now id req c = elim (find_pool_by_identifier c id) [
  | none ↦ err pool_not_found
  | some i ↦ do
    refuse_if (is_blank req.name) pool_unnamed
    refuse_if (is_name_taken 0 i req.name c.subscription_pools) name_taken
    refuse_if (not (is_pool_mode req.mode)) unknown_mode
    ok (change_at now req c i)
]

-- The update of a DELETE of a pool.
unfoldable pub delete_pool : String → Config → Result PoolError Config
unfolding find_pool_by_identifier
delete_pool id c = elim (find_pool_by_identifier c id) [
  | none ↦ err pool_not_found
  | some i ↦ ok (record c { subscription_pools = erase_at c.subscription_pools i })
]
