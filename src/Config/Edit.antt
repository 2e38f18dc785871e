-- ===== src/Config/Edit.antt =====
-- Edits of the configuration in memory (mihomotui/config.go): adding, removing and activating a
-- subscription, adding and removing a rule provider. A new random identifier and the time stamp of
-- the clock are arguments.
use mihomo_tui.Base.{
  ℕ, zero, suc, String, Bool, true, false, none, some, List, [], ◌∷◌, ◌++◌, map, ◌==◌, length,
  get_elem?, modify, erase_at, without, ltb, nat_eq, if◌then◌else◌,
}
use mihomo_tui.Base.Int.{ℤ, pos, negsuc, int_le, int_lt, int_eq}
use mihomo_tui.Base.Result.{Result, ok, err, ◌>>◌, refuse_if}
use mihomo_tui.Config.{Config, SubscriptionMeta, SubscriptionPool, zero_subscription}
use mihomo_tui.Config.Lookup.{find_subscription_by_name, find_rule_provider_by_name}

pub data EditError : Type 0 where
  empty_name empty_url not_found : EditError

-- `AddSubscription`; `id` is what `newSubscriptionID` returns.
unfoldable pub add_subscription : String → String → String → Config → Result EditError Config
unfolding find_subscription_by_name
add_subscription id name url c =
    if name == "" then err empty_name else elim (find_subscription_by_name c name) [
      | some idx ↦
          ok (record c { subscriptions = modify c.subscriptions idx (λ s. record s { url = url }) })
      | none ↦ ok (record c {
        subscriptions =
            c.subscriptions ++ record zero_subscription { id = id; name = name; url = url } ∷ [];
      })
    ]

-- `pool.Members[0]`, or the empty identifier
abbrev pub first_member : List String → String
first_member [] = ""
first_member (m ∷ ms) = m

abbrev pub is_empty {ℓ} : {A : Type ℓ} → List A → Bool
is_empty [] = true
is_empty (x ∷ xs) = false

-- The loop body of `RemoveSubscription` over the pools.
unfoldable pub drop_member : String → String → SubscriptionPool → SubscriptionPool
drop_member now removed_id pool =
    let members = without (removed_id ∷ []) pool.members in
    let active =
      if pool.active_member_id == removed_id then first_member members else pool.active_member_id in
    if is_empty members
    then record pool {
      members = members;
      active_member_id = active;
      enabled = false;
      degraded = true;
      last_switch_at = now;
      last_switch_reason = "订阅池成员已全部删除";
    }
    else record pool { members = members; active_member_id = active }

-- `len(xs) - 1`
abbrev pub last_index : ℕ → ℤ
last_index zero = negsuc 0
last_index (suc n) = pos n

-- `c.ActiveSubscription--` where it is known to exceed an index
abbrev pub decrement : ℤ → ℤ
decrement (pos zero) = negsuc 0
decrement (pos (suc n)) = pos n
decrement (negsuc n) = negsuc (suc n)

-- The `switch` of `RemoveSubscription`: `count` subscriptions are left after the removal at `idx`.
unfoldable pub active_after_removal : ℕ → ℕ → ℤ → ℤ
active_after_removal count idx active =
    if nat_eq count 0
    then negsuc 0
    else if int_eq active (pos idx)
    then (if ltb idx count then pos idx else last_index count)
    else if int_lt (pos idx) active
    then decrement active
    else if int_le (pos count) active
    then last_index count
    else active

-- `RemoveSubscription`
abbrev pub remove_at : String → Config → ℕ → SubscriptionMeta → Config
remove_at now c idx removed =
    let rest = erase_at c.subscriptions idx in
    record c {
      subscription_pools = map (drop_member now removed.id) c.subscription_pools;
      subscriptions = rest;
      active_subscription = active_after_removal (length rest) idx c.active_subscription;
    }

unfoldable pub remove_subscription : String → String → Config → Result EditError Config
unfolding find_subscription_by_name drop_member active_after_removal
remove_subscription now name c = elim (find_subscription_by_name c name) [
  | none ↦ err not_found
  | some idx ↦ elim (get_elem? c.subscriptions idx) [
    | none ↦ err not_found
    | some removed ↦ ok (remove_at now c idx removed)
  ]
]

-- `SetActiveSubscription`
unfoldable pub set_active_subscription : String → Config → Result EditError Config
unfolding find_subscription_by_name
set_active_subscription name c = elim (find_subscription_by_name c name) [
  | none ↦ err not_found
  | some idx ↦ ok (record c { active_subscription = pos idx })
]

abbrev or_default : String → String → String
or_default default text = if text == "" then default else text

-- `AddRuleProvider`
unfoldable pub add_rule_provider :
    String → String → String → String → String → String → ℤ → Config → Result EditError Config
unfolding find_rule_provider_by_name
add_rule_provider now name url behavior format proxy_group interval c = do
  refuse_if (name == "") empty_name
  refuse_if (url == "") empty_url
  let behavior' = or_default "classical" behavior
  let format' = or_default "yaml" format
  let group = or_default "Auto" proxy_group
  let every = if int_le interval (pos 0) then pos 86400 else interval
  elim (find_rule_provider_by_name c name) [
    | some idx ↦ ok (record c {
      rule_provider_subscriptions = modify c.rule_provider_subscriptions idx λ r. record r {
        url = url;
        behavior = behavior';
        format = format';
        proxy_group = group;
        interval = every;
        updated_at = now;
      };
    })
    | none ↦ ok (record c {
      rule_provider_subscriptions =
          c.rule_provider_subscriptions
          ++ record {
            name = name;
            url = url;
            behavior = behavior';
            format = format';
            interval = every;
            proxy_group = group;
            updated_at = now;
            last_success_at = "";
            last_failure_at = "";
            last_error = "";
          }
            ∷ [];
    })
  ]

-- `RemoveRuleProvider`
unfoldable pub remove_rule_provider : String → Config → Result EditError Config
unfolding find_rule_provider_by_name
remove_rule_provider name c = elim (find_rule_provider_by_name c name) [
  | none ↦ err not_found
  | some idx ↦
      ok (record c { rule_provider_subscriptions = erase_at c.rule_provider_subscriptions idx })
]
