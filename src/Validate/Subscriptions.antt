-- ===== src/Validate/Subscriptions.antt =====
-- The subscription checks of `Validate` (mihomotui/config_validate.go).
use Prim.Native.String.{len}
use mihomo_tui.Base.{
  ℕ, ◌+◌, ◌≤◌, String, ◌≡◌, ◌↔◌, Bool, true, false, ◌||◌, not, List, [], ◌∷◌, ◌++◌, map, arith,
  ◌==◌, Distinct, length, ltb, is_blank, All,
}
use mihomo_tui.Base.Int.{pos, negsuc, int_lt, int_le}
use mihomo_tui.Config.{Config, SubscriptionMeta, fetch_direct, fetch_local_mihomo, fetch_system}
use mihomo_tui.Validate.Problem.{
  Problem, subscription_unnamed, subscription_name_twice, subscription_id_twice, subscription_no_id,
  subscription_no_url, user_agent_too_long, fetch_strategy, active_out_of_range, when,
  append-eq-nil,
}
use mihomo_tui.Validate.Unique.{check_unique, AreNew, AreNew-cons, AreNew-nil}

-- The fetch strategy is known, or left out.
unfoldable pub is_strategy : String → Bool
is_strategy s = s == "" || s == fetch_direct || s == fetch_local_mihomo || s == fetch_system

-- The checks of one subscription that look at no other.
unfoldable pub check_fields : SubscriptionMeta → List Problem
unfolding is_strategy
check_fields s =
    when (is_blank s.url) (subscription_no_url s.name)
    ++ (when (not (is_strategy s.fetch_proxy_strategy))
          (fetch_strategy s.name s.fetch_proxy_strategy)
        ++ when (ltb 512 (len s.user_agent)) (user_agent_too_long s.name))

-- The loop, with `subNames` and `subIDs`.
unfoldable pub check_subscriptions :
    ℕ → List (String × ℕ) → List (String × ℕ) → List SubscriptionMeta → List Problem
unfolding check_unique
check_subscriptions i names ids [] = []
check_subscriptions i names ids (s ∷ ss) =
    let (p, names') =
      check_unique (is_blank s.name) (subscription_unnamed (i + 1))
        (λ prev. subscription_name_twice s.name (prev + 1) (i + 1)) s.name i names in
    let (q, ids') =
      check_unique (s.id == "") (subscription_no_id s.name)
        (λ prev. subscription_id_twice s.id (prev + 1) (i + 1)) s.id i ids in
    p ++ (q ++ (check_fields s ++ check_subscriptions (i + 1) names' ids' ss))

-- `c.ActiveSubscription < -1 || c.ActiveSubscription >= len(c.Subscriptions)`
unfoldable pub check_active : Config → List Problem
check_active c =
    when
      (int_lt c.active_subscription (negsuc 0)
        || int_le (pos (length c.subscriptions)) c.active_subscription)
      (active_out_of_range c.active_subscription (length c.subscriptions))

-- The specification of one subscription.
pub record IsSubscription (s : SubscriptionMeta) : Type 0 where
  pub named : is_blank s.name ≡ false
  pub identified : (s.id == "") ≡ false
  pub located : is_blank s.url ≡ false
  pub strategy_known : is_strategy s.fetch_proxy_strategy ≡ true
  pub agent_short : len s.user_agent ≤ 512

abbrev pub names : List SubscriptionMeta → List String
names = map (λ s. s.name)

abbrev pub ids : List SubscriptionMeta → List String
ids = map (λ s. s.id)

check_fields_iff :
    (s : SubscriptionMeta)
    → (check_fields s ≡ []) ↔ (
        (is_blank s.url ≡ false)
        × (is_strategy s.fetch_proxy_strategy ≡ true)
        × (len s.user_agent ≤ 512))
unfolding check_fields
check_fields_iff s = ground arith

abbrev IsFresh : List (String × ℕ) → List (String × ℕ) → List SubscriptionMeta → Type 0
IsFresh ns is ss =
    All IsSubscription ss
    × Distinct (names ss)
    × Distinct (ids ss)
    × AreNew (names ss) ns
    × AreNew (ids ss) is

check_subscriptions_from :
    (i : ℕ) (ns is : List (String × ℕ)) (ss : List SubscriptionMeta)
    → (check_subscriptions i ns is ss ≡ []) ↔ IsFresh ns is ss
unfolding check_subscriptions
check_subscriptions_from i ns is [] = ground arith
check_subscriptions_from i ns is (s ∷ ss) = ground (
  arith,
  append-eq-nil (check_fields s)
      (check_subscriptions (i + 1) ((s.name, i) ∷ ns) ((s.id, i) ∷ is) ss),
  check_fields_iff s,
  check_subscriptions_from (i + 1) ((s.name, i) ∷ ns) ((s.id, i) ∷ is) ss,
  AreNew-cons (names ss) s.name i ns,
  AreNew-cons (ids ss) s.id i is,
)

-- The subscription checks report nothing exactly when every subscription has a name, an identifier,
-- a link, a known fetch strategy and a user agent of at most 512 bytes, no two names are equal, and
-- no two identifiers are equal.
pub check_subscriptions_iff :
    (ss : List SubscriptionMeta)
    → (check_subscriptions 0 [] [] ss ≡ [])
      ↔ (All IsSubscription ss × Distinct (names ss) × Distinct (ids ss))
check_subscriptions_iff ss =
    let both = check_subscriptions_from 0 [] [] ss in
    (
      λ h. let fresh = both.0 h in (fresh.0, fresh.1, fresh.2),
      λ h. both.1 (h.0, h.1, h.2, AreNew-nil (names ss), AreNew-nil (ids ss)),
    )
