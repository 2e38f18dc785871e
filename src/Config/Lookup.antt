-- ===== src/Config/Lookup.antt =====
-- Searches by identifier (mihomotui/config.go, mihomotui/subscription_pool.go). The index -1 of the
-- source is `none`.
use mihomo_tui.Base.{
  contains, map, is_some, ℕ, zero, suc, ◌<◌, String, ◌≡◌, refl, Bool, true, false, ◌||◌, Option,
  none, some, List, [], ◌∷◌, arith, ◌==◌, length, get_elem?, All, if◌then◌else◌,
}
use mathlib.Core.Option
use mihomo_tui.Config.{Config, SubscriptionMeta}

-- `for i, x := range xs { if test(x) { return i } }; return -1`
unfoldable pub find_index {ℓ} : {A : Type ℓ} → (A → Bool) → List A → Option ℕ
find_index test [] = none
find_index test (x ∷ xs) =
    let rest = Option.map suc (find_index test xs) in if test x then some 0 else rest

unfoldable pub find_subscription_by_name : Config → String → Option ℕ
unfolding find_index
find_subscription_by_name c name = find_index (λ s. s.name == name) c.subscriptions

-- The loop of `FindSubscriptionByID`.
unfoldable pub index_of_id : List SubscriptionMeta → String → Option ℕ
unfolding find_index
index_of_id subs id = find_index (λ s. s.id == id) subs

unfoldable pub find_subscription_by_id : Config → String → Option ℕ
unfolding index_of_id
find_subscription_by_id c id = index_of_id c.subscriptions id

unfoldable pub find_subscription_by_identifier : Config → String → Option ℕ
unfolding find_subscription_by_id find_subscription_by_name
find_subscription_by_identifier c identifier = elim (find_subscription_by_id c identifier) [
  | some i ↦ some i
  | none ↦ find_subscription_by_name c identifier
]

unfoldable pub find_subscription_by_url : Config → String → Option ℕ
unfolding find_index
find_subscription_by_url c raw_url = find_index (λ s. s.url == raw_url) c.subscriptions

unfoldable pub find_rule_provider_by_name : Config → String → Option ℕ
unfolding find_index
find_rule_provider_by_name c name = find_index (λ r. r.name == name) c.rule_provider_subscriptions

unfoldable pub find_pool_by_identifier : Config → String → Option ℕ
unfolding find_index
find_pool_by_identifier c id = find_index (λ p. p.id == id || p.name == id) c.subscription_pools

-- The subscription with an identifier: `c.Subscriptions[c.FindSubscriptionByID(id)]` where found.
unfoldable pub find_subscription : List SubscriptionMeta → String → Option SubscriptionMeta
find_subscription [] id = none
find_subscription (s ∷ ss) id = if s.id == id then some s else find_subscription ss id

module _ {ℓ} {A : Type ℓ} (test : A → Bool) where
  -- What a search finds is the element at the returned index, and it passes the test.
  pub find_index_sound :
      (xs : List A) {i : ℕ}
      → find_index test xs ≡ some i
      → (x : A) × (get_elem? xs i ≡ some x) × (test x ≡ true) × (i < length xs)
  unfolding find_index
  find_index_sound [] h = cc
  find_index_sound (x ∷ xs) {i = zero} h = (x, refl, ground arith, omega arith)
  find_index_sound (x ∷ xs) {i = suc i} h =
      let (y, at, passes, below) = find_index_sound xs {i = i} (ground arith) in
      (y, at, passes, omega arith)

  -- A search that finds nothing has seen every element fail the test.
  pub find_index-none : (xs : List A) → find_index test xs ≡ none → All (λ x. test x ≡ false) xs
  unfolding find_index
  find_index-none [] h = tt
  find_index-none (x ∷ xs) h = ground (arith, find_index-none xs)

-- A search by a key finds something exactly if the key is there.
pub is_some-find_index {ℓ} :
    {A : Type ℓ} (f : A → String) (xs : List A) (key : String)
    → is_some (find_index (λ x. f x == key) xs) ≡ contains (map f xs) key
unfolding find_index contains
is_some-find_index f [] key = refl
is_some-find_index f (x ∷ xs) key = ground (arith, is_some-find_index f xs key)
