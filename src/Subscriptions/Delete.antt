-- ===== src/Subscriptions/Delete.antt =====
-- A deletion (mihomotui/daemon_handlers_subscription.go): the subscription that the identifier or name
-- finds, and the one that is removed by its name.
use mathlib.Core.Path.{subst}
use mihomo_tui.Base.{
  Bool, Option-cases, inl, inr, ℕ, zero, suc, String, ◌≡◌, refl, true, some, List, [], ◌∷◌, ◌==◌,
  erase_at, get_elem?, arith, Distinct, contains, eq_iff,
}
use mihomo_tui.Base.Result.{ok}
use mihomo_tui.Config.{Config, SubscriptionMeta}
use mihomo_tui.Config.Edit.{remove_subscription, remove_at}
use mihomo_tui.Config.Lookup.{
  find_index, find_subscription_by_name, find_subscription_by_identifier,
}
use mihomo_tui.Pools.Runtime.{subscription_affects_runtime}
use mihomo_tui.Validate.Hosts.{NetParsers}
use mihomo_tui.Validate.Spec.{IsValid}
use mihomo_tui.Validate.Subscriptions.{names}
use mihomo_tui.Validate.Removal.{remove_at-IsValid}
use mihomo_tui.Subscriptions.{delete_subscription}

names-contains :
    (subs : List SubscriptionMeta) (i : ℕ) (s : SubscriptionMeta)
    → get_elem? subs i ≡ some s
    → contains (names subs) s.name ≡ true
unfolding contains
names-contains [] i s at = cc
names-contains (x ∷ subs) zero s at = ground (arith, at, eq_iff s.name s.name)
names-contains (x ∷ subs) (suc i) s at = ground (arith, names-contains subs i s at)

-- Where names are distinct, the search by the name of an element finds that element.
find_index-name :
    (subs : List SubscriptionMeta) (i : ℕ) (s : SubscriptionMeta)
    → Distinct (names subs)
    → get_elem? subs i ≡ some s
    → find_index (λ t. t.name == s.name) subs ≡ some i
unfolding find_index
find_index-name [] i s h at = cc
find_index-name (x ∷ subs) zero s h at = ground (arith, at, eq_iff s.name s.name)
find_index-name (x ∷ subs) (suc i) s h at =
    ground (
      arith,
      h.0,
      names-contains subs i s at,
      find_index-name subs i s h.1 at,
      eq_iff x.name s.name,
    )

-- Deleting from a valid configuration, where the identifier or name finds a subscription, succeeds: it
-- removes that very subscription, leaves a valid configuration, and asks for a new runtime
-- configuration exactly if the subscription took part in the old one.
pub delete_subscription_lem :
    (net : NetParsers) (now identifier : String) (c : Config) (i : ℕ) (sub : SubscriptionMeta)
    → IsValid net c
    → find_subscription_by_identifier c identifier ≡ some i
    → get_elem? c.subscriptions i ≡ some sub
    → (c' : Config) × (delete_subscription now identifier c
        ≡ ok (c', subscription_affects_runtime c sub.id))
      × (c'.subscriptions ≡ erase_at c.subscriptions i)
      × IsValid net c'
unfolding delete_subscription remove_subscription find_subscription_by_name
delete_subscription_lem net now identifier c i sub valid found at =
    let named = find_index-name c.subscriptions i sub valid.names_distinct at in
    (
      remove_at now c i sub,
      ground (arith, found, at, named),
      refl,
      remove_at-IsValid net now c i sub at valid,
    )

-- A deletion from a valid configuration commits a valid one.
pub delete_subscription-IsValid :
    (net : NetParsers) (now identifier : String) (c c' : Config) (apply : Bool)
    → delete_subscription now identifier c ≡ ok (c', apply)
    → IsValid net c
    → IsValid net c'
unfolding delete_subscription
delete_subscription-IsValid net now identifier c c' apply h valid =
    elim (Option-cases (find_subscription_by_identifier c identifier)) [
      | inl missing ↦ absurd (ground (arith, h, missing))
      | inr (i, found) ↦ elim (Option-cases (get_elem? c.subscriptions i)) [
        | inl outside ↦ absurd (ground (arith, h, found, outside))
        | inr (sub, at) ↦
            let (d, deleted, _, good) =
              delete_subscription_lem net now identifier c i sub valid found at in
            let same : d ≡ c' = ground (arith, h, deleted) in subst (IsValid net) same good
      ]
    ]
