-- ===== src/Validate/Removal.antt =====
-- `RemoveSubscription` (mihomotui/config.go) against the specification of a valid configuration.
use mihomo_tui.Base.{
  ℕ, zero, suc, ◌<◌, String, ◌≡◌, refl, inl, inr, true, false, some, List, [], ◌∷◌, map, ◌==◌,
  length, get_elem?, erase_at, without, contains, arith, eq_iff, All, length-erase_at,
  contains-without, without-append, without-Distinct, is_some, All-erase_at, map-erase_at,
  get_elem?-map, contains-erase_at, erase_at-Distinct, Option-cases,
}
use mathlib.Core.Path.{subst}
use mihomo_tui.Base.Result.{ok}
use mihomo_tui.Config.{Config, SubscriptionMeta, SubscriptionPool}
use mihomo_tui.Config.Lookup.{index_of_id, find_index, find_index_sound, find_subscription_by_name}
use mihomo_tui.Config.Edit.{remove_subscription, remove_at, drop_member, active_after_removal}
use mihomo_tui.Config.Removal.{
  IsIndex, active_after_removal-IsIndex, drop_member_lem, drop_member-active,
}
use mihomo_tui.Validate.Hosts.{NetParsers}
use mihomo_tui.Validate.Subscriptions.{IsSubscription, names, ids}
use mihomo_tui.Validate.PoolSpec.{IsPool, ArePools, AreKnown, pool_ids, owned}
use mihomo_tui.Validate.Spec.{IsValid}

pub is_some-index_of_id :
    (subs : List SubscriptionMeta) (id : String)
    → is_some (index_of_id subs id) ≡ contains (ids subs) id
unfolding index_of_id contains
is_some-index_of_id [] id = refl
is_some-index_of_id (s ∷ subs) id = ground (arith, is_some-index_of_id subs id)

module _ (now : String) (subs : List SubscriptionMeta) (idx : ℕ) (gone : SubscriptionMeta)
    (at : get_elem? subs idx ≡ some gone) where
  known-erase_at :
      (id : String)
      → is_some (index_of_id subs id) ≡ true
      → (gone.id == id) ≡ false
      → is_some (index_of_id (erase_at subs idx) id) ≡ true
  known-erase_at id known other = ground (
    arith,
    is_some-index_of_id subs id,
    is_some-index_of_id (erase_at subs idx) id,
    map-erase_at (λ s. s.id) subs idx,
    contains-erase_at (ids subs) idx gone.id id (get_elem?-map (λ s. s.id) subs idx gone at) other,
  )

  AreKnown-without :
      (members : List String)
      → AreKnown subs members
      → AreKnown (erase_at subs idx) (without (gone.id ∷ []) members)
  unfolding without contains
  AreKnown-without [] h = tt
  AreKnown-without (m ∷ members) h =
      ground (arith, known-erase_at m h.0, AreKnown-without members h.1)

  drop_member-IsPool :
      (pool : SubscriptionPool)
      → IsPool subs pool
      → IsPool (erase_at subs idx) (drop_member now gone.id pool)
  drop_member-IsPool pool h =
      let (members, id, name, mode, interval, filled) = drop_member_lem now gone.id pool in
      record {
        identified = ground (arith, h.identified, id);
        named = ground (arith, h.named, name);
        mode_known = ground (arith, h.mode_known, mode);
        interval_valid = ground (arith, h.interval_valid, interval);
        members_known = ground (arith, members, AreKnown-without pool.members h.members_known);
        filled = filled;
        active_member = drop_member-active now gone.id pool h.active_member;
      }

  drop_members-IsPool :
      (pools : List SubscriptionPool)
      → All (IsPool subs) pools
      → All (IsPool (erase_at subs idx)) (map (drop_member now gone.id) pools)
  drop_members-IsPool [] h = tt
  drop_members-IsPool (p ∷ pools) h = (drop_member-IsPool p h.0, drop_members-IsPool pools h.1)

pool_ids-drop_member :
    (now removed : String) (pools : List SubscriptionPool)
    → pool_ids (map (drop_member now removed) pools) ≡ pool_ids pools
pool_ids-drop_member now removed [] = refl
pool_ids-drop_member now removed (p ∷ pools) =
    ground (arith, drop_member_lem now removed p, pool_ids-drop_member now removed pools)

owned-drop_member :
    (now removed : String) (pools : List SubscriptionPool)
    → owned (map (drop_member now removed) pools) ≡ without (removed ∷ []) (owned pools)
unfolding without
owned-drop_member now removed [] = refl
owned-drop_member now removed (p ∷ pools) = ground (
  arith,
  drop_member_lem now removed p,
  without-append (removed ∷ []) p.members (owned pools),
  owned-drop_member now removed pools,
)

index_in_range {ℓ} :
    {A : Type ℓ} (xs : List A) (i : ℕ) {x : A} → get_elem? xs i ≡ some x → i < length xs
index_in_range [] i h = cc
index_in_range (y ∷ xs) zero h = omega arith
index_in_range (y ∷ xs) (suc i) h = let below = index_in_range xs i h in omega arith

module _ (net : NetParsers) (now : String) (c : Config) (idx : ℕ) (gone : SubscriptionMeta)
    (at : get_elem? c.subscriptions idx ≡ some gone) where
  remove_at-IsIndex :
      IsIndex (length c.subscriptions) c.active_subscription
      → IsIndex
          (length (erase_at c.subscriptions idx))
          (active_after_removal (length (erase_at c.subscriptions idx)) idx c.active_subscription)
  remove_at-IsIndex h =
      let below = index_in_range c.subscriptions idx at in
      let count = length-erase_at c.subscriptions idx below in
      active_after_removal-IsIndex (length (erase_at c.subscriptions idx)) idx c.active_subscription
        (rw count below) (rw count h)

  remove_at-pools :
      ArePools c.subscriptions c.subscription_pools
      → ArePools (erase_at c.subscriptions idx) (map (drop_member now gone.id) c.subscription_pools)
  remove_at-pools h = record {
    each = drop_members-IsPool now c.subscriptions idx gone at c.subscription_pools h.each;
    ids_distinct = rw (pool_ids-drop_member now gone.id c.subscription_pools) h.ids_distinct;
    members_exclusive =
        rw (owned-drop_member now gone.id c.subscription_pools)
          (without-Distinct (gone.id ∷ []) (owned c.subscription_pools) h.members_exclusive);
  }

  pub remove_at-IsValid : IsValid net c → IsValid net (remove_at now c idx gone)
  remove_at-IsValid h =
      let index = remove_at-IsIndex (h.active_low, h.active_high) in
      record {
        fields = record {
          controller = h.fields.controller;
          levels = h.fields.levels;
          urls = h.fields.urls;
          modes = h.fields.modes;
          exclude = h.fields.exclude;
          filter = h.fields.filter;
        };
        ports = h.ports;
        subscriptions_each = All-erase_at IsSubscription c.subscriptions idx h.subscriptions_each;
        names_distinct =
            rw (map-erase_at (λ s. s.name) c.subscriptions idx)
              (erase_at-Distinct (names c.subscriptions) idx h.names_distinct);
        ids_distinct =
            rw (map-erase_at (λ s. s.id) c.subscriptions idx)
              (erase_at-Distinct (ids c.subscriptions) idx h.ids_distinct);
        active_low = index.0;
        active_high = index.1;
        pools = remove_at-pools h.pools;
        providers_each = h.providers_each;
        provider_names_distinct = h.provider_names_distinct;
        rules_initialized = h.rules_initialized;
        rules = h.rules;
        custom = h.custom;
      }

  remove_at-released :
      contains (owned (map (drop_member now gone.id) c.subscription_pools)) gone.id ≡ false
  unfolding contains
  remove_at-released = ground (
    arith,
    owned-drop_member now gone.id c.subscription_pools,
    contains-without (gone.id ∷ []) (owned c.subscription_pools) gone.id,
    eq_iff gone.id gone.id,
  )

-- Removing a subscription by its name turns a valid configuration into a valid one, and its
-- identifier is in no pool's members after it.
pub remove_subscription-IsValid :
    (net : NetParsers) (now name : String) (c c' : Config)
    → remove_subscription now name c ≡ ok c'
    → IsValid net c
    → IsValid net c'
      × ((idx : ℕ) × (gone : SubscriptionMeta) × (get_elem? c.subscriptions idx ≡ some gone)
          × (gone.name ≡ name)
          × (contains (owned c'.subscription_pools) gone.id ≡ false))
unfolding remove_subscription find_subscription_by_name
remove_subscription-IsValid net now name c c' h valid =
    elim (Option-cases (find_index (λ s. s.name == name) c.subscriptions)) [
      | inl missing ↦ absurd (ground (arith, missing))
      | inr (i, found) ↦
          let (gone, at, hit, _) = find_index_sound (λ s. s.name == name) c.subscriptions found in
          let done : remove_at now c i gone ≡ c' = ground (arith, found, at) in
          (
            subst (IsValid net) done (remove_at-IsValid net now c i gone at valid),
            (
              i,
              gone,
              at,
              (eq_iff gone.name name).0 hit,
              subst (λ d. contains (owned d.subscription_pools) gone.id ≡ false) done
                  (remove_at-released net now c i gone at),
            ),
          )
    ]
