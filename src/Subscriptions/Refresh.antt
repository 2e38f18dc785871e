-- ===== src/Subscriptions/Refresh.antt =====
-- A refresh (mihomotui/daemon_handlers_subscription.go) against the specification of a valid
-- configuration, and the count of its failures.
use mathlib.Core.Path.{subst}
use mihomo_tui.Base.{
  ℕ, String, ◌≡◌, refl, inl, inr, true, false, some, List, [], ◌∷◌, ◌==◌, ◌∙◌, ap, modify,
  get_elem?, arith, All, length-modify, Option-cases, eq_iff,
}
use mihomo_tui.Base.Int.{pos}
use mihomo_tui.Base.Updates.{All-at, All-modify, map-modify}
use mihomo_tui.Base.Result.{Result, ok, err}
use mihomo_tui.Config.{Config, SubscriptionMeta, SubscriptionPool}
use mihomo_tui.Config.Lookup.{find_index, find_index_sound, find_subscription_by_id, index_of_id}
use mihomo_tui.Validate.Hosts.{NetParsers}
use mihomo_tui.Validate.Spec.{IsValid}
use mihomo_tui.Validate.Subscriptions.{IsSubscription, ids}
use mihomo_tui.Validate.PoolSpec.{IsPool, AreKnown}
use mihomo_tui.Base.{contains, sym}
use mihomo_tui.Base.Int.{increment}
use mihomo_tui.Pools.Failover.{has_failed}
use mihomo_tui.Config.Lookup.{find_subscription}
use mihomo_tui.Base.Result.{Result-cases}
use mihomo_tui.Validate.Removal.{is_some-index_of_id}
use mihomo_tui.Subscriptions.{
  TextTools, FetchResult, CacheEntry, record_fetch, record_failure, record_success, commit_refresh,
}

-- What a refresh does not change of a subscription.
record Keeps (s t : SubscriptionMeta) : Type 0 where
  id : t.id ≡ s.id
  name : t.name ≡ s.name
  url : t.url ≡ s.url
  strategy : t.fetch_proxy_strategy ≡ s.fetch_proxy_strategy
  agent : t.user_agent ≡ s.user_agent

Keeps-IsSubscription : (s t : SubscriptionMeta) → Keeps s t → IsSubscription s → IsSubscription t
Keeps-IsSubscription s t k h = record {
  named = ground (arith, h.named, k.name);
  identified = ground (arith, h.identified, k.id);
  located = ground (arith, h.located, k.url);
  strategy_known = ground (arith, h.strategy_known, k.strategy);
  agent_short = rw k.agent h.agent_short;
}

module _ (tools : TextTools) (now : String) where
  record_failure-Keeps :
      (e : String) (s : SubscriptionMeta) → Keeps s (record_failure tools now e s)
  unfolding record_failure
  record_failure-Keeps e s = record {
    id = refl;
    name = refl;
    url = refl;
    strategy = refl;
    agent = refl;
  }

  record_success-Keeps :
      (r : FetchResult) (entry : CacheEntry) (s : SubscriptionMeta)
      → Keeps s (record_success tools now r entry s)
  unfolding record_success
  record_success-Keeps r entry s = record {
    id = refl;
    name = refl;
    url = refl;
    strategy = refl;
    agent = refl;
  }

  record_fetch-Keeps :
      (fetched : Result String FetchResult) (cache : Result String CacheEntry)
      (s t : SubscriptionMeta)
      → record_fetch tools now fetched cache s ≡ ok t
      → Keeps s t
  unfolding record_fetch
  record_fetch-Keeps (err e) cache s t h =
      let same : record_failure tools now e s ≡ t = ground (arith, h) in
      subst (Keeps s) same (record_failure-Keeps e s)
  record_fetch-Keeps (ok r) (err e) s t h = cc
  record_fetch-Keeps (ok r) (ok entry) s t h =
      let same : record_success tools now r entry s ≡ t = ground (arith, h) in
      subst (Keeps s) same (record_success-Keeps r entry s)

module _ (subs subs' : List SubscriptionMeta) (same : ids subs' ≡ ids subs) where
  AreKnown-ids : (members : List String) → AreKnown subs members → AreKnown subs' members
  AreKnown-ids [] h = tt
  AreKnown-ids (m ∷ members) h = (
    is_some-index_of_id subs' m
        ∙ ap (λ t. contains t m) same
        ∙ sym (is_some-index_of_id subs m)
        ∙ h.0,
    AreKnown-ids members h.1,
  )

  IsPool-ids : (pools : List SubscriptionPool) → All (IsPool subs) pools → All (IsPool subs') pools
  IsPool-ids [] h = tt
  IsPool-ids (p ∷ pools) h = (
    record {
      identified = h.0.identified;
      named = h.0.named;
      mode_known = h.0.mode_known;
      interval_valid = h.0.interval_valid;
      members_known = AreKnown-ids p.members h.0.members_known;
      filled = h.0.filled;
      active_member = h.0.active_member;
    },
    IsPool-ids pools h.1,
  )

module _ (net : NetParsers) (c : Config) (i : ℕ) (s t : SubscriptionMeta)
    (at : get_elem? c.subscriptions i ≡ some s) (k : Keeps s t) where
  modify-IsValid :
      IsValid net c → IsValid net (record c { subscriptions = modify c.subscriptions i (λ _. t) })
  modify-IsValid h =
      let same = map-modify (λ s. s.id) c.subscriptions i s t at k.id in
      let new =
        Keeps-IsSubscription s t k
          (All-at IsSubscription c.subscriptions i s h.subscriptions_each at) in
      record {
        fields = record {
          controller = h.fields.controller;
          levels = h.fields.levels;
          urls = h.fields.urls;
          modes = h.fields.modes;
          exclude = h.fields.exclude;
          filter = h.fields.filter;
        };
        ports = h.ports;
        subscriptions_each = All-modify IsSubscription c.subscriptions i t h.subscriptions_each new;
        names_distinct =
            rw (map-modify (λ s. s.name) c.subscriptions i s t at k.name) h.names_distinct;
        ids_distinct = rw same h.ids_distinct;
        active_low = h.active_low;
        active_high = rw (length-modify c.subscriptions i (λ _. t)) h.active_high;
        pools = record {
          each =
              IsPool-ids c.subscriptions (modify c.subscriptions i (λ _. t)) same
                c.subscription_pools h.pools.each;
          ids_distinct = h.pools.ids_distinct;
          members_exclusive = h.pools.members_exclusive;
        };
        providers_each = h.providers_each;
        provider_names_distinct = h.provider_names_distinct;
        rules_initialized = h.rules_initialized;
        rules = h.rules;
        custom = h.custom;
      }

-- What a refresh commits of a valid configuration is valid, whether the download succeeds or fails.
pub commit_refresh-IsValid :
    (net : NetParsers) (tools : TextTools) (now : String) (sub : SubscriptionMeta)
    (fetched : Result String FetchResult) (cache : Result String CacheEntry) (c c' : Config)
    → commit_refresh tools now sub fetched cache c ≡ ok c'
    → IsValid net c
    → IsValid net c'
unfolding commit_refresh find_subscription_by_id index_of_id
commit_refresh-IsValid net tools now sub fetched cache c c' h valid =
    elim (Option-cases (find_index (λ s. s.id == sub.id) c.subscriptions)) [
      | inl missing ↦ absurd (ground (arith, h, missing))
      | inr (i, found) ↦
          let (item, at, hit, below) =
            find_index_sound (λ s. s.id == sub.id) c.subscriptions found in
          elim (Result-cases (record_fetch tools now fetched cache item)) [
            | inl (t, done) ↦
                let new : record c { subscriptions = modify c.subscriptions i (λ _. t) } ≡ c' =
                  ground (arith, h, found, at, done) in
                subst (IsValid net) new (
                  modify-IsValid net c i item t at
                    (record_fetch-Keeps tools now fetched cache item t done) valid)
            | inr (e, fails) ↦ absurd (ground (arith, h, found, at, fails))
          ]
    ]

-- A failed download keeps the cache file and its digest; with two failures before it, it makes the
-- subscription one that a failover replaces, and a success takes that back.
pub record_fetch-failures :
    (tools : TextTools) (now e : String) (r : FetchResult) (entry : CacheEntry)
    (s : SubscriptionMeta)
    → let failed = record_failure tools now e s in
      (failed.cache_file ≡ s.cache_file)
      × (failed.content_sha256 ≡ s.content_sha256)
      × (s.failure_count ≡ pos 2 → has_failed (failed ∷ []) s.id ≡ true)
      × (has_failed (record_success tools now r entry failed ∷ []) s.id ≡ false)
unfolding record_failure record_success has_failed find_subscription increment
record_fetch-failures tools now e r entry s =
    (refl, refl, λ two. ground (arith, two, eq_iff s.id s.id), ground (arith, eq_iff s.id s.id))
