-- ===== src/Subscriptions/Valid.antt =====
-- A valid configuration with other subscriptions in it.
use mihomo_tui.Base.{
  ℕ, zero, suc, String, ◌≡◌, refl, sym, ap, ◌∙◌, Bool, true, false, some, List, [], ◌∷◌, ◌++◌,
  modify, get_elem?, arith, All, length, length-modify, contains, contains-append, Distinct, eq_iff,
  ◌==◌,
}
use mihomo_tui.Base.Int.{ℤ, pos, negsuc, int_lt, int_le}
use mihomo_tui.Base.Updates.{All-modify, All-append, map-modify, map-append, Distinct-append_last}
use mihomo_tui.Config.{Config, SubscriptionMeta, SubscriptionPool}
use mihomo_tui.Validate.Hosts.{NetParsers}
use mihomo_tui.Validate.PoolSpec.{IsPool, AreKnown}
use mihomo_tui.Validate.Removal.{is_some-index_of_id}
use mihomo_tui.Validate.Spec.{IsValid}
use mihomo_tui.Validate.Subscriptions.{IsSubscription, names, ids}

-- Every identifier of the first list is one of the second.
abbrev pub KeepsIds : List SubscriptionMeta → List SubscriptionMeta → Type 0
KeepsIds subs subs' = (id : String) → contains (ids subs) id ≡ true → contains (ids subs') id ≡ true

module _ (subs subs' : List SubscriptionMeta) (keeps : KeepsIds subs subs') where
  AreKnown-keeps : (members : List String) → AreKnown subs members → AreKnown subs' members
  AreKnown-keeps [] h = tt
  AreKnown-keeps (m ∷ members) h = (
    is_some-index_of_id subs' m ∙ keeps m (sym (is_some-index_of_id subs m) ∙ h.0),
    AreKnown-keeps members h.1,
  )

  IsPool-keeps :
      (pools : List SubscriptionPool) → All (IsPool subs) pools → All (IsPool subs') pools
  IsPool-keeps [] h = tt
  IsPool-keeps (p ∷ pools) h = (
    record {
      identified = h.0.identified;
      named = h.0.named;
      mode_known = h.0.mode_known;
      interval_valid = h.0.interval_valid;
      members_known = AreKnown-keeps p.members h.0.members_known;
      filled = h.0.filled;
      active_member = h.0.active_member;
    },
    IsPool-keeps pools h.1,
  )

-- What new subscriptions and a new active index must satisfy.
pub record Fits (c : Config) (subs : List SubscriptionMeta) (active : ℤ) : Type 0 where
  pub each : All IsSubscription subs
  pub names_distinct : Distinct (names subs)
  pub ids_distinct : Distinct (ids subs)
  pub keeps : KeepsIds c.subscriptions subs
  pub active_low : int_lt active (negsuc 0) ≡ false
  pub active_high : int_le (pos (length subs)) active ≡ false

pub with_subscriptions-IsValid :
    (net : NetParsers) (c : Config) (subs : List SubscriptionMeta) (active : ℤ) (initialized : Bool)
    → Fits c subs active
    → IsValid net c
    → IsValid net (record c {
      subscriptions = subs;
      active_subscription = active;
      subscription_pools_initialized = initialized;
    })
with_subscriptions-IsValid net c subs active initialized fits h = record {
  fields = record {
    controller = h.fields.controller;
    levels = h.fields.levels;
    urls = h.fields.urls;
    modes = h.fields.modes;
    exclude = h.fields.exclude;
    filter = h.fields.filter;
  };
  ports = h.ports;
  subscriptions_each = fits.each;
  names_distinct = fits.names_distinct;
  ids_distinct = fits.ids_distinct;
  active_low = fits.active_low;
  active_high = fits.active_high;
  pools = record {
    each = IsPool-keeps c.subscriptions subs fits.keeps c.subscription_pools h.pools.each;
    ids_distinct = h.pools.ids_distinct;
    members_exclusive = h.pools.members_exclusive;
  };
  providers_each = h.providers_each;
  provider_names_distinct = h.provider_names_distinct;
  rules_initialized = h.rules_initialized;
  rules = h.rules;
  custom = h.custom;
}

map-modify_name :
    (subs : List SubscriptionMeta) (i : ℕ) (t : SubscriptionMeta)
    → names (modify subs i (λ _. t)) ≡ modify (names subs) i (λ _. t.name)
map-modify_name [] i t = refl
map-modify_name (s ∷ subs) zero t = refl
map-modify_name (s ∷ subs) (suc i) t = ap (λ l. s.name ∷ l) (map-modify_name subs i t)

modify-contains :
    (xs : List String) (i : ℕ) (y key : String)
    → contains xs key ≡ false
    → (y == key) ≡ false
    → contains (modify xs i (λ _. y)) key ≡ false
unfolding contains
modify-contains [] i y key h ne = h
modify-contains (x ∷ xs) zero y key h ne = ground (arith, h, ne)
modify-contains (x ∷ xs) (suc i) y key h ne = ground (arith, h, modify-contains xs i y key)

-- A new name for one of some distinct names keeps them distinct, if none of them is the new one.
Distinct-modify :
    (xs : List String) (i : ℕ) (y : String)
    → Distinct xs
    → contains xs y ≡ false
    → Distinct (modify xs i (λ _. y))
unfolding contains
Distinct-modify [] i y d h = d
Distinct-modify (x ∷ xs) zero y d h = ground (arith, h, d)
Distinct-modify (x ∷ xs) (suc i) y d h =
    ground
      (arith, h, d, eq_iff x y, eq_iff y x, modify-contains xs i y x, Distinct-modify xs i y d.1)

pub names-modify-Distinct :
    (subs : List SubscriptionMeta) (i : ℕ) (t : SubscriptionMeta)
    → Distinct (names subs)
    → contains (names subs) t.name ≡ false
    → Distinct (names (modify subs i (λ _. t)))
names-modify-Distinct subs i t d h =
    rw (map-modify_name subs i t) (Distinct-modify (names subs) i t.name d h)

-- An active index within the bounds of some subscriptions.
abbrev pub IsWithin : List SubscriptionMeta → ℤ → Type 0
IsWithin subs active =
    (int_lt active (negsuc 0) ≡ false) × (int_le (pos (length subs)) active ≡ false)

module _ (net : NetParsers) (c : Config) (active : ℤ) (initialized : Bool)
    (valid : IsValid net c) where
  pub append_subscription-IsValid :
      (s : SubscriptionMeta)
      → IsSubscription s
      → contains (names c.subscriptions) s.name ≡ false
      → contains (ids c.subscriptions) s.id ≡ false
      → IsWithin (c.subscriptions ++ s ∷ []) active
      → IsValid net (record c {
        subscriptions = c.subscriptions ++ s ∷ [];
        active_subscription = active;
        subscription_pools_initialized = initialized;
      })
  append_subscription-IsValid s good named identified within =
      let subs = c.subscriptions in
      let ids_append = map-append (λ s. s.id) subs s in
      with_subscriptions-IsValid net c (subs ++ s ∷ []) active initialized
        (record {
          each = All-append IsSubscription subs s valid.subscriptions_each good;
          names_distinct =
              rw (map-append (λ s. s.name) subs s)
                (Distinct-append_last (names subs) s.name valid.names_distinct named);
          ids_distinct =
              rw ids_append (Distinct-append_last (ids subs) s.id valid.ids_distinct identified);
          keeps = λ key known.
              ap (λ keys. contains keys key) ids_append
              ∙ ground (arith, known, contains-append (ids subs) (s.id ∷ []) key);
          active_low = within.0;
          active_high = within.1;
        })
        valid

  pub replace_subscription-IsValid :
      (i : ℕ) (s t : SubscriptionMeta)
      → get_elem? c.subscriptions i ≡ some s
      → t.id ≡ s.id
      → t.name ≡ s.name
      → IsSubscription t
      → IsWithin c.subscriptions active
      → IsValid net (record c {
        subscriptions = modify c.subscriptions i (λ _. t);
        active_subscription = active;
        subscription_pools_initialized = initialized;
      })
  replace_subscription-IsValid i s t at id name good within =
      let subs = c.subscriptions in
      let same = map-modify (λ s. s.id) subs i s t at id in
      with_subscriptions-IsValid net c (modify subs i (λ _. t)) active initialized
        (record {
          each = All-modify IsSubscription subs i t valid.subscriptions_each good;
          names_distinct = rw (map-modify (λ s. s.name) subs i s t at name) valid.names_distinct;
          ids_distinct = rw same valid.ids_distinct;
          keeps = λ key known. ap (λ keys. contains keys key) same ∙ known;
          active_low = within.0;
          active_high = rw (length-modify subs i (λ _. t)) within.1;
        })
        valid
