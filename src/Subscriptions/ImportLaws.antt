-- ===== src/Subscriptions/ImportLaws.antt =====
-- An import (mihomotui/daemon_handlers_subscription.go) keeps names and identifiers apart.
use mihomo_tui.Base.{
  get_elem?-modify, get_elem?-append_last, ℕ, suc, ◌+◌, String, ◌≡◌, refl, Bool, false, none, some,
  ◌++◌, ◌==◌, get_elem?, length, if◌then◌else◌, arith, contains, contains-append, Distinct,
  Option-cases, Bool-cases, inl, inr, length-append, trim_space,
}
use mihomo_tui.Base.Int.{pos}
use mihomo_tui.Base.Numbered.{IsDecimal, number_name-free}
use mihomo_tui.Base.Result.{Result, ok}
use mihomo_tui.Base.Updates.{length-map, map-modify, map-append, Distinct-append_last}
use mihomo_tui.Config.{Config, SubscriptionMeta}
use mihomo_tui.Config.Lookup.{
  is_some-find_index, find_index, find_index_sound, find_subscription_by_name,
  find_subscription_by_url, find_subscription_by_id, index_of_id, find_subscription_by_identifier,
}
use mihomo_tui.Validate.Hosts.{NetParsers}
use mihomo_tui.Validate.Spec.{IsValid}
use mihomo_tui.Validate.Subscriptions.{names, ids}
use mihomo_tui.Subscriptions.{TextTools, FetchResult, CacheEntry}
use mihomo_tui.Subscriptions.Import.{
  Naming, has_identifier, unique_subscription_name, find_import, imported_meta, finish_import,
  import_content, derive_subscription_name,
}

pub has_identifier-contains :
    (c : Config) (name : String)
    → has_identifier c name ≡ contains (ids c.subscriptions ++ names c.subscriptions) name
unfolding find_subscription_by_identifier find_subscription_by_id find_subscription_by_name
    index_of_id
has_identifier-contains c name = ground (
  arith,
  contains-append (ids c.subscriptions) (names c.subscriptions) name,
  is_some-find_index (λ s. s.id) c.subscriptions name,
  is_some-find_index (λ s. s.name) c.subscriptions name,
)

-- A unique name for a new subscription is neither the name nor the identifier of a subscription: the
-- loop that numbers it ends.
pub unique_subscription_name-fresh :
    (naming : Naming) (requested url : String) (c : Config)
    → IsDecimal naming.decimal
    → has_identifier c (unique_subscription_name naming requested url c) ≡ false
unfolding unique_subscription_name
unique_subscription_name-fresh naming requested url c digits =
    let subs = c.subscriptions in
    let trimmed = trim_space requested in
    let base = if trimmed == "" then derive_subscription_name naming url else trimmed in
    number_name-free naming.decimal digits base (has_identifier c) (ids subs ++ names subs)
      (suc (length subs + length subs)) (has_identifier-contains c)
      (omega (
        arith,
        length-append (ids subs) (names subs),
        length-map (λ s. s.id) subs,
        length-map (λ s. s.name) subs,
      ))

-- What an import promises of the configuration that it makes of `c`.
abbrev pub IsImported : Config → Config → String → CacheEntry → Type 0
IsImported c c' source cache =
    Distinct (names c'.subscriptions)
    × Distinct (ids c'.subscriptions)
    × (c'.subscription_pools ≡ c.subscription_pools)
    × ((i : ℕ) × (s : SubscriptionMeta) × (c'.active_subscription ≡ pos i)
        × (get_elem? c'.subscriptions i ≡ some s)
        × (s.url ≡ source)
        × (s.cache_file ≡ cache.file)
        × (s.content_sha256 ≡ cache.digest))

pub find_import-at :
    (requested source source_type : String) (c : Config) (i : ℕ)
    → find_import requested source source_type c ≡ some i
    → (s : SubscriptionMeta) × (get_elem? c.subscriptions i ≡ some s)
unfolding find_import find_subscription_by_name find_subscription_by_url
find_import-at requested source source_type c i h =
    let name = trim_space requested in
    let by_name = find_index (λ s. s.name == name) c.subscriptions in
    let by_url = find_index (λ s. s.url == source) c.subscriptions in
    let named : by_name ≡ some i → (s : SubscriptionMeta) × (get_elem? c.subscriptions i ≡ some s) =
      λ e.
        let (s, at, _, _) = find_index_sound (λ s. s.name == name) c.subscriptions e in (s, at) in
    let linked : by_url ≡ some i → (s : SubscriptionMeta) × (get_elem? c.subscriptions i ≡ some s) =
      λ e.
        let (s, at, _, _) = find_index_sound (λ s. s.url == source) c.subscriptions e in (s, at) in
    elim (Bool-cases (name == "")) [
      | inl blank ↦ linked (ground (arith, blank, h))
      | inr filled ↦ elim (Option-cases by_name) [
        | inl e ↦ linked (ground (arith, filled, e, h))
        | inr (k, e) ↦ named (ground (arith, filled, e, h))
      ]
    ]

module _ (tools : TextTools) (now : String) (c : Config) (source source_type : String)
    (use_proxy : Bool) (cache : CacheEntry) (result : FetchResult) where
  abbrev meta_for : String → String → SubscriptionMeta
  meta_for id name = imported_meta tools now id name source source_type use_proxy cache result

  append-IsImported :
      (id name : String)
      → Distinct (names c.subscriptions)
      → Distinct (ids c.subscriptions)
      → contains (names c.subscriptions) name ≡ false
      → contains (ids c.subscriptions) id ≡ false
      → IsImported c (finish_import tools now c none (meta_for id name)).0 source cache
  unfolding finish_import imported_meta
  append-IsImported id name dn di fn fi =
      let meta = meta_for id name in
      (
        rw (map-append (λ s. s.name) c.subscriptions meta)
            (Distinct-append_last (names c.subscriptions) name dn fn),
        rw (map-append (λ s. s.id) c.subscriptions meta)
            (Distinct-append_last (ids c.subscriptions) id di fi),
        refl,
        (
          length c.subscriptions,
          meta,
          refl,
          get_elem?-append_last c.subscriptions meta,
          refl,
          refl,
          refl,
        ),
      )

  replace-IsImported :
      (i : ℕ) (s : SubscriptionMeta)
      → get_elem? c.subscriptions i ≡ some s
      → Distinct (names c.subscriptions)
      → Distinct (ids c.subscriptions)
      → IsImported c (finish_import tools now c (some i) (meta_for s.id s.name)).0 source cache
  unfolding finish_import imported_meta
  replace-IsImported i s at dn di =
      let meta = meta_for s.id s.name in
      (
        rw (map-modify (λ s. s.name) c.subscriptions i s meta at refl) dn,
        rw (map-modify (λ s. s.id) c.subscriptions i s meta at refl) di,
        refl,
        (i, meta, refl, get_elem?-modify c.subscriptions i (λ _. meta) s at, refl, refl, refl),
      )

-- The function that an import commits does not fail if the write of the cache does not. In the
-- configuration that it makes of a valid one, the names of the subscriptions are distinct, and so are
-- their identifiers, if the new identifier is not in use; the pools are as they were; and the active
-- subscription is the imported one, with its link and its cache.
pub import_content-IsImported :
    (net : NetParsers) (tools : TextTools) (now : String) (naming : Naming) (new_id : String)
    (write : String → Result String CacheEntry) (requested source source_type : String)
    (use_proxy : Bool) (result : FetchResult) (c : Config)
    → IsValid net c
    → IsDecimal naming.decimal
    → contains (ids c.subscriptions) new_id ≡ false
    → ((id : String) → (cache : CacheEntry) × (write id ≡ ok cache))
    → (c' : Config) × (apply : Bool) × (id : String) × (cache : CacheEntry) × (import_content tools
          now naming new_id write requested source source_type use_proxy result c
        ≡ ok (c', apply))
      × (write id ≡ ok cache)
      × IsImported c c' source cache
unfolding import_content
import_content-IsImported net tools now naming new_id write requested source source_type use_proxy
      result c valid digits fresh writes =
    elim (Option-cases (find_import requested source source_type c)) [
      | inl missing ↦
          let name = unique_subscription_name naming (trim_space requested) source c in
          let free = unique_subscription_name-fresh naming (trim_space requested) source c digits in
          let apart = contains-append (ids c.subscriptions) (names c.subscriptions) name in
          let (cache, written) = writes new_id in
          let meta =
            imported_meta tools now new_id name source source_type use_proxy cache result in
          let end = finish_import tools now c none meta in
          (
            end.0,
            end.1,
            new_id,
            cache,
            ground (arith, missing, written),
            written,
            append-IsImported tools now c source source_type use_proxy cache result new_id name
                valid.names_distinct valid.ids_distinct
                (ground (arith, free, has_identifier-contains c name, apart)) fresh,
          )
      | inr (i, found) ↦
          let (s, at) = find_import-at requested source source_type c i found in
          let (cache, written) = writes s.id in
          let meta =
            imported_meta tools now s.id s.name source source_type use_proxy cache result in
          let end = finish_import tools now c (some i) meta in
          (
            end.0,
            end.1,
            s.id,
            cache,
            ground (arith, found, at, written),
            written,
            replace-IsImported tools now c source source_type use_proxy cache result i s at
                valid.names_distinct valid.ids_distinct,
          )
    ]
