-- ===== src/Subscriptions/Import.antt =====
-- Imports of subscriptions (mihomotui/daemon_handlers_subscription.go). What the source's calls return
-- is an argument: the parts of a link, the write of the cache, a new identifier, and the clock. The
-- metadata of the content is taken as merged into the result of the download.
use mihomo_tui.Base.{
  ℕ, suc, ◌+◌, String, Bool, true, ◌&&◌, not, Option, none, some, List, [], ◌∷◌, ◌++◌, ◌==◌,
  trim_space, modify, get_elem?, length, if◌then◌else◌, is_some, cut_suffix,
}
use mihomo_tui.Base.Int.{pos}
use mihomo_tui.Base.Numbered.{number_name}
use mihomo_tui.Base.Result.{Result, ok, ◌>>=◌}
use mihomo_tui.Config.{Config, SubscriptionMeta, zero_subscription, source_url}
use mihomo_tui.Config.Lookup.{
  find_subscription_by_name, find_subscription_by_url, find_subscription_by_identifier,
}
use mihomo_tui.Pools.Runtime.{subscription_affects_runtime}
use mihomo_tui.Subscriptions.{TextTools, FetchResult, CacheEntry, apply_fetch_metadata}

-- A link that `url.Parse` accepts: `path.Base(parsed.Path)` and `parsed.Hostname()`.
pub record UrlParts : Type 0 where
  pub base : String
  pub hostname : String

pub record Naming : Type 0 where
  pub decimal : ℕ → String
  pub parse_url : String → Option UrlParts

-- `strings.TrimSuffix`
unfoldable pub trim_suffix : String → String → String
unfolding cut_suffix
trim_suffix suffix s = elim (cut_suffix suffix s) [ none ↦ s | some rest ↦ rest ]

-- `deriveSubscriptionName`
unfoldable pub derive_subscription_name : Naming → String → String
unfolding trim_suffix
derive_subscription_name naming raw_url = elim (naming.parse_url raw_url) [
  | none ↦ "订阅"
  | some parts ↦
      let base = trim_suffix "/" parts.base in
      if not (base == "") && not (base == ".") && not (base == "/")
      then base
      else if not (parts.hostname == "")
      then parts.hostname
      else "订阅"
]

abbrev pub has_identifier : Config → String → Bool
has_identifier c name = is_some (find_subscription_by_identifier c name)

-- `uniqueSubscriptionName`
unfoldable pub unique_subscription_name : Naming → String → String → Config → String
unfolding number_name find_subscription_by_identifier derive_subscription_name trim_space
unique_subscription_name naming requested raw_url c =
    let trimmed = trim_space requested in
    let base = if trimmed == "" then derive_subscription_name naming raw_url else trimmed in
    number_name naming.decimal (has_identifier c) base
      (suc (length c.subscriptions + length c.subscriptions))

-- The two searches of an import.
unfoldable pub find_import : String → String → String → Config → Option ℕ
unfolding find_subscription_by_name find_subscription_by_url trim_space
find_import requested source source_type c =
    let name = trim_space requested in
    elim (if name == "" then none else find_subscription_by_name c name) [
      | some i ↦ some i
      | none ↦ if source_type == source_url then find_subscription_by_url c source else none
    ]

-- The subscription that the search has found.
abbrev pub found_at : Config → Option ℕ → Option SubscriptionMeta
found_at c none = none
found_at c (some i) = get_elem? c.subscriptions i

-- `if idx >= 0 { cfg.Subscriptions[idx] = meta } else { … append … }`, with the new `idx`
abbrev pub place : Config → Option ℕ → SubscriptionMeta → List SubscriptionMeta × ℕ
place c none meta = (c.subscriptions ++ meta ∷ [], length c.subscriptions)
place c (some i) meta = (modify c.subscriptions i (λ _. meta), i)

module _ (tools : TextTools) (now : String) where
  -- The literal `meta`, with the metadata
  unfoldable pub imported_meta :
      String → String → String → String → Bool → CacheEntry → FetchResult → SubscriptionMeta
  unfolding apply_fetch_metadata
  imported_meta id name source source_type use_proxy cache result =
      apply_fetch_metadata tools now result (record zero_subscription {
        id = id;
        name = name;
        url = source;
        source_type = source_type;
        cache_file = cache.file;
        content_sha256 = cache.digest;
        updated_at = now;
        last_success_at = now;
        last_checked_at = now;
        use_local_proxy = use_proxy;
      })

  -- The end of the function that `importSubscriptionContent` commits, from the write of the cache on.
  unfoldable pub finish_import : Config → Option ℕ → SubscriptionMeta → Config × Bool
  unfolding subscription_affects_runtime
  finish_import c idx meta =
      let (subs, at) = place c idx meta in
      let c' : Config = record c {
        subscriptions = subs;
        subscription_pools_initialized = true;
        active_subscription = pos at;
      } in
      (c', subscription_affects_runtime c' meta.id)

  -- The function that `importSubscriptionContent` commits; `new_id` is what `newSubscriptionID`
  -- returns, and `cache` is what `writeSubscriptionCache` does for an identifier.
  unfoldable pub import_content :
      Naming
      → String
      → (String → Result String CacheEntry)
      → String
      → String
      → String
      → Bool
      → FetchResult
      → Config
      → Result String (Config × Bool)
  unfolding find_import unique_subscription_name imported_meta finish_import
  import_content naming new_id cache requested source source_type use_proxy result c =
      let idx = find_import requested source source_type c in
      let old = found_at c idx in
      let name : String = elim old [
        | none ↦ unique_subscription_name naming (trim_space requested) source c
        | some sub ↦ sub.name
      ] in
      let id : String = elim old [ none ↦ new_id | some sub ↦ sub.id ] in
      do
        entry ← cache id
        ok (finish_import c idx (imported_meta id name source source_type use_proxy entry result))

-- The function that `createManualSubscription` commits
unfoldable pub create_manual : Naming → String → String → String → Config → Config
unfolding unique_subscription_name
create_manual naming new_id now requested c =
    let trimmed = trim_space requested in
    let wanted = if trimmed == "" then "手动配置" else trimmed in
    record c {
      subscription_pools_initialized = true;
      subscriptions =
          c.subscriptions
          ++ record zero_subscription {
            id = new_id;
            name = unique_subscription_name naming wanted "" c;
            url = "手动配置";
            updated_at = now;
          }
            ∷ [];
    }
