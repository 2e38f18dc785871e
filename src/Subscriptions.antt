-- ===== src/Subscriptions.antt =====
-- Requests about one subscription (mihomotui/daemon_handlers_subscription.go): refreshing it from its
-- link, and deleting it. What the download and the cache file return, and the clock, are arguments.
pub mod Refresh
pub mod Delete
pub mod Import
pub mod ImportLaws
pub mod ImportCommit
pub mod Schedule
pub mod Patch
pub mod Valid
pub mod PatchLaws
pub mod Additions
pub mod Steps
use mihomo_tui.Base.{
  ℕ, String, Bool, true, false, ◌||◌, not, Option, none, some, List, ◌==◌, trim_space, is_blank,
  modify, get_elem?, if◌then◌else◌,
}
use mihomo_tui.Base.Int.{ℤ, pos, increment}
use mihomo_tui.Base.Result.{Result, ok, err, ◌>>=◌}
use mihomo_tui.Config.{Config, SubscriptionMeta, normalized_source, source_url}
use mihomo_tui.Config.Edit.{EditError, remove_subscription}
use mihomo_tui.Config.Lookup.{find_subscription_by_id, find_subscription_by_identifier}
use mihomo_tui.Pools.Runtime.{subscription_affects_runtime}
use mihomo_tui.Validate.{has_part}

-- `subscriptionFetchResult`, less the content, which goes to the cache
pub record FetchResult : Type 0 where
  pub used_gb : ℤ
  pub total_gb : ℤ
  pub upload_bytes : ℤ
  pub download_bytes : ℤ
  pub total_bytes : ℤ
  pub remaining_bytes : ℤ
  pub expire_at : String
  pub metadata_available : Bool
  pub metadata_status : String
  pub profile_update_interval : ℤ

pub data RefreshError : Type 0 where
  unknown : String → RefreshError
  not_remote : String → RefreshError
  deleted : String → RefreshError
  cache_failed : String → RefreshError

-- `strings.ToLower`, and the date that the regular expression of the source finds.
pub record TextTools : Type 0 where
  pub lower : String → String
  pub find_date : String → Option String

-- A cache file that `writeSubscriptionCache` has written: its path and its digest.
pub record CacheEntry : Type 0 where
  pub file : String
  pub digest : String

module _ (tools : TextTools) (now : String) where
  -- `normalizeSubscriptionExpiry`
  unfoldable pub normalize_subscription_expiry : String → String
  normalize_subscription_expiry raw =
      let value = trim_space raw in
      if value == ""
      then ""
      else if has_part value "长期有效"
      then "长期有效"
      else if has_part value "永久"
          || has_part (tools.lower value) "permanent"
          || has_part (tools.lower value) "never"
      then "长期有效"
      else elim (tools.find_date value) [ none ↦ "" | some date ↦ date ]

  -- `applySubscriptionFetchMetadata`
  unfoldable pub apply_fetch_metadata : FetchResult → SubscriptionMeta → SubscriptionMeta
  unfolding normalize_subscription_expiry
  apply_fetch_metadata r s = record s {
    upload_bytes = r.upload_bytes;
    download_bytes = r.download_bytes;
    total_bytes = r.total_bytes;
    remaining_bytes = r.remaining_bytes;
    used_gb = r.used_gb;
    total_gb = r.total_gb;
    expire_at = normalize_subscription_expiry r.expire_at;
    metadata_available = r.metadata_available;
    metadata_status = r.metadata_status;
    profile_update_interval = r.profile_update_interval;
  }

  -- `refreshSubscription`, on the subscription, if the download fails.
  unfoldable pub record_failure : String → SubscriptionMeta → SubscriptionMeta
  record_failure e s = record s {
    last_checked_at = now;
    failure_count = increment s.failure_count;
    last_error = e;
    last_failure_at = now;
  }

  -- `refreshSubscription`, on the subscription, if the content is in the cache.
  unfoldable pub record_success : FetchResult → CacheEntry → SubscriptionMeta → SubscriptionMeta
  unfolding apply_fetch_metadata
  record_success r cache s = apply_fetch_metadata r (record s {
    last_checked_at = now;
    cache_file = cache.file;
    content_sha256 = cache.digest;
    updated_at = now;
    last_success_at = now;
    last_error = "";
    last_failure_at = "";
    failure_count = pos 0;
    used_gb = r.used_gb;
  })

  -- What the download and the write of the cache make of one subscription.
  unfoldable pub record_fetch :
      Result String FetchResult
      → Result String CacheEntry
      → SubscriptionMeta
      → Result RefreshError SubscriptionMeta
  unfolding record_failure record_success
  record_fetch (err e) cache s = ok (record_failure e s)
  record_fetch (ok r) (err e) s = err (cache_failed e)
  record_fetch (ok r) (ok cache) s = ok (record_success r cache s)

  -- The function that `refreshSubscription` commits, for the subscription it has found before the
  -- download.
  unfoldable pub commit_refresh :
      SubscriptionMeta
      → Result String FetchResult
      → Result String CacheEntry
      → Config
      → Result RefreshError Config
  unfolding find_subscription_by_id record_fetch
  commit_refresh sub fetched cache c = elim (find_subscription_by_id c sub.id) [
    | none ↦ err (deleted sub.name)
    | some i ↦ elim (get_elem? c.subscriptions i) [
      | none ↦ err (deleted sub.name)
      | some item ↦ do
        item' ← record_fetch fetched cache item
        ok (record c { subscriptions = modify c.subscriptions i (λ _. item') })
    ]
  ]

-- `refreshSubscription`, up to the download: the subscription to refresh.
unfoldable pub refreshable : Config → String → Result RefreshError SubscriptionMeta
unfolding find_subscription_by_identifier
refreshable c identifier = elim (find_subscription_by_identifier c identifier) [
  | none ↦ err (unknown identifier)
  | some i ↦ elim (get_elem? c.subscriptions i) [
    | none ↦ err (unknown identifier)
    | some sub ↦
        if not (normalized_source sub.source_type == source_url) || is_blank sub.url
        then err (not_remote sub.name)
        else ok sub
  ]
]

-- `DELETE /api/v1/subscriptions/{name}`: the configuration to commit, and whether the runtime
-- configuration must be applied again.
unfoldable pub delete_subscription : String → String → Config → Result EditError (Config × Bool)
unfolding find_subscription_by_identifier remove_subscription subscription_affects_runtime
delete_subscription now identifier c = elim (find_subscription_by_identifier c identifier) [
  | none ↦ err EditError.not_found
  | some i ↦ elim (get_elem? c.subscriptions i) [
    | none ↦ err EditError.not_found
    | some sub ↦ do
      c' ← remove_subscription now sub.name c
      ok (c', subscription_affects_runtime c sub.id)
  ]
]
