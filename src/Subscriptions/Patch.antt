-- ===== src/Subscriptions/Patch.antt =====
-- The change of a subscription's settings (`PATCH /api/v1/subscriptions/{name}` in
-- `handleSubscriptionDetail` of mihomotui/daemon_handlers_subscription.go).
use mihomo_tui.Base.{
  String, Bool, false, not, Option, none, some, ◌==◌, ◌&&◌, trim_space, modify, get_elem?, is_blank,
  if◌then◌else◌, nat_eq, ℕ,
}
use mihomo_tui.Base.Result.{Result, ok, err, ◌>>=◌}
use mihomo_tui.Config.{Config, SubscriptionMeta, normalized_source, source_url, fetch_local_mihomo}
use mihomo_tui.Config.Lookup.{find_subscription_by_identifier, find_subscription_by_name}

-- `SubscriptionUpdateRequest`
pub record UpdateRequest : Type 0 where
  pub name : String
  pub url : String
  pub use_local_proxy : Bool
  pub user_agent : String
  pub fetch_proxy_strategy : String
  pub disabled : Option Bool

pub data PatchError : Type 0 where
  absent : String → PatchError
  nameless bad_link not_remote : PatchError
  name_taken : String → PatchError

abbrev pub strategy_for : UpdateRequest → String
strategy_for req =
    if req.fetch_proxy_strategy == "" && req.use_local_proxy
    then fetch_local_mihomo
    else req.fetch_proxy_strategy

-- The part on the link; `accepts` is `validateSubscriptionURL`.
unfoldable pub patch_link :
    (String → Bool) → UpdateRequest → SubscriptionMeta → Result PatchError SubscriptionMeta
patch_link accepts req item =
    if normalized_source item.source_type == source_url
    then (if accepts req.url
        then ok (record item {
          url = trim_space req.url;
          use_local_proxy = req.use_local_proxy;
          user_agent = trim_space req.user_agent;
          fetch_proxy_strategy = strategy_for req;
        })
        else err bad_link)
    else if is_blank req.url
    then ok item
    else err not_remote

-- `other >= 0 && other != idx`
abbrev pub is_other : Option ℕ → ℕ → Bool
is_other none i = false
is_other (some k) i = not (nat_eq k i)

abbrev pub patched : String → UpdateRequest → SubscriptionMeta → SubscriptionMeta
patched now req item = record item {
  name = trim_space req.name;
  disabled = elim req.disabled [ none ↦ item.disabled | some d ↦ d ];
  updated_at = now;
}

-- The function that the handler commits, with the subscription it answers
unfoldable pub patch_subscription :
    (String → Bool)
    → String
    → String
    → UpdateRequest
    → Config
    → Result PatchError (Config × SubscriptionMeta)
unfolding find_subscription_by_identifier find_subscription_by_name
patch_subscription accepts now identifier req c =
    let name = trim_space req.name in
    elim (find_subscription_by_identifier c identifier) [
      | none ↦ err (absent identifier)
      | some i ↦ elim (get_elem? c.subscriptions i) [
        | none ↦ err (absent identifier)
        | some item ↦
            if name == ""
            then err nameless
            else if is_other (find_subscription_by_name c name) i
            then err (name_taken name)
            else (do
              linked ← patch_link accepts req item
              ok (
                record c { subscriptions = modify c.subscriptions i (λ _. patched now req linked) },
                patched now req linked,
              ))
      ]
    ]
