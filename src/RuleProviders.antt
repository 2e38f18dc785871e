-- ===== src/RuleProviders.antt =====
-- Requests about rule subscriptions (mihomotui/daemon_handlers_ruleprovider.go). What the download
-- returns, the clock, and Go's functions on links are arguments.
pub mod Laws
pub mod Steps
use Prim.Native.String.{len}
use mihomo_tui.Base.{
  ℕ, suc, String, Bool, true, false, ◌||◌, ◌&&◌, not, Option, none, some, List, [], ◌∷◌, ◌++◌, ◌==◌,
  trim_space, modify, length, if◌then◌else◌, is_some, starts_with, ltb, trim_prefix,
}
use mihomo_tui.Base.Int.{ℤ, pos, int_le}
use mihomo_tui.Base.Numbered.{number_name}
use mihomo_tui.Base.Result.{Result, ok, err, is_ok, ◌>>=◌, ◌>>◌}
use mihomo_tui.Config.{Config, RuleProviderSubscription, SubscriptionMeta}
use mihomo_tui.Config.Lookup.{find_rule_provider_by_name}
use mihomo_tui.Validate.{has_part}
use mihomo_tui.Subscriptions.Import.{Naming, derive_subscription_name}

-- `RuleProviderImportRequest`
pub record ImportRequest : Type 0 where
  pub name : String
  pub url : String
  pub behavior : String
  pub format : String
  pub interval : ℤ
  pub proxy_group : String

pub data ProviderError : Type 0 where
  bad_url : ProviderError
  no_response : String → ProviderError
  bad_status : ℕ → ProviderError
  unreadable : String → ProviderError
  too_large empty_content html_page : ProviderError
  bad_behavior bad_format : String → ProviderError
  missing gone : String → ProviderError
  bad_route bad_encoding : ProviderError

-- What the server answers: no response at all, or a status and a body that is read or not.
pub data Answer : Type 0 where
  failed : String → Answer
  response : ℕ → Result String String → Answer

-- Go's functions on texts and links: `strings.ToLower`, whether `validateSubscriptionURL` accepts a
-- link, and `url.PathUnescape`.
pub record Links : Type 0 where
  pub lower : String → String
  pub accepts : String → Bool
  pub unescape : String → Option String

-- `maxSubscriptionDownloadSize`
abbrev max_download : ℕ
max_download = 20971520

-- The checks of `fetchRuleProvider` on the content.
unfoldable pub check_content : Links → String → Result ProviderError (Unit {0})
unfolding trim_space
check_content links content =
    let trimmed = trim_space content in
    let lower = links.lower trimmed in
    if ltb max_download (len content)
    then err too_large
    else if trimmed == ""
    then err empty_content
    else if starts_with lower "<!doctype html" || starts_with lower "<html"
    then err html_page
    else ok tt

-- `fetchRuleProvider`; `answer` is the server's answer to the request.
unfoldable pub fetch_rule_provider : Links → Answer → String → Result ProviderError (Unit {0})
unfolding check_content
fetch_rule_provider links answer url =
    if not (links.accepts url) then err bad_url else elim answer [
      | failed e ↦ err (no_response e)
      | response status body ↦
          if ltb status 200 || not (ltb status 300)
          then err (bad_status status)
          else elim body [ err e ↦ err (unreadable e) | ok content ↦ check_content links content ]
    ]

-- `normalizeRuleProviderBehavior`
unfoldable pub normalize_behavior : Links → String → Result ProviderError String
unfolding trim_space
normalize_behavior links behavior =
    let b = links.lower (trim_space behavior) in
    if b == ""
    then ok "classical"
    else if b == "classical" || b == "domain" || b == "ipcidr"
    then ok b
    else err (bad_behavior b)

-- `normalizeRuleProviderFormat`
unfoldable pub normalize_format : Links → String → Result ProviderError String
unfolding trim_space
normalize_format links format =
    let f = links.lower (trim_space format) in
    if f == ""
    then ok "yaml"
    else if f == "yaml" || f == "text" || f == "mrs"
    then ok f
    else err (bad_format f)

abbrev pub has_rule_provider : Config → String → Bool
has_rule_provider c name = is_some (find_rule_provider_by_name c name)

-- `uniqueRuleProviderName`
unfoldable pub unique_rule_provider_name : Naming → String → Config → String
unfolding number_name find_rule_provider_by_name trim_space
unique_rule_provider_name naming name c =
    let trimmed = trim_space name in
    number_name naming.decimal (has_rule_provider c) (if trimmed == "" then "规则订阅" else trimmed)
      (suc (length c.rule_provider_subscriptions))

-- `hasUsableProxySubscription` of mihomotui/daemon_handlers_subscription.go, its loop
unfoldable pub has_usable : List SubscriptionMeta → Bool
has_usable [] = false
has_usable (sub ∷ subs) = (not (sub.url == "") && not (sub.url == "手动配置")) || has_usable subs

-- What an import asks for, once it is read.
pub record Wanted : Type 0 where
  pub name : String
  pub url : String
  pub behavior : String
  pub format : String
  pub interval : ℤ
  pub proxy_group : String

-- The values that `importRuleProvider` takes from a request with a normal behavior and format.
unfoldable pub wanted_for : Naming → ImportRequest → String → String → Wanted
unfolding derive_subscription_name trim_space
wanted_for naming req behavior format =
    let named = trim_space req.name in
    let group = trim_space req.proxy_group in
    record {
      name = if named == "" then derive_subscription_name naming req.url else named;
      url = req.url;
      behavior = behavior;
      format = format;
      interval = if int_le req.interval (pos 0) then pos 86400 else req.interval;
      proxy_group = if group == "" then "Auto" else group;
    }

-- `importRuleProvider`, up to its commit
unfoldable pub read_request : Links → Naming → Answer → ImportRequest → Result ProviderError Wanted
unfolding fetch_rule_provider normalize_behavior normalize_format wanted_for
read_request links naming answer req = do
  fetch_rule_provider links answer req.url
  behavior ← normalize_behavior links req.behavior
  format ← normalize_format links req.format
  ok (wanted_for naming req behavior format)

module _ (now : String) where
  -- The write to an old rule subscription
  abbrev pub overwrite : Wanted → RuleProviderSubscription → RuleProviderSubscription
  overwrite w r = record r {
    url = w.url;
    behavior = w.behavior;
    format = w.format;
    interval = w.interval;
    proxy_group = w.proxy_group;
    updated_at = now;
    last_success_at = now;
    last_failure_at = "";
    last_error = "";
  }

  -- The function that `importRuleProvider` commits
  unfoldable pub commit_import : Naming → Wanted → Config → Config × Bool
  unfolding find_rule_provider_by_name unique_rule_provider_name has_usable
  commit_import naming w c =
      let rules =
        elim (find_rule_provider_by_name c w.name) as (λ o. List RuleProviderSubscription) [
          | some i ↦ modify c.rule_provider_subscriptions i (overwrite w)
          | none ↦
              c.rule_provider_subscriptions
              ++ record {
                name = unique_rule_provider_name naming w.name c;
                url = w.url;
                behavior = w.behavior;
                format = w.format;
                interval = w.interval;
                proxy_group = w.proxy_group;
                updated_at = now;
                last_success_at = now;
                last_failure_at = "";
                last_error = "";
              }
                ∷ []
        ] in
      (record c { rule_provider_subscriptions = rules }, has_usable c.subscriptions)

  -- What a refresh writes.
  abbrev pub mark_refresh :
      Result ProviderError (Unit {0})
      → (ProviderError → String)
      → RuleProviderSubscription
      → RuleProviderSubscription
  mark_refresh (err e) show r = record r { last_error = show e; last_failure_at = now }
  mark_refresh (ok done) show r = record r {
    updated_at = now;
    last_success_at = now;
    last_error = "";
    last_failure_at = "";
  }

  -- The function that `refreshRuleProvider` commits, after the download; its second result says whether
  -- the runtime configuration is applied again.
  unfoldable pub commit_refresh_provider :
      String
      → Result ProviderError (Unit {0})
      → (ProviderError → String)
      → Config
      → Result ProviderError (Config × Bool)
  unfolding find_rule_provider_by_name has_usable
  commit_refresh_provider name fetched show c = elim (find_rule_provider_by_name c name) [
    | none ↦ err (gone name)
    | some i ↦ ok (
      record c {
        rule_provider_subscriptions =
            modify c.rule_provider_subscriptions i (mark_refresh fetched show);
      },
      is_ok fetched && has_usable c.subscriptions,
    )
  ]

-- `ruleProviderRoute`
unfoldable pub rule_provider_route : Links → String → Result ProviderError String
unfolding trim_prefix
rule_provider_route links path =
    let relative = trim_prefix "/api/v1/rule-providers/" path in
    if relative == "" || has_part relative "/"
    then err bad_route
    else elim (links.unescape relative) [ none ↦ err bad_encoding | some name ↦ ok name ]
