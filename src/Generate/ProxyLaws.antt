-- ===== src/Generate/ProxyLaws.antt =====
-- The providers that `buildProxyConfig` (mihomotui/mihomo_config.go) makes of the subscriptions to run.
use mathlib.Core.List.{append-nil, append_assoc}
use mathlib.Core.Path.{subst}
use mihomo_tui.Base.{
  true, map, String, false, List, [], ◌∷◌, ◌++◌, ◌≡◌, refl, sym, ap, ◌∙◌, arith, eq_iff, All,
  length, Distinct, Disjoint, Disjoint_lem, Disjoint-nil, Disjoint-contains,
}
use mihomo_tui.Base.Int.{pos}
use mihomo_tui.Base.Maps.{put, keys, put-keys, put-fresh}
use mihomo_tui.Base.Result.{>>=-eq-ok, ok}
use mihomo_tui.Config.{Config, SubscriptionMeta, SubscriptionPool}
use mihomo_tui.Config.Edit.{is_empty}
use mihomo_tui.Pools.Runtime.{
  Stat, active_pool_subscriptions, collect_subscriptions, explain_nothing,
}
use mihomo_tui.Generate.{Formats, ProxyProviderYaml, health_check_interval}
use mihomo_tui.Generate.Names.{provider_names_for, provider_names_for-Distinct}
use mihomo_tui.Generate.Proxies.{
  ProxyConfig, proxy_provider, add_providers, select_sources, finish_proxies, proxy_groups,
  build_proxy_config,
}

-- A provider that reads a file and checks its proxies with a link.
abbrev pub file_provider : String → String → ProxyProviderYaml
file_provider test_url path = record {
  url = "";
  path = path;
  type = "file";
  interval = pos 0;
  health_check = record { enable = true; url = test_url; interval = health_check_interval };
  additional_prefix = "";
}

-- The subscriptions' names, each with a provider that reads the cache file of its subscription.
abbrev pub entries_for :
    String → List SubscriptionMeta → List String → List (String × ProxyProviderYaml)
entries_for test_url (sub ∷ subs) (name ∷ names) =
    (name, file_provider test_url sub.cache_file) ∷ entries_for test_url subs names
entries_for test_url [] names = []
entries_for test_url (sub ∷ subs) [] = []

add_providers_lem :
    (test_url : String) (subs : List SubscriptionMeta) (names : List String) (built : ProxyConfig)
    → length names ≡ length subs
    → Distinct names
    → Disjoint names (keys built.providers)
    → let after = add_providers false test_url subs names built in
      (after.providers ≡ built.providers ++ entries_for test_url subs names)
      × (after.names ≡ built.names ++ names)
unfolding add_providers proxy_provider
add_providers_lem test_url [] [] built n d h =
    ground (arith, append-nil built.providers, append-nil built.names)
add_providers_lem test_url [] (name ∷ names) built n d h = ground (arith, n)
add_providers_lem test_url (sub ∷ subs) [] built n d h = ground (arith, n)
add_providers_lem test_url (sub ∷ subs) (name ∷ names) built n d h =
    let provider = proxy_provider false test_url sub in
    let next : ProxyConfig = record built {
      providers = put name provider built.providers;
      names = built.names ++ name ∷ [];
    } in
    let fresh = put-fresh name provider built.providers h.0 in
    let apart : Disjoint names (keys next.providers) =
      Disjoint_lem names (keys next.providers) (λ key m. ground (
        arith,
        m,
        d,
        eq_iff name key,
        put-keys name key provider built.providers,
        Disjoint-contains names (keys built.providers) key h.1,
      )) in
    let (done, named) = add_providers_lem test_url subs names next (omega arith) d.1 apart in
    (
      done
          ∙ ap (λ m. m ++ entries_for test_url subs names) fresh
          ∙ append_assoc built.providers ((name, provider) ∷ []) (entries_for test_url subs names),
      named ∙ append_assoc built.names (name ∷ []) names,
    )

keys-entries_for :
    (test_url : String) (subs : List SubscriptionMeta) (names : List String)
    → length names ≡ length subs
    → keys (entries_for test_url subs names) ≡ names
keys-entries_for test_url [] [] n = refl
keys-entries_for test_url [] (name ∷ names) n = ground (arith, n)
keys-entries_for test_url (sub ∷ subs) [] n = ground (arith, n)
keys-entries_for test_url (sub ∷ subs) (name ∷ names) n =
    ap (λ t. name ∷ t) (keys-entries_for test_url subs names (omega arith))

is_empty-length :
    (names : List String) (subs : List SubscriptionMeta)
    → length names ≡ length subs
    → is_empty names ≡ is_empty subs
is_empty-length [] [] n = refl
is_empty-length [] (sub ∷ subs) n = ground (arith, n)
is_empty-length (name ∷ names) [] n = ground (arith, n)
is_empty-length (name ∷ names) (sub ∷ subs) n = refl

explain_nothing-is_empty :
    (stat : String → Stat) (pools : List SubscriptionPool) (found subs : List SubscriptionMeta)
    → explain_nothing stat pools found ≡ ok subs
    → is_empty subs ≡ false
explain_nothing-is_empty stat pools [] subs h = cc
explain_nothing-is_empty stat pools (sub ∷ found) subs h = ground (arith, h)

active_pool_subscriptions-is_empty :
    (stat : String → Stat) (c : Config) (subs : List SubscriptionMeta)
    → active_pool_subscriptions stat c ≡ ok subs
    → is_empty subs ≡ false
unfolding active_pool_subscriptions
active_pool_subscriptions-is_empty stat c subs h =
    let (found, _, e) =
      >>=-eq-ok (collect_subscriptions stat c.subscriptions c.subscription_pools)
        (explain_nothing stat c.subscription_pools) h in
    explain_nothing-is_empty stat c.subscription_pools found subs e

-- If the pools give subscriptions to run, the proxy configuration is built. Each of these
-- subscriptions has a provider of its own that reads its cache file, under the name of its place in
-- the list, and the four proxy groups use exactly these names.
pub build_proxy_config_lem :
    (formats : Formats) (stat : String → Stat) (c : Config) (subs : List SubscriptionMeta)
    → active_pool_subscriptions stat c ≡ ok subs
    → (built : ProxyConfig) × (build_proxy_config formats stat c ≡ ok built)
      × (built.providers ≡ entries_for c.mihomo.test_url subs (provider_names_for formats subs))
      × (keys built.providers ≡ provider_names_for formats subs)
      × Distinct (keys built.providers)
      × (length (keys built.providers) ≡ length subs)
      × (map (λ g. g.name) built.groups ≡ "Auto" ∷ "Manual" ∷ "Fallback" ∷ "Load-Balance" ∷ [])
      × All (λ g. g.uses ≡ provider_names_for formats subs) built.groups
unfolding build_proxy_config finish_proxies select_sources proxy_groups
build_proxy_config_lem formats stat c subs h =
    let url = c.mihomo.test_url in
    let names = provider_names_for formats subs in
    let (apart, many) = provider_names_for-Distinct formats subs in
    let start : ProxyConfig = record { providers = []; names = []; groups = [] } in
    let (entries, named) = add_providers_lem url subs names start many apart (Disjoint-nil names) in
    let after = add_providers false url subs names start in
    let listed = keys-entries_for url subs names many in
    let filled = active_pool_subscriptions-is_empty stat c subs h in
    (
      record after { groups = proxy_groups url after.names },
      ground (arith, h, named, is_empty-length names subs many, filled),
      entries,
      ap keys entries ∙ listed,
      subst Distinct (sym (ap keys entries ∙ listed)) apart,
      ap length (ap keys entries ∙ listed) ∙ many,
      refl,
      (named, (named, (named, (named, tt)))),
    )
