-- ===== src/Generate/Proxies.antt =====
-- `buildProxyConfig` (mihomotui/mihomo_config.go): the providers and the groups that use them. The
-- warning about nodes of one name only writes to the log.
use mihomo_tui.Base.{
  String, Bool, true, false, ◌&&◌, ◌||◌, not, List, [], ◌∷◌, ◌++◌, ◌==◌, if◌then◌else◌,
}
use mihomo_tui.Base.Int.{pos}
use mihomo_tui.Base.Maps.{put}
use mihomo_tui.Base.Result.{Result, ok, err, ◌>>=◌}
use mihomo_tui.Config.{Config, SubscriptionMeta}
use mihomo_tui.Config.Edit.{is_empty}
use mihomo_tui.Pools.Runtime.{Stat, RuntimeError, active_pool_subscriptions}
use mihomo_tui.Generate.{
  Formats, HealthCheckYaml, ProxyProviderYaml, ProxyGroupYaml, health_check_interval,
  day_in_seconds,
}
use mihomo_tui.Generate.Names.{provider_names_for}

pub data GenerateError : Type 0 where
  no_runtime : RuntimeError → GenerateError
  no_url : GenerateError

-- The subscriptions to generate from, and whether they are those of an old configuration.
pub record Sources : Type 0 where
  pub legacy : Bool
  pub subs : List SubscriptionMeta

pub record ProxyConfig : Type 0 where
  pub providers : List (String × ProxyProviderYaml)
  pub names : List String
  pub groups : List ProxyGroupYaml

-- The first statements of `buildProxyConfig`.
unfoldable pub select_sources :
    Config → Result RuntimeError (List SubscriptionMeta) → Result GenerateError Sources
select_sources c (ok subs) = ok (record { legacy = false; subs = subs })
select_sources c (err e) =
    if is_empty c.subscription_pools && not (is_empty c.subscriptions)
    then ok (record { legacy = true; subs = c.subscriptions })
    else err (no_runtime e)

unfoldable pub proxy_provider : Bool → String → SubscriptionMeta → ProxyProviderYaml
proxy_provider legacy test_url sub =
    let health : HealthCheckYaml = record {
      enable = true;
      url = test_url;
      interval = health_check_interval;
    } in
    if legacy
    then record {
      url = sub.url;
      path = "";
      type = "http";
      interval = day_in_seconds;
      health_check = health;
      additional_prefix = "";
    }
    else record {
      url = "";
      path = sub.cache_file;
      type = "file";
      interval = pos 0;
      health_check = health;
      additional_prefix = "";
    }

-- `legacyRemote && (sub.URL == "" || sub.URL == "手动配置")`
abbrev pub is_skipped : Bool → SubscriptionMeta → Bool
is_skipped legacy sub = legacy && (sub.url == "" || sub.url == "手动配置")

-- The loop of `buildProxyConfig`, with the providers and their names so far.
unfoldable pub add_providers :
    Bool → String → List SubscriptionMeta → List String → ProxyConfig → ProxyConfig
unfolding put proxy_provider
add_providers legacy test_url (sub ∷ subs) (name ∷ names) built =
    add_providers legacy test_url subs names (
      if is_skipped legacy sub then built else record built {
        providers = put name (proxy_provider legacy test_url sub) built.providers;
        names = built.names ++ name ∷ [];
      })
add_providers legacy test_url [] names built = built
add_providers legacy test_url (sub ∷ subs) [] built = built

-- The literal `proxyGroups`
unfoldable pub proxy_groups : String → List String → List ProxyGroupYaml
proxy_groups test_url names =
    record {
      name = "Auto";
      type = "url-test";
      proxies = [];
      uses = names;
      url = test_url;
      interval = health_check_interval;
      tolerance = pos 50;
    }
    ∷ record {
      name = "Manual";
      type = "select";
      proxies = "DIRECT" ∷ [];
      uses = names;
      url = "";
      interval = pos 0;
      tolerance = pos 0;
    }
    ∷ record {
      name = "Fallback";
      type = "fallback";
      proxies = [];
      uses = names;
      url = test_url;
      interval = health_check_interval;
      tolerance = pos 0;
    }
    ∷ record {
      name = "Load-Balance";
      type = "load-balance";
      proxies = [];
      uses = names;
      url = test_url;
      interval = health_check_interval;
      tolerance = pos 0;
    }
    ∷ []

-- The rest of `buildProxyConfig`, from the loop on.
unfoldable pub finish_proxies : String → ProxyConfig → Result GenerateError ProxyConfig
unfolding proxy_groups
finish_proxies test_url built =
    if is_empty built.names
    then err no_url
    else ok (record built { groups = proxy_groups test_url built.names })

-- `buildProxyConfig`, with what `os.Stat` says of the caches
unfoldable pub build_proxy_config :
    Formats → (String → Stat) → Config → Result GenerateError ProxyConfig
unfolding select_sources add_providers finish_proxies active_pool_subscriptions provider_names_for
build_proxy_config formats stat c = do
  from ← select_sources c (active_pool_subscriptions stat c)
  finish_proxies c.mihomo.test_url (
      add_providers from.legacy c.mihomo.test_url from.subs (provider_names_for formats from.subs)
        (record { providers = []; names = []; groups = [] }))
