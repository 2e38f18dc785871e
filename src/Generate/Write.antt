-- ===== src/Generate/Write.antt =====
-- `GenerateMihomoConfig` (mihomotui/mihomo_config.go): the configuration in memory and the kernel's
-- configuration file, with what each call on files returns as an argument.
use mihomo_tui.Base.{String, Bool, not, Option, none, some, ◌==◌, if◌then◌else◌}
use mihomo_tui.Base.Result.{ok, err}
use mihomo_tui.Config.{Config}
use mihomo_tui.Pools.Runtime.{Stat}
use mihomo_tui.Generate.{Formats, MihomoYaml}
use mihomo_tui.Generate.Addresses.{Resolver}
use mihomo_tui.Generate.Global.{build_global_config}
use mihomo_tui.Generate.Proxies.{GenerateError, ProxyConfig, build_proxy_config}
use mihomo_tui.Generate.RuleLines.{build_rule_config}

-- What the generation asks of the system: the file system before it starts, the path of the file, a
-- new secret, and whether each later call succeeds.
pub record System : Type 0 where
  pub formats : Formats
  pub net : Resolver
  pub stat : String → Stat
  pub config_path : String
  pub new_secret : String
  pub marshals : Bool
  pub makes_dir : Bool
  pub chmods_dir : Bool
  pub writes : Bool
  pub renames : Bool
  pub chmods_file : Bool

pub data WriteError : Type 0 where
  not_built : GenerateError → WriteError
  marshal_failed dir_failed dir_chmod_failed write_failed rename_failed chmod_failed : WriteError

pub record Generated : Type 0 where
  -- the configuration in memory
  pub memory : Config
  -- the kernel's configuration file
  pub file : Option MihomoYaml
  pub failure : Option WriteError

-- `ensureSecret`
unfoldable pub ensure_secret : String → Config → Config
ensure_secret new_secret c =
    if c.mihomo.secret == ""
    then record c { mihomo = record c.mihomo { secret = new_secret } }
    else c

-- The merged configuration, step 4 of `GenerateMihomoConfig`
unfoldable pub merge_config : System → Config → ProxyConfig → MihomoYaml
unfolding build_global_config build_rule_config
merge_config s c proxy =
    let ruled = build_rule_config s.formats c in
    record (build_global_config s.net c) {
      proxy_providers = proxy.providers;
      proxy_groups = proxy.groups;
      rule_providers = ruled.providers;
      rules = ruled.rules;
    }

-- Step 5 of `GenerateMihomoConfig`
unfoldable pub write_config : System → Config → Option MihomoYaml → MihomoYaml → Generated
write_config s c old new =
    if not s.marshals
    then record { memory = c; file = old; failure = some marshal_failed }
    else if not s.makes_dir
    then record { memory = c; file = old; failure = some dir_failed }
    else if not s.chmods_dir
    then record { memory = c; file = old; failure = some dir_chmod_failed }
    else if not s.writes
    then record { memory = c; file = old; failure = some write_failed }
    else if not s.renames
    then record { memory = c; file = old; failure = some rename_failed }
    else if not s.chmods_file
    then record { memory = c; file = some new; failure = some chmod_failed }
    else record {
      memory = record c { mihomo_config_path = s.config_path };
      file = some new;
      failure = none;
    }

-- `GenerateMihomoConfig`
unfoldable pub generate_mihomo_config : System → Config → Option MihomoYaml → Generated
unfolding ensure_secret build_proxy_config merge_config write_config
generate_mihomo_config s c old =
    let secured = ensure_secret s.new_secret c in
    elim (build_proxy_config s.formats s.stat secured) [
      | err e ↦ record { memory = secured; file = old; failure = some (not_built e) }
      | ok proxy ↦ write_config s secured old (merge_config s secured proxy)
    ]
