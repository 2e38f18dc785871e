-- ===== src/Generate/WriteLaws.antt =====
-- What `GenerateMihomoConfig` (mihomotui/mihomo_config.go) leaves in memory and in the file.
use mihomo_tui.Base.{
  String, eq_iff, ◌∙◌, ◌≡◌, ◌≢◌, ◌⊎◌, inl, inr, refl, true, false, ◌&&◌, Option, none, some, List,
  arith, ◌==◌, Bool-cases,
}
use mihomo_tui.Base.Maps.{keys}
use mihomo_tui.Base.Result.{ok, Result-cases}
use mihomo_tui.Config.{Config, SubscriptionMeta}
use mihomo_tui.Pools.Runtime.{active_pool_subscriptions}
use mihomo_tui.Generate.{MihomoYaml}
use mihomo_tui.Generate.Global.{build_global_config}
use mihomo_tui.Generate.Names.{provider_names_for}
use mihomo_tui.Generate.Proxies.{ProxyConfig, build_proxy_config}
use mihomo_tui.Generate.ProxyLaws.{build_proxy_config_lem}
use mihomo_tui.Generate.RuleLines.{build_rule_config}
use mihomo_tui.Generate.Write.{
  rename_failed, write_failed, dir_chmod_failed, dir_failed, not_built, marshal_failed, System,
  Generated, WriteError, chmod_failed, ensure_secret, merge_config, write_config,
  generate_mihomo_config,
}

-- The kernel's configuration: the global settings, with the providers and groups of the proxies and the
-- providers and rules of the rules.
abbrev pub merged : System → Config → ProxyConfig → MihomoYaml
merged s c proxy = record (build_global_config s.net c) {
  proxy_providers = proxy.providers;
  proxy_groups = proxy.groups;
  rule_providers = (build_rule_config s.formats c).providers;
  rules = (build_rule_config s.formats c).rules;
}

-- The three ends of a generation.
abbrev pub Ends : System → Config → Option MihomoYaml → Generated → Type 0
Ends s secured old g =
    ((proxy : ProxyConfig) × (build_proxy_config s.formats s.stat secured ≡ ok proxy)
      × (g ≡ record {
        memory = record secured { mihomo_config_path = s.config_path };
        file = some (merged s secured proxy);
        failure = none;
      }))
    ⊎ ((proxy : ProxyConfig) × (build_proxy_config s.formats s.stat secured ≡ ok proxy)
        × (g ≡ record {
          memory = secured;
          file = some (merged s secured proxy);
          failure = some chmod_failed;
        }))
    ⊎ ((e : WriteError) × (e ≢ chmod_failed)
        × (g ≡ record { memory = secured; file = old; failure = some e }))

-- The configuration with a secret: its own, or the new one where it has none.
abbrev pub IsSecured : String → Config → Config → Type 0
IsSecured new_secret c secured =
    ((c.mihomo.secret ≢ "") × (secured ≡ c))
    ⊎ ((c.mihomo.secret ≡ "")
        × (secured ≡ record c { mihomo = record c.mihomo { secret = new_secret } }))

ensure_secret-IsSecured :
    (new_secret : String) (c : Config) → IsSecured new_secret c (ensure_secret new_secret c)
unfolding ensure_secret
ensure_secret-IsSecured new_secret c = elim (Bool-cases (c.mihomo.secret == "")) [
  | inl e ↦ inr ((eq_iff c.mihomo.secret "").0 e, simp e refl)
  | inr e ↦ inl (ground (arith, e, eq_iff c.mihomo.secret ""), simp e refl)
]

-- The end of the last step, for the configuration `y` that it writes.
abbrev WriteEnds : System → Config → Option MihomoYaml → MihomoYaml → Generated → Type 0
WriteEnds s secured old y g =
    (g ≡ record {
      memory = record secured { mihomo_config_path = s.config_path };
      file = some y;
      failure = none;
    })
    ⊎ (g ≡ record { memory = secured; file = some y; failure = some chmod_failed })
    ⊎ ((e : WriteError) × (e ≢ chmod_failed)
        × (g ≡ record { memory = secured; file = old; failure = some e }))

write_config-cases :
    (s : System) (secured : Config) (old : Option MihomoYaml) (y : MihomoYaml)
    → WriteEnds s secured old y (write_config s secured old y)
unfolding write_config
write_config-cases s secured old y = elim (Bool-cases s.marshals) [
  | inr no_marshals ↦ inr (inr (marshal_failed, λ q. cc, ground (arith, no_marshals)))
  | inl marshals ↦ elim (Bool-cases s.makes_dir) [
    | inr no_makes_dir ↦ inr (inr (dir_failed, λ q. cc, ground (arith, no_makes_dir)))
    | inl makes_dir ↦ elim (Bool-cases s.chmods_dir) [
      | inr no_chmods_dir ↦ inr (inr (dir_chmod_failed, λ q. cc, ground (arith, no_chmods_dir)))
      | inl chmods_dir ↦ elim (Bool-cases s.writes) [
        | inr no_writes ↦ inr (inr (write_failed, λ q. cc, ground (arith, no_writes)))
        | inl writes ↦ elim (Bool-cases s.renames) [
          | inr no_renames ↦ inr (inr (rename_failed, λ q. cc, ground (arith, no_renames)))
          | inl renames ↦ elim (Bool-cases s.chmods_file) [
            | inr denied ↦ inr (inl (ground arith))
            | inl all ↦ inl (ground arith)
          ]
        ]
      ]
    ]
  ]
]

generate-Ends :
    (s : System) (c : Config) (old : Option MihomoYaml)
    → Ends s (ensure_secret s.new_secret c) old (generate_mihomo_config s c old)
unfolding generate_mihomo_config merge_config
generate-Ends s c old =
    let secured = ensure_secret s.new_secret c in
    elim (Result-cases (build_proxy_config s.formats s.stat secured)) [
      | inr (e, failed) ↦ inr (inr (not_built e, λ q. cc, ground (arith, failed)))
      | inl (proxy, built) ↦
          elim (write_config-cases s secured old (merge_config s secured proxy)) [
            | inl done ↦ inl (proxy, built, ground (arith, built, done))
            | inr (inl denied) ↦ inr (inl (proxy, built, ground (arith, built, denied)))
            | inr (inr (e, other, failed)) ↦ inr (inr (e, other, ground (arith, built, failed)))
          ]
    ]

-- A generation ends in one of three ways. It succeeds: the file holds the merged configuration, and
-- the memory has the file's path. Or only the change of the file's permissions fails: the file is new,
-- and the path is not recorded. Or it fails earlier: the file is the old one. In all of them a missing
-- secret has been filled in, and nothing else has changed in memory.
pub generate_mihomo_config-cases :
    (s : System) (c : Config) (old : Option MihomoYaml)
    → (secured : Config) × IsSecured s.new_secret c secured
      × Ends s secured old (generate_mihomo_config s c old)
generate_mihomo_config-cases s c old =
    (ensure_secret s.new_secret c, ensure_secret-IsSecured s.new_secret c, generate-Ends s c old)

active-ensure_secret :
    (s : System) (c : Config)
    → active_pool_subscriptions s.stat (ensure_secret s.new_secret c)
      ≡ active_pool_subscriptions s.stat c
unfolding ensure_secret active_pool_subscriptions
active-ensure_secret s c = elim (Bool-cases (c.mihomo.secret == "")) [
  | inl e ↦ simp e refl
  | inr e ↦ simp e refl
]

rules-merge_config :
    (s : System) (c : Config) (proxy : ProxyConfig)
    → (merge_config s (ensure_secret s.new_secret c) proxy).rules
      ≡ (build_rule_config s.formats c).rules
unfolding ensure_secret merge_config
rules-merge_config s c proxy = elim (Bool-cases (c.mihomo.secret == "")) [
  | inl e ↦ simp e refl
  | inr e ↦ simp e refl
]

secret-merge_config :
    (s : System) (c : Config) (proxy : ProxyConfig)
    → (s.new_secret == "") ≡ false
    → ((merge_config s (ensure_secret s.new_secret c) proxy).secret == "") ≡ false
unfolding ensure_secret merge_config build_global_config
secret-merge_config s c proxy h = ground (arith, h)

-- If the pools give subscriptions to run and every call on files succeeds, the generation does. The
-- file then has a provider for each subscription to run, under names that are distinct, the rules of
-- the configuration, and a secret that is not empty.
pub generate_mihomo_config-succeeds :
    (s : System) (c : Config) (old : Option MihomoYaml) (subs : List SubscriptionMeta)
    → active_pool_subscriptions s.stat c ≡ ok subs
    → (s.new_secret == "") ≡ false
    → (s.marshals && s.makes_dir && s.chmods_dir && s.writes && s.renames && s.chmods_file) ≡ true
    → let g = generate_mihomo_config s c old in
      (file : MihomoYaml) × (g.file ≡ some file)
      × (g.failure ≡ none)
      × (keys file.proxy_providers ≡ provider_names_for s.formats subs)
      × (file.rules ≡ (build_rule_config s.formats c).rules)
      × ((file.secret == "") ≡ false)
unfolding generate_mihomo_config write_config
generate_mihomo_config-succeeds s c old subs h secret calls =
    let secured = ensure_secret s.new_secret c in
    let same = active-ensure_secret s c in
    let (proxy, built, _, named, _, _, _, _) =
      build_proxy_config_lem s.formats s.stat secured subs (same ∙ h) in
    let file = merge_config s secured proxy in
    (
      file,
      ground (arith, built, calls),
      ground (arith, built, calls),
      named,
      rules-merge_config s c proxy,
      secret-merge_config s c proxy secret,
    )
