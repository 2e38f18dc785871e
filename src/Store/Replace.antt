-- ===== src/Store/Replace.antt =====
-- What `ReplaceGlobalConfig` (mihomotui/config_store.go) takes from the request, and what it keeps.
use mathlib.Core.Path.{subst}
use mihomo_tui.Store.{commit_config, merge_request, conflict}
use mihomo_tui.Base.Result.{err}
use mihomo_tui.Store.Commit.{commit_config_ok}
use mihomo_tui.Base.{sym, ap, refl, inl, inr, Bool-cases, ◌≡◌, ◌==◌, true, if◌then◌else◌}
use mihomo_tui.Base.Int.{int_eq, increment}
use mihomo_tui.Base.Result.{ok}
use mihomo_tui.Config.{Config}
use mihomo_tui.Store.{FlushOutcome, Host, Store, replace_global_config}

-- What a replacement that becomes `c` has taken and kept.
abbrev Takes : Host → Config → Config → Config → Type 0
Takes host current req c =
    (c.subscriptions ≡ req.subscriptions)
    × (c.subscription_pools ≡ req.subscription_pools)
    × (c.system ≡ req.system)
    × (c.mihomo.secret
        ≡ (if req.mihomo.secret == "" then current.mihomo.secret else req.mihomo.secret))
    × (c.log_dir ≡ (if host.runs_as_root then current.log_dir else req.log_dir))
    × (c.mihomo_config_path
        ≡ (if host.runs_as_root then current.mihomo_config_path else req.mihomo_config_path))
    × (c.mihomo_binary_path
        ≡ (if host.runs_as_root then current.mihomo_binary_path else req.mihomo_binary_path))

merge_request-Takes :
    (host : Host) (current req : Config) → Takes host current req (merge_request host current req)
merge_request-Takes host current req = elim (Bool-cases (req.mihomo.secret == "")) [
  | inl kept ↦ elim (Bool-cases host.runs_as_root) [
    | inl root ↦ rw (kept, root) (refl, refl, refl, refl, refl, refl, refl)
    | inr user ↦ rw (kept, user) (refl, refl, refl, refl, refl, refl, refl)
  ]
  | inr own ↦ elim (Bool-cases host.runs_as_root) [
    | inl root ↦ rw (own, root) (refl, refl, refl, refl, refl, refl, refl)
    | inr user ↦ rw (own, user) (refl, refl, refl, refl, refl, refl, refl)
  ]
]

-- A replacement that succeeds was based on the current version and returns the next one. It takes
-- the subscriptions, the pools and the TUN switch of the request; it keeps the secret in memory if
-- the request has none, and takes the request's otherwise; and a root daemon keeps its own paths,
-- where any other takes the request's.
pub replace_global_config_ok :
    (E : Type 0) (host : Host) (out : FlushOutcome) (req : Config) (s : Store) (c : Config)
    → (replace_global_config {E = E} host out req s).1 ≡ ok c
    → (int_eq req.version s.memory.version ≡ true)
      × (c.version ≡ increment s.memory.version)
      × (c.subscriptions ≡ req.subscriptions)
      × (c.subscription_pools ≡ req.subscription_pools)
      × (c.system ≡ req.system)
      × (c.mihomo.secret
          ≡ (if req.mihomo.secret == "" then s.memory.mihomo.secret else req.mihomo.secret))
      × (c.log_dir ≡ (if host.runs_as_root then s.memory.log_dir else req.log_dir))
      × (c.mihomo_config_path
          ≡ (if host.runs_as_root then s.memory.mihomo_config_path else req.mihomo_config_path))
      × (c.mihomo_binary_path
          ≡ (if host.runs_as_root then s.memory.mihomo_binary_path else req.mihomo_binary_path))
unfolding replace_global_config
replace_global_config_ok E host out req s c h =
    elim (Bool-cases (int_eq req.version s.memory.version)) [
      | inr older ↦
          let refused : err (conflict s.memory.version req.version) ≡ ok c = simp older at h in cc
      | inl current ↦
          let merged = merge_request host s.memory req in
          let done : (commit_config {E = E} host out s merged).1 ≡ ok c =
            subst
              (λ b.
                (if b
                  then commit_config {E = E} host out s merged
                  else (s, err (conflict s.memory.version req.version))).1
                ≡ ok c)
              current h in
          let same = (commit_config_ok E host out s merged c done).0 in
          let (subs, pools, system, secret, log, config, binary) =
            subst (Takes host s.memory req) (sym same) (merge_request-Takes host s.memory req) in
          (current, ap (λ d. d.version) same, subs, pools, system, secret, log, config, binary)
    ]
