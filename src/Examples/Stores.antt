-- ===== src/Examples/Stores.antt =====
-- The theorems about the store, on the sample configuration.
use mihomo_tui.Base.{
  ◌≢◌, true, false, some, List, [], ◌∷◌, ◌≡◌, refl, ◌⊎◌, ◌<◌, ◌≤◌, ◌+◌, arith, if◌then◌else◌, ◌==◌,
}
use mihomo_tui.Base.Int.{pos, int_eq, increment}
use mihomo_tui.Base.Result.{ok, err}
use mihomo_tui.Config.Edit.{EditError}
use mihomo_tui.Examples.{host, store, config, config-IsValid, all_good, no_chmod}
use mihomo_tui.Store.{
  FlushOutcome, CommitError, conflict, flush_failed, chmod_failed, persisted, update_global_config,
  commit_config, replace_global_config,
}
use mihomo_tui.Store.Commit.{versioned, commit_config_err, commit_config-chmod_diverges}
use mihomo_tui.Store.Replace.{replace_global_config_ok}
use mihomo_tui.Store.Traces.{Request, update, apply, replace, IsSound, run, run-IsSound}
use mihomo_tui.Store.Versions.{version-run, replace_after_run}
use mihomo_tui.Validate.Spec.{validate_iff}

-- One update that is written, and one replacement whose last step fails.
abbrev requests : List (FlushOutcome × Request EditError)
requests =
    (all_good, update (some (λ c. ok (record c { proxy_mode = "direct" }))))
    ∷ (no_chmod, replace config)
    ∷ []

store-IsSound : IsSound host store
store-IsSound = record { memory_valid = config-IsValid; disk_valid = config-IsValid }

run-IsSound_example : IsSound host (run host requests store).0
run-IsSound_example = run-IsSound host requests store store-IsSound

commits : (commit_config {E = EditError} host all_good store config).1 ≡ ok (versioned store config)
unfolding commit_config
commits = ground (arith, (validate_iff host.net config).1 config-IsValid)

fails :
    (commit_config {E = EditError} host no_chmod store config).1 ≡ err (flush_failed chmod_failed)
unfolding commit_config
fails = ground (arith, (validate_iff host.net config).1 config-IsValid)

commit_config_err_example :
    let e : CommitError EditError = flush_failed chmod_failed in
    ((commit_config {E = EditError} host no_chmod store config).0.memory ≡ config)
    × (((e ≢ flush_failed chmod_failed)
          × ((commit_config {E = EditError} host no_chmod store config).0.disk ≡ config))
        ⊎ ((e ≡ flush_failed chmod_failed)
            × ((commit_config {E = EditError} host no_chmod store config).0.disk
                ≡ persisted host (versioned store config))))
commit_config_err_example =
    commit_config_err EditError host no_chmod store config (flush_failed chmod_failed) fails

commit_config-chmod_diverges_example :
    let (s', result) = commit_config {E = EditError} host no_chmod store config in
    (result ≡ err (flush_failed chmod_failed)) × (int_eq s'.memory.version s'.disk.version ≡ false)
commit_config-chmod_diverges_example =
    commit_config-chmod_diverges EditError host no_chmod store config config-IsValid refl refl refl
      refl

version-run_example :
    ((run host requests store).0.memory.version ≡ pos (3 + (run host requests store).1))
    × ((run host requests store).1 ≤ 2)
version-run_example = version-run host requests store 3 refl (omega arith)

abbrev one_update : List (FlushOutcome × Request EditError)
one_update = (all_good, update (some (λ c. ok c))) ∷ []

counts-one_update : 0 < (run host one_update store).1
unfolding run apply update_global_config commit_config
counts-one_update = ground (arith, (validate_iff host.net config).1 config-IsValid)

replace_after_run_example :
    let (last, count) = run host one_update store in
    replace_global_config {E = EditError} host all_good config last
    ≡ (last, err (conflict (pos (3 + count)) (pos 3)))
replace_after_run_example =
    replace_after_run host one_update store 3 all_good config refl (omega arith) counts-one_update
      refl

replaces :
    (replace_global_config {E = EditError} host all_good config store).1
    ≡ ok (versioned store config)
unfolding replace_global_config
replaces = commits

replace_global_config_ok_example :
    let c = versioned store config in
    (int_eq config.version store.memory.version ≡ true)
    × (c.version ≡ increment store.memory.version)
    × (c.subscriptions ≡ config.subscriptions)
    × (c.subscription_pools ≡ config.subscription_pools)
    × (c.system ≡ config.system)
    × (c.mihomo.secret
        ≡ (if config.mihomo.secret == "" then store.memory.mihomo.secret else config.mihomo.secret))
    × (c.log_dir ≡ (if host.runs_as_root then store.memory.log_dir else config.log_dir))
    × (c.mihomo_config_path ≡ (
        if host.runs_as_root then store.memory.mihomo_config_path else config.mihomo_config_path))
    × (c.mihomo_binary_path ≡ (
        if host.runs_as_root then store.memory.mihomo_binary_path else config.mihomo_binary_path))
replace_global_config_ok_example =
    replace_global_config_ok EditError host all_good config store (versioned store config) replaces
