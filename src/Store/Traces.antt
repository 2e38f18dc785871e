-- ===== src/Store/Traces.antt =====
-- Runs of the store (mihomotui/config_store.go): any requests, in any order, with any outcome of the
-- file system at each.
use mathlib.Core.Path.{subst}
use mihomo_tui.Base.{Bool-cases, inl, inr, sym, ℕ, ◌+◌, List, [], ◌∷◌, Option, some, none}
use mihomo_tui.Base.Int.{int_eq}
use mihomo_tui.Base.Result.{Result, ok, err}
use mihomo_tui.Config.{Config}
use mihomo_tui.Validate.Spec.{IsValid}
use mihomo_tui.Store.{
  CommitError, FlushOutcome, Host, Store, commit_updated, merge_request, commit_config,
  update_global_config, replace_global_config,
}
use mihomo_tui.Store.Commit.{versioned, versioned-IsValid, commit_config-cases, persisted-IsValid}

-- One commit request of the daemon.
pub data Request (E : Type 0) : Type 0 where
  update : Option (Config → Result E Config) → Request E
  replace : Config → Request E

-- Both values of the store are valid.
pub record IsSound (host : Host) (s : Store) : Type 0 where
  pub memory_valid : IsValid host.net s.memory
  pub disk_valid : IsValid host.net s.disk

commit_config-IsSound :
    (E : Type 0) (host : Host) (out : FlushOutcome) (s : Store) (next : Config)
    → IsSound host s
    → IsSound host (commit_config {E = E} host out s next).0
commit_config-IsSound E host out s next h = elim (commit_config-cases E host out s next) [
  | inl same ↦ subst (IsSound host) (sym same) h
  | inr (inl (valid, e)) ↦ subst (IsSound host) (sym e) (record {
    memory_valid = h.memory_valid;
    disk_valid = persisted-IsValid host (versioned s next) (versioned-IsValid host s next valid);
  })
  | inr (inr (valid, e)) ↦
      let new = versioned-IsValid host s next valid in
      subst (IsSound host) (sym e)
        (record { memory_valid = new; disk_valid = persisted-IsValid host (versioned s next) new })
]

module _ {E : Type 0} where
  unfoldable pub apply :
      Host → FlushOutcome → Request E → Store → Store × Result (CommitError E) Config
  unfolding update_global_config replace_global_config
  apply host out (update fn) s = update_global_config host out fn s
  apply host out (replace req) s = replace_global_config host out req s

  -- The store after the requests, and how many of them were committed.
  unfoldable pub run : Host → List (FlushOutcome × Request E) → Store → Store × ℕ
  unfolding apply
  run host [] s = (s, 0)
  run host ((out, request) ∷ rest) s =
      let (s', result) = apply host out request s in
      let (last, n) = run host rest s' in (last, elim result [ ok c ↦ n + 1 | err e ↦ n ])

  apply-IsSound :
      (host : Host) (out : FlushOutcome) (request : Request E) (s : Store)
      → IsSound host s
      → IsSound host (apply host out request s).0
  unfolding apply
  apply-IsSound host out (update none) s h = h
  apply-IsSound host out (update (some fn)) s h = updated (fn s.memory)
    where
      updated : (r : Result E Config) → IsSound host (commit_updated host out s r).0
      updated (err e) = h
      updated (ok next) = commit_config-IsSound E host out s next h
  apply-IsSound host out (replace req) s h =
      elim (Bool-cases (int_eq req.version s.memory.version)) [
        | inl current ↦
            rw current (commit_config-IsSound E host out s (merge_request host s.memory req) h)
        | inr stale ↦ rw stale h
      ]

  -- From a store whose configurations in memory and in the file are valid, both are valid after any
  -- requests, whatever the file system does at each.
  pub run-IsSound :
      (host : Host) (requests : List (FlushOutcome × Request E)) (s : Store)
      → IsSound host s
      → IsSound host (run host requests s).0
  unfolding run
  run-IsSound host [] s h = h
  run-IsSound host ((out, request) ∷ rest) s h =
      run-IsSound host rest (apply host out request s).0 (apply-IsSound host out request s h)
