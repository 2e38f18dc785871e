-- ===== src/Store/Versions.antt =====
-- Versions over a run of the store (mihomotui/config_store.go), and a client that held a copy before
-- the run.
use mihomo_tui.Base.{
  refl, inr, inl, Bool-cases, ℕ, suc, ◌+◌, ◌^◌, ◌≤◌, ◌<◌, ◌≡◌, arith, List, [], ◌∷◌, length, none,
  some,
}
use mihomo_tui.Base.Int.{pos, int_eq, increment}
use mihomo_tui.Base.Result.{Result, ok, err}
use mihomo_tui.Config.{Config}
use mihomo_tui.Store.{
  CommitError, conflict, FlushOutcome, Host, Store, commit_config, commit_updated, merge_request,
  replace_global_config,
}
use mihomo_tui.Store.Traces.{Request, update, replace, apply, run}

increment-pos : (n : ℕ) → n + 1 < 2 ^ 63 → increment (pos n) ≡ pos (n + 1)
unfolding increment
increment-pos n h = ground arith

-- What a result tells of the version.
abbrev Counts : {E : Type 0} → Store → Store × Result (CommitError E) Config → Type 0
Counts s (s', ok c) = s'.memory.version ≡ increment s.memory.version
Counts s (s', err e) = s'.memory ≡ s.memory

module _ (E : Type 0) (host : Host) (out : FlushOutcome) (s : Store) where
  commit_config-Counts : (next : Config) → Counts s (commit_config {E = E} host out s next)
  unfolding commit_config
  commit_config-Counts next = ground arith

module _ {E : Type 0} (host : Host) (out : FlushOutcome) (s : Store) where
  commit_updated-Counts : (r : Result E Config) → Counts s (commit_updated host out s r)
  commit_updated-Counts (ok next) = commit_config-Counts E host out s next
  commit_updated-Counts (err e) = refl

  apply-Counts : (request : Request E) → Counts s (apply host out request s)
  unfolding apply
  apply-Counts (update none) = refl
  apply-Counts (update (some fn)) = commit_updated-Counts (fn s.memory)
  apply-Counts (replace req) = elim (Bool-cases (int_eq req.version s.memory.version)) [
    | inl current ↦ rw current (commit_config-Counts E host out s (merge_request host s.memory req))
    | inr stale ↦ rw stale refl
  ]

-- The claim of `version-run` for one run.
abbrev IsCounted : ℕ → ℕ → Store × ℕ → Type 0
IsCounted n bound (last, k) = (last.memory.version ≡ pos (n + k)) × (k ≤ bound)

module _ {E : Type 0} (host : Host) where
  step-IsCounted :
      (rest : List (FlushOutcome × Request E)) (s : Store) (n : ℕ)
      (r : Store × Result (CommitError E) Config)
      → s.memory.version ≡ pos n
      → n + suc (length rest) < 2 ^ 63
      → Counts s r
      → ((m : ℕ)
          → r.0.memory.version ≡ pos m
          → m + length rest < 2 ^ 63
          → IsCounted m (length rest) (run host rest r.0))
      → let (last, k) = run host rest r.0 in
        IsCounted n (suc (length rest)) (last, elim r.1 as (λ _. ℕ) [ ok c ↦ k + 1 | err e ↦ k ])
  step-IsCounted rest s n (s', ok c) h low e ih = ground (arith, increment-pos n, ih (n + 1))
  step-IsCounted rest s n (s', err e) h low same ih = ground (arith, ih n)

  -- The version in memory goes up by one with each commit of a run, and with nothing else, as long
  -- as it stays below 2^63, and there are at most as many commits as requests.
  pub version-run :
      (requests : List (FlushOutcome × Request E)) (s : Store) (n : ℕ)
      → s.memory.version ≡ pos n
      → n + length requests < 2 ^ 63
      → ((run host requests s).0.memory.version ≡ pos (n + (run host requests s).1))
        × ((run host requests s).1 ≤ length requests)
  unfolding run
  version-run [] s n h low = ground arith
  version-run ((out, request) ∷ rest) s n h low =
      let r = apply host out request s in
      step-IsCounted rest s n r h low (apply-Counts host out s request)
        (λ m e below. version-run rest r.0 m e below)

  -- A client that read the configuration before a run in which at least one commit succeeded, and
  -- then sends its copy back, is told of the conflict, and nothing changes, as long as the version
  -- stays below 2^63.
  pub replace_after_run :
      (requests : List (FlushOutcome × Request E)) (s : Store) (n : ℕ) (out : FlushOutcome)
      (req : Config)
      → s.memory.version ≡ pos n
      → n + length requests < 2 ^ 63
      → 0 < (run host requests s).1
      → req.version ≡ s.memory.version
      → let (last, commits) = run host requests s in
        replace_global_config {E = E} host out req last
        ≡ (last, err (conflict (pos (n + commits)) (pos n)))
  unfolding replace_global_config
  replace_after_run requests s n out req h low some_commit copy =
      ground (arith, version-run requests s n h low)
