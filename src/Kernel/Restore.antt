-- ===== src/Kernel/Restore.antt =====
-- The search for the kernel's binary (mihomotui/mihomo_manager.go, on Unix) and its start after an
-- installation (mihomotui/kernel_restore.go). Files, the environment and the daemon's answers are
-- arguments.
use mihomo_tui.Base.{
  eq_iff, ◌≢◌, ◌⊎◌, String, ◌≡◌, refl, Bool, true, false, ◌&&◌, ◌||◌, not, Option, none, some, List,
  [], ◌∷◌, ◌==◌, trim_space, if◌then◌else◌, arith, inl, inr, Option-cases,
}
use mihomo_tui.Base.Result.{Result, ok, err}

-- What `os.Stat`, `GetConfigDir`, `exec.LookPath` and `filepath.Join` answer.
pub record Files : Type 0 where
  pub exists : String → Bool
  pub config_dir : String
  pub look_path : String → Option String
  pub join_path : String → String → String

-- The loop over `fallbackDirs`
unfoldable pub first_existing : Files → List String → String
first_existing files [] = ""
first_existing files (dir ∷ dirs) =
    let rest = first_existing files dirs in
    let p = files.join_path dir "mihomo" in if files.exists p then p else rest

abbrev fallback_dirs : List String
fallback_dirs = "/usr/local/bin" ∷ "/usr/bin" ∷ "/opt/bin" ∷ []

-- `findMihomoBinary`; `configured` is `cfg.MihomoBinaryPath`.
unfoldable pub find_mihomo_binary : Files → String → String
unfolding first_existing
find_mihomo_binary files configured =
    let own = files.join_path (files.join_path files.config_dir "bin") "mihomo" in
    if not (configured == "") && files.exists configured
    then configured
    else if not (files.config_dir == "") && files.exists own
    then own
    else elim (files.look_path "mihomo") [
      | some path ↦ path
      | none ↦ first_existing files fallback_dirs
    ]

-- `ParseKernelWasRunningHint`
unfoldable pub parse_hint : (String → String) → String → Option Bool
unfolding trim_space
parse_hint lower raw =
    let s = lower (trim_space raw) in
    if s == "1" || s == "true" || s == "yes" || s == "on"
    then some true
    else if s == "0" || s == "false" || s == "no" || s == "off"
    then some false
    else none

-- The daemon as `ProbeKernelRunning` finds it: out of reach, or with its status or an error.
pub data Probe : Type 0 where
  unreachable : Probe
  answered : Result String Bool → Probe

-- `ProbeKernelRunning`
unfoldable pub probe_running : Probe → Result String Bool
probe_running unreachable = ok false
probe_running (answered (err e)) = err e
probe_running (answered (ok running)) = ok running

-- `ResolveKernelWasRunning`; `env` is the environment variable.
unfoldable pub resolve_was_running : (String → String) → String → String → Probe → Bool
unfolding parse_hint probe_running
resolve_was_running lower hint env probe = elim (parse_hint lower hint) [
  | some b ↦ b
  | none ↦ elim (parse_hint lower env) [
    | some b ↦ b
    | none ↦ elim (probe_running probe) [ err e ↦ false | ok running ↦ running ]
  ]
]

pub data RestoreError : Type 0 where
  not_ready probe_failed not_connected start_refused : String → RestoreError

-- How the calls of `RestoreKernelIfNeeded` end.
pub record RestoreCalls : Type 0 where
  pub wait : Result String (Unit {0})
  pub probe : Probe
  pub connect : Result String (Unit {0})
  pub start : Result String (Unit {0})

abbrev wrap : (String → RestoreError) → Result String (Unit {0}) → Result RestoreError (Unit {0})
wrap f (err e) = err (f e)
wrap f (ok done) = ok tt

-- `RestoreKernelIfNeeded`: whether it has asked for a start, and its result
unfoldable pub restore_kernel : RestoreCalls → Bool → Bool × Result RestoreError (Unit {0})
unfolding probe_running
restore_kernel calls false = (false, ok tt)
restore_kernel calls true = elim calls.wait [
  | err e ↦ (false, err (not_ready e))
  | ok ready ↦ elim (probe_running calls.probe) [
    | err e ↦ (false, err (probe_failed e))
    | ok true ↦ (false, ok tt)
    | ok false ↦ elim calls.connect [
      | err e ↦ (false, err (not_connected e))
      | ok client ↦ (true, wrap start_refused calls.start)
    ]
  ]
]

-- The kernel is started after an installation only if it ran before, by the hint, else by the
-- environment variable, else by the daemon's answer, and it does not run then; and if it ran before,
-- success means that it runs or that its start was asked for and granted.
pub restore_kernel_lem :
    (lower : String → String) (hint env : String) (before : Probe) (calls : RestoreCalls)
    → let was = resolve_was_running lower hint env before in
      let (asked, result) = restore_kernel calls was in
      ((asked ≡ false) ⊎ ((was ≡ true) × (probe_running calls.probe ≡ ok false)))
      × ((was ≡ false)
          ⊎ (result ≢ ok tt)
          ⊎ (probe_running calls.probe ≡ ok true)
          ⊎ ((asked ≡ true) × (calls.start ≡ ok tt)))
unfolding restore_kernel
restore_kernel_lem lower hint env before calls = ground arith

first_existing-exists :
    (files : Files) (dirs : List String)
    → (first_existing files dirs ≡ "") ⊎ (files.exists (first_existing files dirs) ≡ true)
unfolding first_existing
first_existing-exists files [] = inl refl
first_existing-exists files (dir ∷ dirs) = ground (arith, first_existing-exists files dirs)

-- A binary that is found exists, if the search in the path only finds what does: the path of the
-- configuration is taken wherever it exists.
pub find_mihomo_binary_lem :
    (files : Files) (configured : String)
    → ((path : String) → files.look_path "mihomo" ≡ some path → files.exists path ≡ true)
    → ((find_mihomo_binary files configured ≡ "")
        ⊎ (files.exists (find_mihomo_binary files configured) ≡ true))
      × ((configured ≡ "")
          ⊎ (files.exists configured ≡ false)
          ⊎ (find_mihomo_binary files configured ≡ configured))
unfolding find_mihomo_binary
find_mihomo_binary_lem files configured h =
    let last = first_existing-exists files fallback_dirs in
    elim (Option-cases (files.look_path "mihomo")) [
      | inl missing ↦ ground (arith, missing, last, eq_iff configured "")
      | inr (path, found) ↦ ground (arith, found, h path found, eq_iff configured "")
    ]
