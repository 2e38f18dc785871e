-- ===== src/Runtime/Reconcile.antt =====
-- `runReconcile` (mihomotui/reconcile.go): the calls it makes, in their order, and its report. How
-- each call ends is a parameter; the texts of the errors are those of the calls. That the daemon keeps
-- the last report (`recordApplyReport`) is left out.
use mihomo_tui.Base.{
  String, Bool, true, false, ◌||◌, ◌&&◌, not, Option, none, some, List, [], ◌∷◌, if◌then◌else◌, ◌≡◌,
  arith, ◌↔◌, ◌⊎◌,
}

-- The calls that change the runtime.
pub data Call : Type 0 where
  generate set_up_tun reload restart restore_tun : Call

pub data Stage : Type 0 where
  generate_stage tun_stage reload_stage restart_stage : Stage

pub data ApplyError : Type 0 where
  failed : String → ApplyError
  no_api : ApplyError
  failed_twice : String → String → ApplyError

pub data ApplyReport : Type 0 where
  applied : ApplyReport
  not_applied : Stage → ApplyError → ApplyReport

-- `reconcileRequest`, less its reason and its channel
pub record ReconcileRequest : Type 0 where
  pub old_tun : Bool
  pub new_tun : Bool
  pub sync_tun : Bool

-- What the daemon finds while it works on a request: whether the kernel runs, whether there is an
-- API client, and the error of each call, if it fails.
pub record Outcomes : Type 0 where
  pub running : Bool
  pub has_api : Bool
  pub generate_error : Option String  -- GenerateMihomoConfig
  pub set_up_error : Option String  -- SetupTUNRouting
  pub reload_error : Option String  -- ReloadConfigs
  pub restart_error : Option String  -- Restart
  pub restore_error : Option String  -- RestoreTUNRouting

-- `reconcileConfigChange` and `reconcileLatest`
abbrev pub config_change : Bool → Bool → ReconcileRequest
config_change old new = record {
  old_tun = old;
  new_tun = new;
  sync_tun = if old then not new else new;
}

abbrev pub latest : ReconcileRequest
latest = record { old_tun = false; new_tun = false; sync_tun = false }

module _ (out : Outcomes) (req : ReconcileRequest) where
  -- The last step: TUN routing is taken down once the kernel runs without TUN.
  unfoldable pub finish_tun : List Call × ApplyReport
  finish_tun =
      if req.sync_tun && not req.new_tun && out.running
      then elim out.restore_error [
        | some e ↦ (restore_tun ∷ [], not_applied tun_stage (failed e))
        | none ↦ (restore_tun ∷ [], applied)
      ]
      else ([], applied)

  abbrev pub after : Call → List Call × ApplyReport → List Call × ApplyReport
  after call (calls, report) = (call ∷ calls, report)

  -- The reload, with the restart that stands in for it.
  unfoldable pub reload_kernel : List Call × ApplyReport
  unfolding finish_tun
  reload_kernel =
      if not out.running
      then finish_tun
      else if not out.has_api
      then ([], not_applied reload_stage no_api)
      else elim out.reload_error [
        | none ↦ after reload finish_tun
        | some e ↦ elim out.restart_error [
          | some e' ↦ (reload ∷ restart ∷ [], not_applied restart_stage (failed_twice e e'))
          | none ↦ after reload (after restart finish_tun)
        ]
      ]

  -- TUN routing is set up before the kernel takes traffic over.
  unfoldable pub prepare_tun : List Call × ApplyReport
  unfolding reload_kernel
  prepare_tun =
      if req.sync_tun && req.new_tun && out.running
      then elim out.set_up_error [
        | some e ↦ (set_up_tun ∷ [], not_applied tun_stage (failed e))
        | none ↦ after set_up_tun reload_kernel
      ]
      else reload_kernel

  -- `runReconcile`
  unfoldable pub run_reconcile : List Call × ApplyReport
  unfolding prepare_tun
  run_reconcile = elim out.generate_error [
    | some e ↦ (generate ∷ [], not_applied generate_stage (failed e))
    | none ↦ after generate prepare_tun
  ]

abbrev is_call : Call → Call → Bool
is_call generate generate = true
is_call set_up_tun set_up_tun = true
is_call reload reload = true
is_call restart restart = true
is_call restore_tun restore_tun = true
is_call c d = false

abbrev pub has_call : Call → List Call → Bool
has_call c [] = false
has_call c (d ∷ calls) = is_call c d || has_call c calls

module _ (out : Outcomes) (req : ReconcileRequest) where
  -- A request is applied exactly when the configuration is generated and, if the kernel runs, TUN
  -- routing is set up where TUN is turned on, there is an API client, the reload or else the restart
  -- succeeds, and TUN routing is taken down where TUN is turned off.
  pub run_reconcile-applied_iff : ((run_reconcile out req).1 ≡ applied) ↔ (
      (out.generate_error ≡ none)
      × ((out.running ≡ false)
          ⊎ ((((req.sync_tun && req.new_tun) ≡ false) ⊎ (out.set_up_error ≡ none))
              × (out.has_api ≡ true)
              × ((out.reload_error ≡ none) ⊎ (out.restart_error ≡ none))
              × (((req.sync_tun && not req.new_tun) ≡ false) ⊎ (out.restore_error ≡ none)))))
  unfolding run_reconcile
  run_reconcile-applied_iff = ground arith

-- Before the first `d` of the calls there is a `c`.
abbrev pub guarded : Call → Call → List Call → Bool
guarded c d [] = true
guarded c d (x ∷ calls) =
    if is_call c x then true else if is_call d x then false else guarded c d calls

-- No call comes behind a `c`.
abbrev pub is_last : Call → List Call → Bool
is_last c [] = true
is_last c (x ∷ []) = true
is_last c (x ∷ (y ∷ calls)) = not (is_call c x) && is_last c (y ∷ calls)

-- What the calls for a request, with these outcomes, must keep to.
abbrev pub IsInOrder : Outcomes → ReconcileRequest → List Call → Type 0
IsInOrder out req calls =
    ((req.sync_tun && req.new_tun && out.running) ≡ true
      → (guarded set_up_tun reload calls ≡ true)
        × (guarded set_up_tun restart calls ≡ true)
        × ((has_call reload calls || has_call restart calls) ≡ true → out.set_up_error ≡ none))
    × (has_call set_up_tun calls ≡ true → (req.sync_tun && req.new_tun && out.running) ≡ true)
    × (has_call restore_tun calls ≡ true
        → ((req.sync_tun && not req.new_tun && out.running) ≡ true)
          × (is_last restore_tun calls ≡ true)
          × (guarded reload restore_tun calls ≡ true)
          × ((out.reload_error ≡ none)
              ⊎ ((out.restart_error ≡ none) × (guarded restart restore_tun calls ≡ true))))
    × (out.running ≡ false → calls ≡ generate ∷ [])

module _ (out : Outcomes) (req : ReconcileRequest) where
  -- TUN routing is set up only where TUN is turned on under a running kernel; there it is set up before
  -- any reload or restart of the kernel, and with success if there is one. TUN routing is taken down
  -- only where TUN is turned off under a running kernel; that is the last call, it comes behind a reload,
  -- and the reload has succeeded, or a restart that comes before it too has. With no running kernel the
  -- configuration is generated, and nothing else.
  pub run_reconcile-order : IsInOrder out req (run_reconcile out req).0
  unfolding run_reconcile
  run_reconcile-order = (
    λ on. (ground (arith, on), ground (arith, on), λ r. ground (arith, on, r)),
    λ r. ground (arith, r),
    λ r. (ground (arith, r), ground (arith, r), ground (arith, r), ground (arith, r)),
    λ off. ground (arith, off),
  )
