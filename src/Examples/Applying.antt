-- ===== src/Examples/Applying.antt =====
-- The theorems about the reconciler and the configuration handler, at one request.
use mihomo_tui.Base.{true, false, none, some, ◌≡◌, ◌↔◌, ◌⊎◌}
use mihomo_tui.Base.Int.{int_eq}
use mihomo_tui.Examples.{parsers, host, config, store, all_good}
use mihomo_tui.Runtime.ConfigHandler.{
  post_config, post_config-cases, bad_request, version_conflict, server_error, updated, hide_secret,
  submit_reconcile, first_failure,
}
use mihomo_tui.Runtime.Reconcile.{
  Outcomes, ReconcileRequest, run_reconcile, config_change, run_reconcile-applied_iff,
  run_reconcile-order, IsInOrder, applied,
}
use mihomo_tui.Store.{persisted, FlushError, flush_failed, merge_request}
use mihomo_tui.Store.Commit.{versioned}
use mihomo_tui.Validate.{validate}
use mihomo_tui.Validate.Spec.{IsValid}

-- The kernel runs and cannot be reloaded.
abbrev outcomes : Outcomes
outcomes = record {
  running = true;
  has_api = true;
  generate_error = none;
  set_up_error = none;
  reload_error = some "refused";
  restart_error = none;
  restore_error = none;
}

abbrev turn_on : ReconcileRequest
turn_on = config_change false true

run_reconcile-applied_iff_example : ((run_reconcile outcomes turn_on).1 ≡ applied) ↔ (
    (outcomes.generate_error ≡ none)
    × ((true ≡ false)
        ⊎ (((true ≡ false) ⊎ (outcomes.set_up_error ≡ none))
            × (true ≡ true)
            × ((outcomes.reload_error ≡ none) ⊎ (outcomes.restart_error ≡ none))
            × ((false ≡ false) ⊎ (outcomes.restore_error ≡ none)))))
run_reconcile-applied_iff_example = run_reconcile-applied_iff outcomes turn_on

run_reconcile-order_example : IsInOrder outcomes turn_on (run_reconcile outcomes turn_on).0
run_reconcile-order_example = run_reconcile-order outcomes turn_on

post_config-cases_example :
    let (s', reply) = post_config host all_good outcomes true config store in
    (¬ (IsValid parsers config) × (s' ≡ store) × (reply ≡ bad_request (validate parsers config)))
    ⊎ (IsValid parsers config
        × (((int_eq config.version store.memory.version ≡ false)
              × (s' ≡ store)
              × (reply ≡ version_conflict))
            ⊎ ((int_eq config.version store.memory.version ≡ true)
                × (((e : FlushError) × (first_failure all_good ≡ some e)
                      × (s'.memory ≡ config)
                      × (reply ≡ server_error (flush_failed e)))
                    ⊎ ((first_failure all_good ≡ none)
                        × (s'.memory ≡ versioned store (merge_request host config config))
                        × (s'.disk ≡ persisted host s'.memory)
                        × (reply
                            ≡ updated (hide_secret s'.memory) (
                                submit_reconcile outcomes true
                                  (config_change false s'.memory.system.tun))))))))
post_config-cases_example = post_config-cases host all_good outcomes true config store
