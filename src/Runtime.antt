-- ===== src/Runtime.antt =====
-- Bringing a committed configuration into effect: the reconciler (mihomotui/reconcile.go) and the
-- configuration handler that calls it (mihomotui/daemon_handlers_config.go).
pub mod Reconcile
pub mod ConfigHandler
pub mod Worker
pub mod WorkerLaws
pub mod WorkerRuns
