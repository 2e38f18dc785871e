-- ===== src/Pools.antt =====
-- Subscription pools: moving members between pools and the daemon's pool requests
-- (mihomotui/daemon_handlers_pool.go), what is available and what runs
-- (mihomotui/subscription_pool.go), and the failover (mihomotui/daemon_handlers_subscription.go).
pub mod Assign
pub mod Exclusive
pub mod Requests
pub mod Runtime
pub mod Usable
pub mod RuntimeLaws
pub mod Failover
pub mod FailoverLaws
