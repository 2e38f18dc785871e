-- ===== src/Lib.antt =====
-- A model of the daemon of mihomo-tui (package mihomotui), which keeps one configuration, lets clients
-- change it over a local socket, and brings it into effect in a proxy kernel.
--
-- The parts and their files:
--   * Config: the records of mihomotui/config.go and builtin_rules.go. Config/Lookup has the searches,
--     Config/Edit the edits in memory (AddSubscription, RemoveSubscription, SetActiveSubscription,
--     AddRuleProvider, RemoveRuleProvider), Config/BuiltIn the default rules (defaultBuiltInRules,
--     ensureBuiltInRules), Config/Load the repairs of LoadConfig, Config/Removal lemmas on a removal.
--   * Validate: Config.Validate of mihomotui/config_validate.go, one child for each loop (Ports, Hosts,
--     Subscriptions, Pools, Providers, Rules), and the specifications (FieldSpec, PoolSpec, RuleSpec,
--     Spec), with what keeps a configuration valid (Removal) and what a restart makes of it (Load,
--     Restart).
--   * Store: commitConfigLocked, UpdateGlobalConfig and ReplaceGlobalConfig of
--     mihomotui/config_store.go over the pair of memory and file, with Flush of mihomotui/config.go.
--     Every commit validates; Traces runs any requests one after the other, as the lock makes them.
--   * Pools: assignPoolMembers and the pool requests of mihomotui/daemon_handlers_pool.go (Assign,
--     Exclusive, Requests), poolAvailability, activePoolSubscriptions and subscriptionAffectsRuntime of
--     mihomotui/subscription_pool.go (Runtime, Usable, RuntimeLaws), and failoverSubscription of
--     mihomotui/daemon_handlers_subscription.go (Failover, FailoverLaws).
--   * Subscriptions: the refresh and the deletion of mihomotui/daemon_handlers_subscription.go, its
--     import with its commit and the manual subscription (Import, ImportLaws, Additions,
--     ImportCommit), its change of a subscription (Patch, PatchLaws), and refreshDueSubscriptionPools of mihomotui/subscription_scheduler.go
--     (Schedule). Steps has these requests one after the other, and Valid what they need of a
--     configuration with other subscriptions.
--   * RuleProviders: mihomotui/daemon_handlers_ruleprovider.go, with its requests as steps (Steps).
--   * Generate: GenerateMihomoConfig of mihomotui/mihomo_config.go. Its subscriptions are those of
--     activePoolSubscriptions; Names has the provider names, Proxies and ProxyLaws buildProxyConfig,
--     RuleLines buildRuleConfig with its laws in RuleLaws, RuleNames and MatchLast, Addresses and Global
--     buildGlobalConfig, and Write and WriteLaws the file.
--   * Kernel: MihomoProcess and cappedBuffer of mihomotui/mihomo_process.go (Process, Runs, Output),
--     and the search for the binary and the start after an installation of
--     mihomotui/mihomo_manager.go and mihomotui/kernel_restore.go (Restore).
--   * SystemProxy: the marked block of mihomotui/system_proxy.go, its removal (Strip, StripLaws) and its
--     insertion (Insert), on texts and their lines (Lines).
--   * Auth: mihomotui/ipc_auth.go, the gate in front of all handlers.
--   * Runtime: runReconcile of mihomotui/reconcile.go (Reconcile), its worker with the channel of
--     requests (Worker, WorkerLaws, WorkerRuns), and handleConfig of
--     mihomotui/daemon_handlers_config.go (ConfigHandler), which validates, commits and reconciles.
--   * Base: helpers; Examples: one configuration and the theorems applied to it.
--
-- A handler is a function from the request and the state to the new state and the reply; an edit of
-- the configuration returns a Result. Go's int and int64 are integers, and the version wraps around at
-- 64 bits; the two float fields are kept in bytes. Strings are valid UTF-8. A loop is a structural
-- recursion over a list of the source. Only the loops that make a name unique run on fuel, one round
-- more than there are names, which is enough since no candidate comes twice (Base/Fresh, Base/Numbered).
-- The kernel's process is a step relation: its starts, its ends, and the clean-ups after these. So is
-- the worker of the reconciler, whose steps the commits of the handlers come between; there, a commit
-- is one whose handler calls the reconciler, and its channel holds 16 requests, as in the source.
--
-- Parameters are the clock, new identifiers, the parsers of package net and net/url, os.Stat, the
-- outcome of each file-system call of a flush and of each call to the kernel, the account data base,
-- path.Clean, MD5 digests, the digits of numbers, and what a download returns. What the configuration file decodes to is taken for the
-- value that was encoded, since the YAML codec is a library's.
--
-- The steps of the kernel's process leave out the calls by which the reconciler changes the routing
-- rules while the kernel runs; validateSubscriptionURL stands for what net/url accepts, of which only
-- that it is not blank is used.
--
-- Not modelled: the terminal interface and the commands, the client and HTTP plumbing, the rules of TUN
-- routing (their outcome is a parameter), downloads and archives, the session and the owners of the
-- system proxy's files, and concurrency between handlers beyond the order of their commits, of the
-- steps of the worker, and of those of the kernel's process.
pub mod Base
pub mod Config
pub mod Validate
pub mod Store
pub mod Pools
pub mod Auth
pub mod Runtime
pub mod Subscriptions
pub mod RuleProviders
pub mod Generate
pub mod Kernel
pub mod SystemProxy
pub mod Examples
