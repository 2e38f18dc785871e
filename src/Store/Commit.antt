-- ===== src/Store/Commit.antt =====
-- What one commit does (mihomotui/config_store.go): when it succeeds, what it leaves in memory and in
-- the file, on success and on every error.
use mihomo_tui.Base.{◌≢◌, inl, inr, ◌==◌, ◌⊎◌, Bool-cases, false, String, ◌≡◌, ◌↔◌, true, arith}
use mihomo_tui.Base.Int.{increment_ne, int_eq, increment, ℤ}
use mihomo_tui.Base.Result.{err, ok, is_ok}
use mihomo_tui.Config.{Config}
use mihomo_tui.Validate.Spec.{IsValid, validate_iff}
use mihomo_tui.Store.{
  chmod_failed, flush_failed, persisted, CommitError, FlushOutcome, Host, Store, commit_config,
}

-- The version and the log directory do not count for validity.
pub IsValid-relabel :
    (host : Host) (c : Config) (v : ℤ) (dir : String)
    → IsValid host.net c
    → IsValid host.net (record c { version = v; log_dir = dir })
IsValid-relabel host c v dir h = record {
  fields = record {
    controller = h.fields.controller;
    levels = h.fields.levels;
    urls = h.fields.urls;
    modes = h.fields.modes;
    exclude = h.fields.exclude;
    filter = h.fields.filter;
  };
  ports = h.ports;
  subscriptions_each = h.subscriptions_each;
  names_distinct = h.names_distinct;
  ids_distinct = h.ids_distinct;
  active_low = h.active_low;
  active_high = h.active_high;
  pools = h.pools;
  providers_each = h.providers_each;
  provider_names_distinct = h.provider_names_distinct;
  rules_initialized = h.rules_initialized;
  rules = h.rules;
  custom = h.custom;
}

-- What the file holds after a commit is as valid as what was committed.
pub persisted-IsValid :
    (host : Host) (c : Config) → IsValid host.net c → IsValid host.net (persisted host c)
unfolding persisted
persisted-IsValid host c h = elim (Bool-cases (c.log_dir == host.default_log_dir)) [
  | inl default ↦ rw default (IsValid-relabel host c c.version "" h)
  | inr own ↦ rw own h
]

-- The configuration with the next version.
abbrev pub versioned : Store → Config → Config
versioned s next = record next { version = increment s.memory.version }

pub versioned-IsValid :
    (host : Host) (s : Store) (next : Config)
    → IsValid host.net next
    → IsValid host.net (versioned s next)
versioned-IsValid host s next h =
    IsValid-relabel host next (increment s.memory.version) next.log_dir h

module _ (E : Type 0) (host : Host) (out : FlushOutcome) (s : Store) (next : Config) where
  -- A commit succeeds exactly when the configuration is valid and every step of the flush does.
  pub commit_config-ok_iff : (is_ok (commit_config {E = E} host out s next).1 ≡ true) ↔ (
      IsValid host.net next
      × (out.marshals ≡ true)
      × (out.writes ≡ true)
      × (out.renames ≡ true)
      × (out.chmods ≡ true))
  unfolding commit_config
  commit_config-ok_iff = ground (arith, validate_iff host.net next)

  -- A commit that succeeds returns the configuration with the next version, and leaves it in memory
  -- and in the file.
  pub commit_config_ok :
      (c : Config)
      → (commit_config {E = E} host out s next).1 ≡ ok c
      → (c ≡ versioned s next)
        × ((commit_config {E = E} host out s next).0
            ≡ record { memory = versioned s next; disk = persisted host (versioned s next) })
  unfolding commit_config
  commit_config_ok c h = ground arith

  -- A commit that fails leaves the memory as it was, and the file too, unless only the change of the
  -- file's permissions failed: then the file holds the new configuration.
  pub commit_config_err :
      (e : CommitError E)
      → (commit_config host out s next).1 ≡ err e
      → ((commit_config {E = E} host out s next).0.memory ≡ s.memory)
        × (((e ≢ flush_failed chmod_failed)
              × ((commit_config {E = E} host out s next).0.disk ≡ s.disk))
            ⊎ ((e ≡ flush_failed chmod_failed)
                × ((commit_config {E = E} host out s next).0.disk
                    ≡ persisted host (versioned s next))))
  unfolding commit_config
  commit_config_err e h = ground arith

  -- If the configuration is valid and the file is replaced, and then the change of its permissions
  -- fails, the commit reports an error and the file's version differs from the version in memory.
  pub commit_config-chmod_diverges :
      IsValid host.net next
      → out.marshals ≡ true
      → out.writes ≡ true
      → out.renames ≡ true
      → out.chmods ≡ false
      → let (s', result) = commit_config {E = E} host out s next in
        (result ≡ err (flush_failed chmod_failed))
        × (int_eq s'.memory.version s'.disk.version ≡ false)
  unfolding commit_config
  commit_config-chmod_diverges valid m w r c =
      ground (arith, validate_iff host.net next, increment_ne s.memory.version)

  -- The three states that a commit can leave.
  pub commit_config-cases :
      let s' = (commit_config {E = E} host out s next).0 in
      (s' ≡ s)
      ⊎ (IsValid host.net next × (s' ≡ record s { disk = persisted host (versioned s next) }))
      ⊎ (IsValid host.net next
          × (s' ≡ record { memory = versioned s next; disk = persisted host (versioned s next) }))
  unfolding commit_config
  commit_config-cases = ground (arith, validate_iff host.net next)
