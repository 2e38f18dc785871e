-- ===== src/Store.antt =====
-- The committed configuration (mihomotui/config_store.go and `Flush` of mihomotui/config.go): the
-- value in memory, the value in the file, and the two ways to commit a new one. `Clone` is a deep
-- copy, which a value of the model needs no more; the lock makes each operation one step.
pub mod Commit
pub mod Replace
pub mod Traces
pub mod Versions
use mihomo_tui.Base.{
  ℕ, String, Bool, true, false, List, [], ◌∷◌, ◌==◌, Option, some, none, not, if◌then◌else◌,
}
use mihomo_tui.Base.Int.{ℤ, int_eq, increment}
use mihomo_tui.Base.Result.{Result, ok, err}
use mihomo_tui.Config.{Config}
use mihomo_tui.Config.Edit.{is_empty}
use mihomo_tui.Validate.{validate}
use mihomo_tui.Validate.Problem.{Problem}
use mihomo_tui.Validate.Hosts.{NetParsers}

-- How the calls of `Flush` to the encoder and to the file system end.
pub record FlushOutcome : Type 0 where
  pub marshals : Bool  -- yaml.Marshal
  pub writes : Bool  -- os.WriteFile of the temporary file
  pub renames : Bool  -- os.Rename over the configuration file
  pub chmods : Bool  -- os.Chmod of the configuration file

pub data FlushError : Type 0 where
  marshal_failed write_failed rename_failed chmod_failed : FlushError

pub data CommitError (E : Type 0) : Type 0 where
  invalid : List Problem → CommitError E
  flush_failed : FlushError → CommitError E
  refused : E → CommitError E
  no_update : CommitError E
  conflict : ℤ → ℤ → CommitError E

-- What does not change while the daemon runs: the parsers of package `net`, the log directory under
-- the configuration directory, and `daemonRunsAsRoot`.
pub record Host : Type 0 where
  pub net : NetParsers
  pub default_log_dir : String
  pub runs_as_root : Bool

-- `globalConfig`, and what the configuration file decodes to.
pub record Store : Type 0 where
  pub memory : Config
  pub disk : Config

-- What `Flush` encodes: a default log directory is left out.
unfoldable pub persisted : Host → Config → Config
persisted host c = if c.log_dir == host.default_log_dir then record c { log_dir = "" } else c

-- `Flush`: the file's value after it, and its error.
unfoldable pub flush : Host → FlushOutcome → Config → Config → Config × Option FlushError
unfolding persisted
flush host out c disk =
    if not out.marshals
    then (disk, some marshal_failed)
    else if not out.writes
    then (disk, some write_failed)
    else if not out.renames
    then (disk, some rename_failed)
    else if not out.chmods
    then (persisted host c, some chmod_failed)
    else (persisted host c, none)

-- The configuration that a request commits: the secret is kept where the request leaves it out, and a
-- root daemon keeps its own paths.
abbrev pub merge_request : Host → Config → Config → Config
merge_request host current req =
    let kept =
      if req.mihomo.secret == ""
      then record req { mihomo = record req.mihomo { secret = current.mihomo.secret } }
      else req in
    if host.runs_as_root
    then record kept {
      mihomo_config_path = current.mihomo_config_path;
      mihomo_binary_path = current.mihomo_binary_path;
      log_dir = current.log_dir;
    }
    else kept

module _ {E : Type 0} where
  abbrev finish :
      Store → Config → Config × Option FlushError → Store × Result (CommitError E) Config
  finish s next (disk, some e) = (record s { disk = disk }, err (flush_failed e))
  finish s next (disk, none) = (record { memory = next; disk = disk }, ok next)

  -- `commitConfigLocked`
  unfoldable pub commit_config :
      Host → FlushOutcome → Store → Config → Store × Result (CommitError E) Config
  unfolding flush
  commit_config host out s next =
      let problems = validate host.net next in
      let next' = record next { version = increment s.memory.version } in
      if is_empty problems
      then finish s next' (flush host out next' s.disk)
      else (s, err (invalid problems))

  abbrev pub commit_updated :
      Host → FlushOutcome → Store → Result E Config → Store × Result (CommitError E) Config
  commit_updated host out s (err e) = (s, err (refused e))
  commit_updated host out s (ok next) = commit_config host out s next

  -- `UpdateGlobalConfig`; `fn` returns the configuration as it has changed it, or its error, and
  -- `none` stands for a nil function.
  unfoldable pub update_global_config :
      Host
      → FlushOutcome
      → Option (Config → Result E Config)
      → Store
      → Store × Result (CommitError E) Config
  unfolding commit_config
  update_global_config host out none s = (s, err no_update)
  update_global_config host out (some fn) s = commit_updated host out s (fn s.memory)

  -- `ReplaceGlobalConfig`
  unfoldable pub replace_global_config :
      Host → FlushOutcome → Config → Store → Store × Result (CommitError E) Config
  unfolding commit_config
  replace_global_config host out req s =
      if int_eq req.version s.memory.version
      then commit_config host out s (merge_request host s.memory req)
      else (s, err (conflict s.memory.version req.version))
