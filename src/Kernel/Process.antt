-- ===== src/Kernel/Process.antt =====
-- The kernel's process (`MihomoProcess` of mihomotui/mihomo_process.go) and the routing rules that TUN
-- needs. The state is what the mutex guards, with the rules in the system, and how many clean-ups of
-- ended processes are still to come: the goroutine that waits for a process clears `running` first and
-- takes the rules down later, outside the mutex. How each call ends is an argument.
use mihomo_tui.Base.{
  ℕ, zero, suc, ◌+◌, String, Bool, true, false, not, Option, none, some, if◌then◌else◌,
}
use mihomo_tui.Base.Result.{Result, ok, err}

pub record Process : Type 0 where
  pub running : Bool
  pub pid : ℕ
  -- `tunRoutingInstalled` of the process that was started last
  pub tun : Bool
  -- the rules of `SetupTUNRouting` are in the system
  pub routing : Bool
  -- ended processes whose `RestoreTUNRouting` is still to come
  pub cleanups : ℕ

pub data StartError : Type 0 where
  already_running no_binary home_failed dir_failed no_config : StartError
  tun_failed : String → StartError
  spawn_failed : String → StartError
  ended_at_once : StartError

-- `SetupTUNRouting`: the rules are there, or an error, and whether rules are there then.
pub data SetUp : Type 0 where
  installed : SetUp
  refused : String → Bool → SetUp

-- How the calls of `Start` end, up to `cmd.Start`.
pub record StartCalls : Type 0 where
  pub finds_binary : Bool
  pub makes_home : Bool
  pub makes_dir : Bool
  -- `os.Stat` does not say that the configuration file is missing
  pub has_config : Bool
  pub set_up : SetUp
  pub spawned : Result String ℕ

abbrev count_if : Bool → ℕ → ℕ
count_if b n = if b then n + 1 else n

-- `cmd.Start` and what follows it under the mutex; where it fails, the rules are taken down later.
unfoldable pub spawn : StartCalls → Bool → Process → Process × Result StartError (Unit {0})
spawn calls with_rules p = elim calls.spawned [
  | err e ↦ (record p { cleanups = count_if with_rules p.cleanups }, err (spawn_failed e))
  | ok pid ↦ (record p { running = true; pid = pid; tun = with_rules }, ok tt)
]

-- `Start`, under the mutex; `tun` is the configuration's switch.
unfoldable pub begin_start : StartCalls → Bool → Process → Process × Result StartError (Unit {0})
unfolding spawn
begin_start calls tun p =
    if p.running
    then (p, err already_running)
    else if not calls.finds_binary
    then (p, err no_binary)
    else if not calls.makes_home
    then (p, err home_failed)
    else if not calls.makes_dir
    then (p, err dir_failed)
    else if not calls.has_config
    then (p, err no_config)
    else if not tun
    then spawn calls false p
    else elim calls.set_up [
      | refused e left ↦ (record p { routing = left }, err (tun_failed e))
      | installed ↦ spawn calls true (record p { routing = true })
    ]

-- The goroutine of `Start`, when the process has ended: the part under the mutex.
unfoldable pub note_exit : Process → Process
note_exit p = record p { running = false; pid = 0; cleanups = count_if p.tun p.cleanups }

-- `RestoreTUNRouting` after the end of a process, with success or not; nothing if none is to come.
unfoldable pub clean_up : Bool → Process → Process
clean_up restores p = elim p.cleanups [
  | zero ↦ p
  | suc n ↦ record p { cleanups = n; routing = if restores then false else p.routing }
]

-- The end of a process and its clean-up, which come before the notice on `exited`.
unfoldable pub finish_exit : Bool → Process → Process
unfolding note_exit clean_up
finish_exit restores p = if p.tun then clean_up restores (note_exit p) else note_exit p

-- `Start`, with the window in which the process must stay alive: `some restores` if it ends in it.
unfoldable pub start :
    StartCalls → Option Bool → Bool → Process → Process × Result StartError (Unit {0})
unfolding begin_start finish_exit
start calls ends tun p =
    let (p', began) = begin_start calls tun p in
    elim began [
      | err e ↦ (p', err e)
      | ok done ↦ elim ends [
        | some restores ↦ (finish_exit restores p', err ended_at_once)
        | none ↦ (p', ok tt)
      ]
    ]

pub data StopError : Type 0 where
  not_running term_failed kill_failed : StopError

-- How `Stop` goes: whether each signal is sent, whether the notice of the end comes in time after it,
-- and whether the clean-up before the notice succeeds.
pub record StopCalls : Type 0 where
  pub terms : Bool
  pub ends_in_time : Bool
  pub kills : Bool
  pub reaped_in_time : Bool
  pub restores : Bool

-- `Stop`, of a process that `Start` has made
unfoldable pub stop : StopCalls → Process → Process × Result StopError (Unit {0})
unfolding finish_exit
stop calls p =
    if not p.running
    then (p, err not_running)
    else if not calls.terms
    then (p, err term_failed)
    else if calls.ends_in_time
    then (finish_exit calls.restores p, ok tt)
    else if not calls.kills
    then (p, err kill_failed)
    else if calls.reaped_in_time
    then (finish_exit calls.restores p, ok tt)
    else (p, ok tt)

pub data RestartError : Type 0 where
  stop_failed : StopError → RestartError
  start_failed : StartError → RestartError

abbrev pub wrap_start :
    Process × Result StartError (Unit {0}) → Process × Result RestartError (Unit {0})
wrap_start (p, err e) = (p, err (start_failed e))
wrap_start (p, ok done) = (p, ok tt)

-- `Restart`
unfoldable pub restart :
    StopCalls → StartCalls → Option Bool → Bool → Process → Process × Result RestartError (Unit {0})
unfolding stop start
restart stops starts ends tun p =
    let (p', stopped) = stop stops p in
    elim stopped [
      | ok done ↦ wrap_start (start starts ends tun p')
      | err not_running ↦ wrap_start (start starts ends tun p')
      | err term_failed ↦ (p', err (stop_failed term_failed))
      | err kill_failed ↦ (p', err (stop_failed kill_failed))
    ]
