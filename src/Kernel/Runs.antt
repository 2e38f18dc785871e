-- ===== src/Kernel/Runs.antt =====
-- Runs of the kernel's process (mihomotui/mihomo_process.go): its starts, its ends, and the clean-ups
-- that follow these, in the orders that the mutex allows.
use mathlib.Core.Path.{subst}
use mihomo_tui.Base.{◌⊎◌, ℕ, ◌≡◌, ◌≢◌, sym, Bool, true, false, arith}
use mihomo_tui.Base.Result.{Result, ok, err}
use mihomo_tui.Kernel.Process.{
  RestartError, start_failed, StartError, stop_failed, StopError, not_running, StopError, Process,
  StartCalls, installed, spawn, begin_start, note_exit, clean_up,
}

-- One step of a run in which no start comes between the end of a process and its clean-up. The calls by
-- which the reconciler changes the routing rules under a running kernel are no steps here.
pub data Step (p q : Process) : Type 0 where
  starts :
      (calls : StartCalls) (tun : Bool)
      → p.cleanups ≡ 0
      → q ≡ (begin_start calls tun p).0
      → Step p q
  ends : p.running ≡ true → q ≡ note_exit p → Step p q
  cleans : (restores : Bool) → q ≡ clean_up restores p → Step p q

pub data Run (p : Process) : Process → Type 0 where
  here : Run p p
  then_step : {q r : Process} → Run p q → Step q r → Run p r

-- A process that runs has no clean-up before it, and if it was started with TUN, the rules are there.
pub record IsSafe (p : Process) : Type 0 where
  pub clean : p.running ≡ true → p.cleanups ≡ 0
  pub routed : p.running ≡ true → p.tun ≡ true → p.routing ≡ true

begin_start-IsSafe :
    (calls : StartCalls) (tun : Bool) (p : Process)
    → p.cleanups ≡ 0
    → IsSafe p
    → IsSafe (begin_start calls tun p).0
unfolding begin_start spawn
begin_start-IsSafe calls tun p none_left h = record {
  clean = ground (arith, none_left, h.clean);
  routed = ground (arith, h.routed);
}

clean_up-IsSafe : (restores : Bool) (p : Process) → IsSafe p → IsSafe (clean_up restores p)
unfolding clean_up
clean_up-IsSafe restores p h = record {
  clean = ground (arith, h.clean);
  routed = ground (arith, h.clean, h.routed);
}

Step-IsSafe : (p q : Process) → Step p q → IsSafe p → IsSafe q
unfolding note_exit
Step-IsSafe p q (starts calls tun none_left e) h =
    subst IsSafe (sym e) (begin_start-IsSafe calls tun p none_left h)
Step-IsSafe p q (ends running e) h =
    subst IsSafe (sym e) (record { clean = λ r. cc; routed = λ r t. cc })
Step-IsSafe p q (cleans restores e) h = subst IsSafe (sym e) (clean_up-IsSafe restores p h)

-- In a run of starts, ends and clean-ups where no start comes between the end of a process and its
-- clean-up, and nothing else changes the routing rules, a process that was started with TUN has its
-- routing rules while it runs, whichever calls fail on the way.
pub Run-IsSafe : {p q : Process} → Run p q → IsSafe p → IsSafe q
Run-IsSafe here h = h
Run-IsSafe {p} (then_step {q} {r} run step) h = Step-IsSafe q r step (Run-IsSafe run h)

-- Where the end of a process that ran with TUN is followed by a start before its clean-up, and every
-- call succeeds, the new process runs with TUN and without its routing rules.
pub clean_up-races :
    (calls : StartCalls) (p : Process) (pid : ℕ)
    → p.running ≡ true
    → p.tun ≡ true
    → calls.finds_binary ≡ true
    → calls.makes_home ≡ true
    → calls.makes_dir ≡ true
    → calls.has_config ≡ true
    → calls.set_up ≡ installed
    → calls.spawned ≡ ok pid
    → let q = clean_up true (begin_start calls true (note_exit p)).0 in
      (q.running ≡ true) × (q.tun ≡ true) × (q.routing ≡ false)
unfolding begin_start spawn note_exit clean_up
clean_up-races calls p pid running tun binary home dir config rules spawned =
    ground (arith, running, tun, binary, home, dir, config, rules, spawned)

-- What a start that succeeds has done.
abbrev IsStarted : StartCalls → Bool → Process → Type 0
IsStarted calls tun q =
    (calls.spawned ≡ ok q.pid)
    × (q.running ≡ true)
    × (q.tun ≡ tun)
    × ((tun ≡ false) ⊎ (q.routing ≡ true))

-- The three ends of a restart.
abbrev pub RestartEnds :
    StartCalls → Bool → Process → Process × Result RestartError (Unit {0}) → Type 0
RestartEnds calls tun p (q, done) =
    ((done ≡ ok tt) × IsStarted calls tun q)
    ⊎ ((e : StopError) × (e ≢ not_running) × (done ≡ err (stop_failed e)) × (q ≡ p))
    ⊎ ((e : StartError) × (done ≡ err (start_failed e)))
