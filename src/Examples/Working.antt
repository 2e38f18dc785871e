-- ===== src/Examples/Working.antt =====
-- The theorem about the worker of mihomotui/reconcile.go, on a run in which a second commit comes while
-- the worker is at the first.
use mihomo_tui.Base.{◌≡◌, refl, Option, none, some}
use mihomo_tui.Config.{Config}
use mihomo_tui.Examples.{config}
use mihomo_tui.Runtime.Reconcile.{ApplyReport}
use mihomo_tui.Runtime.Worker.{
  Worker, WorkerReport, reported, settled, commit_change, send_request, take_request,
  read_committed, answer_request,
}
use mihomo_tui.Runtime.WorkerLaws.{numbers, upto}
use mihomo_tui.Runtime.WorkerRuns.{
  Run, here, then_step, commits, sends, takes, reads, answers_with, Run-converges,
}

abbrev direct : Config
direct = record config { proxy_mode = "direct" }

abbrev global : Config
global = record config { proxy_mode = "global" }

abbrev reached : Worker Config → Option (Worker Config) → Worker Config
reached w none = w
reached w (some v) = v

abbrev good : WorkerReport
good = reported ApplyReport.applied

abbrev sent : Worker Config → Worker Config
sent w = reached w (send_request w)

abbrev begun : Worker Config → Worker Config
begun w = reached w (take_request w)

abbrev read : Worker Config → Worker Config
read w = reached w (read_committed w)

abbrev answered : Worker Config → Worker Config
answered w = reached w (answer_request good w)

abbrev at_first : Worker Config
at_first = read (begun (sent (commit_change direct (settled config))))

abbrev at_second : Worker Config
at_second = read (begun (answered (sent (commit_change global at_first))))

first-Run : Run (settled config) at_first
unfolding commit_change send_request take_request read_committed
first-Run =
    then_step
      (then_step (then_step (then_step here (commits direct refl)) (sends refl)) (takes refl))
      (reads refl)

second-Run : Run (settled config) (answered at_second)
unfolding commit_change send_request take_request read_committed answer_request
second-Run =
    then_step
      (then_step
        (then_step
          (then_step (then_step (then_step first-Run (commits global refl)) (sends refl))
            (answers_with good refl))
          (takes refl))
        (reads refl))
      (answers_with good refl)

Run-converges_example :
    (numbers (answered at_second).answers ≡ upto 2) × ((answered at_second).in_effect ≡ some global)
unfolding commit_change send_request take_request read_committed answer_request
Run-converges_example = Run-converges config second-Run refl refl refl refl
