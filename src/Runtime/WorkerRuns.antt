-- ===== src/Runtime/WorkerRuns.antt =====
-- Runs of the worker (mihomotui/reconcile.go): the order of its requests, and what is in effect once it
-- has nothing left to do.
use mathlib.Core.Path.{subst}
use mathlib.Core.List.{append-nil}
use mihomo_tui.Base.{
  suc, ◌≡◌, refl, sym, ap, ◌∙◌, true, some, [], ◌∷◌, ◌++◌, arith, length, ltb, Bool-cases, inl, inr,
}
use mihomo_tui.Runtime.Worker.{
  WorkerReport, free, taken, applying, Worker, settled, commit_change, send_request, take_request,
  read_committed, answer_request, channel_size,
}
use mihomo_tui.Runtime.WorkerLaws.{
  upto, numbers, in_hand, last_applied, IsLatest, IsSound, commit_change-IsSound, send-IsSound,
  take-IsSound, read-IsSound, answer_request-IsSound, Nat-cases, List-cases, Task-cases,
}

-- One step of the handlers or of the worker, in any order that the channel allows.
pub data Step {A : Type 0} (v w : Worker A) : Type 0 where
  commits : (c : A) → w ≡ commit_change c v → Step v w
  sends : send_request v ≡ some w → Step v w
  takes : take_request v ≡ some w → Step v w
  reads : read_committed v ≡ some w → Step v w
  answers_with : (a : WorkerReport) → answer_request a v ≡ some w → Step v w

pub data Run {A : Type 0} (v : Worker A) : Worker A → Type 0 where
  here : Run v v
  then_step : {w x : Worker A} → Run v w → Step w x → Run v x

Step-IsSound : {A : Type 0} (v w : Worker A) → Step v w → IsSound v → IsSound w
unfolding send_request take_request read_committed answer_request
Step-IsSound v w (commits c done) h = subst IsSound (sym done) (commit_change-IsSound v h c)
Step-IsSound v w (sends done) h = elim (Nat-cases v.unsent) [
  | inl nothing ↦ absurd (ground (arith, done, nothing))
  | inr (n, some_left) ↦ elim (Bool-cases (ltb (length v.queue) channel_size)) [
    | inr full ↦ absurd (ground (arith, done, some_left, full))
    | inl room ↦
        let same : record v {
          unsent = n;
          tickets = suc v.tickets;
          queue = v.queue ++ v.tickets ∷ [];
        }
            ≡ w =
          ground (arith, done, some_left, room) in
        subst IsSound same (send-IsSound v h n (ground (arith, room)))
  ]
]
Step-IsSound v w (takes done) h = elim (Task-cases v.task) [
  | inl at ↦ elim (List-cases v.queue) [
    | inl empty ↦ absurd (ground (arith, done, at, empty))
    | inr (k, rest, queued) ↦
        let same : record v { queue = rest; task = taken k } ≡ w =
          ground (arith, done, at, queued) in
        subst IsSound same (take-IsSound v h k rest at queued)
  ]
  | inr (inl (k, at)) ↦ absurd (ground (arith, done, at))
  | inr (inr (k, c, at)) ↦ absurd (ground (arith, done, at))
]
Step-IsSound v w (reads done) h = elim (Task-cases v.task) [
  | inl at ↦ absurd (ground (arith, done, at))
  | inr (inl (k, at)) ↦
      let same : record v { task = applying k v.committed } ≡ w = ground (arith, done, at) in
      subst IsSound same (read-IsSound v h k at)
  | inr (inr (k, c, at)) ↦ absurd (ground (arith, done, at))
]
Step-IsSound v w (answers_with a done) h = answer_request-IsSound v w a done h

Run-IsSound : {A : Type 0} {v w : Worker A} → Run v w → IsSound v → IsSound w
Run-IsSound here h = h
Run-IsSound {v} (then_step {w} {x} run step) h = Step-IsSound w x step (Run-IsSound run h)

settled-IsSound : {A : Type 0} (c : A) → IsSound (settled c)
settled-IsSound c = record {
  in_order = refl;
  bounded = omega arith;
  reflected = refl;
  up_to_date = λ none_left empty. inr refl;
}

-- In every run of commits and of the worker, in any order that the channel allows, when every commit has sent its request, none waits and the worker is free, every
-- request has been answered once, in the order in which they were sent, and the configuration in effect
-- is the one committed last, if the last request was applied.
pub Run-converges :
    {A : Type 0} (c : A) {w : Worker A}
    → Run (settled c) w
    → w.unsent ≡ 0
    → w.queue ≡ []
    → w.task ≡ free
    → last_applied w.answers ≡ true
    → (numbers w.answers ≡ upto w.tickets) × (w.in_effect ≡ some w.committed)
Run-converges c {w} run none_left empty at good =
    let h = Run-IsSound run (settled-IsSound c) in
    (
      sym (append-nil (numbers w.answers))
          ∙ ap (λ l. numbers w.answers ++ l) (sym (ap (λ t. in_hand t ++ w.queue) at ∙ empty))
          ∙ h.in_order,
      elim (subst (IsLatest w.committed w.in_effect) at (h.up_to_date none_left empty)) [
        | inl nothing ↦ absurd (ground (arith, nothing, good, h.reflected))
        | inr now ↦ now
      ],
    )
