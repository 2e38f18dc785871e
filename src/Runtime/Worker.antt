-- ===== src/Runtime/Worker.antt =====
-- The worker that brings committed configurations into effect (`ensureReconciler`, `reconcileLoop` and
-- `submitReconcile` of mihomotui/reconcile.go), in the order of its channel.
use mihomo_tui.Base.{
  ℕ, zero, suc, ◌+◌, String, Bool, true, false, Option, none, some, List, [], ◌∷◌, ◌++◌, ltb,
  if◌then◌else◌, length,
}
use mihomo_tui.Runtime.Reconcile.{ApplyReport}

-- `make(chan reconcileRequest, 16)`
abbrev pub channel_size : ℕ
channel_size = 16

-- What the worker sends back: the report of the apply function, or that of its panic.
pub data WorkerReport : Type 0 where
  reported : ApplyReport → WorkerReport
  panicked : String → WorkerReport

-- What the worker has in hand: nothing, a request whose configuration it has not read yet, or a
-- request with the configuration it has read.
pub data Task (A : Type 0) : Type 0 where
  free : Task A
  taken : ℕ → Task A
  applying : ℕ → A → Task A

-- The worker between the store and the kernel; requests are numbered as they are sent.
pub record Worker (A : Type 0) : Type 0 where
  pub committed : A  -- the store
  pub unsent : ℕ  -- commits whose handlers have not sent their requests yet
  pub tickets : ℕ  -- requests sent so far
  pub queue : List ℕ  -- `reconcileCh`
  pub task : Task A
  pub answers : List (ℕ × WorkerReport)  -- what was sent to the channels of the results
  pub in_effect : Option A  -- the configuration in effect, if the last request was applied

abbrev pub is_applied : WorkerReport → Bool
is_applied (reported ApplyReport.applied) = true
is_applied (reported (ApplyReport.not_applied stage e)) = false
is_applied (panicked e) = false

module _ {A : Type 0} where
  -- A daemon that has brought its configuration into effect.
  abbrev pub settled : A → Worker A
  settled c = record {
    committed = c;
    unsent = 0;
    tickets = 0;
    queue = [];
    task = free;
    answers = [];
    in_effect = some c;
  }

  -- `UpdateGlobalConfig` in a handler that calls the reconciler behind it
  unfoldable pub commit_change : A → Worker A → Worker A
  commit_change c w = record w { committed = c; unsent = w.unsent + 1 }

  -- `d.reconcileCh <- req`, which waits while the channel is full
  unfoldable pub send_request : Worker A → Option (Worker A)
  send_request w = elim w.unsent [
    | zero ↦ none
    | suc n ↦
        if ltb (length w.queue) channel_size
        then some
            (record w { unsent = n; tickets = suc w.tickets; queue = w.queue ++ w.tickets ∷ [] })
        else none
  ]

  -- `for req := range d.reconcileCh`
  unfoldable pub take_request : Worker A → Option (Worker A)
  take_request w = elim w.task [
    | free ↦ elim w.queue [
      | [] ↦ none
      | k ∷ rest ↦ some (record w { queue = rest; task = taken k })
    ]
    | taken k ↦ none
    | applying k c ↦ none
  ]

  -- `cfg := GlobalConfig()` at the start of `runReconcile`
  unfoldable pub read_committed : Worker A → Option (Worker A)
  read_committed w = elim w.task [
    | free ↦ none
    | taken k ↦ some (record w { task = applying k w.committed })
    | applying k c ↦ none
  ]

  -- `req.result <- report`, or the recovery from a panic
  unfoldable pub answer_request : WorkerReport → Worker A → Option (Worker A)
  answer_request a w = elim w.task [
    | free ↦ none
    | taken k ↦ elim a [
      | reported r ↦ none
      | panicked e ↦
          some (record w {
            task = free;
            answers = w.answers ++ (k, panicked e) ∷ [];
            in_effect = none;
          })
    ]
    | applying k c ↦ some (record w {
      task = free;
      answers = w.answers ++ (k, a) ∷ [];
      in_effect = if is_applied a then some c else none;
    })
  ]
