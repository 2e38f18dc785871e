-- ===== src/Runtime/WorkerLaws.antt =====
-- The invariant of the worker (mihomotui/reconcile.go), kept by every step of it and of the handlers.
use mathlib.Core.Path.{subst}
use mathlib.Core.List.{append_assoc}
use mihomo_tui.Base.{
  ◌<◌, ℕ, zero, suc, ◌≤◌, ◌≡◌, ◌≢◌, refl, sym, ap, ◌∙◌, Bool, true, Option, none, some, List, [],
  ◌∷◌, ◌++◌, arith, length, length-append, is_some, String, Bool-cases, inl, inr, ◌⊎◌,
}
use mihomo_tui.Runtime.Reconcile.{ApplyReport}
use mihomo_tui.Runtime.Worker.{
  WorkerReport, reported, panicked, Task, free, taken, applying, Worker, commit_change,
  answer_request, channel_size, is_applied,
}

-- The first numbers, in their order.
abbrev pub upto : ℕ → List ℕ
upto zero = []
upto (suc n) = upto n ++ n ∷ []

abbrev pub numbers : List (ℕ × WorkerReport) → List ℕ
numbers [] = []
numbers ((k, a) ∷ answers) = k ∷ numbers answers

abbrev pub in_hand : {A : Type 0} → Task A → List ℕ
in_hand free = []
in_hand (taken k) = k ∷ []
in_hand (applying k c) = k ∷ []

-- The last request was applied, or there was none.
abbrev pub last_applied : List (ℕ × WorkerReport) → Bool
last_applied [] = true
last_applied ((k, a) ∷ []) = is_applied a
last_applied ((k, a) ∷ (next ∷ answers)) = last_applied (next ∷ answers)

-- What the worker has in hand does not lag behind the store.
abbrev pub IsLatest : {A : Type 0} → A → Option A → Task A → Type 0
IsLatest c in_effect free = (in_effect ≡ none) ⊎ (in_effect ≡ some c)
IsLatest c in_effect (taken k) = Unit {0}
IsLatest c in_effect (applying k d) = d ≡ c

pub record IsSound {A : Type 0} (w : Worker A) : Type 0 where
  pub in_order : numbers w.answers ++ (in_hand w.task ++ w.queue) ≡ upto w.tickets
  pub bounded : length w.queue ≤ channel_size
  pub reflected : is_some w.in_effect ≡ last_applied w.answers
  pub up_to_date : w.unsent ≡ 0 → w.queue ≡ [] → IsLatest w.committed w.in_effect w.task

numbers-append :
    (answers : List (ℕ × WorkerReport)) (k : ℕ) (a : WorkerReport)
    → numbers (answers ++ (k, a) ∷ []) ≡ numbers answers ++ k ∷ []
numbers-append [] k a = refl
numbers-append ((j, b) ∷ answers) k a = ap (λ l. j ∷ l) (numbers-append answers k a)

last_applied-append :
    (answers : List (ℕ × WorkerReport)) (k : ℕ) (a : WorkerReport)
    → last_applied (answers ++ (k, a) ∷ []) ≡ is_applied a
last_applied-append [] k a = refl
last_applied-append (b ∷ []) k a = refl
last_applied-append (b ∷ (d ∷ answers)) k a = last_applied-append (d ∷ answers) k a

pub Nat-cases : (n : ℕ) → (n ≡ 0) ⊎ ((k : ℕ) × (n ≡ suc k))
Nat-cases zero = inl refl
Nat-cases (suc k) = inr (k, refl)

pub List-cases : (xs : List ℕ) → (xs ≡ []) ⊎ ((x : ℕ) × (rest : List ℕ) × (xs ≡ x ∷ rest))
List-cases [] = inl refl
List-cases (x ∷ rest) = inr (x, rest, refl)

pub Task-cases :
    {A : Type 0} (t : Task A)
    → (t ≡ free) ⊎ (((k : ℕ) × (t ≡ taken k)) ⊎ ((k : ℕ) × (c : A) × (t ≡ applying k c)))
Task-cases free = inl refl
Task-cases (taken k) = inr (inl (k, refl))
Task-cases (applying k c) = inr (inr (k, c, refl))

WorkerReport-cases :
    (a : WorkerReport) → ((r : ApplyReport) × (a ≡ reported r)) ⊎ ((e : String) × (a ≡ panicked e))
WorkerReport-cases (reported r) = inl (r, refl)
WorkerReport-cases (panicked e) = inr (e, refl)

snoc-filled : (xs : List ℕ) (x : ℕ) → xs ++ x ∷ [] ≢ []
snoc-filled [] x h = cc
snoc-filled (y ∷ xs) x h = cc

module _ {A : Type 0} (w : Worker A) (h : IsSound w) where
  pub commit_change-IsSound : (c : A) → IsSound (commit_change c w)
  unfolding commit_change
  commit_change-IsSound c = record {
    in_order = h.in_order;
    bounded = h.bounded;
    reflected = h.reflected;
    up_to_date = λ none_left empty. absurd (omega (arith, none_left));
  }

  pub send-IsSound :
      (n : ℕ)
      → length w.queue < channel_size
      → IsSound
          (record w { unsent = n; tickets = suc w.tickets; queue = w.queue ++ w.tickets ∷ [] })
  send-IsSound n room = record {
    in_order =
        ap (λ l. numbers w.answers ++ l)
          (sym (append_assoc (in_hand w.task) w.queue (w.tickets ∷ [])))
        ∙ sym (append_assoc (numbers w.answers) (in_hand w.task ++ w.queue) (w.tickets ∷ []))
        ∙ ap (λ l. l ++ w.tickets ∷ []) h.in_order;
    bounded = rw (length-append w.queue (w.tickets ∷ [])) (omega (arith, room));
    reflected = h.reflected;
    up_to_date = λ none_left empty. absurd (snoc-filled w.queue w.tickets empty);
  }

  pub take-IsSound :
      (k : ℕ) (rest : List ℕ)
      → w.task ≡ free
      → w.queue ≡ k ∷ rest
      → IsSound (record w { queue = rest; task = taken k })
  take-IsSound k rest at queued = record {
    in_order =
        ap (λ l. numbers w.answers ++ l) (sym queued ∙ sym (ap (λ t. in_hand t ++ w.queue) at))
        ∙ h.in_order;
    bounded =
        let all = h.bounded in
        let size : length w.queue ≡ suc (length rest) = ap length queued in
        omega (arith, all, size);
    reflected = h.reflected;
    up_to_date = λ none_left empty. tt;
  }

  pub read-IsSound :
      (k : ℕ) → w.task ≡ taken k → IsSound (record w { task = applying k w.committed })
  read-IsSound k at = record {
    in_order =
        ap (λ l. numbers w.answers ++ l) (sym (ap (λ t. in_hand t ++ w.queue) at)) ∙ h.in_order;
    bounded = h.bounded;
    reflected = h.reflected;
    up_to_date = λ none_left empty. refl;
  }

  answer-IsSound :
      (k : ℕ) (a : WorkerReport) (in_effect : Option A)
      → in_hand w.task ≡ k ∷ []
      → is_some in_effect ≡ is_applied a
      → (w.unsent ≡ 0 → w.queue ≡ [] → (in_effect ≡ none) ⊎ (in_effect ≡ some w.committed))
      → IsSound
          (record w { task = free; answers = w.answers ++ (k, a) ∷ []; in_effect = in_effect })
  answer-IsSound k a in_effect at reflects latest = record {
    in_order =
        ap (λ l. l ++ w.queue) (numbers-append w.answers k a)
        ∙ append_assoc (numbers w.answers) (k ∷ []) w.queue
        ∙ ap (λ l. numbers w.answers ++ l) (sym (ap (λ t. t ++ w.queue) at))
        ∙ h.in_order;
    bounded = h.bounded;
    reflected = reflects ∙ sym (last_applied-append w.answers k a);
    up_to_date = latest;
  }

pub answer_request-IsSound :
    {A : Type 0} (v w : Worker A) (a : WorkerReport)
    → answer_request a v ≡ some w
    → IsSound v
    → IsSound w
unfolding answer_request
answer_request-IsSound v w a done h = elim (Task-cases v.task) [
  | inl at ↦ absurd (ground (arith, done, at))
  | inr (inl (k, at)) ↦ elim (WorkerReport-cases a) [
    | inl (r, is) ↦ absurd (ground (arith, done, at, is))
    | inr (e, is) ↦
        let same : record v {
          task = free;
          answers = v.answers ++ (k, panicked e) ∷ [];
          in_effect = none;
        }
            ≡ w =
          ground (arith, done, at, is) in
        subst IsSound same
          (answer-IsSound v h k (panicked e) none (ap in_hand at) refl (λ _ _. inl refl))
  ]
  | inr (inr (k, c, at)) ↦
      let latest : v.unsent ≡ 0 → v.queue ≡ [] → c ≡ v.committed = λ none_left empty.
        subst (IsLatest v.committed v.in_effect) at (h.up_to_date none_left empty) in
      elim (Bool-cases (is_applied a)) [
        | inl good ↦
            let same : record v {
              task = free;
              answers = v.answers ++ (k, a) ∷ [];
              in_effect = some c;
            }
                ≡ w =
              ground (arith, done, at, good) in
            subst IsSound same (
              answer-IsSound v h k a (some c) (ap in_hand at) (sym good)
                (λ none_left empty. inr (ap some (latest none_left empty))))
        | inr bad ↦
            let same : record v {
              task = free;
              answers = v.answers ++ (k, a) ∷ [];
              in_effect = none;
            }
                ≡ w =
              ground (arith, done, at, bad) in
            subst IsSound same
              (answer-IsSound v h k a none (ap in_hand at) (sym bad) (λ _ _. inl refl))
      ]
]
