-- ===== src/Subscriptions/Schedule.antt =====
-- The refreshes that are due (`refreshDueSubscriptionPools` of mihomotui/subscription_scheduler.go),
-- from the copy of the configuration that the loop reads. `has_passed` is Go's package `time`: whether
-- as many seconds have passed since a time, if its text is one.
use Prim.Native.Nat.{◌%◌}
use mathlib.Core.Path.{subst}
use mihomo_tui.Base.{
  ℕ, ◌-◌, ◌*◌, ◌^◌, String, ◌≡◌, refl, Bool, true, false, Option, none, some, List, [], ◌∷◌, ◌++◌,
  ◌==◌, arith, All, ltb, if◌then◌else◌, Option-cases, inl, inr, ◌⊎◌,
}
use mihomo_tui.Base.Int.{ℤ, pos, negsuc, int_le}
use mihomo_tui.Config.{Config, SubscriptionMeta, SubscriptionPool, normalized_source, source_url}
use mihomo_tui.Config.Lookup.{find_subscription}

-- A number of 64 bits, read with its sign
unfoldable pub signed64 : ℕ → ℤ
signed64 n =
    let bits = n % 2 ^ 64 in if ltb bits (2 ^ 63) then pos bits else negsuc (2 ^ 64 - 1 - bits)

-- `sub.ProfileUpdateInterval * 3600`, of a positive number of hours
unfoldable pub seconds_of : ℤ → ℤ
unfolding signed64
seconds_of (pos hours) = signed64 (hours * 3600)
seconds_of (negsuc n) = pos 0

-- What the loop finds of one member: the interval it waits for, and whether it is due.
pub record Judgement : Type 0 where
  pub id : String
  pub interval : ℤ
  pub due : Bool

-- A member that the loop looks at: it exists, and has a link.
unfoldable pub remote : Config → String → Option SubscriptionMeta
unfolding find_subscription
remote c id = elim (find_subscription c.subscriptions id) [
  | none ↦ none
  | some sub ↦ if normalized_source sub.source_type == source_url then some sub else none
]

-- The interval after the member, from the one before it.
abbrev pub next_interval : SubscriptionMeta → ℤ → ℤ
next_interval sub interval =
    if int_le sub.profile_update_interval (pos 0)
    then interval
    else seconds_of sub.profile_update_interval

module _ (has_passed : String → ℤ → Option Bool) (c : Config) where
  unfoldable pub is_due : SubscriptionMeta → ℤ → Bool
  is_due sub interval =
      if sub.last_checked_at == ""
      then true
      else elim (has_passed sub.last_checked_at interval) [ none ↦ true | some passed ↦ passed ]

  -- The loop over the members of a pool, with its variable `interval`.
  unfoldable pub judge_pool : ℤ → List String → List Judgement
  judge_pool interval [] = []
  judge_pool interval (id ∷ ids) = elim (remote c id) [
    | none ↦ judge_pool interval ids
    | some sub ↦
        record {
          id = id;
          interval = next_interval sub interval;
          due = is_due sub (next_interval sub interval);
        }
        ∷ judge_pool (next_interval sub interval) ids
  ]

  -- The loop over the pools.
  unfoldable pub judge_pools : List SubscriptionPool → List Judgement
  unfolding judge_pool
  judge_pools [] = []
  judge_pools (pool ∷ pools) =
      let rest = judge_pools pools in
      let interval =
        if int_le pool.refresh_interval (pos 0) then pos 3600 else pool.refresh_interval in
      if pool.enabled then judge_pool interval pool.members ++ rest else rest

  abbrev due_ids : List Judgement → List String
  due_ids [] = []
  due_ids (j ∷ js) = let rest = due_ids js in if j.due then j.id ∷ rest else rest

  -- The identifiers that `refreshDueSubscriptionPools` refreshes, in order
  unfoldable pub due_subscriptions : List String
  unfolding judge_pools
  due_subscriptions = due_ids (judge_pools c.subscription_pools)

  -- The interval that a pool's member waits for is its own, if it has one.
  abbrev pub WaitsFor : Judgement → Type 0
  WaitsFor j =
      (sub : SubscriptionMeta) × (remote c j.id ≡ some sub)
      × ((int_le sub.profile_update_interval (pos 0) ≡ true)
          ⊎ (j.interval ≡ seconds_of sub.profile_update_interval))
      × (j.due ≡ is_due sub j.interval)

  -- Every member that the loop judges exists and has a link; one with an update interval of its own
  -- waits for that, and it is due exactly if it was never checked, or was checked at no readable time, or
  -- so long ago.
  pub judge_pool_lem : (interval : ℤ) (ids : List String) → All WaitsFor (judge_pool interval ids)
  unfolding judge_pool
  judge_pool_lem interval [] = tt
  judge_pool_lem interval (id ∷ ids) = elim (Option-cases (remote c id)) [
    | inl missing ↦
        let same : judge_pool interval ids ≡ judge_pool interval (id ∷ ids) =
          ground (arith, missing) in
        subst (All WaitsFor) same (judge_pool_lem interval ids)
    | inr (sub, found) ↦
        let now = next_interval sub interval in
        let j : Judgement = record { id = id; interval = now; due = is_due sub now } in
        let same : j ∷ judge_pool now ids ≡ judge_pool interval (id ∷ ids) =
          ground (arith, found) in
        subst (All WaitsFor) same ((sub, found, ground arith, refl), judge_pool_lem now ids)
  ]

  -- The interval of one member is left to the next: where a member with an update interval of its own
  -- stands before one without, the second waits for the interval of the first, whatever the pool's is.
  pub judge_pool-carries :
      (interval : ℤ) (first second : String) (rest : List String) (a b : SubscriptionMeta)
      → remote c first ≡ some a
      → remote c second ≡ some b
      → int_le a.profile_update_interval (pos 0) ≡ false
      → int_le b.profile_update_interval (pos 0) ≡ true
      → (js : List Judgement) × (judge_pool interval (first ∷ second ∷ rest)
          ≡ record {
            id = first;
            interval = seconds_of a.profile_update_interval;
            due = is_due a (seconds_of a.profile_update_interval);
          }
            ∷ record {
              id = second;
              interval = seconds_of a.profile_update_interval;
              due = is_due b (seconds_of a.profile_update_interval);
            }
            ∷ js)
  unfolding judge_pool
  judge_pool-carries interval first second rest a b fa fb ha hb =
      (judge_pool (seconds_of a.profile_update_interval) rest, ground (arith, fa, fb, ha, hb))
