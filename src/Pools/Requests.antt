-- ===== src/Pools/Requests.antt =====
-- The pool requests (mihomotui/daemon_handlers_pool.go) and the places of a subscription in pools.
use mihomo_tui.Base.{
  ◌==◌, String, ◌≡◌, refl, true, false, ◌||◌, List, [], ◌∷◌, ◌++◌, length, modify, without,
  contains, arith, Distinct, Option-cases, inl, inr, get_elem?-append_last, erase_at-append_last,
  get_elem?-modify, erase_at-modify,
}
use mihomo_tui.Base.Result.{Result, ok}
use mihomo_tui.Config.{Config, SubscriptionMeta, SubscriptionPool}
use mihomo_tui.Config.Lookup.{find_pool_by_identifier, find_index_sound}
use mihomo_tui.Validate.PoolSpec.{owned, IsPool}
use mihomo_tui.Pools.Assign.{
  new_pool, release_members, PoolError, PoolRequest, create_pool, change_pool, update_pool,
  delete_pool,
}
use mihomo_tui.Pools.Exclusive.{assign_pool_members-Distinct, erase_at-Distinct}

-- The requests that change pools.
pub data PoolEdit : Type 0 where
  create : String → PoolRequest → PoolEdit
  change : String → PoolRequest → PoolEdit
  delete : String → PoolEdit

unfoldable pub apply_edit : String → PoolEdit → Config → Result PoolError Config
unfolding create_pool update_pool delete_pool
apply_edit now (create id req) c = create_pool id now req c
apply_edit now (change id req) c = update_pool now id req c
apply_edit now (delete id) c = delete_pool id c

-- The members that a request names, each once.
abbrev pub NamesOnce : PoolEdit → Type 0
NamesOnce (create id req) = Distinct req.members
NamesOnce (change id req) = Distinct req.members
NamesOnce (delete id) = Unit

create_pool-Distinct :
    (id now : String) (req : PoolRequest) (c c' : Config)
    → create_pool id now req c ≡ ok c'
    → Distinct req.members
    → Distinct (owned c.subscription_pools)
    → Distinct (owned c'.subscription_pools)
unfolding create_pool
create_pool-Distinct id now req c c' h once before =
    let ps = c.subscription_pools in
    let pool = new_pool id req in
    let moved =
      assign_pool_members-Distinct now (length ps) req.members (ps ++ pool ∷ []) pool
        (get_elem?-append_last ps pool) refl once (rw (erase_at-append_last ps pool) before) in
    ground (arith, moved)

update_pool-Distinct :
    (now id : String) (req : PoolRequest) (c c' : Config)
    → update_pool now id req c ≡ ok c'
    → Distinct req.members
    → Distinct (owned c.subscription_pools)
    → Distinct (owned c'.subscription_pools)
unfolding update_pool
update_pool-Distinct now id req c c' h once before =
    elim (Option-cases (find_pool_by_identifier c id)) [
      | inl missing ↦ absurd (ground (arith, missing))
      | inr (i, found) ↦
          let ps = c.subscription_pools in
          let (p, at, _, _) = find_index_sound (λ q. q.id == id || q.name == id) ps found in
          let pool = change_pool req p in
          let moved =
            assign_pool_members-Distinct now i req.members (modify ps i (change_pool req)) pool
              (get_elem?-modify ps i (change_pool req) p at) refl once
              (rw (erase_at-modify ps i (change_pool req)) (erase_at-Distinct ps i before)) in
          ground (arith, found, moved)
    ]

delete_pool-Distinct :
    (id : String) (c c' : Config)
    → delete_pool id c ≡ ok c'
    → Distinct (owned c.subscription_pools)
    → Distinct (owned c'.subscription_pools)
unfolding delete_pool
delete_pool-Distinct id c c' h before = elim (Option-cases (find_pool_by_identifier c id)) [
  | inl missing ↦ absurd (ground (arith, missing))
  | inr (i, found) ↦ ground (arith, found, erase_at-Distinct c.subscription_pools i before)
]

-- A request that creates, changes or deletes a pool, and names each of its members once, leaves no
-- subscription with two places in the members of all pools, if none had two before.
pub apply_edit-Distinct :
    (now : String) (edit : PoolEdit) (c c' : Config)
    → apply_edit now edit c ≡ ok c'
    → NamesOnce edit
    → Distinct (owned c.subscription_pools)
    → Distinct (owned c'.subscription_pools)
unfolding apply_edit
apply_edit-Distinct now (create id req) c c' h once before =
    create_pool-Distinct id now req c c' h once before
apply_edit-Distinct now (change id req) c c' h once before =
    update_pool-Distinct now id req c c' h once before
apply_edit-Distinct now (delete id) c c' h once before = delete_pool-Distinct id c c' h before

-- A pool that names no active member and gives up its last members, none of which has an empty
-- identifier, is not turned off: if it was enabled it stays so, without a member, and is not in order
-- among any subscriptions.
pub release_members-stays_enabled :
    (now : String) (wanted : List String) (pool : SubscriptionPool) (subs : List SubscriptionMeta)
    → pool.active_member_id ≡ ""
    → contains wanted "" ≡ false
    → pool.enabled ≡ true
    → without wanted pool.members ≡ []
    → ((release_members now wanted pool).enabled ≡ true)
      × ((release_members now wanted pool).members ≡ [])
      × ¬ (IsPool subs (release_members now wanted pool))
unfolding release_members
release_members-stays_enabled now wanted pool subs inactive named on gone =
    (ground arith, ground arith, λ p. ground (arith, p.filled))
