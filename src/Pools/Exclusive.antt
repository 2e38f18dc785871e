-- ===== src/Pools/Exclusive.antt =====
-- The places of a subscription in the members of all pools, through `assignPoolMembers`
-- (mihomotui/daemon_handlers_pool.go).
use mihomo_tui.Base.{
  without-append, Disjoint_lem, Disjoint-contains, without-Disjoint, ◌∙◌, ℕ, zero, suc, ◌+◌, ◌<◌,
  String, ◌≡◌, refl, true, ◌||◌, some, List, [], ◌∷◌, ◌++◌, get_elem?, erase_at, without, contains,
  arith, Distinct, Disjoint, Distinct-append, contains-append, without-Distinct,
}
use mihomo_tui.Config.{SubscriptionPool}
use mihomo_tui.Validate.PoolSpec.{owned}
use mihomo_tui.Pools.Assign.{release_members, assign_from, assign_pool_members}

module _ (now : String) (wanted : List String) where
  members-release_members :
      (pool : SubscriptionPool)
      → (release_members now wanted pool).members ≡ without wanted pool.members
  unfolding release_members
  members-release_members pool = ground arith

  -- Behind the target every pool gives the wanted members up.
  owned-assign_past :
      (i target : ℕ) (pools : List SubscriptionPool)
      → target < i
      → owned (assign_from now i target wanted pools) ≡ without wanted (owned pools)
  unfolding assign_from without
  owned-assign_past i target [] h = refl
  owned-assign_past i target (pool ∷ pools) h = ground (
    arith,
    members-release_members pool,
    without-append wanted pool.members (owned pools),
    owned-assign_past (i + 1) target pools,
  )

  -- The other pools' members are their old ones without the wanted ones.
  pub owned-assign :
      (k i target : ℕ) (pools : List SubscriptionPool)
      → i + k ≡ target
      → {pool : SubscriptionPool} → get_elem? pools k ≡ some pool
      → owned (erase_at (assign_from now i target wanted pools) k)
        ≡ without wanted (owned (erase_at pools k))
  unfolding assign_from
  owned-assign k i target [] h at = refl
  owned-assign zero i target (pool ∷ pools) h at =
      owned-assign_past (i + 1) target pools (omega arith)
  owned-assign (suc k) i target (pool ∷ pools) h {pool = p} at = ground (
    arith,
    members-release_members pool,
    without-append wanted pool.members (owned (erase_at pools k)),
    owned-assign k (i + 1) target pools (omega arith) {pool = p},
  )

  -- The target keeps its place and is not touched.
  get_elem?-assign :
      (k i target : ℕ) (pools : List SubscriptionPool)
      → i + k ≡ target
      → get_elem? (assign_from now i target wanted pools) k ≡ get_elem? pools k
  unfolding assign_from
  get_elem?-assign k i target [] h = refl
  get_elem?-assign zero i target (pool ∷ pools) h = ground arith
  get_elem?-assign (suc k) i target (pool ∷ pools) h =
      get_elem?-assign k (i + 1) target pools (omega arith)

module _ (key : String) where
  contains-owned_split :
      (pools : List SubscriptionPool) (k : ℕ) (pool : SubscriptionPool)
      → get_elem? pools k ≡ some pool
      → contains (owned pools) key
        ≡ (contains pool.members key || contains (owned (erase_at pools k)) key)
  contains-owned_split [] k pool at = cc
  contains-owned_split (p ∷ ps) zero pool at =
      ground (arith, contains-append p.members (owned ps) key)
  contains-owned_split (p ∷ ps) (suc k) pool at = ground (
    arith,
    contains-append p.members (owned ps) key,
    contains-append p.members (owned (erase_at ps k)) key,
    contains-owned_split ps k pool at,
  )

  erase_at-subset :
      (pools : List SubscriptionPool) (k : ℕ)
      → contains (owned (erase_at pools k)) key ≡ true
      → contains (owned pools) key ≡ true
  erase_at-subset [] k m = m
  erase_at-subset (p ∷ ps) zero m = ground (arith, contains-append p.members (owned ps) key)
  erase_at-subset (p ∷ ps) (suc k) m = ground (
    arith,
    contains-append p.members (owned ps) key,
    contains-append p.members (owned (erase_at ps k)) key,
    erase_at-subset ps k,
  )

pub erase_at-Distinct :
    (pools : List SubscriptionPool) (k : ℕ)
    → Distinct (owned pools)
    → Distinct (owned (erase_at pools k))
erase_at-Distinct [] k h = h
erase_at-Distinct (p ∷ ps) zero h = ((Distinct-append p.members (owned ps)).0 h).1
erase_at-Distinct (p ∷ ps) (suc k) h =
    let (mine, rest, apart) = (Distinct-append p.members (owned ps)).0 h in
    let fewer = owned (erase_at ps k) in
    (Distinct-append p.members fewer).1 (
      mine,
      erase_at-Distinct ps k rest,
      Disjoint_lem fewer p.members
          λ key m. Disjoint-contains (owned ps) p.members key apart (erase_at-subset key ps k m),
    )

insert-Distinct :
    (pools : List SubscriptionPool) (k : ℕ) (pool : SubscriptionPool)
    → get_elem? pools k ≡ some pool
    → Distinct pool.members
    → Distinct (owned (erase_at pools k))
    → Disjoint (owned (erase_at pools k)) pool.members
    → Distinct (owned pools)
insert-Distinct [] k pool at mine rest apart = tt
insert-Distinct (p ∷ ps) zero pool at mine rest apart =
    (Distinct-append p.members (owned ps)).1 (ground arith)
insert-Distinct (p ∷ ps) (suc k) pool at mine rest apart =
    let others = owned (erase_at ps k) in
    let (own, left, split) = (Distinct-append p.members others).0 rest in
    let separate =
      λ (key : String). Disjoint-contains (p.members ++ others) pool.members key apart in
    let tail = insert-Distinct ps k pool at mine left (
      Disjoint_lem others pool.members
        λ key m. separate key (ground (arith, contains-append p.members others key))) in
    (Distinct-append p.members (owned ps)).1 (
      own,
      tail,
      Disjoint_lem (owned ps) p.members λ key m. ground (
        arith,
        contains-owned_split key ps k pool at,
        Disjoint-contains others p.members key split,
        contains-append p.members others key,
        separate key,
      ),
    )

-- After the members of a pool are assigned to it, no subscription stands twice in the members of all
-- pools, if none stood twice in that pool's members nor in those of the other pools.
pub assign_pool_members-Distinct :
    (now : String) (target : ℕ) (members : List String) (pools : List SubscriptionPool)
    (pool : SubscriptionPool)
    → get_elem? pools target ≡ some pool
    → pool.members ≡ members
    → Distinct members
    → Distinct (owned (erase_at pools target))
    → Distinct (owned (assign_pool_members now target members pools))
unfolding assign_pool_members
assign_pool_members-Distinct now target members pools pool at same mine rest =
    let assigned = assign_from now 0 target members pools in
    let others = owned-assign now members target 0 target pools (omega arith) at in
    insert-Distinct assigned target pool
      (get_elem?-assign now members target 0 target pools (omega arith) ∙ at) (rw same mine)
      (rw others (without-Distinct members (owned (erase_at pools target)) rest))
      (rw (others, same) (without-Disjoint members (owned (erase_at pools target))))
