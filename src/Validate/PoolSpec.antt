-- ===== src/Validate/PoolSpec.antt =====
-- What the pool checks of `Validate` (mihomotui/config_validate.go) ask for, as a specification.
use mihomo_tui.Base.{
  String, ◌≡◌, refl, ◌↔◌, ◌⊎◌, true, false, ◌||◌, ◌&&◌, List, [], ◌∷◌, ◌++◌, map, arith, eq_iff,
  Distinct, Disjoint, Disjoint-cons, Disjoint-nil, Distinct-append, contains, is_blank, is_some,
  All,
}
use mihomo_tui.Base.Int.{pos, int_lt}
use mihomo_tui.Config.{SubscriptionMeta, SubscriptionPool}
use mihomo_tui.Config.Lookup.{index_of_id}
use mihomo_tui.Config.Edit.{is_empty}
use mihomo_tui.Validate.Problem.{lookup, append-eq-nil}
use mihomo_tui.Validate.Pools.{
  Owners, own, check_members, is_pool_mode, check_pool_fields, check_pool_activity, check_pools,
}

-- Each of the texts is the identifier of a subscription.
abbrev pub AreKnown : List SubscriptionMeta → List String → Type 0
AreKnown subs = All (λ id. is_some (index_of_id subs id) ≡ true)

-- One pool by itself.
pub record IsPool (subs : List SubscriptionMeta) (pool : SubscriptionPool) : Type 0 where
  pub identified : is_blank pool.id ≡ false
  pub named : is_blank pool.name ≡ false
  pub mode_known : is_pool_mode pool.mode ≡ true
  pub interval_valid : int_lt pool.refresh_interval (pos 0) ≡ false
  pub members_known : AreKnown subs pool.members
  pub filled : (pool.enabled && is_empty pool.members) ≡ false
  pub active_member :
      (pool.active_member_id ≡ "") ⊎ (contains pool.members pool.active_member_id ≡ true)

abbrev pub pool_ids : List SubscriptionPool → List String
pool_ids = map (λ p. p.id)

-- The members of all pools, one after the other.
abbrev pub owned : List SubscriptionPool → List String
owned [] = []
owned (p ∷ ps) = p.members ++ owned ps

-- All pools together: identifiers occur once, and no subscription has two places in pools.
pub record ArePools (subs : List SubscriptionMeta) (ps : List SubscriptionPool) : Type 0 where
  pub each : All (IsPool subs) ps
  pub ids_distinct : Distinct (pool_ids ps)
  pub members_exclusive : Distinct (owned ps)

-- None of the texts has an owner.
abbrev AreFree : List String → Owners → Type 0
AreFree ids owners = All (λ id. is_some (lookup id owners) ≡ false) ids

AreFree-cons :
    (ids : List String) (id owner : String) (owners : Owners)
    → AreFree ids ((id, owner) ∷ owners) ↔ ((contains ids id ≡ false) × AreFree ids owners)
unfolding check_members contains
AreFree-cons [] id owner owners = ground arith
AreFree-cons (j ∷ ids) id owner owners =
    ground (arith, eq_iff id j, eq_iff j id, AreFree-cons ids id owner owners)

module _ (subs : List SubscriptionMeta) (pool : SubscriptionPool) where
  members-check_members :
      (ids members : List String) (owners : Owners) (key : String)
      → contains (check_members subs pool ids members owners).1 key
        ≡ (contains ids key || contains members key)
  unfolding check_members contains
  members-check_members [] members owners key = refl
  members-check_members (id ∷ ids) members owners key =
      ground (
        arith,
        members-check_members ids (id ∷ members) (own pool id owners (lookup id owners)) key,
      )

  owners-check_members :
      (ids members : List String) (owners : Owners) (key : String)
      → is_some (lookup key (check_members subs pool ids members owners).2)
        ≡ (contains ids key || is_some (lookup key owners))
  unfolding check_members contains
  owners-check_members [] members owners key = refl
  owners-check_members (id ∷ ids) members owners key = ground (
    arith,
    eq_iff id key,
    owners-check_members ids (id ∷ members) owners key,
    owners-check_members ids (id ∷ members) ((id, pool.name) ∷ owners) key,
  )

  check_members_from :
      (ids members : List String) (owners : Owners)
      → ((check_members subs pool ids members owners).0 ≡ [])
        ↔ (AreKnown subs ids × Distinct ids × Disjoint ids members × AreFree ids owners)
  unfolding check_members
  check_members_from [] members owners = ground arith
  check_members_from (id ∷ ids) members owners = ground (
    arith,
    check_members_from ids (id ∷ members) owners,
    check_members_from ids (id ∷ members) ((id, pool.name) ∷ owners),
    Disjoint-cons ids id members,
    AreFree-cons ids id pool.name owners,
  )

AreFree-check_members :
    (subs : List SubscriptionMeta) (pool : SubscriptionPool) (ids members : List String)
    (owners : Owners) (keys : List String)
    → AreFree keys (check_members subs pool ids members owners).2
      ↔ (Disjoint keys ids × AreFree keys owners)
AreFree-check_members subs pool ids members owners [] = ground arith
AreFree-check_members subs pool ids members owners (key ∷ keys) = ground (
  arith,
  owners-check_members subs pool ids members owners key,
  AreFree-check_members subs pool ids members owners keys,
)

AreFree-append :
    (xs ys : List String) (owners : Owners)
    → AreFree (xs ++ ys) owners ↔ (AreFree xs owners × AreFree ys owners)
AreFree-append [] ys owners = ground arith
AreFree-append (x ∷ xs) ys owners = ground (arith, AreFree-append xs ys owners)

AreFree-nil : (ids : List String) → AreFree ids []
unfolding check_members
AreFree-nil [] = tt
AreFree-nil (id ∷ ids) = (refl, AreFree-nil ids)

check_pool_fields_iff :
    (pool : SubscriptionPool) (ids : List String)
    → (check_pool_fields pool ids ≡ []) ↔ (
        (is_blank pool.id ≡ false)
        × (contains ids pool.id ≡ false)
        × (is_blank pool.name ≡ false)
        × (is_pool_mode pool.mode ≡ true)
        × (int_lt pool.refresh_interval (pos 0) ≡ false))
unfolding check_pool_fields
check_pool_fields_iff pool ids = ground arith

check_pool_activity_iff :
    (pool : SubscriptionPool) (members : List String)
    → (check_pool_activity pool members ≡ []) ↔ (
        ((pool.enabled && is_empty pool.members) ≡ false)
        × ((pool.active_member_id ≡ "") ⊎ (contains members pool.active_member_id ≡ true)))
unfolding check_pool_activity
check_pool_activity_iff pool members = ground (arith, eq_iff pool.active_member_id "")

-- The specification with what earlier pools have recorded.
abbrev IsFresh : List SubscriptionMeta → List String → Owners → List SubscriptionPool → Type 0
IsFresh subs ids owners ps =
    All (IsPool subs) ps
    × Distinct (pool_ids ps)
    × Distinct (owned ps)
    × Disjoint (pool_ids ps) ids
    × AreFree (owned ps) owners

check_pools_from :
    (subs : List SubscriptionMeta) (ids : List String) (owners : Owners)
    (ps : List SubscriptionPool)
    → (check_pools subs ids owners ps ≡ []) ↔ IsFresh subs ids owners ps
unfolding check_pools contains
check_pools_from subs ids owners [] = ground arith
check_pools_from subs ids owners (pool ∷ ps) =
    let (problems, members, owners') = check_members subs pool pool.members [] owners in
    let activity = check_pool_activity pool members in
    let rest = check_pools subs (pool.id ∷ ids) owners' ps in
    ground (
      arith,
      append-eq-nil (check_pool_fields pool ids) (problems ++ (activity ++ rest)),
      append-eq-nil problems (activity ++ rest),
      append-eq-nil activity rest,
      check_pool_fields_iff pool ids,
      check_pool_activity_iff pool members,
      members-check_members subs pool pool.members [] owners pool.active_member_id,
      check_members_from subs pool pool.members [] owners,
      check_pools_from subs (pool.id ∷ ids) owners' ps,
      Disjoint-cons (pool_ids ps) pool.id ids,
      Disjoint-nil pool.members,
      AreFree-check_members subs pool pool.members [] owners (owned ps),
      AreFree-append pool.members (owned ps) owners,
      Distinct-append pool.members (owned ps),
    )

-- The pool checks report nothing exactly when every pool has an identifier and a name, a known mode,
-- an interval that is not negative, members that are subscriptions, at least one member if it is
-- enabled, and an active member that is one of its members if it names one; when no two pools have
-- one identifier; and when no subscription stands twice in the members of all pools.
pub check_pools_iff :
    (subs : List SubscriptionMeta) (ps : List SubscriptionPool)
    → (check_pools subs [] [] ps ≡ []) ↔ ArePools subs ps
check_pools_iff subs ps =
    let both = check_pools_from subs [] [] ps in
    (
      λ h.
          let fresh = both.0 h in
          record { each = fresh.0; ids_distinct = fresh.1; members_exclusive = fresh.2 },
      λ h. both.1 (
        h.each,
        h.ids_distinct,
        h.members_exclusive,
        Disjoint-nil (pool_ids ps),
        AreFree-nil (owned ps),
      ),
    )
