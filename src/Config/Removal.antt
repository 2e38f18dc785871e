-- ===== src/Config/Removal.antt =====
-- What `RemoveSubscription` (mihomotui/config.go) does to the active index and to the pools.
use mihomo_tui.Base.{
  ℕ, zero, suc, ◌<◌, String, ◌≡◌, ◌≢◌, refl, ◌⊎◌, inl, true, false, ◌&&◌, List, [], ◌∷◌, length,
  get_elem?, erase_at, without, contains, ltb, if◌then◌else◌, arith, eq_iff, length-erase_at,
  contains-without,
}
use mihomo_tui.Base.Int.{ℤ, pos, negsuc, int_lt, int_le}
use mihomo_tui.Config.{SubscriptionMeta, SubscriptionPool}
use mihomo_tui.Config.Edit.{drop_member, active_after_removal, first_member, is_empty}

-- The active index names a subscription, or is -1.
abbrev pub IsIndex : ℕ → ℤ → Type 0
IsIndex count active = (int_lt active (negsuc 0) ≡ false) × (int_le (pos count) active ≡ false)

pub active_after_removal-IsIndex :
    (count idx : ℕ) (active : ℤ)
    → idx < suc count
    → IsIndex (suc count) active
    → IsIndex count (active_after_removal count idx active)
unfolding active_after_removal
active_after_removal-IsIndex zero idx active h valid = ground arith
active_after_removal-IsIndex (suc count) idx (pos zero) h valid = ground arith
active_after_removal-IsIndex (suc count) idx (pos (suc n)) h valid = ground arith
active_after_removal-IsIndex (suc count) idx (negsuc n) h valid = ground arith

-- The place of an element behind the removal of another.
abbrev pub shifted : ℕ → ℕ → ℕ
shifted idx zero = zero
shifted idx (suc j) = if ltb idx (suc j) then j else suc j

get_elem?-erase_at {ℓ} :
    {A : Type ℓ} (xs : List A) (idx j : ℕ)
    → idx ≢ j
    → get_elem? (erase_at xs idx) (shifted idx j) ≡ get_elem? xs j
get_elem?-erase_at [] idx zero ne = refl
get_elem?-erase_at [] idx (suc j) ne = refl
get_elem?-erase_at (x ∷ xs) zero zero ne = absurd (ne refl)
get_elem?-erase_at (x ∷ xs) zero (suc j) ne = ground arith
get_elem?-erase_at (x ∷ xs) (suc idx) zero ne = refl
get_elem?-erase_at (x ∷ xs) (suc idx) (suc zero) ne = ground (arith, get_elem?-erase_at xs idx zero)
get_elem?-erase_at (x ∷ xs) (suc idx) (suc (suc j)) ne =
    ground (arith, get_elem?-erase_at xs idx (suc j))

-- If the active subscription is not the one that is removed, it is active after the removal too.
pub active_after_removal-keeps :
    (subs : List SubscriptionMeta) (idx active : ℕ)
    → idx < length subs
    → active < length subs
    → idx ≢ active
    → (j : ℕ) × (active_after_removal (length (erase_at subs idx)) idx (pos active) ≡ pos j)
      × (get_elem? (erase_at subs idx) j ≡ get_elem? subs active)
unfolding active_after_removal
active_after_removal-keeps subs idx zero h below ne =
    (0, ground (arith, length-erase_at subs idx h), get_elem?-erase_at subs idx zero ne)
active_after_removal-keeps subs idx (suc active) h below ne = (
  shifted idx (suc active),
  ground (arith, length-erase_at subs idx h),
  get_elem?-erase_at subs idx (suc active) ne,
)

-- The first member is a member, unless there is none.
pub first_member_lem :
    (xs : List String) → (first_member xs ≡ "") ⊎ (contains xs (first_member xs) ≡ true)
unfolding contains
first_member_lem [] = inl refl
first_member_lem (x ∷ xs) = ground (arith, eq_iff x x)

module _ (now removed : String) where
  -- A pool after the removal of one of its members is in order by itself.
  pub drop_member_lem :
      (pool : SubscriptionPool)
      → let p = drop_member now removed pool in
        (p.members ≡ without (removed ∷ []) pool.members)
        × (p.id ≡ pool.id)
        × (p.name ≡ pool.name)
        × (p.mode ≡ pool.mode)
        × (p.refresh_interval ≡ pool.refresh_interval)
        × ((p.enabled && is_empty p.members) ≡ false)
  unfolding drop_member
  drop_member_lem pool = ground arith

  pub drop_member-active :
      (pool : SubscriptionPool)
      → (pool.active_member_id ≡ "") ⊎ (contains pool.members pool.active_member_id ≡ true)
      → let p = drop_member now removed pool in
        (p.active_member_id ≡ "") ⊎ (contains p.members p.active_member_id ≡ true)
  unfolding drop_member contains
  drop_member-active pool h =
      let kept = without (removed ∷ []) pool.members in
      ground (
        arith,
        first_member_lem kept,
        contains-without (removed ∷ []) pool.members pool.active_member_id,
        eq_iff pool.active_member_id removed,
        eq_iff removed pool.active_member_id,
      )
