-- ===== src/Pools/Usable.antt =====
-- Which subscriptions can be used (mihomotui/subscription_pool.go), stated on the fields of the
-- subscription and on the cache file.
use mihomo_tui.Base.{
  ◌⊎◌, ◌<◌, ◌≢◌, true, false, Bool, Bool-cases, ℕ, String, ◌≡◌, refl, none, some, List, [], ◌∷◌,
  ◌==◌, arith, eq_iff, Option-cases, inl, inr,
}
use mihomo_tui.Config.{SubscriptionMeta}
use mihomo_tui.Config.Lookup.{find_subscription}
use mihomo_tui.Pools.Runtime.{Stat, denied, entry, is_available, has_cache}

-- The subscription with the identifier exists and can be used.
abbrev pub can_run : (String → Stat) → List SubscriptionMeta → String → Bool
can_run stat subs id = elim (find_subscription subs id) [
  | none ↦ false
  | some sub ↦ is_available stat sub
]

Stat-cases :
    (st : Stat)
    → (st ≡ denied) ⊎ (st ≡ Stat.failed) ⊎ ((is_dir : Bool) × (size : ℕ) × (st ≡ entry is_dir size))
Stat-cases denied = inl refl
Stat-cases Stat.failed = inr (inl refl)
Stat-cases (entry is_dir size) = inr (inr (is_dir, size, refl))

-- The first of the subscriptions that has the identifier.
abbrev pub IsFirst : List SubscriptionMeta → String → SubscriptionMeta → Type 0
IsFirst [] id sub = ⊥
IsFirst (s ∷ subs) id sub = ((s.id ≡ id) × (s ≡ sub)) ⊎ ((s.id ≢ id) × IsFirst subs id sub)

-- A subscription that is not disabled and has a cache: a file that is not empty, or one that the daemon
-- may not look at.
abbrev pub IsUsable : (String → Stat) → SubscriptionMeta → Type 0
IsUsable stat sub =
    (sub.disabled ≡ false)
    × (sub.cache_file ≢ "")
    × ((stat sub.cache_file ≡ denied)
        ⊎ ((size : ℕ) × (stat sub.cache_file ≡ entry false size) × (0 < size)))

-- The identifier is that of a subscription that can be used.
abbrev pub CanRun : (String → Stat) → List SubscriptionMeta → String → Type 0
CanRun stat subs id = (sub : SubscriptionMeta) × IsFirst subs id sub × IsUsable stat sub

find_subscription-IsFirst :
    (subs : List SubscriptionMeta) (id : String) (sub : SubscriptionMeta)
    → find_subscription subs id ≡ some sub
    → IsFirst subs id sub
unfolding find_subscription
find_subscription-IsFirst [] id sub h = cc
find_subscription-IsFirst (s ∷ subs) id sub h = elim (Bool-cases (s.id == id)) [
  | inl e ↦ inl ((eq_iff s.id id).0 e, ground (arith, h, e))
  | inr e ↦ inr (
    ground (arith, e, eq_iff s.id id),
    find_subscription-IsFirst subs id sub (ground (arith, h, e)),
  )
]

IsFirst-find_subscription :
    (subs : List SubscriptionMeta) (id : String) (sub : SubscriptionMeta)
    → IsFirst subs id sub
    → find_subscription subs id ≡ some sub
unfolding find_subscription
IsFirst-find_subscription [] id sub h = absurd h
IsFirst-find_subscription (s ∷ subs) id sub (inl (e, same)) =
    ground (arith, e, same, eq_iff s.id id)
IsFirst-find_subscription (s ∷ subs) id sub (inr (other, h)) =
    ground (arith, other, eq_iff s.id id, IsFirst-find_subscription subs id sub h)

module _ (stat : String → Stat) (sub : SubscriptionMeta) where
  is_available-IsUsable : is_available stat sub ≡ true → IsUsable stat sub
  unfolding is_available has_cache
  is_available-IsUsable h = (
    ground (arith, h),
    ground (arith, h, eq_iff sub.cache_file ""),
    elim (Stat-cases (stat sub.cache_file)) [
      | inl e ↦ inl e
      | inr (inl e) ↦ absurd (ground (arith, h, e))
      | inr (inr (is_dir, size, e)) ↦ inr (size, ground (arith, h, e), ground (arith, h, e))
    ],
  )

  IsUsable-is_available : IsUsable stat sub → is_available stat sub ≡ true
  unfolding is_available has_cache
  IsUsable-is_available (on, named, inl e) = ground (arith, on, named, e, eq_iff sub.cache_file "")
  IsUsable-is_available (on, named, inr (size, e, filled)) =
      ground (arith, on, named, e, filled, eq_iff sub.cache_file "")

module _ (stat : String → Stat) (subs : List SubscriptionMeta) (id : String) where
  pub can_run-CanRun : can_run stat subs id ≡ true → CanRun stat subs id
  can_run-CanRun h = elim (Option-cases (find_subscription subs id)) [
    | inl e ↦ absurd (ground (arith, h, e))
    | inr (sub, e) ↦ (
      sub,
      find_subscription-IsFirst subs id sub e,
      is_available-IsUsable stat sub (ground (arith, h, e)),
    )
  ]

  pub CanRun-can_run : CanRun stat subs id → can_run stat subs id ≡ true
  CanRun-can_run (sub, first, usable) =
      ground
        (arith, IsFirst-find_subscription subs id sub first, IsUsable-is_available stat sub usable)
