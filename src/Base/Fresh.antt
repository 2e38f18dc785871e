-- ===== src/Base/Fresh.antt =====
-- The loops that make a name unique, `for taken(key(s)) { s = next(s) }`.
use mathlib.Core.Path.{subst, sym, fun_ext}
use mihomo_tui.Base.{
  ℕ, zero, suc, ◌<◌, String, ◌≡◌, refl, Bool, true, false, List, [], ◌∷◌, arith, ◌==◌, eq_iff,
  length, contains, without, contains-without, if◌then◌else◌, Bool-cases, inl, inr,
}

-- The loop from the state `s`, of which `fuel` rounds may pass.
unfoldable pub free_name {ℓ} :
    {S : Type ℓ} → (S → String) → (S → S) → (String → Bool) → ℕ → S → String
free_name key next taken zero s = key s
free_name key next taken (suc fuel) s =
    let rest = free_name key next taken fuel (next s) in if taken (key s) then rest else key s

-- Taking one name out of the used ones.
length-without : (x : String) (xs : List String) → length (without (x ∷ []) xs) < suc (length xs)
unfolding without contains
length-without x [] = omega arith
length-without x (y ∷ xs) = ground (arith, length-without x xs)

length-without_used :
    (x : String) (xs : List String)
    → contains xs x ≡ true
    → length (without (x ∷ []) xs) < length xs
unfolding without contains
length-without_used x [] h = cc
length-without_used x (y ∷ xs) h =
    ground (arith, eq_iff y x, eq_iff x y, length-without x xs, length-without_used x xs)

-- Where each state ranks above the one before, and only states of one rank have one name, the loop
-- ends at a free name within one round more than there are used names.
module _ {ℓ} {S : Type ℓ} (key : S → String) (next : S → S) (rank : S → ℕ) where
  abbrev pub Ascends : Type ℓ
  Ascends = (s : S) → rank s < rank (next s)

  abbrev pub Separates : Type ℓ
  Separates = (s t : S) → key s ≡ key t → rank s ≡ rank t

  module _ (ascends : Ascends) (separates : Separates) where
    -- A name of a lower rank does not matter to the loop.
    free_name-without :
        (used : List String) (fuel : ℕ) (s t : S)
        → rank s < rank t
        → free_name key next (contains (without (key s ∷ []) used)) fuel t
          ≡ free_name key next (contains used) fuel t
    unfolding free_name contains
    free_name-without used zero s t h = refl
    free_name-without used (suc fuel) s t h = ground (
      arith,
      ascends t,
      separates s t,
      eq_iff (key s) (key t),
      contains-without (key s ∷ []) used (key t),
      free_name-without used fuel s (next t),
    )

    free_name-later :
        (used : List String) (fuel : ℕ) (s t : S)
        → rank s < rank t
        → (key s == free_name key next (contains used) fuel t) ≡ false
    unfolding free_name
    free_name-later used zero s t h = ground (arith, separates s t, eq_iff (key s) (key t))
    free_name-later used (suc fuel) s t h = ground (
      arith,
      ascends t,
      separates s t,
      eq_iff (key s) (key t),
      free_name-later used fuel s (next t),
    )

    pub free_name-contains :
        (used : List String) (fuel : ℕ) (s : S)
        → length used < fuel
        → contains used (free_name key next (contains used) fuel s) ≡ false
    unfolding free_name contains
    free_name-contains used zero s h = ground (arith, h)
    free_name-contains used (suc fuel) s h = elim (Bool-cases (contains used (key s))) [
      | inr free ↦ ground (arith, free)
      | inl taken ↦
          let fewer = without (key s ∷ []) used in
          ground (
            arith,
            taken,
            ascends s,
            length-without_used (key s) used taken,
            free_name-contains fewer fuel (next s),
            free_name-without used fuel s (next s),
            free_name-later used fuel s (next s),
            eq_iff (key s) (free_name key next (contains used) fuel (next s)),
            contains-without (key s ∷ []) used (free_name key next (contains used) fuel (next s)),
          )
    ]

    -- The same for any test that says which names are used.
    pub free_name-free :
        (taken : String → Bool) (used : List String) (fuel : ℕ) (s : S)
        → ((name : String) → taken name ≡ contains used name)
        → length used < fuel
        → taken (free_name key next taken fuel s) ≡ false
    free_name-free taken used fuel s same h =
        subst (λ t. t (free_name key next t fuel s) ≡ false) (sym (fun_ext same))
          (free_name-contains used fuel s h)
