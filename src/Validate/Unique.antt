-- ===== src/Validate/Unique.antt =====
-- The two ways in which `Validate` (mihomotui/config_validate.go) asks for texts that occur once:
-- a map from a text to its place, and a map from a text to `true`.
use mihomo_tui.Base.{
  ℕ, String, ◌≡◌, refl, ◌↔◌, Bool, false, none, some, List, [], ◌∷◌, arith, eq_iff, contains,
  if◌then◌else◌,
}
use mihomo_tui.Validate.Problem.{Problem, lookup}

-- `if bad { add(p) } else if prev, dup := m[key]; dup { add(twice(prev)) } else { m[key] = i }`
unfoldable pub check_unique :
    Bool
    → Problem
    → (ℕ → Problem)
    → String
    → ℕ
    → List (String × ℕ)
    → List Problem × List (String × ℕ)
unfolding lookup
check_unique bad p twice key i seen = if bad then (p ∷ [], seen) else elim (lookup key seen) [
  | some prev ↦ (twice prev ∷ [], seen)
  | none ↦ ([], (key, i) ∷ seen)
]

-- None of the keys has been seen.
abbrev pub AreNew : List String → List (String × ℕ) → Type 0
AreNew [] seen = Unit
AreNew (k ∷ ks) seen = (lookup k seen ≡ none) × AreNew ks seen

pub AreNew-cons :
    (ks : List String) (k : String) (i : ℕ) (seen : List (String × ℕ))
    → AreNew ks ((k, i) ∷ seen) ↔ ((contains ks k ≡ false) × AreNew ks seen)
unfolding lookup contains
AreNew-cons [] k i seen = ground arith
AreNew-cons (j ∷ ks) k i seen = ground (arith, eq_iff j k, eq_iff k j, AreNew-cons ks k i seen)

pub AreNew-nil : (ks : List String) → AreNew ks []
unfolding lookup
AreNew-nil [] = tt
AreNew-nil (k ∷ ks) = (refl, AreNew-nil ks)

-- One round reports nothing exactly when the key is good and new, and then the key is recorded.
pub check_unique_iff :
    (bad : Bool) (p : Problem) (twice : ℕ → Problem) (key : String) (i : ℕ)
    (seen : List (String × ℕ))
    → ((check_unique bad p twice key i seen).0 ≡ []) ↔ ((bad ≡ false) × (lookup key seen ≡ none))
unfolding check_unique
check_unique_iff bad p twice key i seen = ground arith

pub check_unique_next :
    (bad : Bool) (p : Problem) (twice : ℕ → Problem) (key : String) (i : ℕ)
    (seen : List (String × ℕ))
    → (check_unique bad p twice key i seen).0 ≡ []
    → (check_unique bad p twice key i seen).1 ≡ (key, i) ∷ seen
unfolding check_unique
check_unique_next bad p twice key i seen h = ground arith
