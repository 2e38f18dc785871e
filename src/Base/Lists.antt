-- ===== src/Base/Lists.antt =====
-- Lists measured and indexed by native numbers, under the library's names, and sets of texts as
-- lists of their keys (the program's `map[string]bool`).
use Prim.Native.Nat.{ℕ, zero, suc, ◌+◌, ◌<◌}
use Prim.Native.String.{String}
use mathlib.Core.Path.{◌≡◌, refl, ap}
use mathlib.Core.Bool.{Bool, true, false, ◌||◌}
use mathlib.Core.Logic.{◌↔◌}
use mathlib.Core.List.{List, [], ◌∷◌, ◌++◌, map}
use mathlib.Core.Option.{Option, none, some}
use native.Mathlib.Omega.{arith}
use text.Mathlib.Text.{◌==◌}
use text.Mathlib.TextEquality.{eq_iff}
use mihomo_tui.Base.Tests.{if◌then◌else◌}

module _ {ℓ} {A : Type ℓ} where
  abbrev pub length : List A → ℕ
  length [] = 0
  length (x ∷ xs) = suc (length xs)

  abbrev pub get_elem? : List A → ℕ → Option A
  get_elem? [] i = none
  get_elem? (x ∷ xs) zero = some x
  get_elem? (x ∷ xs) (suc i) = get_elem? xs i

  -- A write at an index, `xs[i] = f(xs[i])`; out of bounds it changes nothing.
  abbrev pub modify : List A → ℕ → (A → A) → List A
  modify [] i f = []
  modify (x ∷ xs) zero f = f x ∷ xs
  modify (x ∷ xs) (suc i) f = x ∷ modify xs i f

  -- `append(xs[:i], xs[i+1:]...)`
  abbrev pub erase_at : List A → ℕ → List A
  erase_at [] i = []
  erase_at (x ∷ xs) zero = xs
  erase_at (x ∷ xs) (suc i) = x ∷ erase_at xs i

  -- A predicate on every element, by recursion.
  abbrev pub All {κ} : (A → Type κ) → List A → Type κ
  All P [] = Unit
  All P (x ∷ xs) = P x × All P xs

  pub length-append : (xs ys : List A) → length (xs ++ ys) ≡ length xs + length ys
  length-append [] ys = omega arith
  length-append (x ∷ xs) ys = omega (arith, length-append xs ys)

module _ {ℓ} {A : Type ℓ} where
  pub length-modify : (xs : List A) (i : ℕ) (f : A → A) → length (modify xs i f) ≡ length xs
  length-modify [] i f = refl
  length-modify (x ∷ xs) zero f = refl
  length-modify (x ∷ xs) (suc i) f = ap suc (length-modify xs i f)

  pub length-erase_at :
      (xs : List A) (i : ℕ) → i < length xs → suc (length (erase_at xs i)) ≡ length xs
  length-erase_at [] i h = elim h [ ]
  length-erase_at (x ∷ xs) zero h = refl
  length-erase_at (x ∷ xs) (suc i) h = ap suc (length-erase_at xs i (omega arith))

-- `set[key]` of a `map[string]bool` whose keys are listed
unfoldable pub contains : List String → String → Bool
contains [] key = false
contains (x ∷ xs) key = x == key || contains xs key

-- The elements that are not in `drop`, in order.
unfoldable pub without : List String → List String → List String
without drop [] = []
without drop (x ∷ xs) = let rest = without drop xs in if contains drop x then rest else x ∷ rest

-- No element stands twice.
abbrev pub Distinct : List String → Type 0
Distinct [] = Unit
Distinct (x ∷ xs) = (contains xs x ≡ false) × Distinct xs

-- No element of the first list is in the second.
abbrev pub Disjoint : List String → List String → Type 0
Disjoint [] ys = Unit
Disjoint (x ∷ xs) ys = (contains ys x ≡ false) × Disjoint xs ys

pub contains-append :
    (xs ys : List String) (key : String)
    → contains (xs ++ ys) key ≡ (contains xs key || contains ys key)
unfolding contains
contains-append [] ys key = refl
contains-append (x ∷ xs) ys key = ground (arith, contains-append xs ys key)

pub contains-without :
    (drop xs : List String) (key : String)
    → contains (without drop xs) key ≡ (if contains drop key then false else contains xs key)
unfolding contains without
contains-without drop [] key = ground arith
contains-without drop (x ∷ xs) key = ground (arith, eq_iff x key, contains-without drop xs key)

pub without-Distinct : (drop xs : List String) → Distinct xs → Distinct (without drop xs)
unfolding contains without
without-Distinct drop [] h = tt
without-Distinct drop (x ∷ xs) h =
    ground (arith, contains-without drop xs x, without-Distinct drop xs h.1)

pub Disjoint-contains :
    (xs ys : List String) (key : String)
    → Disjoint xs ys
    → contains xs key ≡ true
    → contains ys key ≡ false
unfolding contains
Disjoint-contains [] ys key h m = cc
Disjoint-contains (x ∷ xs) ys key h m =
    ground (arith, eq_iff x key, Disjoint-contains xs ys key h.1)

-- A list without the elements of another shares none with it.
pub without-Disjoint : (drop xs : List String) → Disjoint (without drop xs) drop
unfolding contains without
without-Disjoint drop [] = tt
without-Disjoint drop (x ∷ xs) = ground (arith, without-Disjoint drop xs)

pub Disjoint-cons :
    (ys : List String) (x : String) (xs : List String)
    → Disjoint ys (x ∷ xs) ↔ ((contains ys x ≡ false) × Disjoint ys xs)
unfolding contains
Disjoint-cons [] x xs = ground arith
Disjoint-cons (y ∷ ys) x xs = ground (arith, eq_iff y x, eq_iff x y, Disjoint-cons ys x xs)

pub Disjoint-nil : (ys : List String) → Disjoint ys []
unfolding contains
Disjoint-nil [] = tt
Disjoint-nil (y ∷ ys) = (refl, Disjoint-nil ys)

-- A concatenation has no repetition exactly when neither part has one and they share nothing.
pub Distinct-append :
    (xs ys : List String) → Distinct (xs ++ ys) ↔ (Distinct xs × Distinct ys × Disjoint ys xs)
Distinct-append [] ys = (λ h. (tt, h, Disjoint-nil ys), λ h. h.1)
Distinct-append (x ∷ xs) ys =
    ground (arith, contains-append xs ys x, Distinct-append xs ys, Disjoint-cons ys x xs)

pub without-append :
    (drop xs ys : List String) → without drop (xs ++ ys) ≡ without drop xs ++ without drop ys
unfolding without
without-append drop [] ys = refl
without-append drop (x ∷ xs) ys = ground (arith, without-append drop xs ys)

-- To prove that two lists share nothing, take any element of the first.
pub Disjoint_lem :
    (xs ys : List String)
    → ((key : String) → contains xs key ≡ true → contains ys key ≡ false)
    → Disjoint xs ys
unfolding contains
Disjoint_lem [] ys h = tt
Disjoint_lem (x ∷ xs) ys h =
    (h x (ground (arith, eq_iff x x)), Disjoint_lem xs ys (λ key m. h key (ground (arith, m))))

module _ {ℓ} {A : Type ℓ} where
  pub get_elem?-append_last : (xs : List A) (x : A) → get_elem? (xs ++ x ∷ []) (length xs) ≡ some x
  get_elem?-append_last [] x = refl
  get_elem?-append_last (y ∷ xs) x = get_elem?-append_last xs x

  pub erase_at-append_last : (xs : List A) (x : A) → erase_at (xs ++ x ∷ []) (length xs) ≡ xs
  erase_at-append_last [] x = refl
  erase_at-append_last (y ∷ xs) x = ap (λ t. y ∷ t) (erase_at-append_last xs x)

  pub get_elem?-modify :
      (xs : List A) (i : ℕ) (f : A → A) (x : A)
      → get_elem? xs i ≡ some x
      → get_elem? (modify xs i f) i ≡ some (f x)
  get_elem?-modify [] i f x h = cc
  get_elem?-modify (y ∷ xs) zero f x h = ground arith
  get_elem?-modify (y ∷ xs) (suc i) f x h = get_elem?-modify xs i f x h

  pub erase_at-modify :
      (xs : List A) (i : ℕ) (f : A → A) → erase_at (modify xs i f) i ≡ erase_at xs i
  erase_at-modify [] i f = refl
  erase_at-modify (y ∷ xs) zero f = refl
  erase_at-modify (y ∷ xs) (suc i) f = ap (λ t. y ∷ t) (erase_at-modify xs i f)

module _ {ℓ} {A : Type ℓ} where
  pub All-erase_at {κ} : (P : A → Type κ) (xs : List A) (i : ℕ) → All P xs → All P (erase_at xs i)
  All-erase_at P [] i h = h
  All-erase_at P (x ∷ xs) zero h = h.1
  All-erase_at P (x ∷ xs) (suc i) h = (h.0, All-erase_at P xs i h.1)

  pub map-erase_at :
      (f : A → String) (xs : List A) (i : ℕ) → map f (erase_at xs i) ≡ erase_at (map f xs) i
  map-erase_at f [] i = refl
  map-erase_at f (x ∷ xs) zero = refl
  map-erase_at f (x ∷ xs) (suc i) = ap (λ t. f x ∷ t) (map-erase_at f xs i)

  pub get_elem?-map :
      (f : A → String) (xs : List A) (i : ℕ) (x : A)
      → get_elem? xs i ≡ some x
      → get_elem? (map f xs) i ≡ some (f x)
  get_elem?-map f [] i x h = cc
  get_elem?-map f (y ∷ xs) zero x h = ground arith
  get_elem?-map f (y ∷ xs) (suc i) x h = get_elem?-map f xs i x h

-- Removing the element at an index takes no other element out.
pub contains-erase_at :
    (xs : List String) (i : ℕ) (x key : String)
    → get_elem? xs i ≡ some x
    → (x == key) ≡ false
    → contains (erase_at xs i) key ≡ contains xs key
unfolding contains
contains-erase_at [] i x key h ne = refl
contains-erase_at (y ∷ xs) zero x key h ne = ground arith
contains-erase_at (y ∷ xs) (suc i) x key h ne = ground (arith, contains-erase_at xs i x key h ne)

erase_at-contains :
    (xs : List String) (i : ℕ) (key : String)
    → contains xs key ≡ false
    → contains (erase_at xs i) key ≡ false
unfolding contains
erase_at-contains [] i key h = h
erase_at-contains (x ∷ xs) zero key h = ground arith
erase_at-contains (x ∷ xs) (suc i) key h = ground (arith, erase_at-contains xs i key)

pub erase_at-Distinct : (xs : List String) (i : ℕ) → Distinct xs → Distinct (erase_at xs i)
erase_at-Distinct [] i h = h
erase_at-Distinct (x ∷ xs) zero h = h.1
erase_at-Distinct (x ∷ xs) (suc i) h = (erase_at-contains xs i x h.0, erase_at-Distinct xs i h.1)
