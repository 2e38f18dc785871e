-- ===== src/Base/Updates.antt =====
-- A list after the write of one element or the append of one.
use mathlib.Core.Path.{subst}
use mihomo_tui.Base.{
  ℕ, zero, suc, String, ◌≡◌, refl, sym, ap, ◌∙◌, false, some, List, [], ◌∷◌, ◌++◌, map, modify,
  get_elem?, arith, length, All, Distinct, contains, contains-append, eq_iff,
}

pub All-modify {ℓ κ} :
    {A : Type ℓ} (P : A → Type κ) (xs : List A) (i : ℕ) (y : A)
    → All P xs
    → P y
    → All P (modify xs i (λ _. y))
All-modify P [] i y h p = h
All-modify P (x ∷ xs) zero y h p = (p, h.1)
All-modify P (x ∷ xs) (suc i) y h p = (h.0, All-modify P xs i y h.1 p)

pub All-at {ℓ κ} :
    {A : Type ℓ} (P : A → Type κ) (xs : List A) (i : ℕ) (x : A)
    → All P xs
    → get_elem? xs i ≡ some x
    → P x
All-at P [] i x h at = cc
All-at P (y ∷ xs) zero x h at = let same : y ≡ x = ground (arith, at) in subst P same h.0
All-at P (y ∷ xs) (suc i) x h at = All-at P xs i x h.1 at

pub map-modify {ℓ} :
    {A : Type ℓ} (f : A → String) (xs : List A) (i : ℕ) (x y : A)
    → get_elem? xs i ≡ some x
    → f y ≡ f x
    → map f (modify xs i (λ _. y)) ≡ map f xs
map-modify f [] i x y at same = refl
map-modify f (z ∷ xs) zero x y at same =
    let here : z ≡ x = ground (arith, at) in ap (λ t. t ∷ map f xs) (same ∙ sym (ap f here))
map-modify f (z ∷ xs) (suc i) x y at same = ap (λ t. f z ∷ t) (map-modify f xs i x y at same)

pub All-append {ℓ κ} :
    {A : Type ℓ} (P : A → Type κ) (xs : List A) (y : A) → All P xs → P y → All P (xs ++ y ∷ [])
All-append P [] y h p = (p, tt)
All-append P (x ∷ xs) y h p = (h.0, All-append P xs y h.1 p)

pub map-append {ℓ} :
    {A : Type ℓ} (f : A → String) (xs : List A) (y : A)
    → map f (xs ++ y ∷ []) ≡ map f xs ++ f y ∷ []
map-append f [] y = refl
map-append f (x ∷ xs) y = ap (λ t. f x ∷ t) (map-append f xs y)

pub Distinct-append_last :
    (xs : List String) (y : String) → Distinct xs → contains xs y ≡ false → Distinct (xs ++ y ∷ [])
unfolding contains
Distinct-append_last [] y d h = (refl, tt)
Distinct-append_last (x ∷ xs) y d h =
    ground
      (arith, contains-append xs (y ∷ []) x, eq_iff x y, eq_iff y x, Distinct-append_last xs y d.1)

-- The same for a write that depends on the old element.
pub All-write {ℓ κ} :
    {A : Type ℓ} (P : A → Type κ) (xs : List A) (i : ℕ) (f : A → A) (x : A)
    → get_elem? xs i ≡ some x
    → All P xs
    → P (f x)
    → All P (modify xs i f)
All-write P [] i f x at h p = h
All-write P (y ∷ xs) zero f x at h p =
    let here : x ≡ y = ground (arith, at) in (subst (λ t. P (f t)) here p, h.1)
All-write P (y ∷ xs) (suc i) f x at h p = (h.0, All-write P xs i f x at h.1 p)

pub map-write {ℓ} :
    {A : Type ℓ} (g : A → String) (xs : List A) (i : ℕ) (f : A → A) (x : A)
    → get_elem? xs i ≡ some x
    → g (f x) ≡ g x
    → map g (modify xs i f) ≡ map g xs
map-write g [] i f x at same = refl
map-write g (y ∷ xs) zero f x at same =
    let here : x ≡ y = ground (arith, at) in
    ap (λ t. t ∷ map g xs) (subst (λ t. g (f t) ≡ g t) here same)
map-write g (y ∷ xs) (suc i) f x at same = ap (λ t. g y ∷ t) (map-write g xs i f x at same)

pub length-map {ℓ} : {A : Type ℓ} (f : A → String) (xs : List A) → length (map f xs) ≡ length xs
length-map f [] = refl
length-map f (x ∷ xs) = ap suc (length-map f xs)
