-- ===== src/Base/Maps.antt =====
-- Go maps from texts as association lists, and the loop `if seen[x] { continue }; seen[x] = true`.
use mihomo_tui.Base.{
  String, ◌≡◌, refl, true, false, ◌&&◌, ◌||◌, not, List, [], ◌∷◌, ◌++◌, arith, ◌==◌, eq_iff,
  contains, Distinct, if◌then◌else◌, ap,
}

module _ {ℓ} {V : Type ℓ} where
  -- `m[key] = value`
  unfoldable pub put : String → V → List (String × V) → List (String × V)
  put key value [] = (key, value) ∷ []
  put key value ((k, v) ∷ m) =
      let rest = put key value m in if k == key then (key, value) ∷ m else (k, v) ∷ rest

  abbrev pub keys : List (String × V) → List String
  keys [] = []
  keys ((k, v) ∷ m) = k ∷ keys m

  pub put-keys :
      (key other : String) (value : V) (m : List (String × V))
      → contains (keys (put key value m)) other ≡ (contains (keys m) other || key == other)
  unfolding put contains
  put-keys key other value [] = ground arith
  put-keys key other value ((k, v) ∷ m) =
      ground (arith, eq_iff k key, eq_iff k other, eq_iff key other, put-keys key other value m)

  -- A new key goes to the end.
  pub put-fresh :
      (key : String) (value : V) (m : List (String × V))
      → contains (keys m) key ≡ false
      → put key value m ≡ m ++ (key, value) ∷ []
  unfolding put contains
  put-fresh key value [] h = refl
  put-fresh key value ((k, v) ∷ m) h = ground (arith, eq_iff k key, put-fresh key value m)

  pub keys-append : (m n : List (String × V)) → keys (m ++ n) ≡ keys m ++ keys n
  keys-append [] n = refl
  keys-append ((k, v) ∷ m) n = ap (λ t. k ∷ t) (keys-append m n)

-- The elements that are not among the seen ones, each once, in order.
unfoldable pub keep_new : List String → List String → List String
unfolding contains
keep_new seen [] = []
keep_new seen (x ∷ xs) = elim (contains seen x) [
  | true ↦ keep_new seen xs
  | false ↦ x ∷ keep_new (x ∷ seen) xs
]

pub contains-keep_new :
    (seen xs : List String) (key : String)
    → contains (keep_new seen xs) key ≡ (not (contains seen key) && contains xs key)
unfolding keep_new contains
contains-keep_new seen [] key = ground arith
contains-keep_new seen (x ∷ xs) key =
    ground (arith, eq_iff x key, contains-keep_new seen xs key, contains-keep_new (x ∷ seen) xs key)

pub keep_new-Distinct : (seen xs : List String) → Distinct (keep_new seen xs)
unfolding keep_new contains
keep_new-Distinct seen [] = tt
keep_new-Distinct seen (x ∷ xs) = ground (
  arith,
  eq_iff x x,
  contains-keep_new (x ∷ seen) xs x,
  keep_new-Distinct seen xs,
  keep_new-Distinct (x ∷ seen) xs,
)
