-- ===== src/Base/Blank.antt =====
-- Blank texts: what `strings.TrimSpace` makes empty.
use Prim.Native.Char.{Char, code}
use Prim.Native.String.{String, ◌++◌ as join}
use Prim.Native.String.append
use mathlib.Core.Path.{subst, sym}
use text.Mathlib.TextLemmas.{cons≢nil}
use mihomo_tui.Base.{
  ◌+◌, ℕ, zero, suc, ◌≡◌, refl, ◌∙◌, Bool, true, false, ◌&&◌, ◌==◌, arith, eq_iff, is_space,
  trim_left, trim_right, trim_space, is_blank, keep_unless_blank, Bool-cases, inl, inr,
}
use mihomo_tui.Base.Fresh.{free_name}
use mihomo_tui.Base.Numbered.{number_name, numbered}

-- Every character is a space.
abbrev pub all_blank : String → Bool
all_blank String.[] = true
all_blank (String.◌∷◌ c s) = is_space (code c) && all_blank s

cons-empty : (c : Char) (s : String) → (String.◌∷◌ c s == "") ≡ false
cons-empty c s = elim (Bool-cases (String.◌∷◌ c s == "")) [
  | inl e ↦ absurd (cons≢nil ((eq_iff (String.◌∷◌ c s) "").0 e))
  | inr e ↦ e
]

trim_left-empty : (s : String) → (trim_left s == "") ≡ all_blank s
unfolding trim_left
trim_left-empty String.[] = refl
trim_left-empty (String.◌∷◌ c s) = elim (Bool-cases (is_space (code c))) [
  | inl e ↦ simp e (trim_left-empty s)
  | inr e ↦ simp e (cons-empty c s)
]

all_blank-trim_left : (s : String) → all_blank (trim_left s) ≡ all_blank s
unfolding trim_left
all_blank-trim_left String.[] = refl
all_blank-trim_left (String.◌∷◌ c s) = ground (arith, all_blank-trim_left s)

all_blank-keep :
    (c : Char) (s : String) → all_blank (keep_unless_blank c s) ≡ (is_space (code c) && all_blank s)
all_blank-keep c String.[] = elim (Bool-cases (is_space (code c))) [
  | inl e ↦ simp e refl
  | inr e ↦ simp e refl
]
all_blank-keep c (String.◌∷◌ d s) = refl

all_blank-trim_right : (s : String) → all_blank (trim_right s) ≡ all_blank s
unfolding trim_right
all_blank-trim_right String.[] = refl
all_blank-trim_right (String.◌∷◌ c s) =
    ground (arith, all_blank-keep c (trim_right s), all_blank-trim_right s)

trim_space-empty : (s : String) → (trim_space s == "") ≡ all_blank s
unfolding trim_space
trim_space-empty s = trim_left-empty (trim_right s) ∙ all_blank-trim_right s

all_blank-trim_space : (s : String) → all_blank (trim_space s) ≡ all_blank s
unfolding trim_space
all_blank-trim_space s = all_blank-trim_left (trim_right s) ∙ all_blank-trim_right s

pub is_blank_lem : (s : String) → is_blank s ≡ all_blank s
unfolding is_blank
is_blank_lem s = trim_space-empty s

-- A trimmed text is blank only if it is empty.
pub is_blank-trim_space : (s : String) → is_blank (trim_space s) ≡ (trim_space s == "")
unfolding is_blank
is_blank-trim_space s =
    trim_space-empty (trim_space s) ∙ all_blank-trim_space s ∙ sym (trim_space-empty s)

all_blank-append : (s t : String) → all_blank s ≡ false → all_blank (join s t) ≡ false
all_blank-append String.[] t h = cc
all_blank-append (String.◌∷◌ c s) t h =
    subst (λ u. all_blank u ≡ false) (sym (append.cons c s t))
      (ground (arith, all_blank-append s t))

numbered-IsFilled :
    (decimal : ℕ → String) (base : String) (k : ℕ)
    → all_blank base ≡ false
    → all_blank (numbered decimal base k) ≡ false
numbered-IsFilled decimal base zero h = h
numbered-IsFilled decimal base (suc k) h = all_blank-append base (decimal (k + 2)) h

free_name-IsFilled :
    (key : ℕ → String) (taken : String → Bool) (rounds k : ℕ)
    → ((k : ℕ) → all_blank (key k) ≡ false)
    → all_blank (free_name key suc taken rounds k) ≡ false
unfolding free_name
free_name-IsFilled key taken zero k h = h k
free_name-IsFilled key taken (suc rounds) k h =
    ground (arith, h k, free_name-IsFilled key taken rounds (suc k) h)

-- Numbering keeps a name from being blank.
pub number_name-is_blank :
    (decimal : ℕ → String) (taken : String → Bool) (base : String) (rounds : ℕ)
    → is_blank base ≡ false
    → is_blank (number_name decimal taken base rounds) ≡ false
unfolding number_name
number_name-is_blank decimal taken base rounds h =
    is_blank_lem (number_name decimal taken base rounds)
    ∙ free_name-IsFilled (numbered decimal base) taken rounds 0
        (λ k. numbered-IsFilled decimal base k (sym (is_blank_lem base) ∙ h))
