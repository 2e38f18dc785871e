-- ===== src/Base/Numbered.antt =====
-- The loops `for i := 2; taken(name); i++ { name = fmt.Sprintf("%s%d", base, i) }`.
use Prim.Native.String.{◌++◌ as join}
use mathlib.Core.Path.{sym}
use text.Mathlib.TextLemmas.{append_cancel_left, append-nil}
use mihomo_tui.Base.{
  ℕ, zero, suc, ◌+◌, ◌<◌, String, ◌≡◌, ◌≢◌, refl, ◌∙◌, Bool, false, List, arith, contains, length,
}
use mihomo_tui.Base.Fresh.{free_name, free_name-free}

-- What `%d` promises: distinct numbers have distinct digits, and some.
pub record IsDecimal (decimal : ℕ → String) : Type 0 where
  pub injective : (m n : ℕ) → decimal m ≡ decimal n → m ≡ n
  pub filled : (n : ℕ) → decimal n ≢ ""

-- The name after a number of rounds.
abbrev pub numbered : (ℕ → String) → String → ℕ → String
numbered decimal base zero = base
numbered decimal base (suc k) = join base (decimal (k + 2))

-- The loop, for `rounds` at most.
unfoldable pub number_name : (ℕ → String) → (String → Bool) → String → ℕ → String
unfolding free_name
number_name decimal taken base rounds = free_name (numbered decimal base) suc taken rounds 0

module _ (decimal : ℕ → String) (digits : IsDecimal decimal) (base : String) where
  numbered-injective : (m n : ℕ) → numbered decimal base m ≡ numbered decimal base n → m ≡ n
  numbered-injective zero zero h = refl
  numbered-injective zero (suc n) h = absurd (
      digits.filled (n + 2)
        (sym (append_cancel_left base "" (decimal (n + 2)) (append-nil base ∙ h))))
  numbered-injective (suc m) zero h = absurd (
      digits.filled (m + 2)
        (append_cancel_left base (decimal (m + 2)) "" (h ∙ sym (append-nil base))))
  numbered-injective (suc m) (suc n) h =
      let same =
        digits.injective (m + 2) (n + 2)
          (append_cancel_left base (decimal (m + 2)) (decimal (n + 2)) h) in
      omega (arith, same)

  -- With one round more than there are names, the loop ends at a name that is not taken.
  pub number_name-free :
      (taken : String → Bool) (used : List String) (rounds : ℕ)
      → ((name : String) → taken name ≡ contains used name)
      → length used < rounds
      → taken (number_name decimal taken base rounds) ≡ false
  unfolding number_name
  number_name-free taken used rounds same h =
      free_name-free (numbered decimal base) suc (λ k. k) (λ k. omega arith) numbered-injective
        taken used rounds 0 same h
