-- ===== src/Validate/Providers.antt =====
-- The rule-provider checks of `Validate` (mihomotui/config_validate.go).
use mihomo_tui.Base.{
  ℕ, ◌+◌, String, ◌≡◌, ◌↔◌, Bool, true, false, ◌||◌, not, List, [], ◌∷◌, ◌++◌, map, arith, ◌==◌,
  Distinct, is_blank, All,
}
use mihomo_tui.Base.Int.{pos, int_le}
use mihomo_tui.Config.{RuleProviderSubscription}
use mihomo_tui.Validate.Problem.{
  Problem, provider_unnamed, provider_name_twice, provider_no_url, provider_behavior,
  provider_format, provider_interval, when, append-eq-nil,
}
use mihomo_tui.Validate.Unique.{check_unique, AreNew, AreNew-cons, AreNew-nil}

-- `validRuleProviderBehaviors`
unfoldable pub is_behavior : String → Bool
is_behavior b = b == "classical" || b == "domain" || b == "ipcidr"

-- `validRuleProviderFormats`
unfoldable pub is_format : String → Bool
is_format f = f == "yaml" || f == "text" || f == "mrs"

-- The checks of one provider that look at no other.
unfoldable pub check_provider : RuleProviderSubscription → List Problem
unfolding is_behavior is_format
check_provider r =
    when (is_blank r.url) (provider_no_url r.name)
    ++ (when (not (is_behavior r.behavior)) (provider_behavior r.name r.behavior)
        ++ (when (not (is_format r.format)) (provider_format r.name r.format)
            ++ when (int_le r.interval (pos 0)) (provider_interval r.name r.interval)))

-- The loop, with `rpNames`.
unfoldable pub check_providers :
    ℕ → List (String × ℕ) → List RuleProviderSubscription → List Problem
unfolding check_unique
check_providers i seen [] = []
check_providers i seen (r ∷ rs) =
    let (p, seen') =
      check_unique (is_blank r.name) (provider_unnamed (i + 1))
        (λ prev. provider_name_twice r.name (prev + 1) (i + 1)) r.name i seen in
    p ++ (check_provider r ++ check_providers (i + 1) seen' rs)

-- The specification of one provider.
pub record IsProvider (r : RuleProviderSubscription) : Type 0 where
  pub named : is_blank r.name ≡ false
  pub located : is_blank r.url ≡ false
  pub behavior_known : is_behavior r.behavior ≡ true
  pub format_known : is_format r.format ≡ true
  pub interval_positive : int_le r.interval (pos 0) ≡ false

abbrev pub provider_names : List RuleProviderSubscription → List String
provider_names = map (λ r. r.name)

check_provider_iff :
    (r : RuleProviderSubscription)
    → (check_provider r ≡ []) ↔ (
        (is_blank r.url ≡ false)
        × (is_behavior r.behavior ≡ true)
        × (is_format r.format ≡ true)
        × (int_le r.interval (pos 0) ≡ false))
unfolding check_provider
check_provider_iff r = ground arith

check_providers_from :
    (i : ℕ) (seen : List (String × ℕ)) (rs : List RuleProviderSubscription)
    → (check_providers i seen rs ≡ [])
      ↔ (All IsProvider rs × Distinct (provider_names rs) × AreNew (provider_names rs) seen)
unfolding check_providers
check_providers_from i seen [] = ground arith
check_providers_from i seen (r ∷ rs) = ground (
  arith,
  append-eq-nil (check_provider r) (check_providers (i + 1) ((r.name, i) ∷ seen) rs),
  check_provider_iff r,
  check_providers_from (i + 1) ((r.name, i) ∷ seen) rs,
  AreNew-cons (provider_names rs) r.name i seen,
)

-- The rule-provider checks report nothing exactly when every provider has a name, a link, a known
-- behavior, a known format and a positive interval, and no two names are equal.
pub check_providers_iff :
    (rs : List RuleProviderSubscription)
    → (check_providers 0 [] rs ≡ []) ↔ (All IsProvider rs × Distinct (provider_names rs))
check_providers_iff rs =
    let both = check_providers_from 0 [] rs in
    (
      λ h. let fresh = both.0 h in (fresh.0, fresh.1),
      λ h. both.1 (h.0, h.1, AreNew-nil (provider_names rs)),
    )
