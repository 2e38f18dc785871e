-- ===== src/Validate/Problem.antt =====
-- The messages of `Validate` (mihomotui/config_validate.go), one constructor for each, and the way
-- it collects them.
use mihomo_tui.Base.{
  ℕ, String, ◌≡◌, refl, ◌↔◌, Bool, Option, none, some, List, [], ◌∷◌, ◌++◌, arith, ◌==◌,
  if◌then◌else◌,
}
use mihomo_tui.Base.Int.{ℤ}

pub data Problem : Type 0 where
  port_out_of_range : String → ℤ → Problem
  port_conflict : String → String → ℤ → Problem
  controller_has_scheme controller_format controller_port : String → Problem
  mihomo_log_level app_log_level test_url : String → Problem
  resource_url : String → String → Problem
  proxy_mode : String → Problem
  no_default_group no_language : Problem
  subscription_unnamed : ℕ → Problem
  subscription_name_twice subscription_id_twice : String → ℕ → ℕ → Problem
  subscription_no_id subscription_no_url user_agent_too_long : String → Problem
  fetch_strategy : String → String → Problem
  active_out_of_range : ℤ → ℕ → Problem
  pool_id : String → Problem
  pool_unnamed : Problem
  pool_mode : String → String → Problem
  pool_interval pool_empty pool_active : String → Problem
  pool_member_twice pool_member_unknown : String → String → Problem
  pool_member_shared : String → String → String → Problem
  provider_unnamed : ℕ → Problem
  provider_name_twice : String → ℕ → ℕ → Problem
  provider_no_url : String → Problem
  provider_behavior provider_format : String → String → Problem
  provider_interval : String → ℤ → Problem
  rules_uninitialized : Problem
  rule_id rule_order rule_empty rule_no_url rule_behavior rule_format rule_interval :
      String → Problem
  rule_kind : String → String → Problem
  match_disabled match_not_last match_no_group match_count : Problem
  custom_match : String → Problem
  exclude_empty filter_empty : ℕ → Problem
  exclude_invalid filter_invalid : ℕ → String → Problem

-- `if bad { add(p) }`
abbrev pub when : Bool → Problem → List Problem
when bad p = if bad then p ∷ [] else []

-- A map from texts, as the list of its entries, the newest first.
unfoldable pub lookup {ℓ} : {V : Type ℓ} → String → List (String × V) → Option V
lookup key [] = none
lookup key ((k, v) ∷ m) = if k == key then some v else lookup key m

pub append-eq-nil {ℓ} : {A : Type ℓ} (xs ys : List A) → (xs ++ ys ≡ []) ↔ ((xs ≡ []) × (ys ≡ []))
append-eq-nil [] ys = ground arith
append-eq-nil (x ∷ xs) ys = ground arith

-- The problems of all parts, in their order.
abbrev pub concat {ℓ} : {A : Type ℓ} → List (List A) → List A
concat [] = []
concat (xs ∷ xss) = xs ++ concat xss

abbrev pub AllNil {ℓ} : {A : Type ℓ} → List (List A) → Type ℓ
AllNil [] = Unit
AllNil (xs ∷ xss) = (xs ≡ []) × AllNil xss

pub concat-eq-nil {ℓ} : {A : Type ℓ} (xss : List (List A)) → (concat xss ≡ []) ↔ AllNil xss
concat-eq-nil [] = (λ _. tt, λ _. refl)
concat-eq-nil (xs ∷ xss) =
    let parts = append-eq-nil xs (concat xss) in
    let rest = concat-eq-nil xss in
    (λ h. let both = parts.0 h in (both.0, rest.0 both.1), λ h. parts.1 (h.0, rest.1 h.1))
