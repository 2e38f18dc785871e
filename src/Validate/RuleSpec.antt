-- ===== src/Validate/RuleSpec.antt =====
-- What the built-in-rule checks of `Validate` (mihomotui/config_validate.go) ask for, as a
-- specification.
use mihomo_tui.Base.{
  ℕ, ◌+◌, String, ◌≡◌, refl, ◌↔◌, ◌⊎◌, Bool, true, false, not, List, [], ◌∷◌, map, arith, eq_iff,
  Distinct, Disjoint, Disjoint-cons, Disjoint-nil, is_blank, All, length, nat_eq,
}
use mihomo_tui.Base.Int.{ℤ, pos, int_le, int_lt, int_eq_iff}
use mihomo_tui.Config.{BuiltInRule, kind_literal, kind_provider, kind_match}
use mihomo_tui.Validate.Problem.{match_count, when, append-eq-nil}
use mihomo_tui.Validate.Providers.{is_behavior, is_format}
use mihomo_tui.Validate.Rules.{
  has_order, is_match, check_kind, check_rules_from, count_match, check_rules,
}

-- The fields that the kind of a rule asks for.
abbrev pub IsFilled : BuiltInRule → Type 0
IsFilled r =
    ((r.kind ≡ kind_literal) × (is_blank r.rule ≡ false))
    ⊎ ((r.kind ≡ kind_provider)
        × (is_blank r.url ≡ false)
        × (is_behavior r.behavior ≡ true)
        × (is_format r.format ≡ true)
        × (int_le r.interval (pos 0) ≡ false))
    ⊎ ((r.kind ≡ kind_match) × (r.enabled ≡ true) × (is_blank r.proxy_group ≡ false))

abbrev pub rule_ids : List BuiltInRule → List String
rule_ids = map (λ r. r.id)

-- The orders of the rules are `i`, `i + 1` and so on.
abbrev pub InOrder : ℕ → List BuiltInRule → Type 0
InOrder i [] = Unit
InOrder i (r ∷ rs) = (r.order ≡ pos i) × InOrder (i + 1) rs

-- The last rule is the only MATCH rule, and there is one.
abbrev pub EndsWithMatch : List BuiltInRule → Type 0
EndsWithMatch [] = ⊥
EndsWithMatch (r ∷ []) = is_match r ≡ true
EndsWithMatch (r ∷ s ∷ rs) = (is_match r ≡ false) × EndsWithMatch (s ∷ rs)

pub record AreRules (rules : List BuiltInRule) : Type 0 where
  pub each : All (λ r. (is_blank r.id ≡ false) × IsFilled r) rules
  pub ids_distinct : Distinct (rule_ids rules)
  pub in_order : InOrder 0 rules
  pub ends : EndsWithMatch rules

abbrev OnlyLastMatch : List BuiltInRule → Type 0
OnlyLastMatch [] = Unit
OnlyLastMatch (r ∷ rs) = ((is_match r ≡ false) ⊎ (nat_eq (length rs) 0 ≡ true)) × OnlyLastMatch rs

check_kind_iff :
    (last : Bool) (r : BuiltInRule)
    → (check_kind last r ≡ []) ↔ (IsFilled r × ((is_match r ≡ false) ⊎ (last ≡ true)))
unfolding check_kind
check_kind_iff last r = ground (
  arith,
  eq_iff r.kind kind_literal,
  eq_iff r.kind kind_provider,
  eq_iff r.kind kind_match,
  eq_iff kind_literal kind_provider,
  eq_iff kind_literal kind_match,
  eq_iff kind_provider kind_match,
)

-- The orders seen so far lie below `i`.
abbrev Below : ℕ → List ℤ → Type 0
Below i = All (λ o. int_lt o (pos i) ≡ true)

Below-suc : (i : ℕ) (orders : List ℤ) → Below i orders → Below (i + 1) orders
Below-suc i [] h = tt
Below-suc i (o ∷ orders) h = ground (arith, Below-suc i orders h.1)

Below-has_order : (i : ℕ) (orders : List ℤ) → Below i orders → has_order orders (pos i) ≡ false
unfolding has_order
Below-has_order i [] h = refl
Below-has_order i (o ∷ orders) h = ground (arith, Below-has_order i orders h.1)

abbrev IsFresh : ℕ → List String → List BuiltInRule → Type 0
IsFresh i ids rs =
    All (λ r. (is_blank r.id ≡ false) × IsFilled r) rs
    × Distinct (rule_ids rs)
    × Disjoint (rule_ids rs) ids
    × InOrder i rs
    × OnlyLastMatch rs

check_rules_from_iff :
    (i : ℕ) (ids : List String) (orders : List ℤ) (rs : List BuiltInRule)
    → Below i orders
    → (check_rules_from i ids orders rs ≡ []) ↔ IsFresh i ids rs
unfolding check_rules_from
check_rules_from_iff i ids orders [] h = ground arith
check_rules_from_iff i ids orders (r ∷ rs) h =
    let last = nat_eq (length rs) 0 in
    let rest = check_rules_from (i + 1) (r.id ∷ ids) (r.order ∷ orders) rs in
    ground (
      arith,
      append-eq-nil (check_kind last r) rest,
      check_kind_iff last r,
      int_eq_iff r.order (pos i),
      Below-has_order i orders h,
      λ (below : int_lt r.order (pos (i + 1)) ≡ true).
          check_rules_from_iff (i + 1) (r.id ∷ ids) (r.order ∷ orders) rs
            (below, Below-suc i orders h),
      Disjoint-cons (rule_ids rs) r.id ids,
    )

only_last_iff :
    (rs : List BuiltInRule) → (OnlyLastMatch rs × (count_match rs ≡ 1)) ↔ EndsWithMatch rs
unfolding count_match
only_last_iff [] = ground arith
only_last_iff (r ∷ []) = ground arith
only_last_iff (r ∷ s ∷ rs) = ground (arith, only_last_iff (s ∷ rs))

-- The built-in-rule checks report nothing exactly when the rules are initialized, every rule has an
-- identifier and the fields that its kind asks for, no two identifiers are equal, the orders are the
-- positions from 0 on, and the last rule, and no other, is a MATCH rule.
pub check_rules_iff :
    (initialized : Bool) (rules : List BuiltInRule)
    → (check_rules initialized rules ≡ []) ↔ ((initialized ≡ true) × AreRules rules)
unfolding check_rules
check_rules_iff false rules = ground arith
check_rules_iff true rules =
    let found = check_rules_from 0 [] [] rules in
    let once = when (not (nat_eq (count_match rules) 1)) match_count in
    let parts = append-eq-nil found once in
    let loop = check_rules_from_iff 0 [] [] rules tt in
    let last = only_last_iff rules in
    (
      λ h.
          let (clean, one) = parts.0 h in
          let fresh = loop.0 clean in
          (
            refl,
            record {
              each = fresh.0;
              ids_distinct = fresh.1;
              in_order = fresh.3;
              ends = last.0 (fresh.4, ground arith);
            },
          ),
      λ h.
          let rules_valid = h.1 in
          let (only, one) = last.1 rules_valid.ends in
          parts.1 (
            loop.1 (
              rules_valid.each,
              rules_valid.ids_distinct,
              Disjoint-nil (rule_ids rules),
              rules_valid.in_order,
              only,
            ),
            ground arith,
          ),
    )
