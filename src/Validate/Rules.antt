-- ===== src/Validate/Rules.antt =====
-- The checks of the built-in rules and the custom rules in `Validate`
-- (mihomotui/config_validate.go).
use mihomo_tui.Base.{
  ℕ, ◌+◌, String, Bool, true, false, ◌||◌, ◌&&◌, not, List, [], ◌∷◌, ◌++◌, map, ◌==◌, is_blank,
  if◌then◌else◌, contains, length, nat_eq, codes, to_upper, trim_space,
}
use mihomo_tui.Base.Int.{ℤ, pos, int_le, int_eq}
use mihomo_tui.Config.{BuiltInRule, kind_literal, kind_provider, kind_match}
use mihomo_tui.Validate.Problem.{
  Problem, rules_uninitialized, rule_id, rule_order, rule_empty, rule_no_url, rule_behavior,
  rule_format, rule_interval, rule_kind, match_disabled, match_not_last, match_no_group,
  match_count, custom_match, when,
}
use mihomo_tui.Validate.Providers.{is_behavior, is_format}

-- `orders[order]`
unfoldable pub has_order : List ℤ → ℤ → Bool
has_order [] order = false
has_order (o ∷ orders) order = int_eq o order || has_order orders order

abbrev pub is_match : BuiltInRule → Bool
is_match r = r.kind == kind_match

-- The `switch` on the kind of a rule; `last` says that the rule stands at the end.
unfoldable pub check_kind : Bool → BuiltInRule → List Problem
check_kind last r =
    if r.kind == kind_literal
    then when (is_blank r.rule) (rule_empty r.name)
    else if r.kind == kind_provider
    then when (is_blank r.url) (rule_no_url r.name)
      ++ (when (not (is_behavior r.behavior)) (rule_behavior r.name)
          ++ (when (not (is_format r.format)) (rule_format r.name)
              ++ when (int_le r.interval (pos 0)) (rule_interval r.name)))
    else if r.kind == kind_match
    then when (not r.enabled) match_disabled
      ++ (when (not last) match_not_last ++ when (is_blank r.proxy_group) match_no_group)
    else rule_kind r.name r.kind ∷ []

-- The loop, with `ids` and `orders`, over the rules from index `i` on.
unfoldable pub check_rules_from : ℕ → List String → List ℤ → List BuiltInRule → List Problem
unfolding has_order
check_rules_from i ids orders [] = []
check_rules_from i ids orders (r ∷ rs) =
    when (is_blank r.id || contains ids r.id) (rule_id r.id)
    ++ (when (not (int_eq r.order (pos i)) || has_order orders r.order) (rule_order r.name)
        ++ (check_kind (nat_eq (length rs) 0) r
            ++ check_rules_from (i + 1) (r.id ∷ ids) (r.order ∷ orders) rs))

-- `matchCount`
unfoldable pub count_match : List BuiltInRule → ℕ
count_match [] = 0
count_match (r ∷ rs) = let n = count_match rs in if is_match r then n + 1 else n

unfoldable pub check_rules : Bool → List BuiltInRule → List Problem
unfolding check_rules_from count_match
check_rules initialized rules =
    if initialized
    then check_rules_from 0 [] [] rules ++ when (not (nat_eq (count_match rules) 1)) match_count
    else rules_uninitialized ∷ []

abbrev pub is_prefix : List ℕ → List ℕ → Bool
is_prefix [] s = true
is_prefix (p ∷ ps) [] = false
is_prefix (p ∷ ps) (c ∷ s) = nat_eq p c && is_prefix ps s

-- `strings.HasPrefix(strings.ToUpper(strings.TrimSpace(rule)), "MATCH,")`
unfoldable pub is_custom_match : String → Bool
unfolding to_upper trim_space
is_custom_match rule = is_prefix (codes "MATCH,") (map to_upper (codes (trim_space rule)))

unfoldable pub check_custom_rules : List String → List Problem
unfolding is_custom_match
check_custom_rules [] = []
check_custom_rules (rule ∷ rules) =
    when (is_custom_match rule) (custom_match rule) ++ check_custom_rules rules
