-- ===== src/Generate/MatchLast.antt =====
-- Which rules of the generated configuration catch every connection.
use Prim.Native.Char.{Char, code}
use Prim.Native.String.{◌++◌ as join}
use Prim.Native.String.append
use mathlib.Core.Path.{subst}
use mihomo_tui.Base.{
  Option-cases, keep_unless_blank, trim_left, trim_right, codes, map, String, Bool, false, ◌&&◌,
  List, [], ◌∷◌, ◌++◌, ◌≡◌, refl, sym, ap, ◌∙◌, arith, eq_iff, All, ◌==◌, ◌↔◌, trim_space, is_space,
  to_upper, inl, inr, nat_eq,
}
use mihomo_tui.Config.{Config, BuiltInRule, RuleProviderSubscription, kind_literal, kind_match}
use mihomo_tui.Validate.Hosts.{NetParsers}
use mihomo_tui.Validate.Rules.{is_prefix, is_custom_match}
use mihomo_tui.Validate.RuleSpec.{EndsWithMatch}
use mihomo_tui.Validate.Spec.{IsValid}
use mihomo_tui.Generate.{Formats}
use mihomo_tui.Generate.RuleLines.{
  built_in_provider, normalize_rule_group, default_group_of, rule_set_line, match_lines,
  build_rule_config, group_or_default, rule_provider_from_subscription,
}
use mihomo_tui.Generate.RuleLaws.{
  custom_lines, built_in_line, built_in_lines, rules-build_rule_config,
}

abbrev AreOther : List String → Type 0
AreOther = All (λ r. is_custom_match r ≡ false)

AreOther-append : (xs ys : List String) → AreOther (xs ++ ys) ↔ (AreOther xs × AreOther ys)
AreOther-append [] ys = ground arith
AreOther-append (x ∷ xs) ys = ground (arith, AreOther-append xs ys)

keep_unless_blank-first :
    (c : Char) (t : String)
    → is_space (code c) ≡ false
    → (u : String) × (keep_unless_blank c t ≡ String.◌∷◌ c u)
keep_unless_blank-first c String.[] h = (String.[], ground (arith, h))
keep_unless_blank-first c (String.◌∷◌ d t) h = (String.◌∷◌ d t, refl)

trim_space-first :
    (c : Char) (s : String)
    → is_space (code c) ≡ false
    → (u : String) × (trim_space (String.◌∷◌ c s) ≡ String.◌∷◌ c u)
unfolding trim_space trim_right trim_left
trim_space-first c s h =
    let (u, e) = keep_unless_blank-first c (trim_right s) h in
    (u, ap trim_left e ∙ ground (arith, h))

-- A text whose first character is neither blank nor an M is no MATCH rule.
is_custom_match-first :
    (c : Char) (s : String)
    → is_space (code c) ≡ false
    → nat_eq (to_upper (code c)) b'M' ≡ false
    → is_custom_match (String.◌∷◌ c s) ≡ false
unfolding is_custom_match
is_custom_match-first c s h m =
    let (u, e) = trim_space-first c s h in
    subst (λ t. is_prefix (codes "MATCH,") (map to_upper (codes t)) ≡ false) (sym e)
      (ground (arith, m))

rule_set_line-IsOther : (name group : String) → is_custom_match (rule_set_line name group) ≡ false
unfolding rule_set_line is_space to_upper
rule_set_line-IsOther name group =
    let rest = join name (join "," group) in
    subst (λ t. is_custom_match t ≡ false) (sym (append.cons "R" "ULE-SET," rest))
      (is_custom_match-first "R" (join "ULE-SET," rest) refl refl)

match_lines_lem :
    (formats : Formats) (c : Config) (rules : List BuiltInRule)
    → EndsWithMatch rules
    → (entry : BuiltInRule) × (match_lines formats c rules
        ≡ join "MATCH," (group_or_default c entry.proxy_group) ∷ [])
unfolding match_lines
match_lines_lem formats c [] h = elim h [ ]
match_lines_lem formats c (r ∷ []) h = (r, ground (arith, h))
match_lines_lem formats c (r ∷ s ∷ rules) h =
    let (entry, e) = match_lines_lem formats c (s ∷ rules) h.1 in (entry, ground (arith, h.0, e))

-- An enabled literal rule that is a MATCH rule once its group is put in.
abbrev pub is_literal_match : Config → BuiltInRule → Bool
is_literal_match c entry =
    entry.kind == kind_literal
    && (entry.enabled && is_custom_match (normalize_rule_group entry.rule (default_group_of c)))

custom_lines-AreOther :
    (formats : Formats) (c : Config) (rps : List RuleProviderSubscription)
    → AreOther (custom_lines formats c rps)
unfolding custom_lines
custom_lines-AreOther formats c [] = tt
custom_lines-AreOther formats c (rp ∷ rps) =
    elim (Option-cases (rule_provider_from_subscription formats c rp "custom-")) [
      | inl e ↦ ground (arith, e, custom_lines-AreOther formats c rps)
      | inr (p, e) ↦
          ground
            (arith, e, rule_set_line-IsOther p.name p.group, custom_lines-AreOther formats c rps)
    ]

built_in_line_iff :
    (formats : Formats) (c : Config) (entry : BuiltInRule)
    → AreOther (built_in_line formats c entry) ↔ (is_literal_match c entry ≡ false)
unfolding built_in_line
built_in_line_iff formats c entry =
    let p = built_in_provider formats c entry in
    ground (
      arith,
      rule_set_line-IsOther p.name p.group,
      eq_iff entry.kind kind_literal,
      eq_iff entry.kind kind_match,
      eq_iff kind_literal kind_match,
    )

built_in_lines_iff :
    (formats : Formats) (c : Config) (entries : List BuiltInRule)
    → AreOther (built_in_lines formats c entries) ↔ All (λ e. is_literal_match c e ≡ false) entries
unfolding built_in_lines
built_in_lines_iff formats c [] = ground arith
built_in_lines_iff formats c (entry ∷ entries) = ground (
  arith,
  AreOther-append (built_in_line formats c entry) (built_in_lines formats c entries),
  built_in_line_iff formats c entry,
  built_in_lines_iff formats c entries,
)

-- In a mode that is neither global nor direct, the rules of a valid configuration end with a MATCH
-- rule, and no rule before it is a MATCH rule exactly when no enabled built-in literal is one.
pub build_rule_config-match :
    (formats : Formats) (net : NetParsers) (c : Config)
    → IsValid net c
    → (c.proxy_mode == "global") ≡ false
    → (c.proxy_mode == "direct") ≡ false
    → (before : List String) × (group : String) × ((build_rule_config formats c).rules
        ≡ before ++ join "MATCH," group ∷ [])
      × (All (λ r. is_custom_match r ≡ false) before
          ↔ All (λ e. is_literal_match c e ≡ false) c.built_in_rules)
build_rule_config-match formats net c valid g d =
    let customs = custom_lines formats c c.rule_provider_subscriptions in
    let built_in = built_in_lines formats c c.built_in_rules in
    let (entry, last) = match_lines_lem formats c c.built_in_rules valid.rules.ends in
    let before = c.pre_custom_rules ++ (customs ++ (built_in ++ c.post_custom_rules)) in
    (
      before,
      group_or_default c entry.proxy_group,
      rules-build_rule_config formats c g d ∙ ap (λ l. before ++ l) last,
      ground (
        arith,
        valid.custom,
        AreOther-append c.pre_custom_rules c.post_custom_rules,
        AreOther-append c.pre_custom_rules (customs ++ (built_in ++ c.post_custom_rules)),
        AreOther-append customs (built_in ++ c.post_custom_rules),
        AreOther-append built_in c.post_custom_rules,
        custom_lines-AreOther formats c c.rule_provider_subscriptions,
        built_in_lines_iff formats c c.built_in_rules,
      ),
    )
