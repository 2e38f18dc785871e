-- ===== src/RuleProviders/Laws.antt =====
-- The requests about rule subscriptions (mihomotui/daemon_handlers_ruleprovider.go) against the
-- specification of a valid configuration.
use mathlib.Core.Path.{subst}
use mihomo_tui.Base.{
  if◌then◌else◌, ℕ, suc, String, ◌≡◌, refl, sym, ◌∙◌, true, false, some, List, [], ◌∷◌, ◌++◌, ◌==◌,
  modify, get_elem?, length, arith, contains, Distinct, Bool-cases, inl, inr, trim_space, is_blank,
  All,
}
use mihomo_tui.Base.Blank.{is_blank-trim_space, number_name-is_blank}
use mihomo_tui.Base.Int.{pos, int_le}
use mihomo_tui.Base.Numbered.{IsDecimal, number_name, number_name-free}
use mihomo_tui.Base.Result.{Result-cases, ok}
use mihomo_tui.Base.Updates.{
  All-append, map-append, Distinct-append_last, All-write, map-write, length-map,
}
use mihomo_tui.Config.{Config, RuleProviderSubscription}
use mihomo_tui.Config.Lookup.{is_some-find_index, find_rule_provider_by_name}
use mihomo_tui.Validate.Hosts.{NetParsers}
use mihomo_tui.Validate.Providers.{IsProvider, provider_names, is_behavior, is_format}
use mihomo_tui.Validate.Spec.{IsValid}
use mihomo_tui.Subscriptions.Import.{Naming}
use mihomo_tui.RuleProviders.{
  Links, ImportRequest, Answer, Wanted, normalize_behavior, normalize_format, fetch_rule_provider,
  has_rule_provider, unique_rule_provider_name, wanted_for, read_request,
}

normalize_behavior-known :
    (links : Links) (raw b : String) → normalize_behavior links raw ≡ ok b → is_behavior b ≡ true
unfolding normalize_behavior is_behavior
normalize_behavior-known links raw b h =
    let read = links.lower (trim_space raw) in
    elim (Bool-cases (read == "")) [
      | inl e ↦
          let same : "classical" ≡ b = ground (arith, e, h) in
          subst (λ t. is_behavior t ≡ true) same refl
      | inr e ↦ elim (Bool-cases (is_behavior read)) [
        | inl known ↦
            let same : read ≡ b = ground (arith, e, known, h) in
            subst (λ t. is_behavior t ≡ true) same known
        | inr other ↦ absurd (ground (arith, e, other, h))
      ]
    ]

normalize_format-known :
    (links : Links) (raw f : String) → normalize_format links raw ≡ ok f → is_format f ≡ true
unfolding normalize_format is_format
normalize_format-known links raw f h =
    let read = links.lower (trim_space raw) in
    elim (Bool-cases (read == "")) [
      | inl e ↦
          let same : "yaml" ≡ f = ground (arith, e, h) in subst (λ t. is_format t ≡ true) same refl
      | inr e ↦ elim (Bool-cases (is_format read)) [
        | inl known ↦
            let same : read ≡ f = ground (arith, e, known, h) in
            subst (λ t. is_format t ≡ true) same known
        | inr other ↦ absurd (ground (arith, e, other, h))
      ]
    ]

-- What a request that is read asks for is in order, whatever its name is.
pub record IsWanted (links : Links) (w : Wanted) : Type 0 where
  pub accepted : links.accepts w.url ≡ true
  pub behavior_known : is_behavior w.behavior ≡ true
  pub format_known : is_format w.format ≡ true
  pub interval_positive : int_le w.interval (pos 0) ≡ false

fetch_rule_provider-accepts :
    (links : Links) (answer : Answer) (url : String)
    → fetch_rule_provider links answer url ≡ ok tt
    → links.accepts url ≡ true
unfolding fetch_rule_provider
fetch_rule_provider-accepts links answer url h = elim (Bool-cases (links.accepts url)) [
  | inl e ↦ e
  | inr e ↦ absurd (ground (arith, e, h))
]

pub read_request-IsWanted :
    (links : Links) (naming : Naming) (answer : Answer) (req : ImportRequest) (w : Wanted)
    → read_request links naming answer req ≡ ok w
    → IsWanted links w
unfolding read_request
read_request-IsWanted links naming answer req w h =
    let fetched = fetch_rule_provider links answer req.url in
    let behavior = normalize_behavior links req.behavior in
    let format = normalize_format links req.format in
    elim (Result-cases fetched) [
      | inr (e, f) ↦ absurd (ground (arith, f, h))
      | inl (done, f) ↦ elim (Result-cases behavior) [
        | inr (e, b) ↦ absurd (ground (arith, f, b, h))
        | inl (known, b) ↦ elim (Result-cases format) [
          | inr (e, g) ↦ absurd (ground (arith, f, b, g, h))
          | inl (ending, g) ↦
              let w' = wanted_for naming req known ending in
              let same : w' ≡ w = ground (arith, f, b, g, h) in
              subst (IsWanted links) same (record {
                accepted = fetch_rule_provider-accepts links answer req.url f;
                behavior_known = normalize_behavior-known links req.behavior known b;
                format_known = normalize_format-known links req.format ending g;
                interval_positive = ground arith;
              })
        ]
      ]
    ]

module _ (net : NetParsers) (c : Config) where
  -- Only the rule subscriptions have changed.
  pub with_providers-IsValid :
      (rs : List RuleProviderSubscription)
      → All IsProvider rs
      → Distinct (provider_names rs)
      → IsValid net c
      → IsValid net (record c { rule_provider_subscriptions = rs })
  with_providers-IsValid rs each distinct h = record {
    fields = record {
      controller = h.fields.controller;
      levels = h.fields.levels;
      urls = h.fields.urls;
      modes = h.fields.modes;
      exclude = h.fields.exclude;
      filter = h.fields.filter;
    };
    ports = h.ports;
    subscriptions_each = h.subscriptions_each;
    names_distinct = h.names_distinct;
    ids_distinct = h.ids_distinct;
    active_low = h.active_low;
    active_high = h.active_high;
    pools = h.pools;
    providers_each = each;
    provider_names_distinct = distinct;
    rules_initialized = h.rules_initialized;
    rules = h.rules;
    custom = h.custom;
  }

  -- A write to one rule subscription that keeps its name.
  pub write-IsValid :
      (i : ℕ) (r : RuleProviderSubscription)
      (f : RuleProviderSubscription → RuleProviderSubscription)
      → get_elem? c.rule_provider_subscriptions i ≡ some r
      → IsProvider (f r)
      → (f r).name ≡ r.name
      → IsValid net c
      → IsValid net
          (record c { rule_provider_subscriptions = modify c.rule_provider_subscriptions i f })
  write-IsValid i r f at good same h =
      with_providers-IsValid (modify c.rule_provider_subscriptions i f)
        (All-write IsProvider c.rule_provider_subscriptions i f r at h.providers_each good)
        (rw (map-write (λ r. r.name) c.rule_provider_subscriptions i f r at same)
          h.provider_names_distinct)
        h

  pub append-IsValid :
      (r : RuleProviderSubscription)
      → IsProvider r
      → contains (provider_names c.rule_provider_subscriptions) r.name ≡ false
      → IsValid net c
      → IsValid net
          (record c { rule_provider_subscriptions = c.rule_provider_subscriptions ++ r ∷ [] })
  append-IsValid r good fresh h =
      let rs = c.rule_provider_subscriptions in
      with_providers-IsValid (rs ++ r ∷ []) (All-append IsProvider rs r h.providers_each good)
        (rw (map-append (λ r. r.name) rs r)
          (Distinct-append_last (provider_names rs) r.name h.provider_names_distinct fresh))
        h

default-is_blank : is_blank "规则订阅" ≡ false
unfolding is_blank
default-is_blank = refl

base-is_blank :
    (name : String)
    → let trimmed = trim_space name in is_blank (if trimmed == "" then "规则订阅" else trimmed) ≡ false
base-is_blank name = elim (Bool-cases (trim_space name == "")) [
  | inl e ↦ simp e default-is_blank
  | inr e ↦ simp e (is_blank-trim_space name ∙ e)
]

-- The name of a new rule subscription is not blank, and no other has it: the loop that numbers it ends.
pub unique_rule_provider_name_lem :
    (naming : Naming) (name : String) (c : Config)
    → IsDecimal naming.decimal
    → (is_blank (unique_rule_provider_name naming name c) ≡ false)
      × (contains
            (provider_names c.rule_provider_subscriptions)
            (unique_rule_provider_name naming name c)
          ≡ false)
unfolding unique_rule_provider_name find_rule_provider_by_name
unique_rule_provider_name_lem naming name c digits =
    let rs = c.rule_provider_subscriptions in
    let trimmed = trim_space name in
    let base = if trimmed == "" then "规则订阅" else trimmed in
    let same = is_some-find_index (λ r. r.name) rs in
    let rounds = suc (length rs) in
    (
      number_name-is_blank naming.decimal (has_rule_provider c) base rounds (base-is_blank name),
      sym (same (number_name naming.decimal (has_rule_provider c) base rounds))
          ∙ number_name-free naming.decimal digits base (has_rule_provider c) (provider_names rs)
              rounds same (omega (arith, length-map (λ r. r.name) rs)),
    )
