-- ===== src/RuleProviders/Steps.antt =====
-- Any request about a rule subscription (mihomotui/daemon_handlers_ruleprovider.go) keeps a
-- configuration valid.
use mathlib.Core.Path.{subst}
use mihomo_tui.Base.{
  modify, String, ◌≡◌, refl, sym, Bool, true, false, ◌==◌, erase_at, arith, Option-cases, inl, inr,
  is_blank, All-erase_at, map-erase_at, erase_at-Distinct,
}
use mihomo_tui.Base.Numbered.{IsDecimal}
use mihomo_tui.Base.Result.{Result, ok, err}
use mihomo_tui.Base.Updates.{All-at}
use mihomo_tui.Config.{Config, RuleProviderSubscription}
use mihomo_tui.Config.Edit.{remove_rule_provider}
use mihomo_tui.Config.Lookup.{find_index, find_index_sound, find_rule_provider_by_name}
use mihomo_tui.Validate.Hosts.{NetParsers}
use mihomo_tui.Validate.Providers.{IsProvider, provider_names}
use mihomo_tui.Validate.Spec.{IsValid}
use mihomo_tui.Subscriptions.Import.{Naming}
use mihomo_tui.RuleProviders.{
  Links, ImportRequest, Answer, ProviderError, Wanted, unique_rule_provider_name, read_request,
  overwrite, commit_import, mark_refresh, commit_refresh_provider,
}
use mihomo_tui.RuleProviders.Laws.{
  IsWanted, read_request-IsWanted, with_providers-IsValid, write-IsValid, append-IsValid,
  unique_rule_provider_name_lem,
}

-- The requests that change the rule subscriptions, as steps of the configuration that they commit.
pub data Changes (links : Links) (c c' : Config) : Type 0 where
  import_of :
      (naming : Naming) (now : String) (answer : Answer) (req : ImportRequest) (w : Wanted)
      → IsDecimal naming.decimal
      → read_request links naming answer req ≡ ok w
      → c' ≡ (commit_import now naming w c).0
      → Changes links c c'
  refresh_of :
      (now name : String) (fetched : Result ProviderError (Unit {0}))
      (show : ProviderError → String) (apply : Bool)
      → commit_refresh_provider now name fetched show c ≡ ok (c', apply)
      → Changes links c c'
  removal_of : (name : String) → remove_rule_provider name c ≡ ok c' → Changes links c c'

-- What `validateSubscriptionURL` accepts is not blank.
abbrev pub AcceptsLinks : Links → Type 0
AcceptsLinks links = (url : String) → links.accepts url ≡ true → is_blank url ≡ false

module _ (net : NetParsers) (links : Links) (c : Config) (valid : IsValid net c) where
  import-IsValid :
      (naming : Naming) (now : String) (w : Wanted)
      → AcceptsLinks links
      → IsDecimal naming.decimal
      → IsWanted links w
      → IsValid net (commit_import now naming w c).0
  unfolding commit_import find_rule_provider_by_name
  import-IsValid naming now w accepts digits good =
      let rs = c.rule_provider_subscriptions in
      elim (Option-cases (find_index (λ r. r.name == w.name) rs)) [
        | inl missing ↦
            let (filled, fresh) = unique_rule_provider_name_lem naming w.name c digits in
            let r : RuleProviderSubscription = record {
              name = unique_rule_provider_name naming w.name c;
              url = w.url;
              behavior = w.behavior;
              format = w.format;
              interval = w.interval;
              proxy_group = w.proxy_group;
              updated_at = now;
              last_success_at = now;
              last_failure_at = "";
              last_error = "";
            } in
            let in_order : IsProvider r = record {
              named = filled;
              located = accepts w.url good.accepted;
              behavior_known = good.behavior_known;
              format_known = good.format_known;
              interval_positive = good.interval_positive;
            } in
            simp missing (append-IsValid net c r in_order fresh valid)
        | inr (i, found) ↦
            let (r, at, _, _) = find_index_sound (λ r. r.name == w.name) rs found in
            let old = All-at IsProvider rs i r valid.providers_each at in
            let in_order : IsProvider (overwrite now w r) = record {
              named = old.named;
              located = accepts w.url good.accepted;
              behavior_known = good.behavior_known;
              format_known = good.format_known;
              interval_positive = good.interval_positive;
            } in
            simp found (write-IsValid net c i r (overwrite now w) at in_order refl valid)
      ]

  mark_refresh-IsProvider :
      (now : String) (fetched : Result ProviderError (Unit {0})) (show : ProviderError → String)
      (r : RuleProviderSubscription)
      → IsProvider r
      → IsProvider (mark_refresh now fetched show r)
        × ((mark_refresh now fetched show r).name ≡ r.name)
  mark_refresh-IsProvider now (ok done) show r h = (
    record {
      named = h.named;
      located = h.located;
      behavior_known = h.behavior_known;
      format_known = h.format_known;
      interval_positive = h.interval_positive;
    },
    refl,
  )
  mark_refresh-IsProvider now (err e) show r h = (
    record {
      named = h.named;
      located = h.located;
      behavior_known = h.behavior_known;
      format_known = h.format_known;
      interval_positive = h.interval_positive;
    },
    refl,
  )

  refresh-IsValid :
      (now name : String) (fetched : Result ProviderError (Unit {0}))
      (show : ProviderError → String) (apply : Bool) (c' : Config)
      → commit_refresh_provider now name fetched show c ≡ ok (c', apply)
      → IsValid net c'
  unfolding commit_refresh_provider find_rule_provider_by_name
  refresh-IsValid now name fetched show apply c' h =
      let rs = c.rule_provider_subscriptions in
      elim (Option-cases (find_index (λ r. r.name == name) rs)) [
        | inl missing ↦ absurd (ground (arith, missing, h))
        | inr (i, found) ↦
            let (r, at, _, _) = find_index_sound (λ r. r.name == name) rs found in
            let old = All-at IsProvider rs i r valid.providers_each at in
            let f = mark_refresh now fetched show in
            let (good, same) = mark_refresh-IsProvider now fetched show r old in
            let done : record c { rule_provider_subscriptions = modify rs i f } ≡ c' =
              ground (arith, found, h) in
            subst (IsValid net) done (write-IsValid net c i r f at good same valid)
      ]

  removal-IsValid :
      (name : String) (c' : Config) → remove_rule_provider name c ≡ ok c' → IsValid net c'
  unfolding remove_rule_provider find_rule_provider_by_name
  removal-IsValid name c' h =
      let rs = c.rule_provider_subscriptions in
      elim (Option-cases (find_index (λ r. r.name == name) rs)) [
        | inl missing ↦ absurd (ground (arith, missing, h))
        | inr (i, found) ↦
            let done : record c { rule_provider_subscriptions = erase_at rs i } ≡ c' =
              ground (arith, found, h) in
            subst (IsValid net) done (
              with_providers-IsValid net c (erase_at rs i)
                (All-erase_at IsProvider rs i valid.providers_each)
                (rw (map-erase_at (λ r. r.name) rs i)
                  (erase_at-Distinct (provider_names rs) i valid.provider_names_distinct))
                valid)
      ]

-- Every request that changes the rule subscriptions of a valid configuration, an import, a refresh or
-- a removal, commits a valid one, whatever its name, behavior, format and interval are.
pub Changes-IsValid :
    (net : NetParsers) (links : Links) (c c' : Config)
    → IsValid net c
    → AcceptsLinks links
    → Changes links c c'
    → IsValid net c'
Changes-IsValid net links c c' valid accepts (import_of naming now answer req w digits read done) =
    subst (IsValid net) (sym done) (
      import-IsValid net links c valid naming now w accepts digits
        (read_request-IsWanted links naming answer req w read))
Changes-IsValid net links c c' valid accepts (refresh_of now name fetched show apply done) =
    refresh-IsValid net links c valid now name fetched show apply c' done
Changes-IsValid net links c c' valid accepts (removal_of name done) =
    removal-IsValid net links c valid name c' done
