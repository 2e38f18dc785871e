-- ===== src/Subscriptions/Additions.antt =====
-- A manual subscription and an import (mihomotui/daemon_handlers_subscription.go) against the
-- specification of a valid configuration.
use mathlib.Core.Path.{subst}
use mihomo_tui.Base.{
  ℕ, zero, suc, ◌+◌, String, ◌≡◌, refl, ◌∙◌, Bool, true, false, ◌==◌, trim_space, is_blank,
  if◌then◌else◌, Option-cases, inl, inr, none, some, List, [], ◌∷◌, get_elem?, arith, length,
  length-append, contains, contains-append, Bool-cases,
}
use mihomo_tui.Base.Blank.{is_blank-trim_space, number_name-is_blank}
use mihomo_tui.Base.Int.{ℤ, pos, negsuc, int_le}
use mihomo_tui.Base.Numbered.{IsDecimal}
use mihomo_tui.Base.Result.{Result, ok, Result-cases}
use mihomo_tui.Base.Updates.{All-at}
use mihomo_tui.Config.{Config, SubscriptionMeta, zero_subscription}
use mihomo_tui.Validate.Hosts.{NetParsers}
use mihomo_tui.Validate.Spec.{IsValid}
use mihomo_tui.Validate.Subscriptions.{IsSubscription, names, ids}
use mihomo_tui.Subscriptions.{TextTools, FetchResult, CacheEntry}
use mihomo_tui.Subscriptions.Import.{
  Naming, has_identifier, unique_subscription_name, find_import, imported_meta, finish_import,
  import_content, create_manual, derive_subscription_name,
}
use mihomo_tui.Subscriptions.ImportLaws.{
  has_identifier-contains, unique_subscription_name-fresh, find_import-at,
}
use mihomo_tui.Subscriptions.Valid.{append_subscription-IsValid, replace_subscription-IsValid}

-- A name that somebody asks for and that is not blank gives a name that is not blank.
unique_subscription_name-filled :
    (naming : Naming) (requested url : String) (c : Config)
    → is_blank requested ≡ false
    → is_blank (unique_subscription_name naming requested url c) ≡ false
unfolding unique_subscription_name is_blank
unique_subscription_name-filled naming requested url c h =
    let trimmed = trim_space requested in
    let base = if trimmed == "" then derive_subscription_name naming url else trimmed in
    let filled : is_blank base ≡ false = simp h (is_blank-trim_space requested ∙ h) in
    number_name-is_blank naming.decimal (has_identifier c) base
      (suc (length c.subscriptions + length c.subscriptions)) filled

trim_space-filled : (s : String) → is_blank s ≡ false → is_blank (trim_space s) ≡ false
unfolding is_blank
trim_space-filled s h = is_blank-trim_space s ∙ h

get_elem?-below :
    (subs : List SubscriptionMeta) (i : ℕ) (s : SubscriptionMeta)
    → get_elem? subs i ≡ some s
    → int_le (pos (length subs)) (pos i) ≡ false
get_elem?-below [] i s at = cc
get_elem?-below (x ∷ subs) zero s at = ground arith
get_elem?-below (x ∷ subs) (suc i) s at = ground (arith, get_elem?-below subs i s at)

-- The unique name is not the name of a subscription.
unique_subscription_name-new :
    (naming : Naming) (requested url : String) (c : Config)
    → IsDecimal naming.decimal
    → contains (names c.subscriptions) (unique_subscription_name naming requested url c) ≡ false
unique_subscription_name-new naming requested url c digits =
    let name = unique_subscription_name naming requested url c in
    ground (
      arith,
      unique_subscription_name-fresh naming requested url c digits,
      has_identifier-contains c name,
      contains-append (ids c.subscriptions) (names c.subscriptions) name,
    )

-- A new identifier, as `newSubscriptionID` returns it.
pub record IsNewId (c : Config) (id : String) : Type 0 where
  pub filled : (id == "") ≡ false
  pub unused : contains (ids c.subscriptions) id ≡ false

manual-filled : is_blank "手动配置" ≡ false
unfolding is_blank
manual-filled = refl

more-int_le :
    (n : ℕ) (active : ℤ) → int_le (pos n) active ≡ false → int_le (pos (n + 1)) active ≡ false
more-int_le n (pos k) h = ground (arith, h)
more-int_le n (negsuc k) h = h

module _ (net : NetParsers) (naming : Naming) (c : Config) (valid : IsValid net c)
    (digits : IsDecimal naming.decimal) (new_id now : String) (new : IsNewId c new_id) where
  pub create_manual-IsValid :
      (requested : String) → IsValid net (create_manual naming new_id now requested c)
  unfolding create_manual mihomo_tui.Validate.Subscriptions.is_strategy
  create_manual-IsValid requested =
      let subs = c.subscriptions in
      let trimmed = trim_space requested in
      let wanted : String = if trimmed == "" then "手动配置" else trimmed in
      let filled : is_blank wanted ≡ false = elim (Bool-cases (trimmed == "")) [
        | inl empty ↦ simp empty manual-filled
        | inr given ↦ simp given (is_blank-trim_space requested ∙ given)
      ] in
      let s : SubscriptionMeta = record zero_subscription {
        id = new_id;
        name = unique_subscription_name naming wanted "" c;
        url = "手动配置";
        updated_at = now;
      } in
      append_subscription-IsValid net c c.active_subscription true valid s
        (record {
          named = unique_subscription_name-filled naming wanted "" c filled;
          identified = new.filled;
          located = manual-filled;
          strategy_known = refl;
          agent_short = omega arith;
        })
        (unique_subscription_name-new naming wanted "" c digits) new.unused
        (
          valid.active_low,
          rw (length-append subs (s ∷ []))
              (more-int_le (length subs) c.active_subscription valid.active_high),
        )

  module _ (tools : TextTools) (requested source source_type : String) (use_proxy : Bool)
      (result : FetchResult) (asked : is_blank requested ≡ false)
      (located : is_blank source ≡ false) where
    imported-IsSubscription :
        (id name : String) (cache : CacheEntry)
        → (id == "") ≡ false
        → is_blank name ≡ false
        → IsSubscription (imported_meta tools now id name source source_type use_proxy cache result)
    unfolding imported_meta mihomo_tui.Validate.Subscriptions.is_strategy
    imported-IsSubscription id name cache identified named = record {
      named = named;
      identified = identified;
      located = located;
      strategy_known = refl;
      agent_short = omega arith;
    }

    pub import_content-IsValid :
        (write : String → Result String CacheEntry) (c' : Config) (apply : Bool)
        → import_content tools now naming new_id write requested source source_type use_proxy result
            c
          ≡ ok (c', apply)
        → IsValid net c'
    unfolding import_content finish_import imported_meta
    import_content-IsValid write c' apply h =
        let subs = c.subscriptions in
        let meta_for = λ (id name : String) (cache : CacheEntry).
          imported_meta tools now id name source source_type use_proxy cache result in
        elim (Option-cases (find_import requested source source_type c)) [
          | inl missing ↦ elim (Result-cases (write new_id)) [
            | inr (e, fails) ↦ absurd (ground (arith, h, missing, fails))
            | inl (cache, written) ↦
                let name = unique_subscription_name naming (trim_space requested) source c in
                let asked' = trim_space-filled requested asked in
                let s = meta_for new_id name cache in
                let done : (finish_import tools now c none s).0 ≡ c' =
                  ground (arith, h, missing, written) in
                subst (IsValid net) done (
                  append_subscription-IsValid net c (pos (length subs)) true valid s
                    (imported-IsSubscription new_id name cache new.filled (
                      unique_subscription_name-filled naming (trim_space requested) source c
                        asked'))
                    (unique_subscription_name-new naming (trim_space requested) source c digits)
                    new.unused (refl, rw (length-append subs (s ∷ [])) (ground arith)))
          ]
          | inr (i, found) ↦
              let (s, at) = find_import-at requested source source_type c i found in
              elim (Result-cases (write s.id)) [
                | inr (e, fails) ↦ absurd (ground (arith, h, found, at, fails))
                | inl (cache, written) ↦
                    let t = meta_for s.id s.name cache in
                    let old = All-at IsSubscription subs i s valid.subscriptions_each at in
                    let done : (finish_import tools now c (some i) t).0 ≡ c' =
                      ground (arith, h, found, at, written) in
                    subst (IsValid net) done (
                      replace_subscription-IsValid net c (pos i) true valid i s t at refl refl
                        (imported-IsSubscription s.id s.name cache old.identified old.named)
                        (refl, get_elem?-below subs i s at))
              ]
        ]
