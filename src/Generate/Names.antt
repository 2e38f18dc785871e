-- ===== src/Generate/Names.antt =====
-- The names of proxy providers (mihomotui/mihomo_config.go).
use Prim.Native.String.{len, ◌++◌ as join}
use text.Mathlib.TextPositions.{len-append}
use mihomo_tui.Base.{
  Disjoint-nil, Disjoint-cons, ℕ, ◌+◌, suc, String, ◌≡◌, refl, false, List, [], ◌∷◌, arith, ◌==◌,
  trim_space, length, contains, Distinct, Disjoint, if◌then◌else◌, ap,
}
use mihomo_tui.Base.Fresh.{free_name, free_name-contains}
use mihomo_tui.Config.{SubscriptionMeta}
use mihomo_tui.Generate.{Formats}

-- `for used[candidate] { candidate += "x" }`
unfoldable pub pad_name : List String → String → String
unfolding free_name contains
pad_name used candidate =
    free_name (λ s. s) (λ s. join s "x") (contains used) (suc (length used)) candidate

module _ (formats : Formats) where
  -- `proxyProviderName`
  unfoldable pub proxy_provider_name : SubscriptionMeta → ℕ → String
  unfolding trim_space
  proxy_provider_name sub index =
      let id = trim_space sub.id in
      if id == ""
      then join "provider" (formats.decimal (index + 1))
      else join "provider-" (formats.hash8 id)

  -- The body of the loop of `providerNamesFor`, for the subscription at the index `i`.
  unfoldable pub provider_name_for : ℕ → List String → SubscriptionMeta → String
  unfolding pad_name proxy_provider_name
  provider_name_for i used sub =
      let name = proxy_provider_name sub i in
      if contains used name
      then pad_name used (join name (join "-" (formats.decimal (i + 1))))
      else name

  -- The loop of `providerNamesFor`, from the index `i` on.
  unfoldable pub provider_names_from : ℕ → List String → List SubscriptionMeta → List String
  unfolding provider_name_for
  provider_names_from i used [] = []
  provider_names_from i used (sub ∷ subs) =
      let name = provider_name_for i used sub in
      name ∷ provider_names_from (i + 1) (name ∷ used) subs

  -- `providerNamesFor`
  unfoldable pub provider_names_for : List SubscriptionMeta → List String
  unfolding provider_names_from
  provider_names_for subs = provider_names_from 0 [] subs

  -- The names before collisions are resolved.
  abbrev pub short_names : ℕ → List SubscriptionMeta → List String
  short_names i [] = []
  short_names i (sub ∷ subs) = proxy_provider_name sub i ∷ short_names (i + 1) subs

-- The loop on candidates ends at a name that is not used.
pad_name-contains :
    (used : List String) (candidate : String) → contains used (pad_name used candidate) ≡ false
unfolding pad_name
pad_name-contains used candidate =
    free_name-contains (λ s. s) (λ s. join s "x") len (λ s. omega (arith, len-append s "x", longer))
      (λ s t e. ap len e) used (suc (length used)) candidate (omega arith)
  where
    longer : len "x" ≡ 1
    longer = refl

module _ (formats : Formats) where
  provider_name_for-fresh :
      (i : ℕ) (used : List String) (sub : SubscriptionMeta)
      → contains used (provider_name_for formats i used sub) ≡ false
  unfolding provider_name_for
  provider_name_for-fresh i used sub =
      let name = proxy_provider_name formats sub i in
      ground (arith, pad_name-contains used (join name (join "-" (formats.decimal (i + 1)))))

  names-Disjoint :
      (i : ℕ) (used : List String) (subs : List SubscriptionMeta)
      → Disjoint (provider_names_from formats i used subs) used
        × Distinct (provider_names_from formats i used subs)
        × (length (provider_names_from formats i used subs) ≡ length subs)
  unfolding provider_names_from
  names-Disjoint i used [] = (tt, tt, refl)
  names-Disjoint i used (sub ∷ subs) =
      let name = provider_name_for formats i used sub in
      let rest = provider_names_from formats (i + 1) (name ∷ used) subs in
      ground (
        arith,
        provider_name_for-fresh i used sub,
        names-Disjoint (i + 1) (name ∷ used) subs,
        Disjoint-cons rest name used,
      )

  names-short :
      (i : ℕ) (used : List String) (subs : List SubscriptionMeta)
      → Distinct (short_names formats i subs)
      → Disjoint (short_names formats i subs) used
      → provider_names_from formats i used subs ≡ short_names formats i subs
  unfolding provider_names_from provider_name_for
  names-short i used [] d h = refl
  names-short i used (sub ∷ subs) d h =
      let name = proxy_provider_name formats sub i in
      let used_after = name ∷ used in
      let rest = short_names formats (i + 1) subs in
      let later = (Disjoint-cons rest name used).1 (d.0, h.1) in
      ground (arith, h.0, names-short (i + 1) used_after subs d.1 later)

  -- The provider names of any subscriptions are as many as those, and no two are equal: the loop on
  -- a name that is taken ends at a free one.
  pub provider_names_for-Distinct :
      (subs : List SubscriptionMeta)
      → Distinct (provider_names_for formats subs)
        × (length (provider_names_for formats subs) ≡ length subs)
  unfolding provider_names_for
  provider_names_for-Distinct subs = let names = names-Disjoint 0 [] subs in (names.1, names.2)

  -- Where the names that come from the identifiers are distinct already, they are the ones used.
  pub provider_names_for-short :
      (subs : List SubscriptionMeta)
      → Distinct (short_names formats 0 subs)
      → provider_names_for formats subs ≡ short_names formats 0 subs
  unfolding provider_names_for
  provider_names_for-short subs d =
      names-short 0 [] subs d (Disjoint-nil (short_names formats 0 subs))
