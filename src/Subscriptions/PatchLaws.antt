-- ===== src/Subscriptions/PatchLaws.antt =====
-- The change of a subscription (mihomotui/daemon_handlers_subscription.go) against the specification
-- of a valid configuration.
use Prim.Native.String.{len}
use mathlib.Core.Path.{subst}
use mihomo_tui.Base.{
  ℕ, String, ◌≡◌, ◌≤◌, refl, sym, ap, ◌∙◌, Bool, true, false, ◌==◌, trim_space, is_blank,
  Option-cases, inl, inr, some, modify, get_elem?, arith, length-modify, contains, Bool-cases, ◌⊎◌,
  is_some, Distinct, eq_iff,
}
use mihomo_tui.Base.Blank.{is_blank-trim_space}
use mihomo_tui.Base.Result.{ok, Result-cases}
use mihomo_tui.Base.Updates.{All-at, All-modify, map-modify}
use mihomo_tui.Config.{Config, SubscriptionMeta, normalized_source, source_url}
use mihomo_tui.Config.Lookup.{
  find_index, find_index_sound, find_subscription_by_identifier, find_subscription_by_name,
  is_some-find_index,
}
use mihomo_tui.Validate.Hosts.{NetParsers}
use mihomo_tui.Validate.Spec.{IsValid}
use mihomo_tui.Validate.Subscriptions.{IsSubscription, names, is_strategy}
use mihomo_tui.Subscriptions.Patch.{
  UpdateRequest, patch_link, patched, patch_subscription, strategy_for, is_other,
}
use mihomo_tui.Subscriptions.Valid.{with_subscriptions-IsValid, names-modify-Distinct}

-- What `validateSubscriptionURL` accepts is not blank.
abbrev pub IsFilled : (String → Bool) → Type 0
IsFilled accepts = (url : String) → accepts url ≡ true → is_blank url ≡ false

-- The settings of a request for a link are in the configuration's range.
pub record InRange (req : UpdateRequest) : Type 0 where
  pub strategy_known : is_strategy (strategy_for req) ≡ true
  pub agent_short : len (trim_space req.user_agent) ≤ 512

-- The subscription with the link and the settings of the request
abbrev linked_to : UpdateRequest → SubscriptionMeta → SubscriptionMeta
linked_to req item = record item {
  url = trim_space req.url;
  use_local_proxy = req.use_local_proxy;
  user_agent = trim_space req.user_agent;
  fetch_proxy_strategy = strategy_for req;
}

-- The part on the link has accepted the link, or there is none to change.
patch_link-ok :
    (accepts : String → Bool) (req : UpdateRequest) (item linked : SubscriptionMeta)
    → patch_link accepts req item ≡ ok linked
    → ((accepts req.url ≡ true) × (linked_to req item ≡ linked)) ⊎ (item ≡ linked)
unfolding patch_link
patch_link-ok accepts req item linked done =
    elim (Bool-cases (normalized_source item.source_type == source_url)) [
      | inl remote ↦ elim (Bool-cases (accepts req.url)) [
        | inl good ↦ inl (good, ground (arith, remote, good, done))
        | inr bad ↦ absurd (ground (arith, remote, bad, done))
      ]
      | inr local ↦ elim (Bool-cases (is_blank req.url)) [
        | inl left_out ↦ inr (ground (arith, local, left_out, done))
        | inr given ↦ absurd (ground (arith, local, given, done))
      ]
    ]

module _ (accepts : String → Bool) (filled : IsFilled accepts) (now : String) (req : UpdateRequest)
    (range : InRange req) (named : (trim_space req.name == "") ≡ false) (item : SubscriptionMeta)
    (h : IsSubscription item) where
  named_well : is_blank (trim_space req.name) ≡ false
  named_well = is_blank-trim_space req.name ∙ named

  patched-IsSubscription :
      (linked : SubscriptionMeta)
      → patch_link accepts req item ≡ ok linked
      → (linked.id ≡ item.id) × IsSubscription (patched now req linked)
  unfolding is_blank
  patched-IsSubscription linked done =
      let goal : SubscriptionMeta → Type 0 =
        λ s. (s.id ≡ item.id) × IsSubscription (patched now req s) in
      elim (patch_link-ok accepts req item linked done) [
        | inl (good, same) ↦ subst goal same (
          refl,
          record {
            named = named_well;
            identified = h.identified;
            located = is_blank-trim_space req.url ∙ filled req.url good;
            strategy_known = range.strategy_known;
            agent_short = range.agent_short;
          },
        )
        | inr same ↦ subst goal same (
          refl,
          record {
            named = named_well;
            identified = h.identified;
            located = h.located;
            strategy_known = h.strategy_known;
            agent_short = h.agent_short;
          },
        )
      ]

-- Of distinct names, the one that the search finds at another place than `i` is no obstacle: the new
-- name is that of the element at `i`, or of none.
names-patch-Distinct :
    (c : Config) (i : ℕ) (item t : SubscriptionMeta)
    → Distinct (names c.subscriptions)
    → get_elem? c.subscriptions i ≡ some item
    → is_other (find_subscription_by_name c t.name) i ≡ false
    → Distinct (names (modify c.subscriptions i (λ _. t)))
unfolding find_subscription_by_name
names-patch-Distinct c i item t d at free =
    let subs = c.subscriptions in
    let named = λ (s : SubscriptionMeta). s.name in
    elim (Option-cases (find_index (λ s. s.name == t.name) subs)) [
      | inl missing ↦
          names-modify-Distinct subs i t d
            (sym (is_some-find_index named subs t.name) ∙ ap is_some missing)
      | inr (k, found) ↦
          let (s, there, hit, below) = find_index_sound (λ s. s.name == t.name) subs found in
          let same : k ≡ i = ground (arith, free, found) in
          let same_item : s ≡ item = ground (arith, there, at, same) in
          let kept : t.name ≡ item.name = sym ((eq_iff s.name t.name).0 hit) ∙ ap named same_item in
          rw (map-modify named subs i item t at kept) d
    ]

module _ (net : NetParsers) (accepts : String → Bool) (now identifier : String)
    (req : UpdateRequest) (c : Config) (valid : IsValid net c) (filled : IsFilled accepts)
    (range : InRange req) where
  put_back-IsValid :
      (i : ℕ) (item linked : SubscriptionMeta)
      → get_elem? c.subscriptions i ≡ some item
      → (trim_space req.name == "") ≡ false
      → is_other (find_subscription_by_name c (trim_space req.name)) i ≡ false
      → patch_link accepts req item ≡ ok linked
      → IsValid net
          (record c { subscriptions = modify c.subscriptions i (λ _. patched now req linked) })
  put_back-IsValid i item linked at named free done =
      let subs = c.subscriptions in
      let new = patched now req linked in
      let (id, good) =
        patched-IsSubscription accepts filled now req range named item
          (All-at IsSubscription subs i item valid.subscriptions_each at) linked done in
      let same = map-modify (λ s. s.id) subs i item new at id in
      with_subscriptions-IsValid net c (modify subs i (λ _. new)) c.active_subscription
        c.subscription_pools_initialized
        (record {
          each = All-modify IsSubscription subs i new valid.subscriptions_each good;
          names_distinct = names-patch-Distinct c i item new valid.names_distinct at free;
          ids_distinct = rw same valid.ids_distinct;
          keeps = λ key known. ap (λ keys. contains keys key) same ∙ known;
          active_low = valid.active_low;
          active_high = rw (length-modify subs i (λ _. new)) valid.active_high;
        })
        valid

  -- The change of a subscription of a valid configuration, to settings in range, commits a valid
  -- configuration, whatever the link and the new name are.
  pub patch_subscription-IsValid :
      (c' : Config) (answer : SubscriptionMeta)
      → patch_subscription accepts now identifier req c ≡ ok (c', answer)
      → IsValid net c'
  unfolding patch_subscription
  patch_subscription-IsValid c' answer h =
      elim (Option-cases (find_subscription_by_identifier c identifier)) [
        | inl missing ↦ absurd (ground (arith, h, missing))
        | inr (i, found) ↦ elim (Option-cases (get_elem? c.subscriptions i)) [
          | inl outside ↦ absurd (ground (arith, h, found, outside))
          | inr (item, at) ↦ elim (Bool-cases (trim_space req.name == "")) [
            | inl nameless ↦ absurd (ground (arith, h, found, at, nameless))
            | inr named ↦
                elim (Bool-cases (is_other (find_subscription_by_name c (trim_space req.name)) i)) [
                  | inl taken ↦ absurd (ground (arith, h, found, at, named, taken))
                  | inr free ↦ elim (Result-cases (patch_link accepts req item)) [
                    | inr (e, fails) ↦ absurd (ground (arith, h, found, at, named, free, fails))
                    | inl (linked, done) ↦
                        let new : record c {
                          subscriptions = modify c.subscriptions i (λ _. patched now req linked);
                        }
                            ≡ c' =
                          ground (arith, h, found, at, named, free, done) in
                        subst (IsValid net) new (put_back-IsValid i item linked at named free done)
                  ]
                ]
          ]
        ]
      ]
