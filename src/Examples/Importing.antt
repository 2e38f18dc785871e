-- ===== src/Examples/Importing.antt =====
-- The theorems about imports, rule subscriptions and due refreshes, on the sample configuration.
use Prim.Native.String.{◌++◌ as join}
use Prim.Native.String.append
use mathlib.Core.Path.{subst, sym}
use text.Mathlib.TextLemmas.{append_cancel_left, append-nil, cons≢nil}
use mihomo_tui.Base.{
  ℕ, zero, suc, String, ◌≡◌, ◌≢◌, refl, ap, ◌∙◌, eq_iff, is_blank, Bool, true, false, ◌==◌, Option,
  none, some, List, [], ◌∷◌, arith,
}
use mihomo_tui.Base.Int.{ℤ, pos}
use mihomo_tui.Base.Numbered.{IsDecimal}
use mihomo_tui.Base.Result.{Result, ok}
use mihomo_tui.Config.{Config, SubscriptionMeta, source_url}
use mihomo_tui.Examples.{parsers, config, config-IsValid, sample}
use mihomo_tui.RuleProviders.{Links, ImportRequest, Answer, Wanted, read_request, commit_import}
use mihomo_tui.RuleProviders.Steps.{AcceptsLinks, import_of, Changes-IsValid}
use mihomo_tui.Subscriptions.{TextTools, FetchResult, CacheEntry}
use mihomo_tui.Subscriptions.Import.{Naming, create_manual}
use mihomo_tui.Subscriptions.ImportCommit.{Import, ImportCalls}
use mihomo_tui.Subscriptions.Patch.{UpdateRequest, patch_subscription}
use mihomo_tui.Subscriptions.PatchLaws.{InRange}
use mihomo_tui.Subscriptions.Steps.{
  Services, IsSound, change_of, creation_of, opened, continued, Session-IsValid,
}
use mihomo_tui.Subscriptions.Schedule.{
  Judgement, judge_pool, judge_pool-carries, seconds_of, is_due,
}
use mihomo_tui.Validate.Spec.{IsValid}

-- Numbers in tally marks.
abbrev tally : ℕ → String
tally zero = "|"
tally (suc n) = join "|" (tally n)

tally-filled : (n : ℕ) → tally n ≢ ""
tally-filled zero h = let same = ap (λ s. s == "") h in cc
tally-filled (suc n) h = cons≢nil (sym (append.cons "|" "" (tally n)) ∙ h)

tally-injective : (m n : ℕ) → tally m ≡ tally n → m ≡ n
tally-injective zero zero h = refl
tally-injective zero (suc n) h =
    absurd (tally-filled n (sym (append_cancel_left "|" "" (tally n) (append-nil "|" ∙ h))))
tally-injective (suc m) zero h =
    absurd (tally-filled m (append_cancel_left "|" (tally m) "" (h ∙ sym (append-nil "|"))))
tally-injective (suc m) (suc n) h =
    ap suc (tally-injective m n (append_cancel_left "|" (tally m) (tally n) h))

tally-IsDecimal : IsDecimal tally
tally-IsDecimal = record { injective = tally-injective; filled = tally-filled }

abbrev naming : Naming
naming = record { decimal = tally; parse_url = λ s. none }

abbrev tools : TextTools
tools = record { lower = λ s. s; find_date = λ s. none }

abbrev fetched : FetchResult
fetched = record {
  used_gb = pos 0;
  total_gb = pos 0;
  upload_bytes = pos 0;
  download_bytes = pos 0;
  total_bytes = pos 0;
  remaining_bytes = pos 0;
  expire_at = "";
  metadata_available = false;
  metadata_status = "";
  profile_update_interval = pos 0;
}

abbrev cached : String → Result String CacheEntry
cached id = ok (record { file = id; digest = "d" })

abbrev import_calls : ImportCalls
import_calls = record { tools = tools; naming = naming; now = "t"; new_id = "d"; write = cached }

abbrev import_request : Import
import_request = record {
  requested = "B2";
  source = "http://y";
  source_type = source_url;
  use_proxy = false;
  result = fetched;
}

abbrev links : Links
links = record { lower = λ s. s; accepts = λ s. s == "http://y"; unescape = λ s. some s }

links-AcceptsLinks : AcceptsLinks links
unfolding is_blank
links-AcceptsLinks url h =
    subst (λ u. is_blank u ≡ false) (sym ((eq_iff url "http://y").0 h)) filled
  where
    filled : is_blank "http://y" ≡ false
    filled = refl

abbrev request : ImportRequest
request = record {
  name = " ads ";
  url = "http://y";
  behavior = "domain";
  format = "";
  interval = pos 0;
  proxy_group = "REJECT";
}

abbrev wanted : Wanted
wanted = record {
  name = "ads";
  url = "http://y";
  behavior = "domain";
  format = "yaml";
  interval = pos 86400;
  proxy_group = "REJECT";
}

request_is_read :
    read_request links naming (Answer.response 200 (ok "payload:")) request ≡ ok wanted
unfolding read_request
request_is_read = refl

Changes-IsValid_example : IsValid parsers (commit_import "t" naming wanted config).0
Changes-IsValid_example =
    Changes-IsValid parsers links config (commit_import "t" naming wanted config).0 config-IsValid
      links-AcceptsLinks
      (import_of naming "t" (Answer.response 200 (ok "payload:")) request wanted tally-IsDecimal
        request_is_read refl)

-- The first member has an update interval of its own.
abbrev timed : Config
timed = record config {
  subscriptions =
      record (sample "a" "A") { profile_update_interval = pos 24 } ∷ sample "b" "B" ∷ [];
}

abbrev never : String → ℤ → Option Bool
never at interval = some false

judge_pool-carries_example :
    (js : List Judgement) × (judge_pool never timed (pos 3600) ("a" ∷ "b" ∷ [])
      ≡ record {
        id = "a";
        interval = seconds_of (pos 24);
        due =
            is_due never timed
              (record (sample "a" "A") { profile_update_interval = pos 24 })
              (seconds_of (pos 24));
      }
        ∷ record {
          id = "b";
          interval = seconds_of (pos 24);
          due = is_due never timed (sample "b" "B") (seconds_of (pos 24));
        }
        ∷ js)
unfolding mihomo_tui.Subscriptions.Schedule.remote
judge_pool-carries_example =
    judge_pool-carries never timed (pos 3600) "a" "b" []
      (record (sample "a" "A") { profile_update_interval = pos 24 }) (sample "b" "B") refl refl refl
      refl

abbrev calls : Services
calls = record { tools = tools; naming = naming; accepts = links.accepts }

calls-IsSound : IsSound calls
calls-IsSound = record { digits = tally-IsDecimal; filled = links-AcceptsLinks }

-- A new name for the first subscription.
abbrev renaming : UpdateRequest
renaming = record {
  name = " D ";
  url = "http://y";
  use_local_proxy = true;
  user_agent = "";
  fetch_proxy_strategy = "";
  disabled = none;
}

renaming-InRange : InRange renaming
unfolding mihomo_tui.Validate.Subscriptions.is_strategy mihomo_tui.Base.trim_space
renaming-InRange = record { strategy_known = refl; agent_short = omega arith }

abbrev renamed : SubscriptionMeta
renamed = record (sample "a" "A") {
  name = "D";
  url = "http://y";
  use_local_proxy = true;
  fetch_proxy_strategy = "local_mihomo";
  updated_at = "t";
}

abbrev changed : Config
changed = record config { subscriptions = renamed ∷ sample "b" "B" ∷ sample "c" "C" ∷ [] }

renaming_is_done : patch_subscription links.accepts "t" "A" renaming config ≡ ok (changed, renamed)
unfolding patch_subscription mihomo_tui.Base.trim_space mihomo_tui.Subscriptions.Patch.patch_link
renaming_is_done = refl

abbrev created : Config
created = create_manual naming "d" "t" "D" changed

Session-IsValid_example : IsValid parsers created
unfolding mihomo_tui.Base.contains
Session-IsValid_example = Session-IsValid parsers calls calls-IsSound config-IsValid (
    continued
      (continued opened (change_of "t" "A" renaming renamed renaming-InRange renaming_is_done))
      (creation_of "d" "t" "D" (record { filled = refl; unused = refl }) refl))
