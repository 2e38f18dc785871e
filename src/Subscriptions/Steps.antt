-- ===== src/Subscriptions/Steps.antt =====
-- The requests about subscriptions (mihomotui/daemon_handlers_subscription.go), one after the other.
use mathlib.Core.Path.{subst, sym}
use mihomo_tui.Base.{String, ◌≡◌, Bool, false, is_blank}
use mihomo_tui.Base.Numbered.{IsDecimal}
use mihomo_tui.Base.Result.{Result, ok}
use mihomo_tui.Config.{Config, SubscriptionMeta}
use mihomo_tui.Validate.Hosts.{NetParsers}
use mihomo_tui.Validate.Spec.{IsValid}
use mihomo_tui.Subscriptions.{
  TextTools, FetchResult, CacheEntry, commit_refresh, delete_subscription,
}
use mihomo_tui.Subscriptions.Import.{Naming, create_manual, import_content}
use mihomo_tui.Subscriptions.Additions.{IsNewId, create_manual-IsValid, import_content-IsValid}
use mihomo_tui.Subscriptions.Delete.{delete_subscription-IsValid}
use mihomo_tui.Subscriptions.Patch.{UpdateRequest, patch_subscription}
use mihomo_tui.Subscriptions.PatchLaws.{IsFilled, InRange, patch_subscription-IsValid}
use mihomo_tui.Subscriptions.Refresh.{commit_refresh-IsValid}

-- What the calls of the handlers return: the texts of dates, the names and the links.
pub record Services : Type 0 where
  pub tools : TextTools
  pub naming : Naming
  pub accepts : String → Bool

-- What is known of them: `%d` tells numbers apart, and an accepted link is not blank.
pub record IsSound (calls : Services) : Type 0 where
  pub digits : IsDecimal calls.naming.decimal
  pub filled : IsFilled calls.accepts

-- The requests that change the subscriptions, as steps of the configuration that they commit.
pub data Requests (calls : Services) (c c' : Config) : Type 0 where
  creation_of :
      (new_id now requested : String)
      → IsNewId c new_id
      → c' ≡ create_manual calls.naming new_id now requested c
      → Requests calls c c'
  import_of :
      (new_id now requested source source_type : String) (use_proxy apply : Bool)
      (result : FetchResult) (write : String → Result String CacheEntry)
      → IsNewId c new_id
      → is_blank requested ≡ false
      → is_blank source ≡ false
      → import_content calls.tools now calls.naming new_id write requested source source_type
          use_proxy result c
        ≡ ok (c', apply)
      → Requests calls c c'
  change_of :
      (now identifier : String) (req : UpdateRequest) (answer : SubscriptionMeta)
      → InRange req
      → patch_subscription calls.accepts now identifier req c ≡ ok (c', answer)
      → Requests calls c c'
  refresh_of :
      (now : String) (sub : SubscriptionMeta) (fetched : Result String FetchResult)
      (cache : Result String CacheEntry)
      → commit_refresh calls.tools now sub fetched cache c ≡ ok c'
      → Requests calls c c'
  deletion_of :
      (now identifier : String) (apply : Bool)
      → delete_subscription now identifier c ≡ ok (c', apply)
      → Requests calls c c'

Requests-IsValid :
    (net : NetParsers) (calls : Services) (c c' : Config)
    → IsSound calls
    → IsValid net c
    → Requests calls c c'
    → IsValid net c'
Requests-IsValid net calls c c' sound valid (creation_of new_id now requested new done) =
    subst (IsValid net) (sym done)
      (create_manual-IsValid net calls.naming c valid sound.digits new_id now new requested)
Requests-IsValid net calls c c' sound valid
      (import_of new_id now requested source source_type use_proxy apply result write new asked
        located done) =
    import_content-IsValid net calls.naming c valid sound.digits new_id now new calls.tools
      requested source source_type use_proxy result asked located write c' apply done
Requests-IsValid net calls c c' sound valid (change_of now identifier req answer range done) =
    patch_subscription-IsValid net calls.accepts now identifier req c valid sound.filled range c'
      answer done
Requests-IsValid net calls c c' sound valid (refresh_of now sub fetched cache done) =
    commit_refresh-IsValid net calls.tools now sub fetched cache c c' done valid
Requests-IsValid net calls c c' sound valid (deletion_of now identifier apply done) =
    delete_subscription-IsValid net now identifier c c' apply done valid

-- A sequence of requests
pub data Session (calls : Services) (c : Config) : Config → Type 0 where
  opened : Session calls c c
  continued : {d c' : Config} → Session calls c d → Requests calls d c' → Session calls c c'

-- Any sequence of requests about subscriptions, creations, imports, changes, refreshes whether the
-- download succeeds or fails, and deletions, turns a valid configuration into a valid one, if every
-- creation and import gets an identifier that is not in use, every import has a name and a source,
-- and every change has a known strategy and an agent of at most 512 bytes.
pub Session-IsValid :
    (net : NetParsers) (calls : Services) {c c' : Config}
    → IsSound calls
    → IsValid net c
    → Session calls c c'
    → IsValid net c'
Session-IsValid net calls sound valid opened = valid
Session-IsValid net calls sound valid (continued {d} {c'} session last) =
    Requests-IsValid net calls d c' sound (Session-IsValid net calls sound valid session) last
