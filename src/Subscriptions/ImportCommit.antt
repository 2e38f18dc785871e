-- ===== src/Subscriptions/ImportCommit.antt =====
-- An import with its commit (`importSubscriptionContent` of
-- mihomotui/daemon_handlers_subscription.go), up to the call of the reconciler.
use mihomo_tui.Base.{String, Bool, some}
use mihomo_tui.Base.Result.{Result, ok, err}
use mihomo_tui.Config.{Config}
use mihomo_tui.Store.{FlushOutcome, Host, Store, CommitError, update_global_config}
use mihomo_tui.Subscriptions.{TextTools, FetchResult, CacheEntry}
use mihomo_tui.Subscriptions.Import.{Naming, import_content}

-- What a client asks to import, with what the download has returned.
pub record Import : Type 0 where
  pub requested : String
  pub source : String
  pub source_type : String
  pub use_proxy : Bool
  pub result : FetchResult

-- What the calls of an import return: the clock, a new identifier, and the write of the cache.
pub record ImportCalls : Type 0 where
  pub tools : TextTools
  pub naming : Naming
  pub now : String
  pub new_id : String
  pub write : String → Result String CacheEntry

abbrev pub content_of : ImportCalls → Import → Config → Result String (Config × Bool)
content_of calls i =
    import_content calls.tools calls.now calls.naming calls.new_id calls.write i.requested i.source
      i.source_type i.use_proxy i.result

-- The closure of an import, without the flag `shouldApply`
abbrev without_flag : Result String (Config × Bool) → Result String Config
without_flag (ok (c, apply)) = ok c
without_flag (err e) = err e

-- `importSubscriptionContent`: the store behind it, and the configuration it has committed.
unfoldable pub import_subscription :
    Host → FlushOutcome → ImportCalls → Import → Store → Store × Result (CommitError String) Config
unfolding update_global_config import_content
import_subscription host out calls i s =
    update_global_config host out (some (λ c. without_flag (content_of calls i c))) s
