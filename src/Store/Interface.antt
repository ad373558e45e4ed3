-- ===== src/Store/Interface.antt =====
-- The operations of store.Store (store/store.go) that the analyzer and the sender call, on a state
-- that holds whatever the store keeps. An operation gives the state after it and what it returns.
use hm.Prelude.{◌∷◌, ◌++◌, List, Option, Result}
use hm.Prelude.Text.{GoString}
use hm.Prelude.Time.{Time}
use hm.Prelude.Map.{Map}
use hm.Models.Instance.{CrashCount}
use hm.Models.Pending.{PendingStartMessage, PendingStopMessage}
use hm.Models.App.{App}

-- The errors that the program tells apart.
pub data StoreError : Type 0 where
  actual_is_not_fresh app_not_found : StoreError
  key_not_found : StoreError
  adapter_failed : GoString → StoreError
  undecodable : StoreError
  -- An index out of range, which ends the process.
  panicked : StoreError

-- An `error` that may be nil.
abbrev pub Outcome : Type 0
Outcome = Option StoreError

pub record StoreOps (S : Type 0) : Type 0 where
  pub verify_freshness : Time → S → S × Outcome
  pub get_apps : S → S × Result StoreError (Map GoString App)
  pub get_pending_start_messages : S → S × Result StoreError (Map GoString PendingStartMessage)
  pub get_pending_stop_messages : S → S × Result StoreError (Map GoString PendingStopMessage)
  pub save_crash_counts : List CrashCount → S → S × Outcome
  pub save_pending_start_messages : List PendingStartMessage → S → S × Outcome
  pub save_pending_stop_messages : List PendingStopMessage → S → S × Outcome
  pub delete_pending_start_messages : List PendingStartMessage → S → S × Outcome
  pub delete_pending_stop_messages : List PendingStopMessage → S → S × Outcome

-- store.AppKey
unfoldable pub app_key : GoString → GoString → GoString
app_key app_guid app_version = app_guid ++ (b',' ∷ app_version)
