-- ===== src/Store/Real.antt =====
-- store.RealStore as the store that the analyzer and the sender use. One instant stands for all the
-- calls of time.Now in an operation.
pub mod Starts
use hm.Prelude.Time.{Time}
use hm.Prelude.Float.{FloatOps}
use hm.Config.{Config}
use hm.Models.Instance.{CrashCount}
use hm.Models.Pending.{PendingStartMessage, PendingStopMessage}
use hm.Store.Interface.{StoreOps}
use hm.Store.Adapter.{Adapter}
use hm.Store.ActualState.{RealStore}
use hm.Store.Freshness.{TimestampCodec, verify_freshness}
use hm.Store.Messages.{
  JsonCodec, save_pending_start_messages, get_pending_start_messages, delete_pending_start_messages,
  save_pending_stop_messages, get_pending_stop_messages, delete_pending_stop_messages,
}
use hm.Store.CrashCounts.{save_crash_counts}
use hm.Store.Apps.{get_apps}

-- The forms that JSON gives to what is stored.
pub record Codecs : Type 0 where
  pub timestamps : TimestampCodec
  pub crash_counts : JsonCodec CrashCount
  pub starts : JsonCodec PendingStartMessage
  pub stops : JsonCodec PendingStopMessage

-- An operation on the adapter alone, which leaves the caches as they are.
unfoldable pub on_disk : {D X : Type 0} → (D → D × X) → RealStore D → RealStore D × X
on_disk act s = let (disk', x) = act s.disk in (record s { disk = disk' }, x)

module _ {D : Type 0} (adapter : Adapter D) (conf : Config) (floats : FloatOps) (codecs : Codecs)
    (now : Time) where
  unfoldable pub real_store : StoreOps (RealStore D)
  unfolding on_disk
  real_store = record {
    verify_freshness = λ t. on_disk (verify_freshness adapter conf codecs.timestamps t);
    get_apps = get_apps adapter conf floats codecs.crash_counts now;
    get_pending_start_messages =
        on_disk (get_pending_start_messages adapter conf floats codecs.starts);
    get_pending_stop_messages =
        on_disk (get_pending_stop_messages adapter conf floats codecs.stops);
    save_crash_counts =
        λ cs. on_disk (save_crash_counts conf floats codecs.crash_counts adapter cs);
    save_pending_start_messages =
        λ ms. on_disk (save_pending_start_messages adapter conf floats codecs.starts ms);
    save_pending_stop_messages =
        λ ms. on_disk (save_pending_stop_messages adapter conf floats codecs.stops ms);
    delete_pending_start_messages =
        λ ms. on_disk (delete_pending_start_messages adapter conf floats codecs.starts ms);
    delete_pending_stop_messages =
        λ ms. on_disk (delete_pending_stop_messages adapter conf floats codecs.stops ms);
  }
