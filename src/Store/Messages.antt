-- ===== src/Store/Messages.antt =====
-- store/pending_start_messages.go and pending_stop_messages.go. A message's JSON is an argument.
use hm.Prelude.{List, ◌++◌, Option, Result}
use hm.Prelude.Text.{GoString, codes}
use hm.Prelude.Map.{Map}
use hm.Prelude.Float.{FloatOps}
use hm.Config.{Config}
use hm.Models.Pending.{PendingStartMessage, PendingStopMessage, start_store_key, stop_store_key}
use hm.Store.Interface.{StoreError, Outcome}
use hm.Store.Adapter.{Adapter}
use hm.Store.ActualState.{schema_root}
use hm.Store.Base.{Storeable, save, get, delete}

-- json.Marshal and json.Unmarshal on a message
pub record JsonCodec (A : Type 0) : Type 0 where
  pub marshal : A → GoString
  pub unmarshal : GoString → Option A

unfoldable pub start_storeable : JsonCodec PendingStartMessage → Storeable PendingStartMessage
start_storeable json = record {
  store_key = λ m. start_store_key m;
  to_json = json.marshal;
  from_json = json.unmarshal;
}

unfoldable pub stop_storeable : JsonCodec PendingStopMessage → Storeable PendingStopMessage
stop_storeable json = record {
  store_key = λ m. stop_store_key m;
  to_json = json.marshal;
  from_json = json.unmarshal;
}

module _ {D : Type 0} (adapter : Adapter D) (conf : Config) (floats : FloatOps) where
  unfoldable pub start_root : GoString
  unfolding schema_root
  start_root = schema_root conf ++ codes "/start"

  unfoldable pub stop_root : GoString
  unfolding schema_root
  stop_root = schema_root conf ++ codes "/stop"

  module _ (json : JsonCodec PendingStartMessage) where
    unfoldable pub save_pending_start_messages : List PendingStartMessage → D → D × Outcome
    unfolding save start_storeable start_root
    save_pending_start_messages messages disk =
        save (start_storeable json) adapter conf floats messages start_root 0 disk

    unfoldable pub get_pending_start_messages :
        D → D × Result StoreError (Map GoString PendingStartMessage)
    unfolding get start_storeable start_root
    get_pending_start_messages disk = get (start_storeable json) adapter conf floats start_root disk

    unfoldable pub delete_pending_start_messages : List PendingStartMessage → D → D × Outcome
    unfolding delete start_storeable start_root
    delete_pending_start_messages messages disk =
        delete (start_storeable json) adapter conf floats messages start_root disk

  module _ (json : JsonCodec PendingStopMessage) where
    unfoldable pub save_pending_stop_messages : List PendingStopMessage → D → D × Outcome
    unfolding save stop_storeable stop_root
    save_pending_stop_messages messages disk =
        save (stop_storeable json) adapter conf floats messages stop_root 0 disk

    unfoldable pub get_pending_stop_messages :
        D → D × Result StoreError (Map GoString PendingStopMessage)
    unfolding get stop_storeable stop_root
    get_pending_stop_messages disk = get (stop_storeable json) adapter conf floats stop_root disk

    unfoldable pub delete_pending_stop_messages : List PendingStopMessage → D → D × Outcome
    unfolding delete stop_storeable stop_root
    delete_pending_stop_messages messages disk =
        delete (stop_storeable json) adapter conf floats messages stop_root disk
