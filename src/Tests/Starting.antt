-- ===== src/Tests/Starting.antt =====
-- The pending starts of store.RealStore on an adapter that keeps their directory.
use hm.Prelude.{
  ℕ, ◌≡◌, refl, sym, ap, inl, Bool, true, false, List, [], ◌∷◌, Option, none, some, Result, ok, err,
  for_each, arith, if◌then◌else◌, ◌==◌,
}
use hm.Prelude.Int.{pos}
use hm.Prelude.Text.{GoString, codes, string_eq}
use hm.Prelude.Map.{Map, lookup}
use hm.Config.{defaults}
use hm.Models.Pending.{PendingStartMessage}
use hm.Store.ActualState.{RealStore}
use hm.Store.Messages.{start_storeable, start_root}
use hm.Store.Base.Table.{Table, obey}
use hm.Store.Real.{Codecs, real_store}
use hm.Store.Real.Starts.{
  StartCommand, save_starts, delete_starts, as_commands, perform_all, starts-after-commands,
}
use hm.Tests.Data.{plain_floats, noon, start_1, due}
use hm.Tests.Disk.{Disk, disk_adapter, disk_adapter-IsDirectory, empty_disk}

abbrev start_2 : PendingStartMessage
start_2 = record start_1 { pending = record due { message_id = codes "2" }; index_to_start = pos 2 }

-- The two messages, each as its id.
abbrev by_id : GoString → Option PendingStartMessage
by_id id = if id == codes "1" then some start_1 else if id == codes "2" then some start_2 else none

abbrev codecs : Codecs
codecs = record {
  timestamps = record { encode = λ t. []; decode = λ json. none };
  crash_counts = record { marshal = λ count. []; unmarshal = λ json. none };
  starts = record { marshal = λ m. m.message_id; unmarshal = by_id };
  stops = record { marshal = λ m. []; unmarshal = λ json. none };
}

abbrev empty_store : RealStore Disk
empty_store = record {
  disk = empty_disk;
  heartbeat_cache = [];
  instance_heartbeat_cache = [];
  instance_heartbeat_cache_timestamp = pos 0;
  dea_cache = [];
  dea_cache_expiration_timestamp = pos 0;
}

abbrev saved_and_deleted : List StartCommand
saved_and_deleted = save_starts (start_1 ∷ start_2 ∷ []) ∷ delete_starts (start_1 ∷ []) ∷ []

abbrev no_starts : Table PendingStartMessage
no_starts name = none

abbrev kept : RealStore Disk
kept =
    perform_all (real_store disk_adapter defaults plain_floats codecs noon) saved_and_deleted
      empty_store

starts-after-commands_example :
    (found : Map GoString PendingStartMessage) × (((real_store disk_adapter defaults plain_floats
          codecs noon).get_pending_start_messages
        kept).1
      ≡ ok found)
    × ((name : GoString)
        → lookup name found
          ≡ for_each
              (obey (start_storeable codecs.starts))
              (as_commands saved_and_deleted)
              no_starts
              name)
unfolding real_store start_storeable start_root hm.Models.Pending.start_store_key
    hm.Prelude.Text.itoa hm.Store.Base.Table.Represents lookup hm.Prelude.Text.str_eqb
    hm.Store.Messages.save_pending_start_messages hm.Store.Messages.delete_pending_start_messages
starts-after-commands_example =
    starts-after-commands disk_adapter defaults plain_floats codecs noon disk_adapter-IsDirectory
      saved_and_deleted empty_store no_starts (ground arith) ((refl, (refl, tt)), (tt, tt))
      (λ name item e. absurd (ground (arith, e))) (refl, (refl, tt))
      (λ name. refl, λ name item e. absurd (ground (arith, e))) (inl (_, refl))
