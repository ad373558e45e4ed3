-- ===== src/Store/Real/Starts.antt =====
-- The pending starts that the analyzer and the sender keep in store.RealStore
-- (store/pending_start_messages.go, store/store.go).
use hm.Prelude.{◌≡◌, refl, sym, ap, ◌∙◌, subst, ◌⊎◌, List, [], ◌∷◌, none, ok, err, for_each, All}
use hm.Prelude.Text.{GoString, string_eq}
use hm.Prelude.Time.{Time}
use hm.Prelude.Float.{FloatOps}
use hm.Prelude.Map.{Map, lookup}
use hm.Config.{Config}
use hm.Models.Pending.{PendingStartMessage}
use hm.Store.Interface.{StoreOps, Outcome, key_not_found}
use hm.Store.Adapter.{Adapter, Node}
use hm.Store.ActualState.{RealStore}
use hm.Store.Messages.{
  start_storeable, start_root, save_pending_start_messages, get_pending_start_messages,
  delete_pending_start_messages,
}
use hm.Store.Base.{Storeable, get}
use hm.Store.Base.Table.{
  IsDirectory, Table, Command, saves, deletes, obey, Represents, HoldsReadBack,
}
use hm.Store.Base.Refine.{
  execute, execute_all, Succeeds, LacksSlash, SavesReadBack, get-after-commands,
}
use hm.Store.Real.{Codecs, on_disk, real_store}

-- What a client of the store does to the pending starts.
pub data StartCommand : Type 0 where
  save_starts : List PendingStartMessage → StartCommand
  delete_starts : List PendingStartMessage → StartCommand

module _ {S : Type 0} (store : StoreOps S) where
  abbrev pub perform : StartCommand → S → S × Outcome
  perform (save_starts ms) s = store.save_pending_start_messages ms s
  perform (delete_starts ms) s = store.delete_pending_start_messages ms s

  abbrev pub perform_all : List StartCommand → S → S
  perform_all [] s = s
  perform_all (c ∷ cs) s = perform_all cs (perform c s).0

  abbrev pub AllPerformed : List StartCommand → S → Type 0
  AllPerformed [] s = Unit
  AllPerformed (c ∷ cs) s = ((perform c s).1 ≡ none) × AllPerformed cs (perform c s).0

abbrev pub as_command : StartCommand → Command PendingStartMessage
as_command (save_starts ms) = saves ms 0
as_command (delete_starts ms) = deletes ms

abbrev pub as_commands : List StartCommand → List (Command PendingStartMessage)
as_commands [] = []
as_commands (c ∷ cs) = as_command c ∷ as_commands cs

module _ {D : Type 0} (adapter : Adapter D) (conf : Config) (floats : FloatOps) (codecs : Codecs)
    (now : Time) where
  abbrev starts : StoreOps (RealStore D)
  starts = real_store adapter conf floats codecs now

  abbrev things : Storeable PendingStartMessage
  things = start_storeable codecs.starts

  abbrev root : GoString
  root = start_root adapter conf floats

  -- The store does to its adapter what the command says, and returns what the adapter does.
  perform-execute :
      (c : StartCommand) (s : RealStore D)
      → ((perform starts c s).0.disk
          ≡ (execute things adapter conf floats root (as_command c) s.disk).0)
        × ((perform starts c s).1
            ≡ (execute things adapter conf floats root (as_command c) s.disk).1)
  unfolding real_store on_disk save_pending_start_messages delete_pending_start_messages
  perform-execute (save_starts ms) s = (refl, refl)
  perform-execute (delete_starts ms) s = (refl, refl)

  perform_all-execute_all :
      (cs : List StartCommand) (s : RealStore D)
      → (perform_all starts cs s).disk
        ≡ execute_all things adapter conf floats root (as_commands cs) s.disk
  perform_all-execute_all [] s = refl
  perform_all-execute_all (c ∷ cs) s =
      perform_all-execute_all cs (perform starts c s).0
      ∙ ap (execute_all things adapter conf floats root (as_commands cs)) (perform-execute c s).0

  AllPerformed-Succeeds :
      (cs : List StartCommand) (s : RealStore D)
      → AllPerformed starts cs s
      → Succeeds things adapter conf floats root (as_commands cs) s.disk
  AllPerformed-Succeeds [] s done = tt
  AllPerformed-Succeeds (c ∷ cs) s done = (
    sym (perform-execute c s).1 ∙ done.0,
    subst (Succeeds things adapter conf floats root (as_commands cs)) (perform-execute c s).0
        (AllPerformed-Succeeds cs (perform starts c s).0 done.1),
  )

  get-disk :
      (s : RealStore D)
      → (starts.get_pending_start_messages s).1 ≡ (get things adapter conf floats root s.disk).1
  unfolding real_store on_disk get_pending_start_messages
  get-disk s = refl

  -- Over an adapter that keeps the directory of the starts: if the messages that the directory
  -- holds at first, and those that are saved, are read back from their JSON, no message's key has a
  -- slash, each save and delete that a client asks of the store succeeds, and the directory can be
  -- listed at the end or is missing, then GetPendingStartMessages returns the messages that the same
  -- puts and removals leave under their keys.
  pub starts-after-commands :
      (directory : IsDirectory adapter root) (cs : List StartCommand) (s : RealStore D)
      → (t : Table PendingStartMessage)
      → All (LacksSlash things adapter conf floats root) (as_commands cs)
      → All (SavesReadBack things adapter conf floats root) (as_commands cs)
      → HoldsReadBack things t
      → AllPerformed starts cs s
      → Represents things (directory.entries s.disk) t
      → ((n : Node) × ((adapter.list_recursively root (perform_all starts cs s).disk).1 ≡ ok n))
        ⊎ ((adapter.list_recursively root (perform_all starts cs s).disk).1 ≡ err key_not_found)
      → (found : Map GoString PendingStartMessage) × ((starts.get_pending_start_messages
            (perform_all starts cs s)).1
          ≡ ok found)
        × ((name : GoString) → lookup name found ≡ for_each (obey things) (as_commands cs) t name)
  starts-after-commands directory cs s t lacks read first done h listed =
      let same = perform_all-execute_all cs s in
      let (found, result, all) =
        get-after-commands things adapter conf floats root directory (as_commands cs) s.disk t lacks
          read first (AllPerformed-Succeeds cs s done) h
          (subst
            (λ disk.
              ((n : Node) × ((adapter.list_recursively root disk).1 ≡ ok n))
              ⊎ ((adapter.list_recursively root disk).1 ≡ err key_not_found))
            same listed) in
      (
        found,
        get-disk (perform_all starts cs s)
            ∙ ap (λ disk. (get things adapter conf floats root disk).1) same
            ∙ result,
        all,
      )
