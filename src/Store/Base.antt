-- ===== src/Store/Base.antt =====
-- store/store.go: how things are kept in a directory of the store, one node for each. What the code
-- finds out by reflection is an argument: a thing's key and its form as JSON.
pub mod Table
pub mod Refine
use hm.Prelude.{ℕ, List, [], ◌∷◌, ◌++◌, Option, none, some, Result, ok, err, map}
use hm.Prelude.Text.{GoString, string_eq}
use hm.Prelude.Map.{Map, insert}
use hm.Config.{Config}
use hm.Prelude.Float.{FloatOps}
use hm.Store.Interface.{StoreError, Outcome, undecodable}
use hm.Store.Adapter.{Adapter, Entry, Node, Nodes, no_nodes, more_nodes, value_of}
use hm.Store.ActualState.{list_or_empty}

-- Storeable, with the constructor that reads the JSON back
pub record Storeable (A : Type 0) : Type 0 where
  pub store_key : A → GoString
  pub to_json : A → GoString
  pub from_json : GoString → Option A

module _ {A : Type 0} (things : Storeable A) where
  unfoldable pub key_under : GoString → A → GoString
  key_under root item = root ++ (b'/' ∷ things.store_key item)

  unfoldable pub entry_under : GoString → ℕ → A → Entry
  unfolding key_under
  entry_under root ttl item = record {
    key = key_under root item;
    value = things.to_json item;
    ttl = ttl;
  }

  -- The loop of get, which ends at the first node that cannot be read.
  unfoldable pub collect : Nodes → Map GoString A → Result StoreError (Map GoString A)
  collect no_nodes found = ok found
  collect (more_nodes n rest) found = elim (things.from_json (value_of n)) [
    | none ↦ err undecodable
    | some item ↦ collect rest (insert (things.store_key item) item found)
  ]

  module _ {D : Type 0} (adapter : Adapter D) (conf : Config) (floats : FloatOps) where
    unfoldable pub save : List A → GoString → ℕ → D → D × Outcome
    unfolding entry_under
    save items root ttl disk = adapter.set_multi (map (entry_under root ttl) items) disk

    unfoldable pub get : GoString → D → D × Result StoreError (Map GoString A)
    unfolding list_or_empty collect
    get root disk =
        let (disk', listed) = list_or_empty adapter conf floats root disk in
        elim listed [ err e ↦ (disk', err e) | ok nodes ↦ (disk', collect nodes []) ]

    unfoldable pub delete : List A → GoString → D → D × Outcome
    unfolding key_under
    delete items root disk = adapter.delete (map (key_under root) items) disk
