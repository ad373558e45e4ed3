-- ===== src/Store/Adapter.antt =====
-- github.com/cloudfoundry/storeadapter, which the store is built on and which is not part of the
-- repository: its nodes and operations, on a state of its own.
use hm.Prelude.{ℕ, Bool, List, Result}
use hm.Prelude.Text.{GoString}
use hm.Store.Interface.{StoreError, Outcome}

mutual
  -- storeadapter.StoreNode, without its time to live
  pub data Node : Type 0 where
    node : (key value : GoString) (dir : Bool) → Nodes → Node

  pub data Nodes : Type 0 where
    no_nodes : Nodes
    more_nodes : Node → Nodes → Nodes

abbrev pub key_of : Node → GoString
key_of (node key value dir children) = key

abbrev pub value_of : Node → GoString
value_of (node key value dir children) = value

abbrev pub children_of : Node → Nodes
children_of (node key value dir children) = children

-- A node to be written: its key, its value and its time to live in seconds, where 0 is for ever.
pub record Entry : Type 0 where
  pub key : GoString
  pub value : GoString
  pub ttl : ℕ

pub record Adapter (D : Type 0) : Type 0 where
  pub list_recursively : GoString → D → D × Result StoreError Node
  pub get : GoString → D → D × Result StoreError Node
  pub set_multi : List Entry → D → D × Outcome
  pub delete : List GoString → D → D × Outcome
