-- ===== src/Commands.antt =====
-- hm/ifrit.go and hm/store.go: the loop in which a component runs its action again and again, and the
-- walk over the nodes that a raw dump prints. What a select finds first is an argument.
pub mod Dump
pub mod Loop
pub mod Walk
use hm.Prelude.{ℕ, suc, Bool, true, false, List, [], ◌∷◌, ◌++◌, Option, none, some, if◌then◌else◌}
use hm.Prelude.Text.{GoString, codes}
use hm.Store.Adapter.{Node, Nodes, node, no_nodes, more_nodes}

-- What happens while the action runs: it ends, with an error or none; the timeout passes; or a signal
-- comes. After an action that has ended, the polling interval passes or a signal comes.
pub data Turn : Type 0 where
  finished : Option GoString → (signalled_after : Bool) → Turn
  timed_out : Turn
  signalled : Turn

-- What Run returns.
pub data Exit : Type 0 where
  stopped : Exit
  aborted : GoString → Exit

-- The number of actions that were begun, and what Run returns, unless it goes on.
unfoldable pub run_component : GoString → List Turn → ℕ × Option Exit
run_component component [] = (0, none)
run_component component (finished error true ∷ turns) = (1, some stopped)
run_component component (finished error false ∷ turns) =
    let (begun, exit) = run_component component turns in (suc begun, exit)
run_component component (timed_out ∷ turns) =
    (1, some (aborted (component ++ codes " timed out. Aborting!")))
run_component component (signalled ∷ turns) = (1, some stopped)

unfoldable mutual
  -- walk, whose callback gets the key and the value of each node that is no directory.
  pub walk : Node → List (GoString × GoString)
  walk (node key value dir children) = walk_children children

  -- A child that is a directory is walked in its turn.
  pub walk_children : Nodes → List (GoString × GoString)
  walk_children no_nodes = []
  walk_children (more_nodes child rest) = visit child ++ walk_children rest

  pub visit : Node → List (GoString × GoString)
  visit (node key value dir children) =
      let below = walk_children children in if dir then below else (key, value) ∷ []
