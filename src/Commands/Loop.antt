-- ===== src/Commands/Loop.antt =====
-- How long a component runs (hm/ifrit.go).
use hm.Prelude.{ℕ, suc, ◌+◌, ◌≡◌, false, List, [], ◌∷◌, ◌++◌, Option, length, arith}
use hm.Prelude.Text.{GoString}
use hm.Commands.{Turn, finished, run_component}

-- Turns in which the action ended and the polling interval passed.
abbrev pub waited : List (Option GoString) → List Turn
waited [] = []
waited (error ∷ errors) = finished error false ∷ waited errors

-- Errors of its action never end a component: after any number of actions that ended, each with an error
-- or none, and were followed by the polling interval, it goes on as it would have begun, and has begun
-- one action for each.
pub run_component-waited :
    (component : GoString) (errors : List (Option GoString)) (turns : List Turn)
    → run_component component (waited errors ++ turns)
      ≡ (length errors + (run_component component turns).0, (run_component component turns).1)
unfolding run_component
run_component-waited component [] turns =
    λ i. (zero_left (run_component component turns).0 i, (run_component component turns).1)
  where
    zero_left : (n : ℕ) → n ≡ 0 + n
    zero_left n = omega arith
run_component-waited component (error ∷ errors) turns =
    rw (run_component-waited component errors turns) (λ i. (
      suc_left (length errors) (run_component component turns).0 i,
      (run_component component turns).1,
    ))
  where
    suc_left : (m n : ℕ) → suc (m + n) ≡ suc m + n
    suc_left m n = omega arith
