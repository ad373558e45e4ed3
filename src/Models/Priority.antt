-- ===== src/Models/Priority.antt =====
-- SortStartMessagesByPriority of models/pending_messages.go. `sort.Sort` promises an order and no
-- stability, so it is an argument with what its documentation says of it.
pub mod Order
pub mod Insertion
use mathlib.Core.List.{Permᴰ}
use hm.Prelude.{ℕ, ◌≡◌, Bool, true, false, not, List, [], ◌∷◌, ◌==◌, if◌then◌else◌, All}
use hm.Prelude.Int.{ℤ, pos, int_eq, ◌-ℤ◌, ltb_ℤ, wrap}
use hm.Prelude.Float.{gt_f}
use hm.Models.Pending.{PendingStartMessage}

-- Less: by the time to send, and at the same time the greater priority first.
unfoldable pub less : PendingStartMessage → PendingStartMessage → Bool
less a b =
    let diff = wrap (a.send_on -ℤ b.send_on) in
    if diff == pos 0 then gt_f a.priority b.priority else ltb_ℤ diff (pos 0)

-- No element is less than one before it.
abbrev pub IsOrdered :
    (PendingStartMessage → PendingStartMessage → Bool) → List PendingStartMessage → Type 0
IsOrdered lt [] = Unit
IsOrdered lt (x ∷ xs) = All (λ y. lt y x ≡ false) xs × IsOrdered lt xs

-- What `sort.Sort` does with a `Less` that is asymmetric, and whose negation is transitive, on a
-- class of elements that holds the list.
pub record Sorting : Type 1 where
  pub sort :
      (PendingStartMessage → PendingStartMessage → Bool)
      → List PendingStartMessage
      → List PendingStartMessage
  pub sort_perm :
      (lt : PendingStartMessage → PendingStartMessage → Bool) (xs : List PendingStartMessage)
      → Permᴰ (sort lt xs) xs
  pub sort_ordered :
      (lt : PendingStartMessage → PendingStartMessage → Bool) (Q : PendingStartMessage → Type 0)
      → ((a b : PendingStartMessage) → Q a → Q b → lt a b ≡ true → lt b a ≡ false)
      → ((a b c : PendingStartMessage)
          → Q a
          → Q b
          → Q c
          → lt b a ≡ false
          → lt c b ≡ false
          → lt c a ≡ false)
      → (xs : List PendingStartMessage) → All Q xs
      → IsOrdered lt (sort lt xs)

unfoldable pub sort_start_messages_by_priority :
    Sorting → List PendingStartMessage → List PendingStartMessage
sort_start_messages_by_priority sorting messages = sorting.sort less messages
