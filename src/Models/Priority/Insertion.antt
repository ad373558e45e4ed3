-- ===== src/Models/Priority/Insertion.antt =====
-- Insertion sort keeps the promise that is asked of `sort.Sort`.
use mathlib.Core.List.{Permᴰ}
use hm.Prelude.{
  ◌≡◌, refl, Bool, true, false, List, [], ◌∷◌, if◌then◌else◌, All, Bool-cases, inl, inr,
}
use hm.Models.Pending.{PendingStartMessage}
use hm.Models.Priority.{IsOrdered, Sorting}
use hm.Models.Priority.Order.{Permᴰ-All}

module _ (lt : PendingStartMessage → PendingStartMessage → Bool) where
  place : PendingStartMessage → List PendingStartMessage → List PendingStartMessage
  place x [] = x ∷ []
  place x (y ∷ ys) = let rest = place x ys in if lt x y then x ∷ y ∷ ys else y ∷ rest

  pub insertion_sort : List PendingStartMessage → List PendingStartMessage
  insertion_sort [] = []
  insertion_sort (x ∷ xs) = place x (insertion_sort xs)

  place-perm :
      (x : PendingStartMessage) (xs : List PendingStartMessage) → Permᴰ (place x xs) (x ∷ xs)
  unfolding place
  place-perm x [] = Permᴰ.cons refl Permᴰ.nil
  place-perm x (y ∷ ys) = elim (Bool-cases (lt x y)) [
    | inl e ↦ rw e (Permᴰ.trans (Permᴰ.swap refl refl) (Permᴰ.swap refl refl))
    | inr e ↦ rw e (Permᴰ.trans (Permᴰ.cons refl (place-perm x ys)) (Permᴰ.swap refl refl))
  ]

  pub insertion_sort-perm : (xs : List PendingStartMessage) → Permᴰ (insertion_sort xs) xs
  unfolding insertion_sort
  insertion_sort-perm [] = Permᴰ.nil
  insertion_sort-perm (x ∷ xs) =
      Permᴰ.trans (place-perm x (insertion_sort xs)) (Permᴰ.cons refl (insertion_sort-perm xs))

  module _ (Q : PendingStartMessage → Type 0)
      (asymm : (a b : PendingStartMessage) → Q a → Q b → lt a b ≡ true → lt b a ≡ false)
      (negatively_trans : (a b c : PendingStartMessage)
        → Q a
        → Q b
        → Q c
        → lt b a ≡ false
        → lt c b ≡ false
        → lt c a ≡ false) where
    above :
        (x y : PendingStartMessage) (ys : List PendingStartMessage)
        → Q x
        → Q y
        → All Q ys
        → lt y x ≡ false
        → All (λ z. lt z y ≡ false) ys
        → All (λ z. lt z x ≡ false) ys
    above x y [] qx qy q h k = tt
    above x y (z ∷ zs) qx qy q h k =
        (negatively_trans x y z qx qy q.0 h k.0, above x y zs qx qy q.1 h k.1)

    place-IsOrdered :
        (x : PendingStartMessage) (xs : List PendingStartMessage)
        → Q x
        → All Q xs
        → IsOrdered lt xs
        → IsOrdered lt (place x xs)
    unfolding place
    place-IsOrdered x [] qx q h = (tt, tt)
    place-IsOrdered x (y ∷ ys) qx q h = elim (Bool-cases (lt x y)) [
      | inl e ↦ let f = asymm x y qx q.0 e in rw e ((f, above x y ys qx q.0 q.1 f h.0), h)
      | inr e ↦ rw e (
        Permᴰ-All (λ z. lt z y ≡ false) (place-perm x ys) (e, h.0),
        place-IsOrdered x ys qx q.1 h.1,
      )
    ]

    pub insertion_sort-IsOrdered :
        (xs : List PendingStartMessage) → All Q xs → IsOrdered lt (insertion_sort xs)
    unfolding insertion_sort
    insertion_sort-IsOrdered [] q = tt
    insertion_sort-IsOrdered (x ∷ xs) q =
        place-IsOrdered x (insertion_sort xs) q.0 (Permᴰ-All Q (insertion_sort-perm xs) q.1)
          (insertion_sort-IsOrdered xs q.1)

unfoldable pub by_insertion : Sorting
unfolding insertion_sort place
by_insertion = record {
  sort = insertion_sort;
  sort_perm = insertion_sort-perm;
  sort_ordered = insertion_sort-IsOrdered;
}
