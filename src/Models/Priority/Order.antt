-- ===== src/Models/Priority/Order.antt =====
-- The order in which starts are sent.
use mathlib.Core.List.{Permᴰ}
use mathlib.Core.Path.{subst}
use hm.Prelude.{◌^◌, ◌<◌, ◌≡◌, ◌⊎◌, true, false, List, [], ◌∷◌, arith, All, sym}
use hm.Prelude.Int.{
  ℤ, ◌-ℤ◌, ◌≤ℤ◌, ◌<ℤ◌, wrap, wrap_in_range, pos_part, neg_part, -ℤ_parts, eq_of_parts,
}
use hm.Models.Pending.{PendingStartMessage}
use hm.Models.Priority.{less, IsOrdered, Sorting, sort_start_messages_by_priority}

-- A time to send within 2 ^ 62 seconds of the epoch.
abbrev pub IsNear : PendingStartMessage → Type 0
IsNear m = (pos_part m.send_on < 2 ^ 62) × (neg_part m.send_on < 2 ^ 62)

-- `x` may be sent before `y`: it is due earlier, or at the same time with no lower a priority.
abbrev pub Before : PendingStartMessage → PendingStartMessage → Type 0
Before x y = (x.send_on <ℤ y.send_on) ⊎ (x.send_on ≡ y.send_on) × (y.priority ≤ℤ x.priority)

abbrev pub IsInOrder : List PendingStartMessage → Type 0
IsInOrder [] = Unit
IsInOrder (x ∷ xs) = All (Before x) xs × IsInOrder xs

sub_near :
    (a b : ℤ)
    → pos_part a < 2 ^ 62
    → neg_part a < 2 ^ 62
    → pos_part b < 2 ^ 62
    → neg_part b < 2 ^ 62
    → wrap (a -ℤ b) ≡ a -ℤ b
unfolding ◌-ℤ◌
sub_near a b p q r s = wrap_in_range _ (ground arith)

less-false : (a b : PendingStartMessage) → IsNear a → IsNear b → less b a ≡ false → Before a b
unfolding less
less-false a b ha hb h =
    ground (arith, sub_near b.send_on a.send_on hb.0 hb.1 ha.0 ha.1, -ℤ_parts b.send_on a.send_on)

Before-less : (a b : PendingStartMessage) → IsNear a → IsNear b → Before a b → less b a ≡ false
unfolding less
Before-less a b ha hb h = ground (
  arith,
  sub_near b.send_on a.send_on hb.0 hb.1 ha.0 ha.1,
  -ℤ_parts b.send_on a.send_on,
  eq_of_parts b.send_on a.send_on,
)

less_asymm : (a b : PendingStartMessage) → IsNear a → IsNear b → less a b ≡ true → less b a ≡ false
unfolding less
less_asymm a b ha hb h = ground (
  arith,
  sub_near a.send_on b.send_on ha.0 ha.1 hb.0 hb.1,
  sub_near b.send_on a.send_on hb.0 hb.1 ha.0 ha.1,
  -ℤ_parts a.send_on b.send_on,
  -ℤ_parts b.send_on a.send_on,
)

Before-trans : (a b c : PendingStartMessage) → Before a b → Before b c → Before a c
Before-trans a b c h k = ground arith

less-negatively_trans :
    (a b c : PendingStartMessage)
    → IsNear a
    → IsNear b
    → IsNear c
    → less b a ≡ false
    → less c b ≡ false
    → less c a ≡ false
less-negatively_trans a b c ha hb hc h k =
    Before-less a c ha hc (Before-trans a b c (less-false a b ha hb h) (less-false b c hb hc k))

-- A property of each element does not see the order.
pub Permᴰ-All :
    (P : PendingStartMessage → Type 0) {xs ys : List PendingStartMessage}
    → Permᴰ xs ys
    → All P ys
    → All P xs
Permᴰ-All P Permᴰ.nil h = h
Permᴰ-All P (Permᴰ.cons e d) h = (subst P (sym e) h.0, Permᴰ-All P d h.1)
Permᴰ-All P (Permᴰ.swap e f) h = (subst P (sym e) h.1.0, (subst P (sym f) h.0, h.1.1))
Permᴰ-All P (Permᴰ.trans d f) h = Permᴰ-All P d (Permᴰ-All P f h)

IsOrdered-IsInOrder :
    (xs : List PendingStartMessage) → All IsNear xs → IsOrdered less xs → IsInOrder xs
IsOrdered-IsInOrder [] near h = tt
IsOrdered-IsInOrder (x ∷ xs) near h = (all_before xs near.1 h.0, IsOrdered-IsInOrder xs near.1 h.1)
  where
    all_before :
        (ys : List PendingStartMessage)
        → All IsNear ys
        → All (λ y. less y x ≡ false) ys
        → All (Before x) ys
    all_before [] n k = tt
    all_before (y ∷ ys) n k = (less-false x y near.0 n.0 k.0, all_before ys n.1 k.1)

-- For times within 2 ^ 62 seconds of the epoch the sorted starts are the given ones, each as often,
-- and each stands before the later ones: due earlier, or at once with no lower a priority.
pub sort_by_priority :
    (sorting : Sorting) (messages : List PendingStartMessage)
    → All IsNear messages
    → let sorted = sort_start_messages_by_priority sorting messages in
      Permᴰ sorted messages × IsInOrder sorted
unfolding sort_start_messages_by_priority
sort_by_priority sorting messages near =
    let perm = sorting.sort_perm less messages in
    (
      perm,
      IsOrdered-IsInOrder _ (Permᴰ-All IsNear perm near)
          (sorting.sort_ordered less IsNear less_asymm less-negatively_trans messages near),
    )
