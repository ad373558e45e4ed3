-- ===== src/Prelude/Map.antt =====
-- Go's maps as association lists. The list's order stands for the order in which a `range` loop
-- happens to visit the map, so a statement about every list is one about every order.
pub mod Unique
use hm.Prelude.{
  ◌≤◌, ◌≡◌, refl, inl, inr, Bool, true, false, Option, none, some, List, [], ◌∷◌, arith, Eq, ◌==◌,
  ==_iff, Bool-cases, if◌then◌else◌, length,
}

abbrev pub Map {ℓ κ} : Type ℓ → Type κ → Type (ℓ ⊔ κ)
Map K V = List (K × V)

module _ {ℓ κ} {K : Type ℓ} {V : Type κ} where
  abbrev pub values : Map K V → List V
  values [] = []
  values ((k, v) ∷ m) = v ∷ values m

  abbrev pub keys : Map K V → List K
  keys [] = []
  keys ((k, v) ∷ m) = k ∷ keys m

  -- Every value of the map satisfies `P`.
  abbrev pub AllValues {μ} : (V → Type μ) → Map K V → Type μ
  AllValues P [] = Unit
  AllValues P ((k, v) ∷ m) = P v × AllValues P m

module _ {ℓ κ} {K : Type ℓ} {V : Type κ} ⦃e : Eq K⦄ where
  -- v, found := m[k]
  unfoldable pub lookup : K → Map K V → Option V
  lookup k [] = none
  lookup k ((i, held) ∷ rest) = if i == k then some held else lookup k rest

  -- m[k] = v
  unfoldable pub insert : K → V → Map K V → Map K V
  insert k v [] = (k, v) ∷ []
  insert k v ((i, held) ∷ m) =
      let later = insert k v m in if i == k then (k, v) ∷ m else (i, held) ∷ later

  -- delete(m, k)
  unfoldable pub delete : K → Map K V → Map K V
  delete k [] = []
  delete k ((j, w) ∷ m) = let rest = delete k m in if j == k then rest else (j, w) ∷ rest

  -- _, found := m[k]
  unfoldable pub has : K → Map K V → Bool
  has k [] = false
  has k ((j, w) ∷ m) = let rest = has k m in if j == k then true else rest

  pub lookup-insert :
      (stored asked : K) (v : V) (m : Map K V)
      → lookup asked (insert stored v m) ≡ (if stored == asked then some v else lookup asked m)
  unfolding lookup insert
  lookup-insert stored asked v [] = refl
  lookup-insert stored asked v ((i, held) ∷ m) =
      ground (
        arith,
        ==_iff stored asked,
        ==_iff i stored,
        ==_iff i asked,
        lookup-insert stored asked v m,
      )

  pub lookup-delete :
      (k j : K) (m : Map K V) → lookup j (delete k m) ≡ (if k == j then none else lookup j m)
  unfolding lookup delete
  lookup-delete k j [] = ground arith
  lookup-delete k j ((i, w) ∷ m) =
      ground (arith, ==_iff k j, ==_iff i k, ==_iff i j, lookup-delete k j m)

  pub has-lookup :
      (k : K) (m : Map K V) → has k m ≡ elim (lookup k m) [ none ↦ false | some _ ↦ true ]
  unfolding lookup has
  has-lookup k [] = refl
  has-lookup k ((i, w) ∷ m) = ground (arith, has-lookup k m)

  module _ {μ} (P : V → Type μ) where
    pub AllValues-insert :
        (k : K) (v : V) (m : Map K V) → P v → AllValues P m → AllValues P (insert k v m)
    unfolding insert
    AllValues-insert k v [] p h = (p, tt)
    AllValues-insert k v ((i, w) ∷ m) p h = ground (arith, AllValues-insert k v m p h.1)

    pub AllValues-delete : (k : K) (m : Map K V) → AllValues P m → AllValues P (delete k m)
    unfolding delete
    AllValues-delete k [] h = tt
    AllValues-delete k ((i, w) ∷ m) h = ground (arith, AllValues-delete k m h.1)

    pub AllValues-lookup : (k : K) (m : Map K V) (v : V) → AllValues P m → lookup k m ≡ some v → P v
    unfolding lookup
    AllValues-lookup k [] v h e = cc
    AllValues-lookup k ((i, w) ∷ m) v h e = elim (Bool-cases (i == k)) [
      | inl hit ↦ some-value (rw hit at e)
      | inr miss ↦ AllValues-lookup k m v h.1 (rw miss at e)
    ]
      where
        some-value : some w ≡ some v → P v
        some-value q = rw (← (let r : w ≡ v = cc in r)) h.0

  pub length-insert-pos : (k : K) (v : V) (m : Map K V) → 1 ≤ length (insert k v m)
  unfolding insert
  length-insert-pos k v [] = omega arith
  length-insert-pos k v ((i, w) ∷ m) = ground arith

  pub length-insert_mono : (k : K) (v : V) (m : Map K V) → length m ≤ length (insert k v m)
  unfolding insert
  length-insert_mono k v [] = omega arith
  length-insert_mono k v ((i, w) ∷ m) = ground (arith, length-insert_mono k v m)

pub ruleset map_laws = (lookup-insert, lookup-delete)
