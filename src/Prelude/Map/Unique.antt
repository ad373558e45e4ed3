-- ===== src/Prelude/Map/Unique.antt =====
-- Maps whose keys all differ, as Go's do: an entry is what a lookup of its key finds.
use hm.Prelude.{
  ◌≡◌, refl, sym, ap, inl, inr, true, false, ◌||◌, some, [], ◌∷◌, arith, Eq, ◌==◌, ==_iff,
  Bool-cases, In,
}
use hm.Prelude.Map.{Map, values, lookup, insert, delete, has}

module _ {ℓ} {K : Type 0} {V : Type ℓ} ⦃e : Eq K⦄ where
  abbrev pub IsUnique : Map K V → Type 0
  IsUnique [] = Unit
  IsUnique ((k, v) ∷ m) = (has k m ≡ false) × IsUnique m

  pub has-insert : (k j : K) (v : V) (m : Map K V) → has j (insert k v m) ≡ (k == j) || has j m
  unfolding has insert
  has-insert k j v [] = ground arith
  has-insert k j v ((i, w) ∷ m) =
      ground (arith, ==_iff k j, ==_iff i k, ==_iff i j, has-insert k j v m)

  pub IsUnique-insert : (k : K) (v : V) (m : Map K V) → IsUnique m → IsUnique (insert k v m)
  unfolding insert has
  IsUnique-insert k v [] h = (refl, tt)
  IsUnique-insert k v ((i, w) ∷ m) h =
      ground (arith, ==_iff i k, ==_iff k i, has-insert k i v m, IsUnique-insert k v m h.1)

  has-delete : (k j : K) (m : Map K V) → has j m ≡ false → has j (delete k m) ≡ false
  unfolding has delete
  has-delete k j [] h = refl
  has-delete k j ((i, w) ∷ m) h = ground (arith, ==_iff i k, ==_iff i j, has-delete k j m)

  pub IsUnique-delete : (k : K) (m : Map K V) → IsUnique m → IsUnique (delete k m)
  unfolding delete
  IsUnique-delete k [] h = tt
  IsUnique-delete k ((i, w) ∷ m) h = ground (arith, has-delete k i m h.0, IsUnique-delete k m h.1)

module _ {K : Type 0} {V : Type 0} ⦃e : Eq K⦄ where
  same_key : (i k : K) (v w : V) → ◌≡◌ {A = K × V} (k, v) (i, w) → (i == k) ≡ true
  same_key i k v w same = (==_iff i k).1 (sym (ap (λ p. p.0) same))

  same_pair :
      (i k : K) (v w : V) → (i == k) ≡ true → some w ≡ some v → ◌≡◌ {A = K × V} (k, v) (i, w)
  same_pair i k v w hit found =
      let keys = sym ((==_iff i k).0 hit) in let held : v ≡ w = cc in rw (keys, held) refl

  In-has : (k : K) (v : V) (m : Map K V) → In (k, v) m → has k m ≡ true
  unfolding has
  In-has k v [] h = absurd h
  In-has k v ((i, w) ∷ m) (inl same) = rw (same_key i k v w same) refl
  In-has k v ((i, w) ∷ m) (inr later) = ground (arith, In-has k v m later)

  -- A lookup finds what stands in the map.
  pub lookup-In : (k : K) (v : V) (m : Map K V) → lookup k m ≡ some v → In (k, v) m
  unfolding lookup
  lookup-In k v [] h = ground arith
  lookup-In k v ((i, w) ∷ m) h = elim (Bool-cases (i == k)) [
    | inl hit ↦ inl (same_pair i k v w hit (rw hit at h))
    | inr miss ↦ inr (lookup-In k v m (rw miss at h))
  ]

  -- Where the keys differ, what stands in the map is found.
  pub In-lookup : (k : K) (v : V) (m : Map K V) → IsUnique m → In (k, v) m → lookup k m ≡ some v
  unfolding lookup
  In-lookup k v [] u h = absurd h
  In-lookup k v ((i, w) ∷ m) u (inl same) =
      rw (same_key i k v w same) (ap (λ p. some (p.1)) (sym same))
  In-lookup k v ((i, w) ∷ m) u (inr later) =
      ground (arith, ==_iff i k, In-has k v m later, In-lookup k v m u.1 later)

  pub In-values : (v : V) (m : Map K V) → In v (values m) → (k : K) × In (k, v) m
  In-values v [] h = absurd h
  In-values v ((i, w) ∷ m) (inl same) = (i, inl (rw same refl))
  In-values v ((i, w) ∷ m) (inr later) = let (k, h) = In-values v m later in (k, inr h)

  pub values-In : (k : K) (v : V) (m : Map K V) → In (k, v) m → In v (values m)
  values-In k v [] h = absurd h
  values-In k v ((i, w) ∷ m) (inl same) = inl (ap (λ p. p.1) same)
  values-In k v ((i, w) ∷ m) (inr later) = inr (values-In k v m later)
