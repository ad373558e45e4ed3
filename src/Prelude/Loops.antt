-- ===== src/Prelude/Loops.antt =====
-- Loops over a list that update a state, and what they keep and reach.
use mathlib.Core.Logic.{inl, inr}
use mathlib.Core.List.{List, [], ◌∷◌}
use mathlib.Core.Path.{subst}
use hm.Prelude.Lists.{In}

-- for _, x := range xs { s = f(x, s) }
abbrev pub for_each {ℓ κ} : {A : Type ℓ} {S : Type κ} → (A → S → S) → List A → S → S
for_each f [] s = s
for_each f (x ∷ xs) s = for_each f xs (f x s)

module _ {κ} {A : Type 0} {S : Type κ} (f : A → S → S) where
  pub for_each-keeps {μ} :
      (P : S → Type μ) (xs : List A)
      → ((x : A) (s : S) → In x xs → P s → P (f x s))
      → (s : S) → P s
      → P (for_each f xs s)
  for_each-keeps P [] step s h = h
  for_each-keeps P (x ∷ xs) step s h =
      for_each-keeps P xs (λ y t m k. step y t (inr m) k) (f x s) (step x s (inl (λ i. x)) h)

  -- What one element establishes and every element keeps holds at the end.
  pub for_each-reaches {μ} :
      (P : S → Type μ) (a : A) (xs : List A)
      → In a xs
      → ((s : S) → P (f a s))
      → ((x : A) (s : S) → P s → P (f x s))
      → (s : S) → P (for_each f xs s)
  for_each-reaches P a [] m hit step s = absurd m
  for_each-reaches P a (x ∷ xs) (inl e) hit step s =
      for_each-keeps P xs (λ y t n k. step y t k) (f x s) (subst (λ z. P (f z s)) e (hit s))
  for_each-reaches P a (x ∷ xs) (inr m) hit step s = for_each-reaches P a xs m hit step (f x s)

  -- The same where only the elements of the list keep it.
  pub for_each-finds {μ} :
      (P : S → Type μ) (a : A) (xs : List A)
      → In a xs
      → ((s : S) → P (f a s))
      → ((x : A) (s : S) → In x xs → P s → P (f x s))
      → (s : S) → P (for_each f xs s)
  for_each-finds P a [] m hit step s = absurd m
  for_each-finds P a (x ∷ xs) (inl e) hit step s =
      for_each-keeps P xs (λ y t n. step y t (inr n)) (f x s) (subst (λ z. P (f z s)) e (hit s))
  for_each-finds P a (x ∷ xs) (inr m) hit step s =
      for_each-finds P a xs m hit (λ y t n. step y t (inr n)) (f x s)
