-- ===== src/Fetcher/Wanted.antt =====
-- Which results of a page a fetch queues (desiredstatefetcher/desired_state_fetcher.go, sendBatch).
use hm.Prelude.{
  ◌≡◌, refl, ◌⊎◌, ◌↔◌, inl, inr, true, List, [], ◌∷◌, some, All, In, if-has, Bool-cases, ◌==◌,
  ==_iff, arith, subst,
}
use hm.Prelude.Map.{
  Map, AllValues, AllValues-insert, AllValues-lookup, values, lookup, insert, lookup-insert,
}
use hm.Prelude.Map.Unique.{lookup-In}
use hm.Prelude.Text.{GoString, codes, string_eq}
use hm.Models.Desired.{DesiredAppState, desired_store_key}
use hm.Fetcher.{DesiredStateServerResponse, is_wanted, cache_wanted, batch_of}

-- Started, with a package that is staged or still pending.
abbrev pub IsWanted : DesiredAppState → Type 0
IsWanted d =
    (d.state ≡ codes "STARTED")
    × (d.package_state ≡ codes "PENDING" ⊎ d.package_state ≡ codes "STAGED")

is_wanted_iff : (d : DesiredAppState) → (is_wanted d ≡ true) ↔ IsWanted d
unfolding is_wanted
is_wanted_iff d = ground (
  arith,
  ==_iff d.state (codes "STARTED"),
  ==_iff d.package_state (codes "PENDING"),
  ==_iff d.package_state (codes "STAGED"),
)

cache_wanted-IsWanted :
    (ds : List DesiredAppState) (cache : Map GoString DesiredAppState)
    → AllValues IsWanted cache
    → AllValues IsWanted (cache_wanted ds cache)
unfolding cache_wanted
cache_wanted-IsWanted [] cache h = h
cache_wanted-IsWanted (d ∷ ds) cache h = cache_wanted-IsWanted ds _ (
    if-has (AllValues IsWanted) (is_wanted d)
      (λ wanted.
        AllValues-insert IsWanted (desired_store_key d) d cache ((is_wanted_iff d).0 wanted) h)
      (λ _. h))

All-values {ℓ κ μ} :
    {K : Type ℓ} {V : Type κ} (P : V → Type μ) (m : Map K V) → AllValues P m → All P (values m)
All-values P [] h = tt
All-values P ((k, v) ∷ m) h = (h.0, All-values P m h.1)

pub batch_of-IsWanted : (response : DesiredStateServerResponse) → All IsWanted (batch_of response)
unfolding batch_of
batch_of-IsWanted response =
    All-values IsWanted _ (cache_wanted-IsWanted (values response.results) [] tt)

module _ (d : DesiredAppState) where
  -- The cache has an app under the key of d, which is its own.
  abbrev HasApp : Map GoString DesiredAppState → Type 0
  HasApp cache =
      (held : DesiredAppState) × (lookup (desired_store_key d) cache ≡ some held)
      × (desired_store_key held ≡ desired_store_key d)

  insert-HasApp :
      (x : DesiredAppState) (cache : Map GoString DesiredAppState)
      → desired_store_key x ≡ desired_store_key d ⊎ HasApp cache
      → HasApp (insert (desired_store_key x) x cache)
  insert-HasApp x cache h =
      let found = lookup-insert (desired_store_key x) (desired_store_key d) x cache in
      elim (Bool-cases (desired_store_key x == desired_store_key d)) [
        | inl hit ↦
            (x, rw (found, hit) refl, (==_iff (desired_store_key x) (desired_store_key d)).0 hit)
        | inr miss ↦ elim h [
          | inl same ↦
              absurd
                (ground (arith, miss, (==_iff (desired_store_key x) (desired_store_key d)).1 same))
          | inr (held, there, own) ↦ (held, rw (found, miss) there, own)
        ]
      ]

  cache_wanted-keeps :
      (ds : List DesiredAppState) (cache : Map GoString DesiredAppState)
      → HasApp cache
      → HasApp (cache_wanted ds cache)
  unfolding cache_wanted
  cache_wanted-keeps [] cache h = h
  cache_wanted-keeps (x ∷ ds) cache h =
      cache_wanted-keeps ds _
        (if-has HasApp (is_wanted x) (λ _. insert-HasApp x cache (inr h)) (λ _. h))

  cache_wanted-HasApp :
      (ds : List DesiredAppState) (cache : Map GoString DesiredAppState)
      → In d ds
      → is_wanted d ≡ true
      → HasApp (cache_wanted ds cache)
  unfolding cache_wanted
  cache_wanted-HasApp [] cache m wanted = absurd m
  cache_wanted-HasApp (x ∷ ds) cache (inl same) wanted =
      subst (λ y. HasApp (cache_wanted (y ∷ ds) cache)) same
        (rw (cache_wanted, wanted) (cache_wanted-keeps ds _ (insert-HasApp d cache (inl refl))))
  cache_wanted-HasApp (x ∷ ds) cache (inr m) wanted = cache_wanted-HasApp ds _ m wanted

In-value :
    (k : GoString) (v : DesiredAppState) (m : Map GoString DesiredAppState)
    → In (k, v) m
    → In v (values m)
In-value k v [] h = absurd h
In-value k v ((i, w) ∷ m) (inl same) = inl (λ i. (same i).1)
In-value k v ((i, w) ∷ m) (inr later) = inr (In-value k v m later)

-- For every result of a page whose state is "STARTED" and whose package is "PENDING" or "STAGED", the
-- page's batch has an app with the same store key, for which the same holds.
pub batch_of_complete :
    (response : DesiredStateServerResponse) (d : DesiredAppState)
    → In d (values response.results)
    → IsWanted d
    → (queued : DesiredAppState) × In queued (batch_of response)
      × (desired_store_key queued ≡ desired_store_key d)
      × IsWanted queued
unfolding batch_of
batch_of_complete response d m wanted =
    let cache = cache_wanted (values response.results) [] in
    let (held, there, own) =
      cache_wanted-HasApp d (values response.results) [] m ((is_wanted_iff d).1 wanted) in
    (
      held,
      In-value _ held cache (lookup-In _ held cache there),
      own,
      AllValues-lookup IsWanted _ cache held (cache_wanted-IsWanted (values response.results) [] tt)
          there,
    )
