-- ===== src/Store/Freshness/FirstBump.antt =====
-- Freshness in store/freshness.go is counted from the first of the bumps.
use hm.Prelude.{
  ℕ, ◌≡◌, ◌<◌, ◌≤◌, refl, ap, ◌∙◌, inl, inr, false, [], ◌∷◌, none, some, ok, err, arith, ltb, ◌&&◌,
  Bool-cases,
}
use hm.Prelude.Int.{ℤ, pos, ◌*ℤ◌, leb_ℤ}
use hm.Prelude.Text.{GoString}
use hm.Prelude.Time.{Time, second, unix, seconds}
use hm.Config.{Config, actual_freshness_ttl, to_int64}
use hm.Store.Interface.{StoreError, key_not_found}
use hm.Store.Adapter.{Adapter, Entry, Node, value_of}
use hm.Store.Freshness.{
  TimestampCodec, value_or, sub_time, freshness_key, bump_freshness, bump_actual_freshness,
  is_actual_state_fresh,
}

abbrev pub entry : GoString → GoString → ℕ → Entry
entry key value ttl = record { key = key; value = value; ttl = ttl }

-- What the adapter documents of a single key with a time to live, where `pass k` lets k seconds go by:
-- a write that succeeds is read back until the time to live is over, and from then on the key is missing.
pub record IsKeyed {D : Type 0} (adapter : Adapter D) (pass : ℕ → D → D) : Type 0 where
  pub alive :
      (key value : GoString) (ttl k : ℕ) (disk : D)
      → (adapter.set_multi (entry key value ttl ∷ []) disk).1 ≡ none
      → k < ttl
      → (n : Node) × ((adapter.get key
            (pass k (adapter.set_multi (entry key value ttl ∷ []) disk).0)).1
          ≡ ok n)
        × (value_of n ≡ value)
  pub expired :
      (key value : GoString) (ttl k : ℕ) (disk : D)
      → (adapter.set_multi (entry key value ttl ∷ []) disk).1 ≡ none
      → 0 < ttl
      → ttl ≤ k
      → (adapter.get key (pass k (adapter.set_multi (entry key value ttl ∷ []) disk).0)).1
        ≡ err key_not_found

module _ {D : Type 0} (adapter : Adapter D) (pass : ℕ → D → D) (conf : Config)
    (codec : TimestampCodec) (keyed : IsKeyed adapter pass) where
  -- Until it expires, a bump leaves the value that was there, or that of its time where there was none.
  bump-value :
      (t : Time) (disk : D) (key : GoString) (ttl k : ℕ)
      → (bump_freshness adapter conf codec key ttl t disk).1 ≡ none
      → k < ttl
      → (n : Node) × ((adapter.get key
            (pass k (bump_freshness adapter conf codec key ttl t disk).0)).1
          ≡ ok n)
        × (value_of n ≡ value_or (codec.encode (unix t)) (adapter.get key disk).1)
  unfolding bump_freshness
  bump-value t disk key ttl k done early = keyed.alive key _ ttl k _ done early

  bump-expired :
      (t : Time) (disk : D) (key : GoString) (ttl k : ℕ)
      → (bump_freshness adapter conf codec key ttl t disk).1 ≡ none
      → 0 < ttl
      → ttl ≤ k
      → (adapter.get key (pass k (bump_freshness adapter conf codec key ttl t disk).0)).1
        ≡ err key_not_found
  unfolding bump_freshness
  bump-expired t disk key ttl k done some_time late =
      keyed.expired key _ ttl k _ done some_time late

  fresh-value :
      (now : Time) (disk : D) (n : Node) (since : ℤ)
      → (adapter.get (freshness_key adapter conf codec) disk).1 ≡ ok n
      → codec.decode (value_of n) ≡ some since
      → (is_actual_state_fresh adapter conf codec now disk).1
        ≡ ok (
            leb_ℤ
              (seconds (to_int64 (actual_freshness_ttl conf)))
              (sub_time now (since *ℤ pos second)))
  unfolding is_actual_state_fresh
  fresh-value now disk n since read decoded = rw (is_actual_state_fresh, read, decoded) refl

  fresh-missing :
      (now : Time) (disk : D)
      → (adapter.get (freshness_key adapter conf codec) disk).1 ≡ err key_not_found
      → (is_actual_state_fresh adapter conf codec now disk).1 ≡ ok false
  unfolding is_actual_state_fresh
  fresh-missing now disk missing = rw (is_actual_state_fresh, missing) refl

-- If no freshness was recorded, it is bumped and, j seconds later, within the time to live, bumped again,
-- both writes succeed and the first timestamp is read as it was written, then k seconds after the second
-- bump the actual state is fresh exactly when the time to live of the second bump is not over and the time
-- since the first bump has reached the time to live: the second bump keeps the key, but does not start
-- the count again.
pub fresh_since_first_bump :
    {D : Type 0} (adapter : Adapter D) (pass : ℕ → D → D) (conf : Config) (codec : TimestampCodec)
    (keyed : IsKeyed adapter pass) (first second_time now : Time) (disk : D) (e : StoreError)
    (j k : ℕ)
    → codec.decode (codec.encode (unix first)) ≡ some (unix first)
    → (adapter.get (freshness_key adapter conf codec) disk).1 ≡ err e
    → (bump_actual_freshness adapter conf codec first disk).1 ≡ none
    → j < actual_freshness_ttl conf
    → let once = pass j (bump_actual_freshness adapter conf codec first disk).0 in
      (bump_actual_freshness adapter conf codec second_time once).1 ≡ none
      → (is_actual_state_fresh adapter conf codec now
          (pass k (bump_actual_freshness adapter conf codec second_time once).0)).1
        ≡ ok (
            ltb k (actual_freshness_ttl conf)
            && leb_ℤ
                (seconds (to_int64 (actual_freshness_ttl conf)))
                (sub_time now (unix first *ℤ pos second)))
unfolding bump_actual_freshness
fresh_since_first_bump adapter pass conf codec keyed first second_time now disk e j k codes absent
      done early again =
    let key = freshness_key adapter conf codec in
    let ttl = actual_freshness_ttl conf in
    let (n, read, value) =
      bump-value adapter pass conf codec keyed first disk key ttl j done early in
    elim (Bool-cases (ltb k ttl)) [
      | inl before ↦
          let (m, reread, kept) =
            bump-value adapter pass conf codec keyed second_time _ key ttl k again (ground arith) in
          let same : value_of m ≡ codec.encode (unix first) =
            kept
            ∙ ap (value_or (codec.encode (unix second_time))) read
            ∙ value
            ∙ ap (value_or (codec.encode (unix first))) absent in
          rw before (
            fresh-value adapter pass conf codec keyed now _ m (unix first) reread
              (ap codec.decode same ∙ codes))
      | inr after ↦ rw after (
          fresh-missing adapter pass conf codec keyed now _ (
            bump-expired adapter pass conf codec keyed second_time _ key ttl k again
              (omega (arith, early)) (ground arith)))
    ]
