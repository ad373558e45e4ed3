-- ===== src/Tests/Freshness.antt =====
-- Freshness on an adapter that is a map of values.
use hm.Prelude.{
  eqb, ltb, ◌||◌, ◌&&◌, ◌+◌, ℕ, ◌≡◌, refl, List, [], ◌∷◌, Option, none, some, Result, ok, err,
  arith, ==_refl, if◌then◌else◌, Bool, true, false,
}
use hm.Prelude.Int.{ℤ, pos, ◌*ℤ◌, leb_ℤ}
use hm.Prelude.Text.{GoString, itoa, atoi, string_eq}
use hm.Prelude.Text.Decimal.{atoi-itoa}
use hm.Prelude.Time.{add, second, unix, seconds}
use hm.Prelude.Map.{Map, lookup, insert, lookup-insert}
use hm.Config.{defaults, actual_freshness_ttl, to_int64}
use hm.Store.Interface.{StoreError, key_not_found}
use hm.Store.Adapter.{Adapter, Entry, Node, node, no_nodes}
use hm.Store.Freshness.{
  TimestampCodec, sub_time, bump_actual_freshness, is_actual_state_fresh, freshness_key,
}
use hm.Store.Freshness.FirstBump.{IsKeyed, fresh_since_first_bump}
use hm.Tests.Data.{noon}

-- A value, with the second at which it was written and its time to live, which is for ever if it is 0.
record Stored : Type 0 where
  value : GoString
  written : ℕ
  ttl : ℕ

abbrev Values : Type 0
Values = ℕ × Map GoString Stored

abbrev lives : ℕ → Stored → Bool
lives clock v = eqb v.ttl 0 || ltb clock (v.written + v.ttl)

abbrev read_value : GoString → ℕ → Option Stored → Result StoreError Node
read_value key clock none = err key_not_found
read_value key clock (some v) =
    if lives clock v then ok (node key v.value false no_nodes) else err key_not_found

abbrev write_all : ℕ → List Entry → Map GoString Stored → Map GoString Stored
write_all clock [] m = m
write_all clock (e ∷ es) m =
    write_all clock es (insert e.key (record { value = e.value; written = clock; ttl = e.ttl }) m)

abbrev map_adapter : Adapter Values
map_adapter = record {
  list_recursively = λ key (clock, m). ((clock, m), err key_not_found);
  get = λ key (clock, m). ((clock, m), read_value key clock (lookup key m));
  set_multi = λ es (clock, m). ((clock, write_all clock es m), none);
  delete = λ keys d. (d, none);
}

abbrev pass : ℕ → Values → Values
pass k (clock, m) = (clock + k, m)

written_there :
    (key : GoString) (v : Stored) (m : Map GoString Stored) → lookup key (insert key v m) ≡ some v
written_there key v m = rw (lookup-insert key key v m, ==_refl key) refl

map_adapter-IsKeyed : IsKeyed map_adapter pass
map_adapter-IsKeyed = record {
  alive = λ key value ttl k (clock, m) done early.
      let v : Stored = record { value = value; written = clock; ttl = ttl } in
      let there : lives (clock + k) v ≡ true = ground (arith, early) in
      (node key value false no_nodes, rw (written_there key v m, there) refl, refl);
  expired = λ key value ttl k (clock, m) done some_time late.
      let v : Stored = record { value = value; written = clock; ttl = ttl } in
      let gone : lives (clock + k) v ≡ false = ground (arith, some_time, late) in
      rw (written_there key v m, gone) refl;
}

abbrev decimal_codec : TimestampCodec
decimal_codec = record { encode = λ t. itoa t; decode = λ s. atoi s }

fresh_since_first_bump_example :
    let once = pass 10 (bump_actual_freshness map_adapter defaults decimal_codec noon (0, [])).0 in
    (is_actual_state_fresh map_adapter defaults decimal_codec (add noon (seconds (pos 35))) (
      pass 25
        (bump_actual_freshness map_adapter defaults decimal_codec
          (add noon (seconds (pos 10)))
          once).0)).1
    ≡ ok (
        ltb 25 (actual_freshness_ttl defaults)
        && leb_ℤ
            (seconds (to_int64 (actual_freshness_ttl defaults)))
            (sub_time (add noon (seconds (pos 35))) (unix noon *ℤ pos second)))
unfolding bump_actual_freshness hm.Store.Freshness.bump_freshness lookup unix
    hm.Prelude.Int.floor_div
fresh_since_first_bump_example =
    fresh_since_first_bump map_adapter pass defaults decimal_codec map_adapter-IsKeyed noon
      (add noon (seconds (pos 10))) (add noon (seconds (pos 35))) (0, []) key_not_found 10 25
      (atoi-itoa (unix noon) (omega arith, omega arith)) refl refl (omega arith) refl
