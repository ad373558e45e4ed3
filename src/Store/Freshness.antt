-- ===== src/Store/Freshness.antt =====
-- store/freshness.go: since when the actual state has been reported without a gap. The JSON form of a
-- timestamp is an argument.
pub mod FirstBump
use hm.Prelude.{
  ℕ, ◌≡◌, Bool, true, false, List, [], ◌∷◌, ◌++◌, Option, none, some, Result, ok, err,
  if◌then◌else◌,
}
use hm.Prelude.Int.{ℤ, pos, negsuc, ◌-ℤ◌, ◌*ℤ◌, leb_ℤ, ltb_ℤ}
use hm.Prelude.Text.{GoString}
use hm.Prelude.Time.{Time, second, unix, seconds}
use hm.Config.{Config, actual_freshness_ttl, to_int64}
use hm.Store.Interface.{StoreError, Outcome, key_not_found, undecodable, actual_is_not_fresh}
use hm.Store.Adapter.{Adapter, Node, node, value_of}
use hm.Store.ActualState.{schema_root}

-- json.Marshal and json.Unmarshal on models.FreshnessTimestamp
pub record TimestampCodec : Type 0 where
  pub encode : ℤ → GoString
  pub decode : GoString → Option ℤ

-- t.Sub(u), which stops at the ends of a time.Duration
unfoldable pub sub_time : Time → Time → ℤ
sub_time t u =
    let d = t -ℤ u in
    if ltb_ℤ (pos 9223372036854775807) d
    then pos 9223372036854775807
    else if ltb_ℤ d (negsuc 9223372036854775807)
    then negsuc 9223372036854775807
    else d

-- The value that was read, or else the given one.
abbrev pub value_or : GoString → Result StoreError Node → GoString
value_or fallback (ok n) = value_of n
value_or fallback (err e) = fallback

module _ {D : Type 0} (adapter : Adapter D) (conf : Config) (codec : TimestampCodec) where
  unfoldable pub freshness_key : GoString
  unfolding schema_root
  freshness_key = schema_root conf ++ conf.actual_freshness_key

  -- The timestamp that is there stays, with a new time to live.
  unfoldable pub bump_freshness : GoString → ℕ → Time → D → D × Outcome
  bump_freshness key ttl timestamp disk =
      let (disk', old) = adapter.get key disk in
      let json_timestamp = value_or (codec.encode (unix timestamp)) old in
      adapter.set_multi (record { key = key; value = json_timestamp; ttl = ttl } ∷ []) disk'

  unfoldable pub bump_actual_freshness : Time → D → D × Outcome
  unfolding bump_freshness freshness_key actual_freshness_ttl
  bump_actual_freshness timestamp disk =
      bump_freshness freshness_key (actual_freshness_ttl conf) timestamp disk

  unfoldable pub revoke_actual_freshness : D → D × Outcome
  unfolding freshness_key
  revoke_actual_freshness disk = adapter.delete (freshness_key ∷ []) disk

  unfoldable pub is_actual_state_fresh : Time → D → D × Result StoreError Bool
  unfolding freshness_key actual_freshness_ttl sub_time
  is_actual_state_fresh current_time disk =
      let (disk', read) = adapter.get freshness_key disk in
      elim read [
        | err key_not_found ↦ (disk', ok false)
        | err e ↦ (disk', err e)
        | ok n ↦ elim (codec.decode (value_of n)) [
          | none ↦ (disk', err undecodable)
          | some since ↦ (
            disk',
            ok (
                leb_ℤ (seconds (to_int64 (actual_freshness_ttl conf)))
                  (sub_time current_time (since *ℤ pos second))),
          )
        ]
      ]

  unfoldable pub verify_freshness : Time → D → D × Outcome
  unfolding is_actual_state_fresh
  verify_freshness current_time disk =
      let (disk', fresh) = is_actual_state_fresh current_time disk in
      elim fresh [
        | err e ↦ (disk', some e)
        | ok actual_fresh ↦ (disk', if actual_fresh then none else some actual_is_not_fresh)
      ]
