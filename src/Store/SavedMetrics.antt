-- ===== src/Store/SavedMetrics.antt =====
-- store/metrics.go: a number under its name.
use hm.Prelude.{[], ◌∷◌, ◌++◌, none, some, Result, ok, err}
use hm.Prelude.Text.{GoString, codes}
use hm.Prelude.Float.{Float64, FloatOps}
use hm.Config.{Config}
use hm.Store.Interface.{StoreError, Outcome, undecodable}
use hm.Store.Adapter.{Adapter, Node, value_of}
use hm.Store.ActualState.{schema_root}

module _ {D : Type 0} (adapter : Adapter D) (conf : Config) (floats : FloatOps)
    -- strconv.FormatFloat(x, 'f', 5, 64)
    (format_metric : Float64 → GoString) where
  unfoldable pub metric_key : GoString → GoString
  unfolding schema_root
  metric_key metric = schema_root conf ++ (codes "/metrics/" ++ metric)

  unfoldable pub save_metric : GoString → Float64 → D → D × Outcome
  unfolding metric_key
  save_metric metric value disk =
      adapter.set_multi
        (record { key = metric_key metric; value = format_metric value; ttl = 0 } ∷ []) disk

  -- What comes back with an error besides it, -1 or 0, is left out.
  unfoldable pub read_metric : Result StoreError Node → Result StoreError Float64
  read_metric (err e) = err e
  read_metric (ok n) = elim (floats.parse_float (value_of n)) [
    | none ↦ err undecodable
    | some x ↦ ok x
  ]

  unfoldable pub get_metric : GoString → D → D × Result StoreError Float64
  unfolding metric_key read_metric
  get_metric metric disk =
      let (disk', read) = adapter.get (metric_key metric) disk in (disk', read_metric read)
