-- ===== src/Config/Derived.antt =====
-- The derived durations of config/config.go in the range of realistic settings: nothing wraps.
use hm.Prelude.{ℕ, ◌*◌, ◌/◌, ◌≤◌, ◌≡◌, ap, ◌∙◌, arith}
use hm.Prelude.Int.{ℤ, pos, ◌*ℤ◌, IsInt64, wrap, wrap_in_range, *ℤ_pos}
use hm.Prelude.Time.{second}
use hm.Config.{
  Config, heartbeat_duration, heartbeat_ttl, actual_freshness_ttl, grace_period, whole_seconds,
  starting_backoff_delay, maximum_backoff_delay,
}

-- A heartbeat period of at most a day, and settings of at most a hundred thousand heartbeats.
pub record IsRealistic (conf : Config) : Type 0 where
  pub period : conf.heartbeat_period ≤ 86400
  pub ttl : conf.heartbeat_ttl_in_heartbeats ≤ 100000
  pub freshness : conf.actual_freshness_ttl_in_heartbeats ≤ 100000
  pub grace : conf.grace_period_in_heartbeats ≤ 100000

abbrev pub span : ℕ
span = 86400

-- Products of realistic settings stay far below 2 ^ 63.
product_small : (a b : ℕ) → a ≤ 100000 → b ≤ span → a * b ≤ 100000 * span
product_small a b h k = grind arith

heartbeat_duration-eq :
    (conf : Config)
    → conf.heartbeat_period ≤ span
    → heartbeat_duration conf ≡ pos (conf.heartbeat_period * second)
unfolding heartbeat_duration
heartbeat_duration-eq conf h = ground arith

-- The delays of the source, multiplied in nanoseconds and divided back, are exact.
whole_seconds-in_heartbeats :
    (conf : Config) (x : ℤ) (n : ℕ)
    → conf.heartbeat_period ≤ span
    → x ≡ pos n
    → n ≤ 100000
    → whole_seconds (wrap (x *ℤ heartbeat_duration conf)) ≡ pos (n * conf.heartbeat_period)
whole_seconds-in_heartbeats conf x n h e k =
    ap (λ z. whole_seconds (wrap (z *ℤ heartbeat_duration conf))) e
    ∙ rw (heartbeat_duration-eq conf h, *ℤ_pos)
        (ap whole_seconds (wrap_in_range _ range) ∙ unfold whole_seconds in ap pos quotient)
  where
    range : IsInt64 (pos (n * (conf.heartbeat_period * second)))
    range = ground (arith, product_small n conf.heartbeat_period k h)

    quotient : n * (conf.heartbeat_period * second) / second ≡ n * conf.heartbeat_period
    quotient = omega arith

-- With realistic settings nothing wraps: each lifetime, grace period and backoff delay is the
-- number of heartbeats in its setting times the heartbeat period, in seconds.
pub derived_in_seconds :
    (conf : Config) (start max : ℕ)
    → IsRealistic conf
    → conf.starting_backoff_delay_in_heartbeats ≡ pos start
    → conf.maximum_backoff_delay_in_heartbeats ≡ pos max
    → start ≤ 100000
    → max ≤ 100000
    → (heartbeat_ttl conf ≡ conf.heartbeat_ttl_in_heartbeats * conf.heartbeat_period)
      × (actual_freshness_ttl conf
          ≡ conf.actual_freshness_ttl_in_heartbeats * conf.heartbeat_period)
      × (grace_period conf ≡ pos (conf.grace_period_in_heartbeats * conf.heartbeat_period))
      × (whole_seconds (starting_backoff_delay conf) ≡ pos (start * conf.heartbeat_period))
      × (whole_seconds (maximum_backoff_delay conf) ≡ pos (max * conf.heartbeat_period))
unfolding heartbeat_ttl actual_freshness_ttl grace_period starting_backoff_delay
    maximum_backoff_delay
derived_in_seconds conf start max r es em hs hm = (
  ground
      (arith, product_small conf.heartbeat_ttl_in_heartbeats conf.heartbeat_period r.ttl r.period),
  ground (
    arith,
    product_small conf.actual_freshness_ttl_in_heartbeats conf.heartbeat_period r.freshness
        r.period,
  ),
  ground
      (arith, product_small conf.grace_period_in_heartbeats conf.heartbeat_period r.grace r.period),
  whole_seconds-in_heartbeats conf _ start r.period es hs,
  whole_seconds-in_heartbeats conf _ max r.period em hm,
)
