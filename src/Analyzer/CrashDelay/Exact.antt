-- ===== src/Analyzer/CrashDelay/Exact.antt =====
-- Where the float64 steps of analyzer/crash_delay.go are exact, and an arithmetic that is.
use hm.Prelude.{
  ℕ, zero, suc, ◌+◌, ◌*◌, ◌/◌, ◌^◌, ◌≤◌, ◌<◌, ◌≡◌, arith, ltb, if◌then◌else◌, Bool-cases, inl, inr,
}
use native.Mathlib.Nat.{pow-suc}
use hm.Prelude.Int.{ℤ, pos, ◌+ℤ◌, pos_part}
use hm.Prelude.Float.{FloatOps}

-- What float64 gives for a positive start up to the maximum, a maximum below 2 ^ 31 and a threshold below
-- 2 ^ 20: the truncated sum is the threshold with the logarithm of the ratio rounded down. If the ratio
-- is no power of two, its logarithm is more than 2 ^ (-32) below the next whole number, and the sum, which
-- is below 2 ^ 21, is rounded by at most 2 ^ (-33); the logarithm of a power of two is exact.
abbrev pub IsExact : FloatOps → Type 0
IsExact floats =
    (n start max : ℕ)
    → 1 ≤ start
    → start ≤ max
    → max < 2 ^ 31
    → n < 2 ^ 20
    → (k : ℕ) × (floats.truncated_log2_sum (pos max) (pos start) (pos n) ≡ pos (n + k))
      × (start * 2 ^ k ≤ max)
      × (max < start * 2 ^ suc k)

-- The greatest k with 2 ^ k ≤ n, by halving; the fuel bounds n.
unfoldable pub halvings : ℕ → ℕ → ℕ
halvings zero n = 0
halvings (suc fuel) n = let rest = halvings fuel (n / 2) in if ltb n 2 then 0 else suc rest

unfoldable pub log2_floor : ℕ → ℕ
unfolding halvings
log2_floor n = halvings n n

-- The sum without rounding, for positive numbers.
abbrev pub exact_log2_sum : ℤ → ℤ → ℤ → ℤ
exact_log2_sum max start n = n +ℤ pos (log2_floor (pos_part max / pos_part start))

pub double : (k : ℕ) → 2 ^ suc k ≡ 2 * 2 ^ k
double k = rw pow-suc (omega arith)

halvings_bounds :
    (fuel n : ℕ) → 1 ≤ n → n ≤ fuel → (2 ^ halvings fuel n ≤ n) × (n < 2 ^ suc (halvings fuel n))
unfolding halvings
halvings_bounds zero n p h = absurd (omega arith)
halvings_bounds (suc fuel) n p h = elim (Bool-cases (ltb n 2)) [
  | inl small ↦ rw small (ground arith)
  | inr large ↦
      let k = halvings fuel (n / 2) in
      let (low, high) = halvings_bounds fuel (n / 2) (ground arith) (ground arith) in
      rw large (omega (arith, double k, double (suc k), low, high))
]

log2_floor_bounds : (n : ℕ) → 1 ≤ n → (2 ^ log2_floor n ≤ n) × (n < 2 ^ suc (log2_floor n))
unfolding log2_floor
log2_floor_bounds n p = halvings_bounds n n p (omega arith)

quotient_pos : (start max : ℕ) → 1 ≤ start → start ≤ max → 1 ≤ max / start
quotient_pos start max p q = grind arith

below_quotient : (start max m : ℕ) → 1 ≤ start → m ≤ max / start → start * m ≤ max
below_quotient start max m p h = grind arith

above_quotient : (start max m : ℕ) → 1 ≤ start → max / start < m → max < start * m
above_quotient start max m p h = grind arith

pub exact_log2_sum-IsExact :
    (floats : FloatOps) → floats.truncated_log2_sum ≡ exact_log2_sum → IsExact floats
unfolding ◌+ℤ◌
exact_log2_sum-IsExact floats same n start max p h q r =
    let (low, high) = log2_floor_bounds (max / start) (quotient_pos start max p h) in
    (
      log2_floor (max / start),
      rw same (ground arith),
      below_quotient start max _ p low,
      above_quotient start max _ p high,
    )
