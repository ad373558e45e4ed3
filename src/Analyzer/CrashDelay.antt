-- ===== src/Analyzer/CrashDelay.antt =====
-- analyzer/crash_delay.go. The logarithm of the ratio, its sum with the threshold and the conversion of
-- the sum to an int are float64 arithmetic, which rounds: they are an operation of `FloatOps`. A power of two
-- is exact in float64; where Go converts one past the int range to an int, the result is the
-- implementation's, the field `unrepresentable`.
pub mod Exact
pub mod Bounds
use hm.Prelude.{ℕ, ◌^◌, arith, ltb, if◌then◌else◌}
use hm.Prelude.Int.{ℤ, pos, negsuc, ◌-ℤ◌, ◌*ℤ◌, ltb_ℤ, wrap}
use hm.Prelude.Float.{FloatOps}

-- int(math.Pow(2.0, float64(k)))
power_of_two : ℤ → ℤ → ℤ
power_of_two unrepresentable (pos k) = if ltb k 63 then pos (2 ^ k) else unrepresentable
power_of_two unrepresentable (negsuc k) = pos 0

pub compute_crash_delay : FloatOps → ℤ → ℤ → ℤ → ℤ → ℤ
compute_crash_delay floats crash_count n start max =
    if ltb_ℤ crash_count n
    then pos 0
    else if ltb_ℤ (floats.truncated_log2_sum max start n) crash_count
    then max
    else wrap (start *ℤ power_of_two floats.unrepresentable (wrap (crash_count -ℤ n)))
