-- ===== src/Prelude/Float.antt =====
-- float64 values that are not NaN. Such a value is modelled by its rank: the magnitude bits of its
-- IEEE 754 pattern with its sign. Ranks compare as the values do, and both zeros have rank 0.
use hm.Prelude.{ℕ, Bool, Option}
use hm.Prelude.Int.{ℤ, pos, ltb_ℤ, eqb_ℤ}
use hm.Prelude.Text.{GoString}

abbrev pub Float64 : Type 0
Float64 = ℤ

-- The constant 2.0, whose pattern is 0x4000000000000000.
abbrev pub two : Float64
two = pos 0x4000000000000000

-- a > b
abbrev pub gt_f : Float64 → Float64 → Bool
gt_f a b = ltb_ℤ b a

abbrev pub eq_f : Float64 → Float64 → Bool
eq_f a b = eqb_ℤ a b

-- What the program takes from the hardware and from `strconv` and `fmt`.
pub record FloatOps : Type 0 where
  -- float64(a) / float64(b)
  pub quotient : ℤ → ℤ → Float64
  -- int(math.Log2(float64(a) / float64(b)) + float64(n)), each step rounded as the hardware does
  pub truncated_log2_sum : ℤ → ℤ → ℤ → ℤ
  -- fmt.Sprintf("%.1f", x)
  pub format_tenths : Float64 → GoString
  -- strconv.ParseFloat(s, 64)
  pub parse_float : GoString → Option Float64
  -- int(x) of an infinity or a NaN, which Go leaves to the implementation
  pub unrepresentable : ℤ
  -- uint64(x) of a negative number, which is left to it too
  pub unrepresentable_unsigned : ℕ
