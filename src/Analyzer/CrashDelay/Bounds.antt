-- ===== src/Analyzer/CrashDelay/Bounds.antt =====
-- The exponential backoff of analyzer/crash_delay.go, for a positive starting delay that is at most the
-- maximum.
use native.Mathlib.Nat.{pow-le-pow_right}
use hm.Prelude.{
  ℕ, suc, ◌+◌, ◌-◌, ◌*◌, ◌^◌, ◌≤◌, ◌<◌, ◌≡◌, false, arith, ltb, leb, Bool-cases, inl, inr,
  if◌then◌else◌, ap, ◌∙◌,
}
use hm.Prelude.Int.{*ℤ_pos, ℤ, pos, ◌-ℤ◌, ◌*ℤ◌, ◌≤ℤ◌, wrap, wrap_in_range}
use hm.Prelude.Float.{FloatOps}
use hm.Analyzer.CrashDelay.{power_of_two, compute_crash_delay}
use hm.Analyzer.CrashDelay.Exact.{IsExact, double}

-- The starting delay, doubled with each crash past the threshold, up to the maximum.
pub backoff : ℕ → ℕ → ℕ → ℕ → ℕ
backoff c n start max =
    let doubled = start * 2 ^ (c - n) in
    if ltb c n then 0 else if leb doubled max then doubled else max

one_le_power : (k : ℕ) → 1 ≤ 2 ^ k
one_le_power k = pow-le-pow_right {n = 2} (omega arith) {i = 0} {j = k} (omega arith)

factor_le : (start m max : ℕ) → 1 ≤ start → start * m ≤ max → m ≤ max
factor_le start m max p h = grind arith

times_power_mono : (start j k : ℕ) → j ≤ k → start * 2 ^ j ≤ start * 2 ^ k
times_power_mono start j k h = grind (arith, pow-le-pow_right {n = 2} (omega arith) h)

power_of_two-eq : (u : ℤ) (k : ℕ) → 2 ^ k < 2 ^ 62 → power_of_two u (pos k) ≡ pos (2 ^ k)
unfolding power_of_two
power_of_two-eq u k h = elim (Bool-cases (ltb k 63)) [
  | inl small ↦ rw small
  | inr large ↦
      absurd (omega (arith, pow-le-pow_right {n = 2} (omega arith) (ge_of_ltb k large), h))
]
  where
    ge_of_ltb : (k : ℕ) → ltb k 63 ≡ false → 63 ≤ k
    ge_of_ltb k e = ground arith

exponent_eq : (c n : ℕ) → n ≤ c → c < 2 ^ 62 → wrap (pos c -ℤ pos n) ≡ pos (c - n)
unfolding ◌-ℤ◌
exponent_eq c n low r = ground (arith, wrap_in_range (pos (c - n)))

-- A delay between the two ends: the exponent is the number of crashes past the threshold.
middle-eq :
    (u : ℤ) (c n start max : ℕ)
    → 1 ≤ start
    → max < 2 ^ 62
    → c < 2 ^ 62
    → n ≤ c
    → start * 2 ^ (c - n) ≤ max
    → wrap (pos start *ℤ power_of_two u (wrap (pos c -ℤ pos n))) ≡ pos (start * 2 ^ (c - n))
middle-eq u c n start max p q r low fits =
    let exponent : wrap (pos c -ℤ pos n) ≡ pos (c - n) = exponent_eq c n low r in
    ap (λ z. wrap (pos start *ℤ power_of_two u z)) exponent
    ∙ ap (λ z. wrap (pos start *ℤ z))
        (power_of_two-eq u (c - n) (omega (arith, factor_le start (2 ^ (c - n)) max p fits)))
    ∙ ap wrap (*ℤ_pos start (2 ^ (c - n)))
    ∙ wrap_in_range _ (omega arith, omega arith)

-- Where float64 is exact, with a positive starting delay of at most the maximum, a maximum below 2 ^ 31,
-- a threshold below 2 ^ 20 and fewer than 2 ^ 62 crashes, the computed delay is nothing below the
-- threshold, and from it on the starting delay, doubled with each further crash, up to the maximum:
-- nothing overflows, whatever Go makes of unrepresentable floats.
pub compute_crash_delay-eq :
    (floats : FloatOps) (c n start max : ℕ)
    → IsExact floats
    → 1 ≤ start
    → start ≤ max
    → max < 2 ^ 31
    → n < 2 ^ 20
    → c < 2 ^ 62
    → compute_crash_delay floats (pos c) (pos n) (pos start) (pos max) ≡ pos (backoff c n start max)
unfolding compute_crash_delay backoff
compute_crash_delay-eq floats c n start max exact p h q s r = elim (Bool-cases (ltb c n)) [
  | inl below ↦ rw below (ground arith)
  | inr past ↦
      let (k, sum, fits, over) = exact n start max p h q s in
      let low : n ≤ c = ground arith in
      elim (Bool-cases (ltb (n + k) c)) [
        | inl beyond ↦
            let grown = times_power_mono start (suc k) (c - n) (ground arith) in
            rw (compute_crash_delay, sum) (ground (arith, grown))
        | inr within ↦
            let small = times_power_mono start (c - n) k (ground arith) in
            let middle =
              middle-eq floats.unrepresentable c n start max p (omega arith) r low
                (omega (arith, small, fits)) in
            rw (compute_crash_delay, sum) (ground (arith, small, fits, middle))
      ]
]

suc_minus : (c n : ℕ) → n ≤ c → suc c - n ≡ suc (c - n)
suc_minus c n h = omega arith

times_power_grows : (start k : ℕ) → start * 2 ^ k ≤ start * 2 ^ suc k
times_power_grows start k = grind (arith, double k)

start_le_power : (start k : ℕ) → start ≤ start * 2 ^ k
start_le_power start k = grind (arith, one_le_power k)

backoff_grows : (c n start max : ℕ) → backoff c n start max ≤ backoff (suc c) n start max
unfolding backoff
backoff_grows c n start max = elim (Bool-cases (ltb c n)) [
  | inl below ↦ rw below (omega arith)
  | inr past ↦
      let low : n ≤ c = ground arith in
      rw (suc_minus c n low) (ground (arith, times_power_grows start (c - n)))
]

backoff_starts : (c n start max : ℕ) → start ≤ max → n ≤ c → start ≤ backoff c n start max
unfolding backoff
backoff_starts c n start max h low = ground (arith, start_le_power start (c - n))

backoff_base : (n start max : ℕ) → start ≤ max → backoff n n start max ≡ start
unfolding backoff
backoff_base n start max h = let none : n - n ≡ 0 = omega arith in rw none (ground arith)

backoff_below : (c n start max : ℕ) → c < n → backoff c n start max ≡ 0
unfolding backoff
backoff_below c n start max h = ground arith

backoff_most : (c n start max : ℕ) → backoff c n start max ≤ max
unfolding backoff
backoff_most c n start max = ground arith

-- Where float64 is exact, with a positive starting delay of at most the maximum, a maximum below 2 ^ 31,
-- a threshold below 2 ^ 20, and fewer than 2 ^ 62 crashes with one more, the delay is not above the
-- maximum, does not fall with one more crash, is at least the starting delay from the threshold on, is
-- the starting delay at the threshold, and is nothing below it.
pub compute_crash_delay_bounds :
    (floats : FloatOps) (c n start max : ℕ)
    → IsExact floats
    → 1 ≤ start
    → start ≤ max
    → max < 2 ^ 31
    → suc c < 2 ^ 62
    → n < 2 ^ 20
    → let delay = λ (k : ℕ). compute_crash_delay floats (pos k) (pos n) (pos start) (pos max) in
      (delay c ≤ℤ pos max)
      × (delay c ≤ℤ delay (suc c))
      × (n ≤ c → pos start ≤ℤ delay c)
      × (delay n ≡ pos start)
      × (c < n → delay c ≡ pos 0)
compute_crash_delay_bounds floats c n start max exact p h q r s =
    let now = compute_crash_delay-eq floats c n start max exact p h q s (omega arith) in
    let next = compute_crash_delay-eq floats (suc c) n start max exact p h q s r in
    let first = compute_crash_delay-eq floats n n start max exact p h q s (omega arith) in
    rw (now, next, first)
      (
        omega (arith, backoff_most c n start max),
        omega (arith, backoff_grows c n start max),
        λ low. omega (arith, backoff_starts c n start max h low),
        ap pos (backoff_base n start max h),
        λ below. ap pos (backoff_below c n start max below),
      )
