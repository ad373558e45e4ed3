-- ===== src/Prelude/Time.antt =====
-- time.Time and time.Duration. An instant is its nanoseconds since the Unix epoch, a duration its
-- nanoseconds as an int64.
use hm.Prelude.{ℕ, ◌≤◌, ◌≡◌, arith}
use hm.Prelude.Int.{ℤ, pos, negsuc, ◌+ℤ◌, ◌*ℤ◌, floor_div, wrap, wrap_in_range, pos_part, neg_part}

abbrev pub second : ℕ
second = 1000000000

abbrev pub Time : Type 0
Time = ℤ

-- t.Unix()
unfoldable pub unix : Time → ℤ
unfolding floor_div
unix t = floor_div t second

-- time.Duration(n) * time.Second
unfoldable pub seconds : ℤ → ℤ
unfolding wrap ◌*ℤ◌
seconds n = wrap (n *ℤ pos second)

-- t.Add(d)
abbrev pub add : Time → ℤ → Time
add t d = t +ℤ d

-- The number of seconds that a duration can hold.
abbrev pub IsSeconds : ℤ → Type 0
IsSeconds n = (pos_part n ≤ 9223372036) × (neg_part n ≤ 9223372036)

pub seconds_in_range : (n : ℤ) → IsSeconds n → seconds n ≡ n *ℤ pos second
unfolding seconds
seconds_in_range (pos n) h = wrap_in_range (pos n *ℤ pos second) (unfold ◌*ℤ◌ in ground arith)
seconds_in_range (negsuc n) h = wrap_in_range (negsuc n *ℤ pos second) (unfold ◌*ℤ◌ in ground arith)

floor_div-add : (t n : ℤ) → floor_div (t +ℤ n *ℤ pos second) second ≡ floor_div t second +ℤ n
unfolding floor_div ◌+ℤ◌ ◌*ℤ◌
floor_div-add (pos a) (pos b) = ground arith
floor_div-add (pos a) (negsuc b) = ground arith
floor_div-add (negsuc a) (pos b) = ground arith
floor_div-add (negsuc a) (negsuc b) = ground arith

-- Adding whole seconds moves the Unix time by as many, whatever the fraction of the second.
pub unix-add : (t n : ℤ) → IsSeconds n → unix (add t (seconds n)) ≡ unix t +ℤ n
unix-add t n h = rw (seconds_in_range n h) (unfold unix in floor_div-add t n)
