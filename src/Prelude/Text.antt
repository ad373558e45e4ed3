-- ===== src/Prelude/Text.antt =====
-- Go's strings are sequences of bytes. `strconv.Itoa` and `Atoi`, and `strings.Split` by one byte.
pub mod Decimal
use Prim.Native.Char.{code}
use Prim.Native.String.{String}
use hm.Prelude.{
  ℕ, zero, suc, ◌+◌, ◌-◌, ◌*◌, ◌/◌, ◌%◌, ◌^◌, ◌≤◌, ◌<◌, ◌≡◌, refl, ◌≢◌, ◌↔◌, Bool, true, false, not,
  ◌&&◌, ◌||◌, Option, none, some, List, [], ◌∷◌, ◌++◌, arith, ltb, leb, eqb, eqb_iff, Eq,
  if◌then◌else◌, All, Bool-cases, inl, inr,
}
use hm.Prelude.Int.{ℤ, pos, negsuc, IsInt64}

abbrev pub GoString : Type 0
GoString = List ℕ

-- A literal of the source: ASCII, so its code points are its bytes.
abbrev pub codes : String → GoString
codes String.[] = []
codes (String.◌∷◌ c s) = code c ∷ codes s

unfoldable pub str_eqb : GoString → GoString → Bool
str_eqb [] [] = true
str_eqb [] (d ∷ t) = false
str_eqb (c ∷ s) [] = false
str_eqb (c ∷ s) (d ∷ t) = eqb c d && str_eqb s t

pub str_eqb_iff : (s t : GoString) → (str_eqb s t ≡ true) ↔ (s ≡ t)
unfolding str_eqb
str_eqb_iff [] [] = ground arith
str_eqb_iff [] (d ∷ t) = ground arith
str_eqb_iff (c ∷ s) [] = ground arith
str_eqb_iff (c ∷ s) (d ∷ t) = ground (arith, str_eqb_iff s t)

instance abbrev pub string_eq : Eq GoString
string_eq = record { same = str_eqb; same_iff = str_eqb_iff }

-- The decimal digits of a number, in front of `out`. The fuel bounds the number.
emit_digits : ℕ → ℕ → GoString → GoString
emit_digits zero n out = out
emit_digits (suc fuel) n out =
    let rest = emit_digits fuel (n / 10) ((b'0' + n % 10) ∷ out) in
    if ltb n 10 then (b'0' + n) ∷ out else rest

decimal : ℕ → GoString
unfolding emit_digits
decimal n = emit_digits (suc n) n []

-- strconv.Itoa
unfoldable pub itoa : ℤ → GoString
unfolding decimal
itoa (pos n) = decimal n
itoa (negsuc n) = b'-' ∷ decimal (suc n)

unfoldable pub is_digit : ℕ → Bool
is_digit c = leb b'0' c && leb c b'9'

-- The number that the digits spell behind `n`.
read_digits : GoString → ℕ → Option ℕ
unfolding is_digit
read_digits [] n = some n
read_digits (c ∷ s) n = if is_digit c then read_digits s (n * 10 + (c - b'0')) else none

magnitude : GoString → Option ℕ
unfolding read_digits
magnitude [] = none
magnitude (c ∷ s) = read_digits (c ∷ s) 0

-- A magnitude that fits becomes the integer; one that does not is an error of range.
signed : Bool → Option ℕ → Option ℤ
signed negative none = none
signed false (some n) = if ltb n (2 ^ 63) then some (pos n) else none
signed true (some zero) = some (pos 0)
signed true (some (suc n)) = if ltb n (2 ^ 63) then some (negsuc n) else none

-- strconv.Atoi: an optional sign and one or more digits.
unfoldable pub atoi : GoString → Option ℤ
unfolding magnitude signed
atoi [] = none
atoi (c ∷ s) =
    if eqb c b'-'
    then signed true (magnitude s)
    else if eqb c b'+'
    then signed false (magnitude s)
    else signed false (magnitude (c ∷ s))

-- strings.Split(s, sep) for a separator of one byte.
cons_head : ℕ → List GoString → List GoString
cons_head c [] = (c ∷ []) ∷ []
cons_head c (p ∷ ps) = (c ∷ p) ∷ ps

unfoldable pub split : ℕ → GoString → List GoString
unfolding cons_head
split sep [] = [] ∷ []
split sep (c ∷ s) = let rest = split sep s in if eqb c sep then [] ∷ rest else cons_head c rest

abbrev pub Lacks : ℕ → GoString → Type 0
Lacks b = All (λ c. c ≢ b)

-- A part up to a separator is the first part of the split.
pub split_at :
    (sep : ℕ) (p rest : GoString) → Lacks sep p → split sep (p ++ sep ∷ rest) ≡ p ∷ split sep rest
unfolding split
split_at sep [] rest h = ground arith
split_at sep (c ∷ p) rest h = ground (arith, split_at sep p rest h.1)

pub split_last : (sep : ℕ) (p : GoString) → Lacks sep p → split sep p ≡ p ∷ []
unfolding split
split_last sep [] h = refl
split_last sep (c ∷ p) h = ground (arith, split_last sep p h.1)

itoa_of_minus_ten : itoa (negsuc 9) ≡ codes "-10"
unfolding itoa
itoa_of_minus_ten = refl

atoi_bounds : (atoi (codes "9223372036854775808") ≡ none) × (atoi (codes "+07") ≡ some (pos 7))
unfolding atoi
atoi_bounds = (refl, refl)
