-- ===== src/Prelude/Text/Decimal.antt =====
-- `Itoa` and `Atoi` are inverse, and a printed number holds no separator.
use mathlib.Core.Bool.{false≢true}
use mathlib.Core.Path.{subst}
use hm.Prelude.{
  ℕ, zero, suc, ◌+◌, ◌/◌, ◌%◌, ◌<◌, ◌≡◌, refl, ◌≢◌, sym, ◌∙◌, true, false, some, [], ◌∷◌, arith,
  All, All-mono,
}
use hm.Prelude.Int.{ℤ, pos, negsuc, IsInt64}
use hm.Prelude.Text.{
  GoString, emit_digits, decimal, itoa, is_digit, read_digits, magnitude, signed, atoi, Lacks,
}

abbrev IsDigit : ℕ → Type 0
IsDigit c = is_digit c ≡ true

emit_digits-IsDigit :
    (fuel n : ℕ) (out : GoString)
    → n < fuel
    → All IsDigit out
    → All IsDigit (emit_digits fuel n out)
unfolding emit_digits is_digit
emit_digits-IsDigit zero n out h d = d
emit_digits-IsDigit (suc fuel) n out h d =
    ground (arith, emit_digits-IsDigit fuel (n / 10) ((b'0' + n % 10) ∷ out))

emit_digits-ne-nil : (fuel n : ℕ) (out : GoString) → n < fuel → emit_digits fuel n out ≢ []
unfolding emit_digits
emit_digits-ne-nil zero n out h = absurd (omega arith)
emit_digits-ne-nil (suc fuel) n out h =
    ground (arith, emit_digits-ne-nil fuel (n / 10) ((b'0' + n % 10) ∷ out))

read_digits-emit_digits :
    (fuel n : ℕ) (out : GoString)
    → n < fuel
    → read_digits (emit_digits fuel n out) 0 ≡ read_digits out n
unfolding emit_digits read_digits
read_digits-emit_digits zero n out h = absurd (omega arith)
read_digits-emit_digits (suc fuel) n out h =
    ground (arith, read_digits-emit_digits fuel (n / 10) ((b'0' + n % 10) ∷ out))

decimal-IsDigit : (n : ℕ) → All IsDigit (decimal n)
unfolding decimal
decimal-IsDigit n = emit_digits-IsDigit (suc n) n [] (omega arith) tt

magnitude-read_digits : (s : GoString) → s ≢ [] → magnitude s ≡ read_digits s 0
unfolding magnitude
magnitude-read_digits [] h = absurd (h refl)
magnitude-read_digits (c ∷ s) h = refl

magnitude-decimal : (n : ℕ) → magnitude (decimal n) ≡ some n
unfolding decimal read_digits
magnitude-decimal n =
    magnitude-read_digits _ (emit_digits-ne-nil (suc n) n [] (omega arith))
    ∙ read_digits-emit_digits (suc n) n [] (omega arith)

-- A text that begins with a digit is read as a magnitude.
atoi-digits : (s : GoString) → All IsDigit s → atoi s ≡ signed false (magnitude s)
unfolding atoi is_digit
atoi-digits [] h = refl
atoi-digits (c ∷ s) h = ground arith

-- Every int64 is read back from its decimal print.
pub atoi-itoa : (z : ℤ) → IsInt64 z → atoi (itoa z) ≡ some z
unfolding itoa
atoi-itoa (pos n) h =
    rw (atoi-digits (decimal n) (decimal-IsDigit n), magnitude-decimal n)
      (unfold signed in ground arith)
atoi-itoa (negsuc n) h =
    unfold atoi in rw (magnitude-decimal (suc n)) (unfold signed in ground arith)

not-decimal-minus : (n : ℕ) (s : GoString) → decimal n ≢ b'-' ∷ s
unfolding is_digit
not-decimal-minus n s e = false≢true ((subst (All IsDigit) e (decimal-IsDigit n)).0)

pub itoa_injective : (z w : ℤ) → itoa z ≡ itoa w → z ≡ w
unfolding itoa
itoa_injective (pos n) (pos m) e = cc (magnitude-decimal n, magnitude-decimal m)
itoa_injective (negsuc n) (negsuc m) e = cc (magnitude-decimal (suc n), magnitude-decimal (suc m))
itoa_injective (pos n) (negsuc m) e = absurd (not-decimal-minus n _ e)
itoa_injective (negsuc n) (pos m) e = absurd (not-decimal-minus m _ (sym e))

digits-Lacks : (sep : ℕ) (s : GoString) → is_digit sep ≡ false → All IsDigit s → Lacks sep s
digits-Lacks sep s h =
    All-mono IsDigit (λ c. c ≢ sep) s (λ c p e. false≢true (sym h ∙ subst IsDigit e p))

-- The print of a number holds digits and a minus sign only.
pub itoa-Lacks : (sep : ℕ) (z : ℤ) → is_digit sep ≡ false → sep ≢ b'-' → Lacks sep (itoa z)
unfolding itoa
itoa-Lacks sep (pos n) h k = digits-Lacks sep _ h (decimal-IsDigit n)
itoa-Lacks sep (negsuc n) h k = (λ e. k (sym e), digits-Lacks sep _ h (decimal-IsDigit (suc n)))

-- A number that is not negative is printed as one or more digits.
pub itoa-digits : (n : ℕ) → All (λ c. is_digit c ≡ true) (itoa (pos n)) × (itoa (pos n) ≢ [])
unfolding itoa decimal
itoa-digits n = (decimal-IsDigit n, emit_digits-ne-nil (suc n) n [] (omega arith))
