-- ===== src/Store/Compaction/Outdated.antt =====
-- Which schema versions a compaction deletes (store/compact.go).
use hm.Prelude.{ℕ, ◌≡◌, ◌≢◌, refl, true, false, [], ◌∷◌, ◌++◌, some, All, arith, ◌<◌, ◌^◌}
use hm.Prelude.Int.{pos, ltb_ℤ}
use hm.Prelude.Text.{GoString, codes, itoa, is_digit}
use hm.Prelude.Text.Decimal.{atoi-itoa, itoa-digits}
use hm.Config.{Config}
use hm.Store.Compaction.{all_digits, schema_digits, after_prefix, has_prefix, is_outdated}

all_digits-All : (s : GoString) → All (λ c. is_digit c ≡ true) s → all_digits s ≡ true
unfolding all_digits
all_digits-All [] h = refl
all_digits-All (c ∷ s) h = rw (h.0, all_digits-All s h.1) refl

schema_digits-of :
    (s : GoString)
    → All (λ c. is_digit c ≡ true) s
    → s ≢ []
    → schema_digits (codes "/hm/v" ++ s) ≡ some s
unfolding schema_digits after_prefix
schema_digits-of [] h n = absurd (n refl)
schema_digits-of (c ∷ s) h n = rw (all_digits-All (c ∷ s) h) refl

version_key : (s : GoString) → has_prefix (codes "/hm/v" ++ s) (codes "/hm/locks") ≡ false
unfolding has_prefix after_prefix
version_key s = refl

-- A directory of a schema version below 2 ^ 63 is deleted exactly when the version is lower than the
-- configured one.
pub is_outdated-version :
    (conf : Config) (n : ℕ)
    → n < 2 ^ 63
    → is_outdated conf (codes "/hm/v" ++ itoa (pos n)) ≡ ltb_ℤ (pos n) conf.store_schema_version
unfolding is_outdated
is_outdated-version conf n h =
    let (digits, some_digit) = itoa-digits n in
    rw
      (
        is_outdated,
        version_key (itoa (pos n)),
        schema_digits-of (itoa (pos n)) digits some_digit,
        atoi-itoa (pos n) (omega arith, omega arith),
      )
      refl
