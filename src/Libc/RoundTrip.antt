-- ===== src/Libc/RoundTrip.antt =====
-- What `%lld` prints, `strtoll` reads back.
use native.Mathlib.Nat.{pow-suc}
use mobile_config.Base.{
  ℕ, zero, suc, ◌+◌, ◌-◌, ◌/◌, ◌%◌, ◌^◌, ◌≤◌, ◌<◌, ◌≡◌, ◌≢◌, true, false, [], ◌∷◌, arith, length,
  All, ℤ, pos, negsuc, ◌≤ℤ◌,
}
use mobile_config.Libc.Strings.{Bytes, is_digit}
use mobile_config.Libc.Decimal.{
  emit_digits, dec, dec_ℤ, scan_digits, starts_digit, signed, skip_spaces, strtoll,
}

abbrev pub IsDigit : ℕ → Type 0
IsDigit c = is_digit c ≡ true

scan-emit :
    (f n : ℕ) (out : Bytes) → n < f → scan_digits (emit_digits f n out) 0 ≡ scan_digits out n
scan-emit zero n out h = absurd (omega arith)
scan-emit (suc f) n out h = ground (arith, scan-emit f (n / 10) ((b'0' + n % 10) ∷ out))

starts-emit :
    (f n : ℕ) (out : Bytes) → starts_digit out ≡ true → starts_digit (emit_digits f n out) ≡ true
starts-emit zero n out h = h
starts-emit (suc f) n out h = ground (arith, starts-emit f (n / 10) ((b'0' + n % 10) ∷ out))

All-emit : (f n : ℕ) (out : Bytes) → All IsDigit out → All IsDigit (emit_digits f n out)
All-emit zero n out h = h
All-emit (suc f) n out h = ground (arith, All-emit f (n / 10) ((b'0' + n % 10) ∷ out))

length-emit :
    (f n k : ℕ) (out : Bytes) → n < 10 ^ suc k → length (emit_digits f n out) ≤ suc k + length out
length-emit zero n k out h = omega arith
length-emit (suc f) n zero out h = ground arith
length-emit (suc f) n (suc k) out h =
    ground (arith, pow-suc 10 (suc k), length-emit f (n / 10) k ((b'0' + n % 10) ∷ out))

strtoll-digits :
    (s : Bytes) (n : ℕ)
    → starts_digit s ≡ true
    → scan_digits s 0 ≡ n
    → n < 2 ^ 63
    → strtoll s ≡ record { value = pos n; parsed = true; range_error = false }
unfolding strtoll
strtoll-digits [] n d e h = ground arith
strtoll-digits (c ∷ s) n d e h = ground arith

strtoll-minus :
    (s : Bytes) (n : ℕ)
    → starts_digit s ≡ true
    → scan_digits s 0 ≡ n + 1
    → n < 2 ^ 63
    → strtoll (b'-' ∷ s) ≡ record { value = negsuc n; parsed = true; range_error = false }
unfolding strtoll
strtoll-minus [] n d e h = ground arith
strtoll-minus (c ∷ s) n d e h = ground arith

pub starts-dec : (n : ℕ) → starts_digit (dec n) ≡ true
unfolding dec
starts-dec n = ground (arith, starts-emit n (n / 10) ((b'0' + n % 10) ∷ []))

pub scan-dec : (n : ℕ) → scan_digits (dec n) 0 ≡ n
unfolding dec
scan-dec n = scan-emit (suc n) n [] (omega arith)

-- The values of `long long`.
abbrev pub IsInt64 : ℤ → Type 0
IsInt64 z = (negsuc (2 ^ 63 - 1) ≤ℤ z) × (z ≤ℤ pos (2 ^ 63 - 1))

-- `strtoll` reads a printed 64-bit value back, whole and with no range error.
pub strtoll-dec_ℤ :
    (z : ℤ)
    → IsInt64 z
    → strtoll (dec_ℤ z) ≡ record { value = z; parsed = true; range_error = false }
unfolding dec_ℤ
strtoll-dec_ℤ (pos n) h = strtoll-digits (dec n) n (starts-dec n) (scan-dec n) (omega arith)
strtoll-dec_ℤ (negsuc n) h =
    strtoll-minus (dec (n + 1)) n (starts-dec (n + 1)) (scan-dec (n + 1)) (omega arith)

pub All-dec : (n : ℕ) → All IsDigit (dec n)
unfolding dec
All-dec n = All-emit (suc n) n [] tt

pub length-dec : (n k : ℕ) → n < 10 ^ suc k → length (dec n) ≤ suc k
unfolding dec
length-dec n k h = omega (arith, length-emit (suc n) n k [] h)

-- A byte that `%lld` prints.
abbrev pub IsNumeric : ℕ → Type 0
IsNumeric c = (b'-' ≤ c) × (c ≤ b'9')

digits-IsNumeric : (s : Bytes) → All IsDigit s → All IsNumeric s
digits-IsNumeric [] h = tt
digits-IsNumeric (c ∷ s) h = (ground arith, digits-IsNumeric s h.1)

pub All-dec_ℤ : (z : ℤ) → All IsNumeric (dec_ℤ z)
unfolding dec_ℤ
All-dec_ℤ (pos n) = digits-IsNumeric (dec n) (All-dec n)
All-dec_ℤ (negsuc n) = (omega arith, digits-IsNumeric (dec (n + 1)) (All-dec (n + 1)))

-- A 64-bit value takes at most 20 bytes.
pub length-dec_ℤ : (z : ℤ) → IsInt64 z → length (dec_ℤ z) ≤ 20
unfolding dec_ℤ
length-dec_ℤ (pos n) h = omega (arith, length-dec n 18 (omega arith))
length-dec_ℤ (negsuc n) h = omega (arith, length-dec (n + 1) 18 (omega arith))

pub dec_ℤ-ne-nil : (z : ℤ) → dec_ℤ z ≢ []
unfolding dec_ℤ
dec_ℤ-ne-nil (pos n) = ne (dec n) (starts-dec n)
  where
    ne : (s : Bytes) → starts_digit s ≡ true → s ≢ []
    ne [] h = λ e. cc
    ne (c ∷ s) h = λ e. cc
dec_ℤ-ne-nil (negsuc n) = λ e. cc

signed-IsInt64 : (s : Bytes) → IsInt64 (signed s).value
signed-IsInt64 [] = omega arith
signed-IsInt64 (c ∷ s) = ground arith

-- `strtoll` saturates, so its value is a 64-bit one for every text.
pub strtoll-IsInt64 : (s : Bytes) → IsInt64 (strtoll s).value
unfolding strtoll
strtoll-IsInt64 s = signed-IsInt64 (skip_spaces s)
