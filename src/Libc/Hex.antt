-- ===== src/Libc/Hex.antt =====
-- Hexadecimal numbers, as `%0wX` prints them and the conversions of base 16 read them.
use native.Mathlib.Nat.{pow-suc}
use mobile_config.Base.{
  ℕ, zero, suc, ◌+◌, ◌-◌, ◌*◌, ◌/◌, ◌%◌, ◌^◌, ◌≡◌, refl, sym, subst, ◌∙◌, ap, ◌<◌, true, false, [],
  ◌∷◌, leb, if◌then◌else◌, length, All, arith, pos,
}
use mobile_config.Libc.Strings.{Bytes}
use mobile_config.Libc.Decimal.{skip_spaces}
use mobile_config.Libc.Scan.{
  is_hex, hex_value, scan_hex_digits, starts_hex, after_0x, after_sign, has_minus, hex_body,
  strtoul16, strtol16,
}

abbrev pub upper_digit : ℕ → ℕ
upper_digit d = if leb d 9 then b'0' + d else b'A' + (d - 10)

-- The last digits of `n`, as many as the first argument says, in front of `out`: `%0wX`.
abbrev pub upper_digits : ℕ → ℕ → Bytes → Bytes
upper_digits zero n out = out
upper_digits (suc digits) n out = upper_digits digits (n / 16) (upper_digit (n % 16) ∷ out)

abbrev pub IsHex : ℕ → Type 0
IsHex c = is_hex c ≡ true

upper_digit-IsHex : (d : ℕ) → d < 16 → IsHex (upper_digit d)
upper_digit-IsHex d h = ground arith

hex_value-upper_digit : (d : ℕ) → d < 16 → hex_value (upper_digit d) ≡ d
hex_value-upper_digit d h = ground arith

pub All-upper_digits : (k n : ℕ) (out : Bytes) → All IsHex out → All IsHex (upper_digits k n out)
All-upper_digits zero n out h = h
All-upper_digits (suc k) n out h =
    All-upper_digits k (n / 16) (upper_digit (n % 16) ∷ out)
      (upper_digit-IsHex (n % 16) (omega arith), h)

pub length-upper_digits : (k n : ℕ) (out : Bytes) → length (upper_digits k n out) ≡ k + length out
length-upper_digits zero n out = omega arith
length-upper_digits (suc k) n out =
    omega (arith, length-upper_digits k (n / 16) (upper_digit (n % 16) ∷ out))

pub scan-upper_digits :
    (k n : ℕ) (out : Bytes)
    → n < 16 ^ k
    → scan_hex_digits (upper_digits k n out) 0 ≡ scan_hex_digits out n
scan-upper_digits zero n out h = ap (scan_hex_digits out) (omega (arith, h))
scan-upper_digits (suc k) n out h =
    let is = upper_digit-IsHex (n % 16) (omega arith) in
    let value = hex_value-upper_digit (n % 16) (omega arith) in
    let whole : n / 16 * 16 + n % 16 ≡ n = omega arith in
    scan-upper_digits k (n / 16) (upper_digit (n % 16) ∷ out) (omega (arith, h, pow-suc 16 k))
    ∙ rw (is, value, whole) refl

skip_spaces-IsHex : (c : ℕ) (s : Bytes) → IsHex c → skip_spaces (c ∷ s) ≡ c ∷ s
skip_spaces-IsHex c s h = ground arith

after_sign-IsHex : (c : ℕ) (s : Bytes) → IsHex c → after_sign (c ∷ s) ≡ c ∷ s
after_sign-IsHex c s h = ground arith

after_0x-IsHex : (c d : ℕ) (s : Bytes) → IsHex d → after_0x (c ∷ d ∷ s) ≡ c ∷ d ∷ s
after_0x-IsHex c d s h = ground arith

pub hex_body-two : (c d : ℕ) (s : Bytes) → IsHex c → IsHex d → hex_body (c ∷ d ∷ s) ≡ c ∷ d ∷ s
hex_body-two c d s hc hd =
    ap (λ t. after_0x (after_sign t)) (skip_spaces-IsHex c (d ∷ s) hc)
    ∙ (ap after_0x (after_sign-IsHex c (d ∷ s) hc) ∙ after_0x-IsHex c d s hd)

has_minus-IsHex : (c : ℕ) (s : Bytes) → IsHex c → has_minus (skip_spaces (c ∷ s)) ≡ false
has_minus-IsHex c s h = ground arith

pub upper_two :
    (k n : ℕ) (out : Bytes)
    → (c : ℕ) × (d : ℕ) × (s : Bytes) × (upper_digits (suc (suc k)) n out ≡ c ∷ d ∷ s)
      × IsHex c
      × IsHex d
upper_two zero n out = (
  upper_digit (n / 16 % 16),
  upper_digit (n % 16),
  out,
  refl,
  upper_digit-IsHex (n / 16 % 16) (omega arith),
  upper_digit-IsHex (n % 16) (omega arith),
)
upper_two (suc k) n out = upper_two k (n / 16) (upper_digit (n % 16) ∷ out)

-- A printed number of two digits or more behind which no digit stands.
module _ (k n : ℕ) (more : Bytes) (small : n < 16 ^ suc (suc k))
    (ends : starts_hex more ≡ false) where
  ends_there : (acc : ℕ) (s : Bytes) → starts_hex s ≡ false → scan_hex_digits s acc ≡ acc
  ends_there acc [] e = refl
  ends_there acc (c ∷ s) e = rw e refl

  pub scan-whole : scan_hex_digits (upper_digits (suc (suc k)) n more) 0 ≡ n
  scan-whole = scan-upper_digits (suc (suc k)) n more small ∙ ends_there n more ends

  pub hex_body-upper :
      hex_body (upper_digits (suc (suc k)) n more) ≡ upper_digits (suc (suc k)) n more
  hex_body-upper =
      let (c, d, s, e, hc, hd) = upper_two k n more in
      subst (λ t. hex_body t ≡ t) (sym e) (hex_body-two c d s hc hd)

  pub has_minus-upper : has_minus (skip_spaces (upper_digits (suc (suc k)) n more)) ≡ false
  has_minus-upper =
      let (c, d, s, e, hc, hd) = upper_two k n more in
      subst (λ t. has_minus (skip_spaces t) ≡ false) (sym e) (has_minus-IsHex c (d ∷ s) hc)

  pub starts_hex-upper : starts_hex (upper_digits (suc (suc k)) n more) ≡ true
  starts_hex-upper =
      let (c, d, s, e, hc, hd) = upper_two k n more in subst (λ t. starts_hex t ≡ true) (sym e) hc

  pub strtoul16-upper : n < 2 ^ 64 → strtoul16 (upper_digits (suc (suc k)) n more) ≡ n
  unfolding strtoul16
  strtoul16-upper h = rw (has_minus-upper, hex_body-upper, scan-whole) (ground arith)

  pub strtol16-upper : n < 2 ^ 63 → strtol16 (upper_digits (suc (suc k)) n more) ≡ pos n
  unfolding strtol16
  strtol16-upper h = rw (has_minus-upper, hex_body-upper, scan-whole) (ground arith)
