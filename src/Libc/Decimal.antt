-- ===== src/Libc/Decimal.antt =====
-- `%d`, `%ld`, `%lld` and `strtoll`, `atoi`.
use mobile_config.Base.{
  ◌<◌, ◌≡◌, arith, ◌++◌, length, replicate, ℕ, zero, suc, ◌+◌, ◌-◌, ◌*◌, ◌/◌, ◌%◌, ◌^◌, Bool, true,
  false, [], ◌∷◌, ltb, leb, ◌==◌, if◌then◌else◌, ℤ, pos, negsuc,
}
use mobile_config.Libc.Strings.{Bytes, is_digit, is_space}

-- The digits of `n` in front of `out`; the fuel `suc n` is more than the number of digits.
abbrev pub emit_digits : ℕ → ℕ → Bytes → Bytes
emit_digits zero n out = out
emit_digits (suc f) n out =
    let rest = emit_digits f (n / 10) ((b'0' + n % 10) ∷ out) in
    if ltb n 10 then (b'0' + n) ∷ out else rest

-- `%u`, `%llu`
unfoldable pub dec : ℕ → Bytes
dec n = emit_digits (suc n) n []

-- `%d`, `%lld`
unfoldable pub dec_ℤ : ℤ → Bytes
unfolding dec
dec_ℤ (pos n) = dec n
dec_ℤ (negsuc n) = b'-' ∷ dec (n + 1)

abbrev zeros_to : ℕ → Bytes → Bytes
zeros_to w s = replicate (w - length s) b'0' ++ s

-- `%0wlld`
unfoldable pub dec0 : ℕ → ℤ → Bytes
unfolding dec
dec0 w (pos n) = zeros_to w (dec n)
dec0 w (negsuc n) = b'-' ∷ zeros_to (w - 1) (dec (n + 1))

-- `%+lld`
unfoldable pub dec_plus : ℤ → Bytes
unfolding dec
dec_plus (pos n) = b'+' ∷ dec n
dec_plus (negsuc n) = b'-' ∷ dec (n + 1)

-- The value of the digits at the front of a text, behind `acc`.
abbrev pub scan_digits : Bytes → ℕ → ℕ
scan_digits [] acc = acc
scan_digits (c ∷ s) acc = if is_digit c then scan_digits s (acc * 10 + (c - b'0')) else acc

abbrev pub skip_spaces : Bytes → Bytes
skip_spaces [] = []
skip_spaces (c ∷ s) = if is_space c then skip_spaces s else c ∷ s

abbrev pub starts_digit : Bytes → Bool
starts_digit [] = false
starts_digit (c ∷ s) = is_digit c

-- What `strtoll(s, &end, 10)` tells: the value, whether `end != s`, and whether `errno` is set.
pub record Strtoll : Type 0 where
  pub value : ℤ
  pub parsed : Bool
  pub range_error : Bool

abbrev pub nothing_parsed : Strtoll
nothing_parsed = record { value = pos 0; parsed = false; range_error = false }

abbrev pub positive : Bytes → Strtoll
positive s =
    let n = scan_digits s 0 in
    if starts_digit s
    then if ltb n (2 ^ 63)
      then record { value = pos n; parsed = true; range_error = false }
      else record { value = pos (2 ^ 63 - 1); parsed = true; range_error = true }
    else nothing_parsed

abbrev pub negative : Bytes → Strtoll
negative s =
    let n = scan_digits s 0 in
    if starts_digit s
    then if n == 0
      then record { value = pos 0; parsed = true; range_error = false }
      else if leb n (2 ^ 63)
      then record { value = negsuc (n - 1); parsed = true; range_error = false }
      else record { value = negsuc (2 ^ 63 - 1); parsed = true; range_error = true }
    else nothing_parsed

abbrev pub signed : Bytes → Strtoll
signed [] = nothing_parsed
signed (c ∷ s) =
    if c == b'-' then negative s else if c == b'+' then positive s else positive (c ∷ s)

unfoldable pub strtoll : Bytes → Strtoll
strtoll s = signed (skip_spaces s)

-- `(int)` of a 64-bit value: the low 32 bits, read as two's complement.
unfoldable pub to_int32 : ℤ → ℤ
to_int32 (pos n) = let w = n % 2 ^ 32 in if ltb w (2 ^ 31) then pos w else negsuc (2 ^ 32 - 1 - w)
to_int32 (negsuc n) =
    let w = n % 2 ^ 32 in if ltb w (2 ^ 31) then negsuc w else pos (2 ^ 32 - 1 - w)

-- A sum, a difference or a product of `long long`: its low 64 bits, read as two's complement.
unfoldable pub wrap64 : ℤ → ℤ
wrap64 (pos n) = let w = n % 2 ^ 64 in if ltb w (2 ^ 63) then pos w else negsuc (2 ^ 64 - 1 - w)
wrap64 (negsuc n) = let w = n % 2 ^ 64 in if ltb w (2 ^ 63) then negsuc w else pos (2 ^ 64 - 1 - w)

-- `atoi`, which is `(int)strtol(s, NULL, 10)`
unfoldable pub atoi : Bytes → ℤ
unfolding strtoll to_int32
atoi s = to_int32 (strtoll s).value

-- `atol`, which is `strtol(s, NULL, 10)` of a 64-bit `long`
unfoldable pub atol : Bytes → ℤ
unfolding strtoll
atol s = (strtoll s).value

pub wrap64-small : (n : ℕ) → n < 2 ^ 63 → wrap64 (pos n) ≡ pos n
unfolding wrap64
wrap64-small n h = ground arith

pub to_int32-small : (n : ℕ) → n < 2 ^ 31 → to_int32 (pos n) ≡ pos n
unfolding to_int32
to_int32-small n h = ground arith
