-- ===== src/Libc/Scan.antt =====
-- The conversions of `sscanf` that the panel uses, `strtol` and `strtoul` of base 16, `strtok_r` on
-- newlines, and `strrchr`. A conversion gives its value and the rest of the text, or `none` where it
-- fails, which ends the scan.
use mobile_config.Base.{
  ℕ, zero, suc, ◌+◌, ◌-◌, ◌*◌, ◌%◌, ◌^◌, Bool, false, ◌&&◌, ◌||◌, Option, none, some, List, [], ◌∷◌,
  ltb, leb, ◌==◌, if◌then◌else◌, ℤ, pos, neg_of,
}
use mobile_config.Libc.Strings.{Bytes, is_digit, is_space, starts_with}
use mobile_config.Libc.Decimal.{scan_digits, skip_spaces, starts_digit, signed}

infixl 5 ◌>>=◌
abbrev pub ◌>>=◌ {ℓ κ} : {A : Type ℓ} {B : Type κ} → Option A → (A → Option B) → Option B
none >>= f = none
some a >>= f = f a

-- `P` holds of the value, if there is one.
abbrev pub Gives {ℓ κ} : {A : Type ℓ} → (A → Type κ) → Option A → Type κ
Gives P none = Unit
Gives P (some a) = P a

pub bind-Gives {ℓ κ ι} :
    {A : Type ℓ} {B : Type κ} (P : B → Type ι) (o : Option A) (f : A → Option B)
    → ((a : A) → Gives P (f a))
    → Gives P (o >>= f)
bind-Gives P none f h = tt
bind-Gives P (some a) f h = h a

abbrev pub after_sign : Bytes → Bytes
after_sign [] = []
after_sign (c ∷ s) = if c == b'-' || c == b'+' then s else c ∷ s

abbrev pub has_minus : Bytes → Bool
has_minus s = starts_with (b'-' ∷ []) s

abbrev pub skip_digits : Bytes → Bytes
skip_digits [] = []
skip_digits (c ∷ s) = if is_digit c then skip_digits s else c ∷ s

-- `%lld`, and `%*d`: a number out of range gives the bound.
unfoldable pub scan_ll : Bytes → Option (ℤ × Bytes)
scan_ll s =
    let t = skip_spaces s in
    if starts_digit (after_sign t)
    then some ((signed t).value, skip_digits (after_sign t))
    else none

-- An unsigned number as `strtoull` gives it: a sign is a negation modulo 2^64.
abbrev unsigned_of : Bool → ℕ → ℕ
unsigned_of minus n =
    if ltb n (2 ^ 64) then if minus then (2 ^ 64 - n) % 2 ^ 64 else n else 2 ^ 64 - 1

-- `%llu`, and `%*u`
unfoldable pub scan_ull : Bytes → Option (ℕ × Bytes)
scan_ull s =
    let t = skip_spaces s in
    let body = after_sign t in
    if starts_digit body
    then some (unsigned_of (has_minus t) (scan_digits body 0), skip_digits body)
    else none

abbrev pub is_hex : ℕ → Bool
is_hex c = is_digit c || leb b'a' c && leb c b'f' || leb b'A' c && leb c b'F'

abbrev pub hex_value : ℕ → ℕ
hex_value c = if is_digit c then c - b'0' else if leb b'a' c then c - b'a' + 10 else c - b'A' + 10

abbrev pub scan_hex_digits : Bytes → ℕ → ℕ
scan_hex_digits [] acc = acc
scan_hex_digits (c ∷ s) acc = if is_hex c then scan_hex_digits s (acc * 16 + hex_value c) else acc

abbrev pub skip_hex : Bytes → Bytes
skip_hex [] = []
skip_hex (c ∷ s) = if is_hex c then skip_hex s else c ∷ s

abbrev pub starts_hex : Bytes → Bool
starts_hex [] = false
starts_hex (c ∷ s) = is_hex c

-- An optional `0x`, which counts only before a digit.
abbrev pub after_0x : Bytes → Bytes
after_0x (z ∷ x ∷ s) =
    if z == b'0' && (x == b'x' || x == b'X') && starts_hex s then s else z ∷ x ∷ s
after_0x s = s

abbrev pub hex_body : Bytes → Bytes
hex_body s = after_0x (after_sign (skip_spaces s))

-- `strtoul(s, NULL, 16)`
unfoldable pub strtoul16 : Bytes → ℕ
strtoul16 s = unsigned_of (has_minus (skip_spaces s)) (scan_hex_digits (hex_body s) 0)

-- `strtol(s, NULL, 16)`
unfoldable pub strtol16 : Bytes → ℤ
strtol16 s =
    let n = scan_hex_digits (hex_body s) 0 in
    if has_minus (skip_spaces s)
    then neg_of (if leb n (2 ^ 63) then n else 2 ^ 63)
    else pos (if ltb n (2 ^ 63) then n else 2 ^ 63 - 1)

-- `%x` into an `unsigned`, which keeps the low 32 bits.
unfoldable pub scan_x : Bytes → Option (ℕ × Bytes)
unfolding strtoul16
scan_x s =
    if starts_hex (hex_body s) then some (strtoul16 s % 2 ^ 32, skip_hex (hex_body s)) else none

-- A word of at most so many bytes, and what is behind it.
abbrev pub take_word : ℕ → Bytes → Bytes × Bytes
take_word zero s = ([], s)
take_word (suc w) [] = ([], [])
take_word (suc w) (c ∷ s) =
    let (word, rest) = take_word w s in if is_space c then ([], c ∷ s) else (c ∷ word, rest)

abbrev word_in : ℕ → Bytes → Option (Bytes × Bytes)
word_in w [] = none
word_in w (c ∷ s) = some (take_word w (c ∷ s))

-- `%ws`
unfoldable pub scan_word : ℕ → Bytes → Option (Bytes × Bytes)
scan_word w s = word_in w (skip_spaces s)

-- A byte of the format that stands for itself.
abbrev pub scan_byte : ℕ → Bytes → Option Bytes
scan_byte b [] = none
scan_byte b (c ∷ s) = if c == b then some s else none

abbrev pub keep_line : Bytes → List Bytes → List Bytes
keep_line [] lines = lines
keep_line (c ∷ s) lines = (c ∷ s) ∷ lines

-- The first line of a text, which may be empty, and the others that are not.
abbrev pub split_lines : Bytes → Bytes × List Bytes
split_lines [] = ([], [])
split_lines (c ∷ s) =
    let (line, more) = split_lines s in
    if c == b'\n' then ([], keep_line line more) else (c ∷ line, more)

-- The lines that `strtok_r(buf, "\n", &save)` gives one after the other: none of them is empty.
unfoldable pub lines_of : Bytes → List Bytes
lines_of s = let (line, more) = split_lines s in keep_line line more

abbrev or_else {ℓ} : {A : Type ℓ} → Option A → Option A → Option A
or_else none b = b
or_else (some a) b = some a

abbrev put_front : ℕ → Option (Bytes × Bytes) → Option (Bytes × Bytes)
put_front c none = none
put_front c (some (a, b)) = some (c ∷ a, b)

-- `strrchr(s, b)`: what stands before the last `b` and behind it.
abbrev pub split_last : ℕ → Bytes → Option (Bytes × Bytes)
split_last b [] = none
split_last b (c ∷ s) =
    or_else (put_front c (split_last b s)) (if c == b then some ([], s) else none)

-- `strstr(s, t)`: what stands before the first `t`, and from it on.
abbrev pub split_at : Bytes → Bytes → Option (Bytes × Bytes)
split_at t [] = if starts_with t [] then some ([], []) else none
split_at t (c ∷ s) =
    let rest = put_front c (split_at t s) in
    if starts_with t (c ∷ s) then some ([], c ∷ s) else rest
