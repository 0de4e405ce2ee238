-- ===== src/Libc/Strings.antt =====
-- `string.h` and `ctype.h` on byte lists, and the cut that `snprintf` makes.
use Prim.Native.Char.{code}
use Prim.Native.String.{String}
use mobile_config.Base.{
  ℕ, ◌-◌, ◌≡◌, refl, ◌≢◌, Bool, true, false, ◌&&◌, ◌||◌, Option, none, some, List, [], ◌∷◌, ◌++◌,
  arith, ltb, leb, ◌==◌, if◌then◌else◌, length, take, replicate, All,
}

abbrev pub Bytes : Type 0
Bytes = List ℕ

-- The bytes of an ASCII literal.
abbrev pub codes : String → Bytes
codes String.[] = []
codes (String.◌∷◌ c s) = code c ∷ codes s

-- `!strcmp(a, b)`
abbrev pub streq : Bytes → Bytes → Bool
streq [] [] = true
streq (x ∷ xs) (y ∷ ys) = x == y && streq xs ys
streq _ _ = false

pub streq→eq : (a b : Bytes) → streq a b ≡ true → a ≡ b
streq→eq [] [] h = refl
streq→eq (x ∷ xs) (y ∷ ys) h = ground (arith, streq→eq xs ys)
streq→eq [] (y ∷ ys) h = ground arith
streq→eq (x ∷ xs) [] h = ground arith

pub streq_refl : (a : Bytes) → streq a a ≡ true
streq_refl [] = refl
streq_refl (x ∷ xs) = ground (arith, streq_refl xs)

pub streq-ne : (a b : Bytes) → streq a b ≡ false → a ≢ b
streq-ne a b h e = let same = streq_refl a in cc

-- `!strncmp(s, prefix, strlen(prefix))`
abbrev pub starts_with : Bytes → Bytes → Bool
starts_with [] s = true
starts_with (p ∷ ps) [] = false
starts_with (p ∷ ps) (c ∷ s) = p == c && starts_with ps s

-- The bytes before the first `b`: what `s[strcspn(s, "b")] = 0` leaves.
abbrev pub until : ℕ → Bytes → Bytes
until b [] = []
until b (c ∷ s) = if c == b then [] else c ∷ until b s

-- The bytes behind the first `b`: `strchr(s, b) + 1`, or `none` for a null pointer.
abbrev pub behind : ℕ → Bytes → Option Bytes
behind b [] = none
behind b (c ∷ s) = if c == b then some s else behind b s

-- `strstr(s, t) != NULL`
abbrev pub contains : Bytes → Bytes → Bool
contains t [] = starts_with t []
contains t (c ∷ s) = starts_with t (c ∷ s) || contains t s

-- What `snprintf(out, n, …)` stores of the text: at most `n - 1` bytes.
abbrev pub snprintf : ℕ → Bytes → Bytes
snprintf n text = take (n - 1) text

abbrev pub is_digit : ℕ → Bool
is_digit c = leb b'0' c && leb c b'9'

abbrev pub is_space : ℕ → Bool
is_space c = c == 32 || leb 9 c && leb c 13

abbrev pub is_alpha : ℕ → Bool
is_alpha c = leb b'a' c && leb c b'z' || leb b'A' c && leb c b'Z'

-- `%-ws` and `%ws`
abbrev pub pad_right : ℕ → Bytes → Bytes
pad_right w s = s ++ replicate (w - length s) 32

abbrev pub pad_left : ℕ → Bytes → Bytes
pad_left w s = replicate (w - length s) 32 ++ s

-- The sign of `strcmp(a, b) - 1`: whether `a` comes strictly before `b`, bytes compared as unsigned.
abbrev pub str_lt : Bytes → Bytes → Bool
str_lt [] [] = false
str_lt [] (y ∷ ys) = true
str_lt (x ∷ xs) [] = false
str_lt (x ∷ xs) (y ∷ ys) = ltb x y || (x == y && str_lt xs ys)

-- A text without the byte `b` is left whole by `until`, up to the `b` behind it.
pub until_stop : (b : ℕ) (s rest : Bytes) → All (λ c. c ≢ b) s → until b (s ++ b ∷ rest) ≡ s
until_stop b [] rest h = ground arith
until_stop b (c ∷ s) rest h = ground (arith, until_stop b s rest h.1)

pub until-All : (b : ℕ) (s : Bytes) → All (λ c. c ≢ b) s → until b s ≡ s
until-All b [] h = refl
until-All b (c ∷ s) h = ground (arith, until-All b s h.1)
