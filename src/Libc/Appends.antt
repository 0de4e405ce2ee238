-- ===== src/Libc/Appends.antt =====
-- A list of words that a loop of `snprintf(out + len, n - len, …)` prints into a buffer.
use mobile_config.Base.{
  ℕ, ◌+◌, ◌-◌, ◌<◌, [], ◌++◌, ltb, ◌==◌, if◌then◌else◌, length, take, arith, length-append,
  length-take-le, Bool-cases, inl, inr,
}
use mobile_config.Libc.Strings.{Bytes, codes}

-- A buffer of which `len` bytes stay, and behind them what a cut print leaves until the next one.
pub record Printed : Type 0 where
  pub kept : Bytes
  pub cut : Bytes

abbrev pub nothing_printed : Printed
nothing_printed = record { kept = []; cut = [] }

-- The print, and `len += w` where it was not cut.
unfoldable pub put_piece : ℕ → Bytes → Printed → Printed
put_piece size piece p =
    if ltb (length piece) (size - length p.kept)
    then record { kept = p.kept ++ piece; cut = [] }
    else record { kept = p.kept; cut = take (size - length p.kept - 1) piece }

-- The format `"%s%s"` with `len ? sep : ""`.
unfoldable pub put_word : ℕ → Bytes → Bytes → Printed → Printed
unfolding put_piece
put_word size sep word p = put_piece size (if length p.kept == 0 then word else sep ++ word) p

-- The text in the buffer.
abbrev pub text_in : Printed → Bytes
text_in p = p.kept ++ p.cut

-- `if (!len) snprintf(out, n, "-")`
unfoldable pub shown_or_dash : ℕ → Printed → Bytes
shown_or_dash size p = if length p.kept == 0 then take (size - 1) (codes "-") else text_in p

-- Inside a buffer of `size` bytes, with room for the final NUL.
abbrev pub Fits : ℕ → Printed → Type 0
Fits size p = length p.kept + length p.cut < size

pub put_piece-Fits :
    (size : ℕ) (piece : Bytes) (p : Printed) → Fits size p → Fits size (put_piece size piece p)
unfolding put_piece
put_piece-Fits size piece p h =
    ground (arith, length-append p.kept piece, length-take-le (size - length p.kept - 1) piece)

pub put_word-Fits :
    (size : ℕ) (sep word : Bytes) (p : Printed) → Fits size p → Fits size (put_word size sep word p)
unfolding put_word
put_word-Fits size sep word p h = put_piece-Fits size _ p h

pub text_in-Fits : (size : ℕ) (p : Printed) → Fits size p → length (text_in p) < size
text_in-Fits size p h = omega (arith, length-append p.kept p.cut, h)

pub shown_or_dash-Fits :
    (size : ℕ) (p : Printed) → 0 < size → Fits size p → length (shown_or_dash size p) < size
unfolding shown_or_dash
shown_or_dash-Fits size p z h = elim (Bool-cases (length p.kept == 0)) [
  | inl e ↦ rw e (omega (arith, length-take-le (size - 1) (codes "-")))
  | inr e ↦ rw e (text_in-Fits size p h)
]
