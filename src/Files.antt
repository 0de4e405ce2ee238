-- ===== src/Files.antt =====
-- modules/console/panel.c, "file readers", and `write_num`: small files of text that hold a line
-- or a number. The file system is a value that each operation takes and returns.
pub mod Numbers
use mobile_config.Base.{
  ℕ, ◌-◌, Bool, true, false, not, ◌&&◌, ◌||◌, Option, none, some, List, [], ◌∷◌, ◌++◌,
  if◌then◌else◌, take, ℤ,
}
use mobile_config.Libc.{Bytes, streq, until, snprintf, strtoll, Strtoll, dec_ℤ}
use mobile_config.Config.{is_empty}

-- What `open(O_RDONLY)` and `read` find at a path, which files can be opened for writing, and
-- which can be removed.
pub record Fs : Type 0 where
  pub content : Bytes → Option Bytes
  pub writable : Bytes → Bool
  pub removable : Bytes → Bool

abbrev pub update : (Bytes → Option Bytes) → Bytes → Option Bytes → Bytes → Option Bytes
update m p v q = if streq q p then v else m q

-- `slurp(path, buf, n)`: the first `n - 1` bytes; `none` is the result -1.
unfoldable pub slurp : Fs → Bytes → ℕ → Option Bytes
slurp fs path n = elim (fs.content path) [ none ↦ none | some text ↦ some (take (n - 1) text) ]

-- The buffer of `slurp` is read as a C string, so it also ends at a NUL.
abbrev line_of : Bytes → Bytes
line_of buf = until b'\n' (until 0 buf)

-- What `first_line` leaves in `out`, and 0 or -1 as `true` or `false`. Where `slurp` fails `out`
-- is not written; `none` stands for that.
unfoldable pub first_line : Fs → Bytes → ℕ → Option Bytes × Bool
unfolding slurp
first_line fs path n = elim (slurp fs path 4096) [
  | none ↦ (none, false)
  | some buf ↦ let out = snprintf n (line_of buf) in (some out, not (is_empty out))
]

number_of : Bytes → ℤ → ℤ
number_of buf dflt = let r = strtoll buf in if not r.parsed || r.range_error then dflt else r.value

-- The last clause is `first_line` with no result: -1.
parse_line : Option Bytes × Bool → ℤ → ℤ
unfolding number_of
parse_line (some buf, true) dflt = number_of buf dflt
parse_line _ dflt = dflt

unfoldable pub read_ll : Fs → Bytes → ℤ → ℤ
unfolding first_line parse_line strtoll
read_ll fs path dflt = parse_line (first_line fs path 64) dflt

-- `open(path, O_WRONLY | O_TRUNC)` without `O_CREAT`: a file that is not there is not made. The
-- second part tells whether the result is 0.
unfoldable pub write_num : Fs → Bytes → ℤ → Fs × Bool
write_num fs path v = elim (fs.content path) [
  | none ↦ (fs, false)
  | some old ↦
      if fs.writable path
      then (record fs { content = update fs.content path (some (dec_ℤ v ++ b'\n' ∷ [])) }, true)
      else (fs, false)
]

unfoldable pub unlink : Fs → Bytes → Fs
unlink fs path =
    if fs.removable path then record fs { content = update fs.content path none } else fs
