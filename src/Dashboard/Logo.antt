-- ===== src/Dashboard/Logo.antt =====
-- modules/console/panel.c: `logo_gap`, `logo_row`, `logo` and `tagline`.
use mobile_config.Base.{
  ℕ, zero, suc, ◌+◌, ◌-◌, ◌*◌, ◌/◌, ◌%◌, ◌^◌, List, [], ◌∷◌, ◌++◌, ltb, if◌then◌else◌, length,
  get_or, replicate, ℤ, pos, ◌+ℤ◌, ◌-ℤ◌, pos_part, rem_ℤ, Option, none, some,
}
use mobile_config.Libc.{Bytes, codes, to_int32, ◌>>=◌}
use mobile_config.Screen.{
  Screen, out, newlines, max_line, rst, bld, dim, red, yel, blu, mag, cyn, wht,
}

abbrev pub logo_ramp_start : ℕ
logo_ramp_start = 33

abbrev pub logo_ramp_len : ℕ
logo_ramp_len = 94

abbrev pub logo_row_buf : ℕ
logo_row_buf = max_line - 1

abbrev pub logo_gap_rows : ℕ
logo_gap_rows = 2

unfoldable pub logo_gap : Screen → Screen
unfolding newlines
logo_gap s = newlines logo_gap_rows s

-- The byte of column `c`: C's `%` keeps the sign, so the length is added before the second one.
unfoldable pub ramp_byte : ℤ → ℕ → ℕ
ramp_byte offset c =
    let idx = rem_ℤ (rem_ℤ (pos c +ℤ offset) logo_ramp_len +ℤ pos logo_ramp_len) logo_ramp_len in
    logo_ramp_start + pos_part idx

-- The columns from `c` on, for the columns that are left.
unfoldable pub row_from : ℕ → ℕ → ℤ → Bytes
row_from zero c offset = []
row_from (suc left) c offset = ramp_byte offset c ∷ row_from left (c + 1) offset

unfoldable pub logo_row : ℕ → ℤ → Bytes
unfolding row_from ramp_byte
logo_row width offset = row_from width 0 offset

unfoldable pub fire_bands : List Bytes
fire_bands = (bld ++ yel) ∷ yel ∷ red ∷ (bld ++ red) ∷ mag ∷ []

unfoldable pub frost_bands : List Bytes
frost_bands = wht ∷ (bld ++ cyn) ∷ cyn ∷ (bld ++ blu) ∷ blu ∷ []

-- The colour band of the row at distance `d` from the bright edge, of `rows` rows.
unfoldable pub band : ℕ → ℕ → ℕ
band d rows = let b = if ltb 1 rows then d * 5 / rows else 0 in if ltb 4 b then 4 else b

-- `(int)(frame * 2)`: the product is an `unsigned`.
unfoldable pub scroll : ℕ → ℤ
unfolding to_int32
scroll frame = to_int32 (pos (frame * 2 % 2 ^ 32))

-- The loop over the rows of the top half that are left, of `rows`.
unfoldable pub top_half : ℕ → ℕ → ℕ → ℕ → Screen → Screen
top_half zero rows width frame s = s
top_half (suc left) rows width frame s = top_half left rows width frame (
    out s (
      get_or fire_bands (band left rows) []
      ++ (logo_row width (scroll frame +ℤ pos (left * 3)) ++ (rst ++ b'\n' ∷ []))))

-- The loop of the bottom half, from row `r`.
unfoldable pub bottom_half : ℕ → ℕ → ℕ → ℕ → ℕ → Screen → Screen
bottom_half zero r rows width frame s = s
bottom_half (suc left) r rows width frame s = bottom_half left (r + 1) rows width frame (
    out s (
      get_or frost_bands (band r rows) []
      ++ (logo_row width (pos 0 -ℤ scroll frame +ℤ pos (r * 3)) ++ (rst ++ b'\n' ∷ []))))

-- The rows that the two halves share. `-` stops at 0, where the source sets a negative `avail` to 0.
unfoldable pub split_rows : ℕ → ℕ → ℕ
split_rows screen_rows n = let avail = screen_rows - 1 - n - logo_gap_rows in avail - logo_gap_rows

-- `frame` is `anim_frame` before its increment, which the caller makes.
unfoldable pub logo : ℕ → ℕ → ℕ → Screen → Screen
unfolding top_half bottom_half fire_bands frost_bands scroll
logo screen_rows screen_cols frame s =
    let width = if ltb logo_row_buf screen_cols then logo_row_buf else screen_cols in
    let split = split_rows screen_rows s.n in
    let top_rows = split / 2 in
    let bottom_rows = split - top_rows in
    bottom_half bottom_rows 0 bottom_rows width frame
      (logo_gap (top_half top_rows top_rows width frame s))

unfoldable pub tag : Bytes
tag = codes "\"break my feelings with your violence...\""

-- `while (cur->n < screen_rows - 1)`, for a number of rounds: `none` where the condition still holds
-- after them. A newline at the last row of the buffer changes nothing.
unfoldable pub pad_down : ℕ → ℕ → Screen → Option Screen
pad_down zero screen_rows s = if ltb s.n (screen_rows - 1) then none else some s
pad_down (suc rounds) screen_rows s =
    let rest = pad_down rounds screen_rows (out s (b'\n' ∷ [])) in
    if ltb s.n (screen_rows - 1) then rest else some s

-- The spaces in front of the tag.
unfoldable pub tag_left : ℕ → ℕ
unfolding tag
tag_left screen_cols = if ltb (length tag) screen_cols then (screen_cols - length tag) / 2 else 0

-- `none` where the loop never ends: a loop that ends needs no more rounds than there are rows.
unfoldable pub tagline : ℕ → ℕ → Screen → Option Screen
unfolding pad_down tag tag_left
tagline screen_rows screen_cols s = do
  padded ← pad_down screen_rows screen_rows s
  some (out padded (replicate (tag_left screen_cols) 32 ++ (dim ++ (tag ++ (rst ++ b'\n' ∷ [])))))
