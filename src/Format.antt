-- ===== src/Format.antt =====
-- modules/console/panel.c, "formatting": sizes, durations, bars and the colour of a unit's state.
-- Each function takes the size `n` of the caller's buffer, to which `snprintf` cuts the text.
pub mod Bars
use mobile_config.Base.{
  ℕ, ◌+◌, ◌-◌, ◌*◌, ◌/◌, ◌%◌, Bool, true, false, ◌||◌, [], ◌∷◌, ◌++◌, ltb, leb, if◌then◌else◌, take,
  replicate, ℤ, pos, negsuc, ◌*ℤ◌, ltb_ℤ, pos_part, quot_ℤ, rem_ℤ,
}
use mobile_config.Libc.{Bytes, codes, snprintf, dec, dec_ℤ, dec0, to_int32, streq, pad_right}
use mobile_config.Config.{is_empty}
use mobile_config.Screen.{rst, dim, red, grn, yel}

-- A number below 1024, negative ones included, is printed in K.
unfoldable pub human_kb : ℤ → ℕ → Bytes
human_kb (negsuc m) n = snprintf n (dec_ℤ (negsuc m) ++ codes "K")
human_kb (pos k) n =
    if leb 1048576 k
    then snprintf n
        (dec (k / 1048576) ++ codes "." ++ dec (k % 1048576 * 10 / 1048576) ++ codes "G")
    else if leb 1024 k
    then snprintf n (dec (k / 1024) ++ codes "M")
    else snprintf n (dec k ++ codes "K")

unfoldable pub duration : ℤ → ℕ → Bytes
duration s n =
    if ltb_ℤ s (pos 3600)
    then snprintf n (dec_ℤ (quot_ℤ s 60) ++ codes "m " ++ dec0 2 (rem_ℤ s 60) ++ codes "s")
    else if ltb_ℤ s (pos 86400)
    then snprintf n
        (dec_ℤ (quot_ℤ s 3600) ++ codes "h " ++ dec0 2 (quot_ℤ (rem_ℤ s 3600) 60) ++ codes "m")
    else snprintf n (
        dec_ℤ (quot_ℤ s 86400)
        ++ codes "d "
        ++ dec0 2 (quot_ℤ (rem_ℤ s 86400) 3600)
        ++ codes "h "
        ++ dec0 2 (quot_ℤ (rem_ℤ s 3600) 60)
        ++ codes "m")

abbrev pub bars : Bytes
bars = replicate 40 b'#'

abbrev pub dots : Bytes
dots = replicate 40 b'.'

-- `m > 0 ? v * w / m : 0`
share : ℤ → ℤ → ℕ → ℤ
share v m w = if ltb_ℤ (pos 0) m then quot_ℤ (v *ℤ pos w) (pos_part m) else pos 0

-- `filled` after its two clamps to 0 … w. The product `v * w` is taken to fit 64 bits.
unfoldable pub bar_filled : ℤ → ℤ → ℕ → ℕ
unfolding share
bar_filled v m w =
    let filled = to_int32 (share v m w) in
    if ltb_ℤ (pos w) filled then w else if ltb_ℤ filled (pos 0) then 0 else pos_part filled

unfoldable pub bar_colour : ℤ → ℤ → Bytes
unfolding share
bar_colour v m =
    let pct = share v m 100 in
    if ltb_ℤ pct (pos 70) then grn else if ltb_ℤ pct (pos 90) then yel else red

-- The `w` cells between the brackets.
unfoldable pub bar_cells : ℤ → ℤ → ℕ → Bytes
bar_cells v m w = take (bar_filled v m w) bars ++ take (w - bar_filled v m w) dots

unfoldable pub bar : ℤ → ℤ → ℕ → ℕ → Bytes
unfolding bar_filled bar_colour bar_cells
bar v m w n = snprintf n (bar_colour v m ++ codes "[" ++ bar_cells v m w ++ codes "]" ++ rst)

-- A null state is an empty one.
unfoldable pub state_of : Bytes → ℕ → Bytes
state_of state n =
    let shown = if is_empty state then codes "unknown" else state in
    let colour =
      if streq shown (codes "active")
      then grn
      else if streq shown (codes "inactive") || streq shown (codes "failed")
      then red
      else dim in
    snprintf n (colour ++ pad_right 8 shown ++ rst)
