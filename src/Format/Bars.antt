-- ===== src/Format/Bars.antt =====
-- A bar always has its width, and is full or empty where it should be.
use mobile_config.Base.{
  ℕ, ◌-◌, ◌*◌, ◌/◌, ◌≤◌, ◌<◌, ◌≡◌, arith, length, length-append, length-take, ℤ, pos, take,
}
use mobile_config.Format.{share, bar_filled, bar_cells, bars, dots}
use mobile_config.Libc.{to_int32-small}

bar_filled-le : (v m : ℤ) (w : ℕ) → bar_filled v m w ≤ w
unfolding bar_filled
bar_filled-le v m w = ground arith

-- For every reading, negative ones and ones above the maximum included, a bar of at most 40 cells
-- is exactly as wide as it should be.
pub length-bar_cells : (v m : ℤ) (w : ℕ) → w ≤ 40 → length (bar_cells v m w) ≡ w
unfolding bar_cells
length-bar_cells v m w h =
    let small = bar_filled-le v m w in
    omega (
      arith,
      length-append (take (bar_filled v m w) bars) (take (w - bar_filled v m w) dots),
      length-take (bar_filled v m w) bars (omega arith),
      length-take (w - bar_filled v m w) dots (omega arith),
    )

share-pos : (v m w : ℕ) → 0 < m → share (pos v) (pos m) w ≡ pos (v * w / m)
unfolding share
share-pos v m w pm = ground arith

quotient-le : (v m w : ℕ) → 0 < m → v ≤ m → v * w / m ≤ w
quotient-le v m w pm h = grind arith

-- A reading `v` of a maximum `m` fills the whole part of `v * w / m` cells, where it is not above
-- the maximum.
pub bar_filled-share :
    (v m w : ℕ) → 0 < m → v ≤ m → w ≤ 40 → bar_filled (pos v) (pos m) w ≡ v * w / m
bar_filled-share v m w pm h small =
    unfold bar_filled in
    rw (share-pos v m w pm) (
      rw (to_int32-small (v * w / m) (omega (arith, quotient-le v m w pm h)))
        (ground (arith, quotient-le v m w pm h)))
