-- ===== src/Views/Pager.antt =====
-- modules/console/panel.c: `pager_rows` and `pager_clamp`.
use mobile_config.Base.{
  eq_of_parts, ℕ, ◌≡◌, ◌⊎◌, arith, if◌then◌else◌, length, ℤ, pos, ◌-ℤ◌, ◌+ℤ◌, ◌≤ℤ◌, ltb_ℤ,
}
use mobile_config.Config.{Config}
use mobile_config.Views.State.{Panel}

unfoldable pub rows_of : ℤ → ℤ
rows_of rows = if ltb_ℤ rows (pos 5) then pos 5 else rows

unfoldable pub pager_rows : Config → ℕ → ℤ
unfolding rows_of
pager_rows cfg screen_rows = rows_of (pos screen_rows -ℤ cfg.top_margin -ℤ pos 3)

-- `pager_top` after `pager_clamp`, for a page of `rows` rows and a text of `n` lines.
unfoldable pub clamp_top : ℤ → ℕ → ℤ → ℤ
clamp_top rows n top =
    let most = pos n -ℤ rows in
    let low = if ltb_ℤ most top then most else top in if ltb_ℤ low (pos 0) then pos 0 else low

unfoldable pub pager_clamp : Config → Panel → Panel
unfolding clamp_top
pager_clamp cfg p = record p {
  pager_top = clamp_top (pager_rows cfg p.display.screen_rows) (length p.pager_text) p.pager_top;
}

-- The page starts inside the text: at its first line, or at one from which a full page is left.
abbrev pub InText : ℤ → ℕ → ℤ → Type 0
InText rows n top = (pos 0 ≤ℤ top) × ((top ≡ pos 0) ⊎ (top +ℤ rows ≤ℤ pos n))

pub clamp_top-InText : (rows : ℤ) (n : ℕ) (top : ℤ) → InText rows n (clamp_top rows n top)
unfolding clamp_top
clamp_top-InText rows n top = ground arith

-- A page has at least five rows.
pub pager_rows-ge : (cfg : Config) (screen_rows : ℕ) → pos 5 ≤ℤ pager_rows cfg screen_rows
unfolding pager_rows
pager_rows-ge cfg screen_rows = at (pos screen_rows -ℤ cfg.top_margin -ℤ pos 3)
  where
    at : (rows : ℤ) → pos 5 ≤ℤ rows_of rows
    at rows = unfold rows_of in ground arith

-- A position inside the text stays where it is.
pub clamp_top_fixed : (rows : ℤ) (n : ℕ) (top : ℤ) → InText rows n top → clamp_top rows n top ≡ top
unfolding clamp_top
clamp_top_fixed rows n top h = eq_of_parts _ top (ground arith)
