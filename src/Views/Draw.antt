-- ===== src/Views/Draw.antt =====
-- modules/console/panel.c: `build_menu`, `build_pager`, `repaint` and `repaint_logo_only`.
use mobile_config.Base.{
  ℕ, zero, suc, ◌+◌, ◌%◌, ◌^◌, Bool, true, false, List, [], ◌∷◌, ◌++◌, ltb, ◌==◌, if◌then◌else◌,
  length, get_or, take, Option, none, some, ℤ, pos, ◌+ℤ◌, ◌-ℤ◌, ltb_ℤ, pos_part,
}
use mobile_config.Libc.{Bytes, codes, streq, dec_ℤ, pad_right}
use mobile_config.Config.{Config}
use mobile_config.Backlight.{backlight_level, torch_level, is_lit}
use mobile_config.Screen.{Screen, screen_reset, out, render, rst, bld, dim, cyn}
use mobile_config.Dashboard.{build_dashboard, build_logo}
use mobile_config.Dashboard.Body.{top_margin}
use mobile_config.Views.State.{View, dash, menu, pager, Panel, Env, menu_items}
use mobile_config.Views.Pager.{pager_rows}

abbrev pub nl : Bytes
nl = b'\n' ∷ []

unfoldable pub on_off : ℤ → Bytes
on_off level = if is_lit level then codes "on" else codes "off"

-- What stands behind an item's name.
unfoldable pub item_note : ℤ → ℤ → ℤ → Bytes → Screen → Screen
unfolding on_off
item_note level backlight_max torch item s =
    if streq item (codes "backlight")
    then out s (
        dim
        ++ on_off level
        ++ codes ", "
        ++ dec_ℤ level
        ++ codes " of "
        ++ dec_ℤ backlight_max
        ++ rst)
    else if streq item (codes "torch")
    then out s (dim ++ on_off torch ++ rst)
    else s

-- The loop over the items that are left, from item `i`.
unfoldable pub item_lines : ℕ → ℤ → ℤ → ℤ → ℕ → List Bytes → Screen → Screen
unfolding item_note
item_lines sel level backlight_max torch i [] s = s
item_lines sel level backlight_max torch i (item ∷ items) s =
    let mark = if i == sel then cyn ++ codes ">" ++ rst ++ codes " " ++ bld else codes "  " in
    let s1 = out s (codes "  " ++ mark ++ pad_right 14 item ++ rst) in
    item_lines sel level backlight_max torch (i + 1) items
      (out (item_note level backlight_max torch item s1) nl)

unfoldable pub build_menu : Config → Panel → Screen → Screen
unfolding item_lines
build_menu cfg p s =
    let s1 = out (top_margin cfg s) (
      codes "  "
      ++ bld
      ++ cyn
      ++ codes "MENU"
      ++ rst
      ++ codes "   "
      ++ dim
      ++ codes "hold power to close"
      ++ rst
      ++ nl
      ++ nl) in
    let s2 =
      item_lines p.menu_sel (backlight_level cfg p.fs) p.backlight_max (torch_level cfg p.fs) 0
        menu_items s1 in
    out s2 (
      nl
      ++ codes " "
      ++ bld
      ++ codes "vol +/-"
      ++ rst
      ++ codes " move   "
      ++ bld
      ++ codes "power"
      ++ rst
      ++ codes " select"
      ++ nl)

-- The rows of the page that are left, from line `idx`; past the text they are blank.
unfoldable pub page_lines : ℕ → ℕ → ℕ → List Bytes → Screen → Screen
page_lines zero idx cols text s = s
page_lines (suc left) idx cols text s =
    page_lines left (idx + 1) cols text
      (out s (if ltb idx (length text) then take cols (get_or text idx []) ++ nl else nl))

-- `pager_top` is not negative here: every change of it is followed by `pager_clamp`.
unfoldable pub build_pager : Config → Panel → Screen → Screen
unfolding page_lines
build_pager cfg p s =
    let rows = pager_rows cfg p.display.screen_rows in
    let total = pos (length p.pager_text) in
    let left = total -ℤ p.pager_top in
    let fit = if ltb_ℤ rows left then rows else left in
    let printed = if ltb_ℤ fit (pos 0) then pos 0 else fit in
    let first = if ltb 0 (length p.pager_text) then p.pager_top +ℤ pos 1 else pos 0 in
    let s1 =
      page_lines (pos_part rows) (pos_part p.pager_top) p.display.screen_cols p.pager_text
        (top_margin cfg s) in
    out s1 (
      nl
      ++ codes " "
      ++ dim
      ++ dec_ℤ first
      ++ codes "-"
      ++ dec_ℤ (p.pager_top +ℤ printed)
      ++ codes " of "
      ++ dec_ℤ total
      ++ rst
      ++ codes "   "
      ++ bld
      ++ codes "vol +/-"
      ++ rst
      ++ codes " scroll   "
      ++ bld
      ++ codes "power"
      ++ rst
      ++ codes " back"
      ++ nl)

-- `anim_frame` is an `unsigned`.
unfoldable pub next_frame : ℕ → ℕ
next_frame frame = (frame + 1) % 2 ^ 32

-- `render(force)` on the panel's display.
unfoldable pub show : Bool → Panel → Panel
show force p =
    let (d, bytes) = render force p.display in record p { display = d; output = bytes ∷ p.output }

abbrev pub with_cur : Panel → Screen → Panel
with_cur p s = record p { display = record p.display { cur = s } }

-- The frame that was built, or the loop that never ends.
unfoldable pub put_frame : Option Screen → Panel → Panel
put_frame none p = record p { hung = true }
put_frame (some s) p = with_cur p s

unfoldable pub draw_view : View → Config → Env → Panel → Panel
unfolding next_frame put_frame
draw_view dash cfg env p =
    let d = p.display in
    let readings = record (env.readings) { peers = p.peers } in
    let built =
      build_dashboard cfg readings (backlight_level cfg p.fs) p.backlight_max d.screen_rows
        d.screen_cols p.anim_frame d.cur in
    record (put_frame built.0 p) { body_cache = some built.1; anim_frame = next_frame p.anim_frame }
draw_view menu cfg env p = with_cur p (build_menu cfg p p.display.cur)
draw_view pager cfg env p = with_cur p (build_pager cfg p p.display.cur)

unfoldable pub repaint : Bool → Config → Env → Panel → Panel
unfolding draw_view
repaint force cfg env p =
    show force (draw_view p.view cfg env (with_cur p (screen_reset p.display.cur)))

-- The logo drawn below the cached body, or a full repaint where there is none.
unfoldable pub logo_over : Option Screen → Config → Env → Panel → Panel
unfolding next_frame put_frame
logo_over none cfg env p = repaint false cfg env p
logo_over (some body) cfg env p =
    let d = p.display in
    show false (record (put_frame (build_logo d.screen_rows d.screen_cols p.anim_frame body) p) {
      anim_frame = next_frame p.anim_frame;
    })

unfoldable pub repaint_logo_only : Config → Env → Panel → Panel
unfolding logo_over
repaint_logo_only cfg env p = logo_over p.body_cache cfg env p
