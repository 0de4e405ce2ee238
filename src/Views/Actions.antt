-- ===== src/Views/Actions.antt =====
-- modules/console/panel.c: `pager_open`, `pager_refresh`, `menu_activate`, `handle_action` and
-- `handle_char`.
use mobile_config.Base.{
  ℕ, ◌+◌, ◌-◌, ◌%◌, Bool, true, false, not, ◌||◌, [], ◌∷◌, ◌++◌, ◌==◌, if◌then◌else◌, length,
  get_or, Option, none, some, ℤ, pos, ◌+ℤ◌, ◌-ℤ◌, quot_ℤ,
}
use mobile_config.Libc.{Bytes, codes, streq}
use mobile_config.Config.{Config, is_empty}
use mobile_config.Backlight.{display_toggle, torch_toggle}
use mobile_config.Screen.{screen_reset, out, rst, dim}
use mobile_config.Dashboard.Body.{top_margin}
use mobile_config.Views.State.{
  View, dash, menu, pager, Source, boot_log, errors, kmsg, units, network, processes, Action,
  none_act, up, down, select, open_menu, quit, other, Panel, Env, menu_items, menu_n,
}
use mobile_config.Views.Pager.{pager_rows, pager_clamp}
use mobile_config.Views.Draw.{show, with_cur, repaint}

-- The text is read anew and the page put at its end.
unfoldable pub load_text : Config → Env → Source → Panel → Panel
load_text cfg env src p =
    let text = env.load src in
    pager_clamp cfg (record p {
      pager_text = text;
      pager_top = pos (length text) -ℤ pager_rows cfg p.display.screen_rows;
    })

-- The frame that says that the text is being read.
unfoldable pub reading_frame : Config → Panel → Panel
reading_frame cfg p = show true (
    with_cur p (
      out (top_margin cfg (screen_reset p.display.cur))
        (codes " " ++ (dim ++ (codes "reading..." ++ (rst ++ b'\n' ∷ []))))))

unfoldable pub pager_open : Config → Env → Source → View → Bool → Panel → Panel
unfolding load_text reading_frame
pager_open cfg env src parent live p =
    let q = load_text cfg env src (reading_frame cfg p) in
    record q { pager_reload = if live then some src else none; pager_parent = parent; view = pager }

unfoldable pub refresh_by : Option Source → Config → Env → Panel → Panel
unfolding load_text
refresh_by none cfg env p = p
refresh_by (some src) cfg env p = load_text cfg env src p

unfoldable pub pager_refresh : Config → Env → Panel → Panel
unfolding refresh_by
pager_refresh cfg env p = refresh_by p.pager_reload cfg env p

unfoldable pub request_reboot : Config → Panel → Panel
request_reboot cfg p =
    if not (is_empty cfg.root) || not p.has_bus then p else record p { reboots = p.reboots + 1 }

-- What an item of the menu asks for.
pub data Choice : Type 0 where
  backlight torch reboot back no_item : Choice
  reads : Source → Choice

-- The chain of `strcmp` in `menu_activate`, and what follows each of them.
unfoldable pub choice_of : Bytes → Choice
choice_of item =
    if streq item (codes "backlight")
    then backlight
    else if streq item (codes "torch")
    then torch
    else if streq item (codes "boot log")
    then reads boot_log
    else if streq item (codes "errors")
    then reads errors
    else if streq item (codes "kernel logs")
    then reads kmsg
    else if streq item (codes "units")
    then reads units
    else if streq item (codes "network")
    then reads network
    else if streq item (codes "reboot")
    then reboot
    else if streq item (codes "back")
    then back
    else no_item

unfoldable pub choose : Choice → Config → Env → Panel → Panel
choose backlight cfg env p = record p { fs = display_toggle cfg p.fs }
choose torch cfg env p = record p { fs = torch_toggle cfg p.fs }
choose (reads src) cfg env p = pager_open cfg env src menu false p
choose reboot cfg env p = request_reboot cfg p
choose back cfg env p = record p { view = dash }
choose no_item cfg env p = p

unfoldable pub menu_activate : Config → Env → Panel → Panel
unfolding choice_of choose
menu_activate cfg env p = choose (choice_of (get_or menu_items p.menu_sel [])) cfg env p

-- Half a page, `pager_rows() / 2`.
unfoldable pub half_page : Config → Panel → ℤ
half_page cfg p = quot_ℤ (pager_rows cfg p.display.screen_rows) 2

-- The switches of `handle_action`, before the repaint.
unfoldable pub on_dash : Action → Config → Env → Panel → Panel
on_dash open_menu cfg env p = record p { view = menu; menu_sel = 0 }
on_dash select cfg env p = record p { fs = display_toggle cfg p.fs }
on_dash quit cfg env p = record p { quitting = true }
on_dash _ cfg env p = p

unfoldable pub on_menu : Action → Config → Env → Panel → Panel
on_menu up cfg env p = record p { menu_sel = (p.menu_sel + menu_n - 1) % menu_n }
on_menu down cfg env p = record p { menu_sel = (p.menu_sel + 1) % menu_n }
on_menu select cfg env p = menu_activate cfg env p
on_menu open_menu cfg env p = record p { view = dash }
on_menu quit cfg env p = record p { view = dash }
on_menu _ cfg env p = p

unfoldable pub on_pager : Action → Config → Env → Panel → Panel
unfolding half_page
on_pager up cfg env p = pager_clamp cfg (record p { pager_top = p.pager_top -ℤ half_page cfg p })
on_pager down cfg env p = pager_clamp cfg (record p { pager_top = p.pager_top +ℤ half_page cfg p })
on_pager _ cfg env p = record p { view = p.pager_parent; pager_reload = none }

unfoldable pub dispatch : View → Action → Config → Env → Panel → Panel
unfolding on_dash on_menu on_pager
dispatch dash a cfg env p = on_dash a cfg env p
dispatch menu a cfg env p = on_menu a cfg env p
dispatch pager a cfg env p = on_pager a cfg env p

unfoldable pub handle_action : Config → Env → Action → Panel → Panel
unfolding dispatch
handle_action cfg env none_act p = p
handle_action cfg env a p = repaint true cfg env (dispatch p.view a cfg env p)

-- What a byte typed on the dashboard asks for.
pub data Hotkey : Type 0 where
  opens : Source → Bool → Hotkey
  toggles : Hotkey
  acts : Action → Hotkey
  ignored : Hotkey

unfoldable pub hotkey : ℕ → Hotkey
hotkey c =
    if c == b'b'
    then opens boot_log false
    else if c == b'e'
    then opens errors false
    else if c == b'k'
    then opens kmsg false
    else if c == b'u'
    then opens units false
    else if c == b'n'
    then opens network false
    else if c == b't'
    then opens processes true
    else if c == b'j'
    then opens boot_log true
    else if c == b'd' || c == b'.'
    then toggles
    else if c == b'm'
    then acts open_menu
    else if c == b'q'
    then acts quit
    else ignored

unfoldable pub press : Hotkey → Config → Env → Panel → Panel
press (opens src live) cfg env p = repaint true cfg env (pager_open cfg env src dash live p)
press toggles cfg env p = repaint true cfg env (record p { fs = display_toggle cfg p.fs })
press (acts a) cfg env p = handle_action cfg env a p
press ignored cfg env p = p

-- The action of a byte in the menu and in the pager.
unfoldable pub key_action : ℕ → Action
key_action c =
    if c == b'+' || c == b'k'
    then up
    else if c == b'-' || c == b'j'
    then down
    else if c == b'.' || (c == b'\r' || c == b'\n')
    then select
    else if c == b'm' || c == b'q'
    then open_menu
    else other

unfoldable pub char_in : View → ℕ → Config → Env → Panel → Panel
unfolding hotkey press key_action
char_in dash c cfg env p = press (hotkey c) cfg env p
char_in _ c cfg env p = handle_action cfg env (key_action c) p

unfoldable pub handle_char : Config → Env → ℕ → Panel → Panel
unfolding char_in
handle_char cfg env c p = char_in p.view c cfg env p
