-- ===== src/Views/Draws.antt =====
-- On a terminal of at most 128 rows every repaint of modules/console/panel.c comes to its end.
use mobile_config.Base.{ℕ, ◌≡◌, ◌≤◌, Bool, true, false, not, ◌||◌, if_ind, Option, none, some}
use mobile_config.Config.{Config, is_empty}
use mobile_config.Screen.{Screen, render}
use mobile_config.Dashboard.{build_logo, build_dashboard}
use mobile_config.Dashboard.Rows.{tagline-some}
use mobile_config.Views.State.{
  View, dash, menu, pager, Source, Action, none_act, up, down, select, open_menu, quit, Panel, Env,
}
use mobile_config.Views.Pager.{pager_clamp}
use mobile_config.Views.Draw.{show, put_frame, draw_view, repaint, repaint_logo_only, logo_over}
use mobile_config.Views.Actions.{
  load_text, reading_frame, pager_open, pager_refresh, refresh_by, request_reboot, menu_activate,
  Choice, choose, backlight, torch, reboot, back, no_item, reads, on_dash, on_menu, on_pager,
  dispatch, handle_action, hotkey, press, Hotkey, opens, toggles, acts, ignored, key_action,
  char_in, handle_char,
}

-- The process is not in the loop that never ends, and its terminal has at most 128 rows.
abbrev pub Draws : Panel → Type 0
Draws p = (p.hung ≡ false) × (p.display.screen_rows ≤ 128)

build_logo-some :
    (rows cols frame : ℕ) (s : Screen)
    → rows ≤ 128
    → (t : Screen) × (build_logo rows cols frame s ≡ some t)
unfolding build_logo
build_logo-some rows cols frame s few = tagline-some rows cols _ few

put_frame-Draws :
    (o : Option Screen) (p : Panel) → (t : Screen) × (o ≡ some t) → Draws p → Draws (put_frame o p)
unfolding put_frame
put_frame-Draws o p (t, e) d = rw (e, put_frame) d

show-Draws : (force : Bool) (p : Panel) → Draws p → Draws (show force p)
unfolding show render
show-Draws force p d = d

draw_view-Draws :
    (v : View) (cfg : Config) (env : Env) (p : Panel) → Draws p → Draws (draw_view v cfg env p)
unfolding draw_view build_dashboard
draw_view-Draws dash cfg env p d =
    put_frame-Draws _ p
      (build_logo-some p.display.screen_rows p.display.screen_cols p.anim_frame _ d.1) d
draw_view-Draws menu cfg env p d = d
draw_view-Draws pager cfg env p d = d

pub repaint-Draws :
    (force : Bool) (cfg : Config) (env : Env) (p : Panel)
    → Draws p
    → Draws (repaint force cfg env p)
unfolding repaint
repaint-Draws force cfg env p d = show-Draws force _ (draw_view-Draws p.view cfg env _ d)

logo_over-Draws :
    (b : Option Screen) (cfg : Config) (env : Env) (p : Panel)
    → Draws p
    → Draws (logo_over b cfg env p)
unfolding logo_over
logo_over-Draws none cfg env p d = repaint-Draws false cfg env p d
logo_over-Draws (some body) cfg env p d = show-Draws false _ (
    put_frame-Draws _ p
      (build_logo-some p.display.screen_rows p.display.screen_cols p.anim_frame body d.1) d)

pub repaint_logo_only-Draws :
    (cfg : Config) (env : Env) (p : Panel) → Draws p → Draws (repaint_logo_only cfg env p)
unfolding repaint_logo_only
repaint_logo_only-Draws cfg env p d = logo_over-Draws p.body_cache cfg env p d

pager_open-Draws :
    (cfg : Config) (env : Env) (src : Source) (parent : View) (live : Bool) (p : Panel)
    → Draws p
    → Draws (pager_open cfg env src parent live p)
unfolding pager_open load_text reading_frame pager_clamp
pager_open-Draws cfg env src parent live p d = show-Draws true _ d

refresh_by-Draws :
    (r : Option Source) (cfg : Config) (env : Env) (p : Panel)
    → Draws p
    → Draws (refresh_by r cfg env p)
unfolding refresh_by load_text pager_clamp
refresh_by-Draws none cfg env p d = d
refresh_by-Draws (some src) cfg env p d = d

pub pager_refresh-Draws :
    (cfg : Config) (env : Env) (p : Panel) → Draws p → Draws (pager_refresh cfg env p)
unfolding pager_refresh
pager_refresh-Draws cfg env p d = refresh_by-Draws p.pager_reload cfg env p d

choose-Draws :
    (i : Choice) (cfg : Config) (env : Env) (p : Panel) → Draws p → Draws (choose i cfg env p)
unfolding choose request_reboot
choose-Draws backlight cfg env p d = d
choose-Draws torch cfg env p d = d
choose-Draws (reads src) cfg env p d = pager_open-Draws cfg env src menu false p d
choose-Draws reboot cfg env p d = if_ind Draws (not (is_empty cfg.root) || not p.has_bus) d d
choose-Draws back cfg env p d = d
choose-Draws no_item cfg env p d = d

on_dash-Draws :
    (a : Action) (cfg : Config) (env : Env) (p : Panel) → Draws p → Draws (on_dash a cfg env p)
unfolding on_dash
on_dash-Draws open_menu cfg env p d = d
on_dash-Draws select cfg env p d = d
on_dash-Draws quit cfg env p d = d
on_dash-Draws _ cfg env p d = d

on_menu-Draws :
    (a : Action) (cfg : Config) (env : Env) (p : Panel) → Draws p → Draws (on_menu a cfg env p)
unfolding on_menu menu_activate
on_menu-Draws up cfg env p d = d
on_menu-Draws down cfg env p d = d
on_menu-Draws select cfg env p d = choose-Draws _ cfg env p d
on_menu-Draws open_menu cfg env p d = d
on_menu-Draws quit cfg env p d = d
on_menu-Draws _ cfg env p d = d

on_pager-Draws :
    (a : Action) (cfg : Config) (env : Env) (p : Panel) → Draws p → Draws (on_pager a cfg env p)
unfolding on_pager pager_clamp
on_pager-Draws up cfg env p d = d
on_pager-Draws down cfg env p d = d
on_pager-Draws _ cfg env p d = d

dispatch-Draws :
    (w : View) (a : Action) (cfg : Config) (env : Env) (p : Panel)
    → Draws p
    → Draws (dispatch w a cfg env p)
unfolding dispatch
dispatch-Draws dash a cfg env p d = on_dash-Draws a cfg env p d
dispatch-Draws menu a cfg env p d = on_menu-Draws a cfg env p d
dispatch-Draws pager a cfg env p d = on_pager-Draws a cfg env p d

handle_action-Draws :
    (cfg : Config) (env : Env) (a : Action) (p : Panel)
    → Draws p
    → Draws (handle_action cfg env a p)
unfolding handle_action
handle_action-Draws cfg env none_act p d = d
handle_action-Draws cfg env a p d =
    repaint-Draws true cfg env (dispatch p.view a cfg env p) (dispatch-Draws p.view a cfg env p d)

press-Draws :
    (h : Hotkey) (cfg : Config) (env : Env) (p : Panel) → Draws p → Draws (press h cfg env p)
unfolding press
press-Draws (opens src live) cfg env p d =
    repaint-Draws true cfg env _ (pager_open-Draws cfg env src dash live p d)
press-Draws toggles cfg env p d = repaint-Draws true cfg env _ d
press-Draws (acts a) cfg env p d = handle_action-Draws cfg env a p d
press-Draws ignored cfg env p d = d

char_in-Draws :
    (w : View) (c : ℕ) (cfg : Config) (env : Env) (p : Panel)
    → Draws p
    → Draws (char_in w c cfg env p)
unfolding char_in
char_in-Draws dash c cfg env p d = press-Draws (hotkey c) cfg env p d
char_in-Draws _ c cfg env p d = handle_action-Draws cfg env (key_action c) p d

-- On a terminal of at most 128 rows a typed byte never leads into the loop that does not end.
pub handle_char-Draws :
    (cfg : Config) (env : Env) (c : ℕ) (p : Panel) → Draws p → Draws (handle_char cfg env c p)
unfolding handle_char
handle_char-Draws cfg env c p d = char_in-Draws p.view c cfg env p d
