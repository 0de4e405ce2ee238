-- ===== src/Views/Invariant.antt =====
-- What holds of the views between two events.
use mobile_config.Base.{
  ℕ, ◌<◌, ◌≡◌, refl, ◌∙◌, ◌⊎◌, inl, inr, Bool, true, false, List, Option, none, some, arith, length,
  ℤ, pos, ◌-ℤ◌,
}
use mobile_config.Libc.{Bytes}
use mobile_config.Config.{Config}
use mobile_config.Files.{Fs}
use mobile_config.Screen.{Screen, render}
use mobile_config.Views.State.{
  View, dash, menu, pager, Source, Action, none_act, up, down, select, open_menu, quit, Panel, Env,
  menu_n,
}
use mobile_config.Views.Pager.{pager_rows, pager_clamp, InText, clamp_top-InText}
use mobile_config.Views.Draw.{show, put_frame, draw_view, repaint, repaint_logo_only, logo_over}
use mobile_config.Views.Actions.{
  load_text, reading_frame, pager_open, pager_refresh, refresh_by, request_reboot, menu_activate,
  Choice, choose, backlight, torch, reboot, back, no_item, reads, dispatch, handle_action, hotkey,
  press, Hotkey, opens, toggles, acts, ignored, key_action, char_in, handle_char,
}

-- The part of the state that decides what an event does: all but the frame buffers, the animation
-- and what was written.
pub record Control : Type 0 where
  pub screen_rows : ℕ
  pub screen_cols : ℕ
  pub fs : Fs
  pub view : View
  pub menu_sel : ℕ
  pub pager_text : List Bytes
  pub pager_top : ℤ
  pub pager_reload : Option Source
  pub pager_parent : View
  pub quitting : Bool
  pub has_bus : Bool
  pub reboots : ℕ

abbrev pub control : Panel → Control
control p = record {
  screen_rows = p.display.screen_rows;
  screen_cols = p.display.screen_cols;
  fs = p.fs;
  view = p.view;
  menu_sel = p.menu_sel;
  pager_text = p.pager_text;
  pager_top = p.pager_top;
  pager_reload = p.pager_reload;
  pager_parent = p.pager_parent;
  quitting = p.quitting;
  has_bus = p.has_bus;
  reboots = p.reboots;
}

-- The selection is an item, the page starts inside the text, the pager leads back to a view that
-- is not itself, and only the pager reloads.
pub record Inv (cfg : Config) (c : Control) : Type 0 where
  pub sel_fits : c.menu_sel < menu_n
  pub in_text : InText (pager_rows cfg c.screen_rows) (length c.pager_text) c.pager_top
  pub parent_apart : (c.pager_parent ≡ dash) ⊎ (c.pager_parent ≡ menu)
  pub reload_paged : (c.view ≡ pager) ⊎ (c.pager_reload ≡ none)

pub control-show : (force : Bool) (p : Panel) → control (show force p) ≡ control p
unfolding show render
control-show force p = refl

control-put_frame : (o : Option Screen) (p : Panel) → control (put_frame o p) ≡ control p
unfolding put_frame
control-put_frame none p = refl
control-put_frame (some s) p = refl

control-draw_view :
    (v : View) (cfg : Config) (env : Env) (p : Panel) → control (draw_view v cfg env p) ≡ control p
unfolding draw_view
control-draw_view dash cfg env p = control-put_frame _ p
control-draw_view menu cfg env p = refl
control-draw_view pager cfg env p = refl

-- Drawing decides nothing.
pub control-repaint :
    (force : Bool) (cfg : Config) (env : Env) (p : Panel)
    → control (repaint force cfg env p) ≡ control p
unfolding repaint
control-repaint force cfg env p = control-show force _ ∙ control-draw_view p.view cfg env _

control-logo_over :
    (b : Option Screen) (cfg : Config) (env : Env) (p : Panel)
    → control (logo_over b cfg env p) ≡ control p
unfolding logo_over
control-logo_over none cfg env p = control-repaint false cfg env p
control-logo_over (some body) cfg env p = control-show false _ ∙ control-put_frame _ p

pub control-repaint_logo_only :
    (cfg : Config) (env : Env) (p : Panel) → control (repaint_logo_only cfg env p) ≡ control p
unfolding repaint_logo_only
control-repaint_logo_only cfg env p = control-logo_over p.body_cache cfg env p

control-reading_frame : (cfg : Config) (p : Panel) → control (reading_frame cfg p) ≡ control p
unfolding reading_frame
control-reading_frame cfg p = control-show true _

-- Loading a text in the pager, or where nothing reloads, keeps the invariant.
load_text-Inv :
    (cfg : Config) (env : Env) (src : Source) (p : Panel)
    → Inv cfg (control p)
    → Inv cfg (control (load_text cfg env src p))
unfolding load_text pager_clamp
load_text-Inv cfg env src p v = record {
  sel_fits = v.sel_fits;
  in_text =
      clamp_top-InText (pager_rows cfg p.display.screen_rows) (length (env.load src))
        (pos (length (env.load src)) -ℤ pager_rows cfg p.display.screen_rows);
  parent_apart = v.parent_apart;
  reload_paged = v.reload_paged;
}

pub pager_open-Inv :
    (cfg : Config) (env : Env) (src : Source) (parent : View) (live : Bool) (p : Panel)
    → (parent ≡ dash) ⊎ (parent ≡ menu)
    → Inv cfg (control p)
    → Inv cfg (control (pager_open cfg env src parent live p))
unfolding pager_open
pager_open-Inv cfg env src parent live p from v =
    let w = load_text-Inv cfg env src (reading_frame cfg p) (rw (control-reading_frame cfg p) v) in
    record {
      sel_fits = w.sel_fits;
      in_text = w.in_text;
      parent_apart = from;
      reload_paged = inl refl;
    }

refresh_by-Inv :
    (r : Option Source) (cfg : Config) (env : Env) (p : Panel)
    → Inv cfg (control p)
    → Inv cfg (control (refresh_by r cfg env p))
unfolding refresh_by
refresh_by-Inv none cfg env p v = v
refresh_by-Inv (some src) cfg env p v = load_text-Inv cfg env src p v

pub pager_refresh-Inv :
    (cfg : Config) (env : Env) (p : Panel)
    → Inv cfg (control p)
    → Inv cfg (control (pager_refresh cfg env p))
unfolding pager_refresh
pager_refresh-Inv cfg env p v = refresh_by-Inv p.pager_reload cfg env p v

pager_clamp-Inv :
    (cfg : Config) (p : Panel) (top : ℤ)
    → Inv cfg (control p)
    → Inv cfg (control (pager_clamp cfg (record p { pager_top = top })))
unfolding pager_clamp
pager_clamp-Inv cfg p top v = record {
  sel_fits = v.sel_fits;
  in_text = clamp_top-InText (pager_rows cfg p.display.screen_rows) (length p.pager_text) top;
  parent_apart = v.parent_apart;
  reload_paged = v.reload_paged;
}

request_reboot-Inv :
    (cfg : Config) (p : Panel) → Inv cfg (control p) → Inv cfg (control (request_reboot cfg p))
unfolding request_reboot
request_reboot-Inv cfg p v = ground arith

choose-Inv :
    (i : Choice) (cfg : Config) (env : Env) (p : Panel)
    → p.view ≡ menu
    → Inv cfg (control p)
    → Inv cfg (control (choose i cfg env p))
unfolding choose
choose-Inv backlight cfg env p e v = assumption
choose-Inv torch cfg env p e v = assumption
choose-Inv (reads src) cfg env p e v = pager_open-Inv cfg env src menu false p (inr refl) v
choose-Inv reboot cfg env p e v = request_reboot-Inv cfg p v
choose-Inv back cfg env p e v = record {
  sel_fits = v.sel_fits;
  in_text = v.in_text;
  parent_apart = v.parent_apart;
  reload_paged = ground arith;
}
choose-Inv no_item cfg env p e v = v

dispatch-Inv :
    (w : View) (a : Action) (cfg : Config) (env : Env) (p : Panel)
    → p.view ≡ w
    → Inv cfg (control p)
    → Inv cfg (control (dispatch w a cfg env p))
unfolding dispatch menu_activate
dispatch-Inv dash open_menu cfg env p e v = record {
  sel_fits = omega arith;
  in_text = v.in_text;
  parent_apart = v.parent_apart;
  reload_paged = ground arith;
}
dispatch-Inv dash select cfg env p e v = assumption
dispatch-Inv dash quit cfg env p e v = assumption
dispatch-Inv dash _ cfg env p e v = v
dispatch-Inv menu up cfg env p e v = record {
  sel_fits = omega arith;
  in_text = v.in_text;
  parent_apart = v.parent_apart;
  reload_paged = v.reload_paged;
}
dispatch-Inv menu down cfg env p e v = record {
  sel_fits = omega arith;
  in_text = v.in_text;
  parent_apart = v.parent_apart;
  reload_paged = v.reload_paged;
}
dispatch-Inv menu select cfg env p e v = choose-Inv _ cfg env p e v
dispatch-Inv menu open_menu cfg env p e v = choose-Inv back cfg env p e v
dispatch-Inv menu quit cfg env p e v = choose-Inv back cfg env p e v
dispatch-Inv menu _ cfg env p e v = v
dispatch-Inv pager up cfg env p e v = pager_clamp-Inv cfg p _ v
dispatch-Inv pager down cfg env p e v = pager_clamp-Inv cfg p _ v
dispatch-Inv pager _ cfg env p e v = record {
  sel_fits = v.sel_fits;
  in_text = v.in_text;
  parent_apart = v.parent_apart;
  reload_paged = inr refl;
}

-- If the menu's selection is an item, the page lies inside the text, the pager leads back to the
-- dashboard or the menu, and a source to read again is set in the pager only, then all of this
-- holds after every action in every view.
pub handle_action-Inv :
    (cfg : Config) (env : Env) (a : Action) (p : Panel)
    → Inv cfg (control p)
    → Inv cfg (control (handle_action cfg env a p))
unfolding handle_action
handle_action-Inv cfg env none_act p v = v
handle_action-Inv cfg env a p v =
    rw (control-repaint true cfg env (dispatch p.view a cfg env p))
      (dispatch-Inv p.view a cfg env p refl v)

press-Inv :
    (h : Hotkey) (cfg : Config) (env : Env) (p : Panel)
    → Inv cfg (control p)
    → Inv cfg (control (press h cfg env p))
unfolding press
press-Inv (opens src live) cfg env p v =
    rw (control-repaint true cfg env (pager_open cfg env src dash live p))
      (pager_open-Inv cfg env src dash live p (inl refl) v)
press-Inv toggles cfg env p v = rw (control-repaint true cfg env _) assumption
press-Inv (acts a) cfg env p v = handle_action-Inv cfg env a p v
press-Inv ignored cfg env p v = v

char_in-Inv :
    (w : View) (c : ℕ) (cfg : Config) (env : Env) (p : Panel)
    → Inv cfg (control p)
    → Inv cfg (control (char_in w c cfg env p))
unfolding char_in
char_in-Inv dash c cfg env p v = press-Inv (hotkey c) cfg env p v
char_in-Inv _ c cfg env p v = handle_action-Inv cfg env (key_action c) p v

-- If the menu's selection is an item, the page lies inside the text, the pager leads back to the
-- dashboard or the menu, and a source to read again is set in the pager only, then all of this
-- holds after every typed byte in every view.
pub handle_char-Inv :
    (cfg : Config) (env : Env) (c : ℕ) (p : Panel)
    → Inv cfg (control p)
    → Inv cfg (control (handle_char cfg env c p))
unfolding handle_char
handle_char-Inv cfg env c p v = char_in-Inv p.view c cfg env p v
