-- ===== src/Views/Effects.antt =====
-- What one key changes besides the picture: the reboot, the end of the process and the switches.
use mobile_config.Base.{
  ℕ, zero, suc, ◌+◌, ◌≡◌, refl, sym, ◌∙◌, ap, Bool, true, false, ◌&&◌, arith, ◌==◌, if◌then◌else◌,
  [], get_or,
}
use mobile_config.Config.{Config, is_empty}
use mobile_config.Files.{Fs}
use mobile_config.Backlight.{display_toggle, torch_toggle}
use mobile_config.Views.State.{
  View, dash, menu, pager, Source, Action, none_act, up, down, select, open_menu, quit, other,
  Panel, Env, menu_items,
}
use mobile_config.Views.Pager.{pager_clamp}
use mobile_config.Views.Actions.{
  load_text, reading_frame, pager_open, request_reboot, Choice, backlight, torch, reboot, back,
  no_item, reads, choice_of, choose, menu_activate, on_dash, on_menu, on_pager, dispatch,
  handle_action,
}
use mobile_config.Views.Invariant.{Control, control, control-repaint, control-show}

-- What the outside sees of a key: the files, the reboot requests and the end of the process.
pub record Effects : Type 0 where
  pub fs : Fs
  pub reboots : ℕ
  pub quitting : Bool

abbrev pub effects : Control → Effects
effects c = record { fs = c.fs; reboots = c.reboots; quitting = c.quitting }

abbrev switch_panel : Config → Control → Effects
switch_panel cfg c = record (effects c) { fs = display_toggle cfg c.fs }

abbrev ask_reboot : Config → Control → Effects
ask_reboot cfg c =
    if is_empty cfg.root && c.has_bus
    then record (effects c) { reboots = c.reboots + 1 }
    else effects c

-- The table of what an action does: on the dashboard, select switches the panel and quit ends the
-- process; in the menu, select on the items 0, 1 and 7 switches the panel, switches the torch and
-- asks for a reboot; everything else does nothing.
abbrev pub table : Config → View → Action → ℕ → Control → Effects
table cfg dash select sel c = switch_panel cfg c
table cfg dash quit sel c = record (effects c) { quitting = true }
table cfg menu select sel c =
    if sel == 0
    then switch_panel cfg c
    else if sel == 1
    then record (effects c) { fs = torch_toggle cfg c.fs }
    else if sel == 7
    then ask_reboot cfg c
    else effects c
table cfg _ _ _ c = effects c

effects-pager_open :
    (cfg : Config) (env : Env) (src : Source) (parent : View) (live : Bool) (p : Panel)
    → effects (control (pager_open cfg env src parent live p)) ≡ effects (control p)
unfolding pager_open load_text pager_clamp reading_frame
effects-pager_open cfg env src parent live p = ap effects (control-show true _)

effects-request_reboot :
    (cfg : Config) (p : Panel)
    → effects (control (request_reboot cfg p)) ≡ ask_reboot cfg (control p)
unfolding request_reboot
effects-request_reboot cfg p = ground arith

-- What a choice does, by itself.
abbrev of_choice : Config → Choice → Control → Effects
of_choice cfg backlight c = switch_panel cfg c
of_choice cfg torch c = record (effects c) { fs = torch_toggle cfg c.fs }
of_choice cfg reboot c = ask_reboot cfg c
of_choice cfg _ c = effects c

effects-choose :
    (i : Choice) (cfg : Config) (env : Env) (p : Panel)
    → effects (control (choose i cfg env p)) ≡ of_choice cfg i (control p)
unfolding choose
effects-choose backlight cfg env p = refl
effects-choose torch cfg env p = refl
effects-choose reboot cfg env p = effects-request_reboot cfg p
effects-choose back cfg env p = refl
effects-choose no_item cfg env p = refl
effects-choose (reads src) cfg env p = effects-pager_open cfg env src menu false p

-- The items of the menu, by their number.
of_choice-menu_items :
    (cfg : Config) (sel : ℕ) (c : Control)
    → of_choice cfg (choice_of (get_or menu_items sel [])) c ≡ table cfg menu select sel c
unfolding choice_of
of_choice-menu_items cfg zero c = refl
of_choice-menu_items cfg (suc zero) c = refl
of_choice-menu_items cfg (suc (suc zero)) c = refl
of_choice-menu_items cfg (suc (suc (suc zero))) c = refl
of_choice-menu_items cfg (suc (suc (suc (suc zero)))) c = refl
of_choice-menu_items cfg (suc (suc (suc (suc (suc zero))))) c = refl
of_choice-menu_items cfg (suc (suc (suc (suc (suc (suc zero)))))) c = refl
of_choice-menu_items cfg (suc (suc (suc (suc (suc (suc (suc zero))))))) c = refl
of_choice-menu_items cfg (suc (suc (suc (suc (suc (suc (suc (suc zero)))))))) c = refl
of_choice-menu_items cfg (suc (suc (suc (suc (suc (suc (suc (suc (suc n))))))))) c = ground arith

effects-dispatch :
    (v : View) (a : Action) (cfg : Config) (env : Env) (p : Panel)
    → effects (control (dispatch v a cfg env p)) ≡ table cfg v a p.menu_sel (control p)
unfolding dispatch on_dash on_menu on_pager pager_clamp menu_activate
effects-dispatch menu select cfg env p =
    effects-choose _ cfg env p ∙ of_choice-menu_items cfg p.menu_sel (control p)
effects-dispatch dash select cfg env p = refl
effects-dispatch dash quit cfg env p = refl
effects-dispatch dash none_act cfg env p = refl
effects-dispatch dash up cfg env p = refl
effects-dispatch dash down cfg env p = refl
effects-dispatch dash open_menu cfg env p = refl
effects-dispatch dash other cfg env p = refl
effects-dispatch menu none_act cfg env p = refl
effects-dispatch menu up cfg env p = refl
effects-dispatch menu down cfg env p = refl
effects-dispatch menu open_menu cfg env p = refl
effects-dispatch menu quit cfg env p = refl
effects-dispatch menu other cfg env p = refl
effects-dispatch pager none_act cfg env p = refl
effects-dispatch pager up cfg env p = refl
effects-dispatch pager down cfg env p = refl
effects-dispatch pager select cfg env p = refl
effects-dispatch pager open_menu cfg env p = refl
effects-dispatch pager quit cfg env p = refl
effects-dispatch pager other cfg env p = refl

effects-still :
    (v : View) (cfg : Config) (env : Env) (p : Panel)
    → effects (control (dispatch v none_act cfg env p)) ≡ effects (control p)
unfolding dispatch on_dash on_menu on_pager
effects-still dash cfg env p = refl
effects-still menu cfg env p = refl
effects-still pager cfg env p = refl

-- One action, in whatever view, writes exactly the files, asks for exactly the reboots and ends the
-- process exactly as the table says: only select in the menu on its reboot item, with a bus and
-- without a root prefix, asks for a reboot; only quit on the dashboard ends the process; only select
-- writes to the panel or the torch. The picture and where the views stand do not count here.
pub effects-handle_action :
    (cfg : Config) (env : Env) (a : Action) (p : Panel)
    → effects (control (handle_action cfg env a p)) ≡ table cfg p.view a p.menu_sel (control p)
unfolding handle_action
effects-handle_action cfg env none_act p =
    sym (effects-still p.view cfg env p) ∙ effects-dispatch p.view none_act cfg env p
effects-handle_action cfg env a p =
    ap effects (control-repaint true cfg env (dispatch p.view a cfg env p))
    ∙ effects-dispatch p.view a cfg env p
