-- ===== src/Views/Reading.antt =====
-- Opening a text from the dashboard, refreshing it, and leaving it.
use mobile_config.Base.{
  ℕ, ◌≡◌, refl, sym, ◌∙◌, ap, subst, Bool, true, false, if◌then◌else◌, List, [], ◌∷◌, All, none,
  some, arith, length, ℤ, pos, ◌+ℤ◌, ◌-ℤ◌, ◌≤ℤ◌,
}
use mobile_config.Config.{Config}
use mobile_config.Views.State.{
  View, dash, pager, Source, boot_log, errors, kmsg, units, network, processes, Action, quit, other,
  open_menu, select, Panel, Env,
}
use mobile_config.Views.Pager.{
  pager_rows, pager_clamp, clamp_top, InText, clamp_top-InText, pager_rows-ge,
}
use mobile_config.Views.Actions.{
  load_text, reading_frame, pager_open, refresh_by, pager_refresh, dispatch, on_pager,
  handle_action, opens, hotkey, press, char_in, handle_char,
}
use mobile_config.Views.Invariant.{Control, control, control-repaint, control-show}

-- The text is what its source gives now, and its last page is on the screen.
pub record AtEnd (cfg : Config) (env : Env) (src : Source) (c : Control) : Type 0 where
  pub fresh : c.pager_text ≡ env.load src
  pub in_text : InText (pager_rows cfg c.screen_rows) (length (env.load src)) c.pager_top
  pub last_line : pos (length (env.load src)) ≤ℤ (c.pager_top +ℤ pager_rows cfg c.screen_rows)

clamp_top_end :
    (rows : ℤ) (n : ℕ) → pos 5 ≤ℤ rows → pos n ≤ℤ (clamp_top rows n (pos n -ℤ rows) +ℤ rows)
unfolding clamp_top
clamp_top_end rows n h = ground arith

load_text-AtEnd :
    (cfg : Config) (env : Env) (src : Source) (p : Panel)
    → AtEnd cfg env src (control (load_text cfg env src p))
unfolding load_text pager_clamp
load_text-AtEnd cfg env src p = record {
  fresh = refl;
  in_text = clamp_top-InText (pager_rows cfg p.display.screen_rows) (length (env.load src)) _;
  last_line =
      clamp_top_end (pager_rows cfg p.display.screen_rows) (length (env.load src))
        (pager_rows-ge cfg p.display.screen_rows);
}

-- The dashboard that is left for a text and the control that comes back from it.
abbrev pub with_text : Config → Env → Source → Control → Control
with_text cfg env src c = record c {
  pager_text = env.load src;
  pager_top =
      clamp_top (pager_rows cfg c.screen_rows) (length (env.load src))
        (pos (length (env.load src)) -ℤ pager_rows cfg c.screen_rows);
}

control-load_text :
    (cfg : Config) (env : Env) (src : Source) (p : Panel)
    → control (load_text cfg env src p) ≡ with_text cfg env src (control p)
unfolding load_text pager_clamp
control-load_text cfg env src p = refl

control-pager_open :
    (cfg : Config) (env : Env) (src : Source) (parent : View) (live : Bool) (p : Panel)
    → control (pager_open cfg env src parent live p) ≡ record (with_text cfg env src (control p)) {
      pager_reload = if live then some src else none;
      pager_parent = parent;
      view = pager;
    }
unfolding pager_open reading_frame load_text pager_clamp
control-pager_open cfg env src parent live p =
    ap
      (λ c. record (with_text cfg env src c) {
        pager_reload = if live then some src else none;
        pager_parent = parent;
        view = pager;
      })
      (control-show true _)

press_opens :
    (cfg : Config) (env : Env) (src : Source) (live : Bool) (p : Panel)
    → control (press (opens src live) cfg env p) ≡ record (with_text cfg env src (control p)) {
      pager_reload = if live then some src else none;
      pager_parent = dash;
      view = pager;
    }
unfolding press
press_opens cfg env src live p =
    control-repaint true cfg env _ ∙ control-pager_open cfg env src dash live p

-- The control with a text open over the dashboard.
abbrev pub opened : Config → Env → Source → Bool → Control → Control
opened cfg env src live c = record (with_text cfg env src c) {
  pager_reload = if live then some src else none;
  pager_parent = dash;
  view = pager;
}

opened-AtEnd :
    (cfg : Config) (env : Env) (src : Source) (live : Bool) (c : Control)
    → AtEnd cfg env src (opened cfg env src live c)
opened-AtEnd cfg env src live c = record {
  fresh = refl;
  in_text = clamp_top-InText (pager_rows cfg c.screen_rows) (length (env.load src)) _;
  last_line =
      clamp_top_end (pager_rows cfg c.screen_rows) (length (env.load src))
        (pager_rows-ge cfg c.screen_rows);
}

control-opens :
    (cfg : Config) (env : Env) (c : ℕ) (p : Panel) {src : Source} {live : Bool}
    → p.view ≡ dash
    → hotkey c ≡ opens src live
    → control (handle_char cfg env c p) ≡ opened cfg env src live (control p)
unfolding handle_char char_in
control-opens cfg env c p {src} {live} v h =
    ap (λ w. control (char_in w c cfg env p)) v
    ∙ (ap (λ h. control (press h cfg env p)) h ∙ press_opens cfg env src live p)

-- The keys of the dashboard that open a text, the source of each, and whether it is a live view.
abbrev pub reading_keys : List (ℕ × Source × Bool)
reading_keys =
    (b'b', boot_log, false)
    ∷ (b'e', errors, false)
    ∷ (b'k', kmsg, false)
    ∷ (b'u', units, false)
    ∷ (b'n', network, false)
    ∷ (b't', processes, true)
    ∷ (b'j', boot_log, true)
    ∷ []

-- What `c` does: it opens the last page of what `src` gives over the dashboard, and a refresh with
-- what the system gives later reads `src` again, if the view is live, and changes nothing if not.
pub record ShowsText (cfg : Config) (env later : Env) (p : Panel) (c : ℕ) (src : Source)
    (live : Bool) : Type 0 where
  pub at_end : AtEnd cfg env src (control (handle_char cfg env c p))
  pub over_dash : control (handle_char cfg env c p) ≡ opened cfg env src live (control p)
  pub reads_again : control (pager_refresh cfg later (handle_char cfg env c p)) ≡ (
      if live
      then with_text cfg later src (opened cfg env src live (control p))
      else opened cfg env src live (control p))

control-refresh :
    (cfg : Config) (later : Env) (src : Source) (live : Bool) (q : Panel)
    → q.pager_reload ≡ (if live then some src else none)
    → control (pager_refresh cfg later q)
      ≡ (if live then with_text cfg later src (control q) else control q)
unfolding pager_refresh refresh_by
control-refresh cfg later src true q e =
    ap (λ r. control (refresh_by r cfg later q)) e ∙ control-load_text cfg later src q
control-refresh cfg later src false q e = ap (λ r. control (refresh_by r cfg later q)) e

key-ShowsText :
    (cfg : Config) (env later : Env) (p : Panel) (c : ℕ) (src : Source) (live : Bool)
    → p.view ≡ dash
    → hotkey c ≡ opens src live
    → ShowsText cfg env later p c src live
key-ShowsText cfg env later p c src live v h =
    let e = control-opens cfg env c p v h in
    record {
      at_end = subst (AtEnd cfg env src) (sym e) (opened-AtEnd cfg env src live (control p));
      over_dash = e;
      reads_again =
          control-refresh cfg later src live (handle_char cfg env c p) (ap (λ c. c.pager_reload) e)
          ∙ ap (λ c. if live then with_text cfg later src c else c) e;
    }

-- On the dashboard `b` opens the boot log, `e` the errors, `k` the kernel's messages, `u` the units,
-- `n` the network, `t` the processes and `j` the boot log, the last two as live views: the last page
-- of what the source gives is shown, the way back is the dashboard, and nothing else of the control
-- changes. A refresh of a live view reads its source again and shows the last page of what it gives
-- then; a refresh of another one changes nothing.
pub handle_char-opens :
    (cfg : Config) (env later : Env) (p : Panel)
    → p.view ≡ dash
    → All (λ (c, src, live). ShowsText cfg env later p c src live) reading_keys
unfolding hotkey
handle_char-opens cfg env later p v = (
  key-ShowsText cfg env later p b'b' boot_log false v refl,
  (
    key-ShowsText cfg env later p b'e' errors false v refl,
    (
      key-ShowsText cfg env later p b'k' kmsg false v refl,
      (
        key-ShowsText cfg env later p b'u' units false v refl,
        (
          key-ShowsText cfg env later p b'n' network false v refl,
          (
            key-ShowsText cfg env later p b't' processes true v refl,
            (key-ShowsText cfg env later p b'j' boot_log true v refl, tt),
          ),
        ),
      ),
    ),
  ),
)

-- Whether an action leaves the pager.
abbrev pub is_leaving : Action → Bool
is_leaving select = true
is_leaving open_menu = true
is_leaving quit = true
is_leaving other = true
is_leaving _ = false

leaves :
    (cfg : Config) (env : Env) (a : Action) (p : Panel)
    → is_leaving a ≡ true
    → p.view ≡ pager
    → control (handle_action cfg env a p)
      ≡ record (control p) { view = p.pager_parent; pager_reload = none }
unfolding handle_action dispatch on_pager
leaves cfg env select p l v = control-repaint true cfg env _ ∙ rw (v, dispatch) refl
leaves cfg env open_menu p l v = control-repaint true cfg env _ ∙ rw (v, dispatch) refl
leaves cfg env quit p l v = control-repaint true cfg env _ ∙ rw (v, dispatch) refl
leaves cfg env other p l v = control-repaint true cfg env _ ∙ rw (v, dispatch) refl
leaves cfg env _ p l v = cc

-- A text that is opened from the dashboard and left by an action other than up and down leads back
-- to the dashboard: the control is the one before, but for the text, the page and the way back that
-- the pager keeps, and no source is left to be read again.
pub reading_returns :
    (cfg : Config) (env : Env) (c : ℕ) (a : Action) (p : Panel) {src : Source} {live : Bool}
    → p.view ≡ dash
    → hotkey c ≡ opens src live
    → is_leaving a ≡ true
    → control (handle_action cfg env a (handle_char cfg env c p))
      ≡ record (with_text cfg env src (control p)) {
        pager_reload = none;
        pager_parent = dash;
        view = dash;
      }
reading_returns cfg env c a p {src} {live} v h l =
    let e = control-opens cfg env c p v h in
    leaves cfg env a (handle_char cfg env c p) l (ap (λ c. c.view) e)
    ∙ ap {A = Control} {B = Control} (λ c. record c { view = c.pager_parent; pager_reload = none })
        e

-- Each refresh of a live view reads its source anew and shows the last page of it.
pub pager_refresh-AtEnd :
    (cfg : Config) (env : Env) (p : Panel) {src : Source}
    → p.pager_reload ≡ some src
    → AtEnd cfg env src (control (pager_refresh cfg env p))
unfolding pager_refresh refresh_by
pager_refresh-AtEnd cfg env p {src} e =
    subst (λ r. AtEnd cfg env src (control (refresh_by r cfg env p))) (sym e)
      (load_text-AtEnd cfg env src p)
