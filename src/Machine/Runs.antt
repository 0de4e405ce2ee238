-- ===== src/Machine/Runs.antt =====
-- What holds of the panel's process after any rounds of its loop.
use mobile_config.Base.{
  ℕ, Bool, true, false, ◌||◌, List, [], ◌∷◌, ◌==◌, ◌+◌, ◌%◌, if◌then◌else◌, Option, none, some,
}
use mobile_config.Libc.{Bytes}
use mobile_config.Config.{Config}
use mobile_config.Keys.{Decoder, Delivery, wake_guard, key_token}
use mobile_config.Views.State.{View, dash, menu, pager, Source, Panel, Env}
use mobile_config.Views.Actions.{handle_char, pager_refresh}
use mobile_config.Views.Invariant.{
  control, Inv, handle_char-Inv, pager_refresh-Inv, control-repaint, control-repaint_logo_only,
}
use mobile_config.Views.Draw.{repaint}
use mobile_config.Views.Draws.{
  Draws, handle_char-Draws, repaint-Draws, repaint_logo_only-Draws, pager_refresh-Draws,
}
use mobile_config.Machine.{
  Machine, typed_byte, typed, tokens, pass_token, deliver, decoded, refreshed, on_tick, on_logo,
  Tick, asked, reconnected, Ready, timer, stdin, keys_end, keys_partial, keys_input, socket,
  tailscale, logo_timer, on_ready, on_all, Round, interrupted, waited, reported, main_round,
  main_loop,
}
use mobile_config.Machine.Typing.{ends_escape}

-- The invariant of the views, and no repaint is in a loop that does not end.
abbrev pub Sound : Config → Panel → Type 0
Sound cfg p = Inv cfg (control p) × Draws p

abbrev pub Holds : Config → Machine → Type 0
Holds cfg m = Sound cfg m.panel

handle_char-Sound :
    (cfg : Config) (env : Env) (c : ℕ) (p : Panel)
    → Sound cfg p
    → Sound cfg (handle_char cfg env c p)
handle_char-Sound cfg env c p (v, d) =
    (handle_char-Inv cfg env c p v, handle_char-Draws cfg env c p d)

pub repaint-Sound :
    (force : Bool) (cfg : Config) (env : Env) (p : Panel)
    → Sound cfg p
    → Sound cfg (repaint force cfg env p)
repaint-Sound force cfg env p (v, d) =
    (rw (control-repaint force cfg env p) v, repaint-Draws force cfg env p d)

if-Holds :
    (cfg : Config) (b : Bool) (m n : Machine)
    → Holds cfg m
    → Holds cfg n
    → Holds cfg (if b then m else n)
if-Holds cfg true m n h k = h
if-Holds cfg false m n h k = k

typed_byte-Holds :
    (cfg : Config) (env : Env) (c : ℕ) (m : Machine)
    → Holds cfg m
    → Holds cfg (typed_byte cfg env c m)
unfolding typed_byte
typed_byte-Holds cfg env c m h =
    if-Holds cfg m.in_escape _ _ (if-Holds cfg (ends_escape c) _ _ h h)
      (if-Holds cfg (c == 27) _ _ h (handle_char-Sound cfg env c m.panel h))

typed-Holds :
    (cfg : Config) (env : Env) (cs : Bytes) (m : Machine)
    → Holds cfg m
    → Holds cfg (typed cfg env cs m)
unfolding typed
typed-Holds cfg env [] m h = h
typed-Holds cfg env (c ∷ cs) m h =
    typed-Holds cfg env cs (typed_byte cfg env c m) (typed_byte-Holds cfg env c m h)

tokens-Holds :
    (cfg : Config) (env : Env) (cs : Bytes) (m : Machine)
    → Holds cfg m
    → Holds cfg (tokens cfg env cs m)
unfolding tokens
tokens-Holds cfg env [] m h = h
tokens-Holds cfg env (c ∷ cs) m h =
    tokens-Holds cfg env cs (record m { panel = handle_char cfg env c m.panel })
      (handle_char-Sound cfg env c m.panel h)

pass_token-Holds :
    (cfg : Config) (env : Env) (x : Delivery) (go : Bool) (m : Machine)
    → Holds cfg m
    → Holds cfg (pass_token cfg env x go m)
unfolding pass_token
pass_token-Holds cfg env x false m h = h
pass_token-Holds cfg env x true m h =
    let token = key_token cfg x.key x.is_hold in
    if-Holds cfg (token == 0) _ _ h (handle_char-Sound cfg env token m.panel h)

decoded-Holds :
    (cfg : Config) (env : Env) (r : Decoder × Option Delivery) (m : Machine)
    → Holds cfg m
    → Holds cfg (decoded cfg env r m)
unfolding decoded deliver
decoded-Holds cfg env (dec, none) m h = h
decoded-Holds cfg env (dec, some x) m h =
    let (fs, go) = wake_guard cfg x.is_hold m.panel.fs in
    pass_token-Holds cfg env x go _ (
      record {
        sel_fits = h.0.sel_fits;
        in_text = h.0.in_text;
        parent_apart = h.0.parent_apart;
        reload_paged = h.0.reload_paged;
      },
      h.1,
    )

refreshed-Sound :
    (v : View) (r : Option Source) (cfg : Config) (env : Env) (p : Panel)
    → Sound cfg p
    → Sound cfg (refreshed v r cfg env p)
unfolding refreshed
refreshed-Sound dash r cfg env p h = repaint-Sound false cfg env p h
refreshed-Sound menu r cfg env p h = h
refreshed-Sound pager none cfg env p h = h
refreshed-Sound pager (some src) cfg env p h =
    repaint-Sound false cfg env (pager_refresh cfg env p)
      (pager_refresh-Inv cfg env p h.0, pager_refresh-Draws cfg env p h.1)

on_logo-Sound :
    (v : View) (cfg : Config) (env : Env) (p : Panel)
    → Sound cfg p
    → Sound cfg (on_logo v cfg env p)
unfolding on_logo
on_logo-Sound dash cfg env p h =
    (rw (control-repaint_logo_only cfg env p) h.0, repaint_logo_only-Draws cfg env p h.1)
on_logo-Sound menu cfg env p h = h
on_logo-Sound pager cfg env p h = h

asked-Holds : (cfg : Config) (t : Tick) (m : Machine) → Holds cfg m → Holds cfg (asked cfg t m)
unfolding asked
asked-Holds cfg t m h = if-Holds cfg (m.tick % 6 == 0) _ _ h h

repainted-Holds :
    (cfg : Config) (env : Env) (m : Machine)
    → Holds cfg m
    → Holds cfg (record m { panel = refreshed m.panel.view m.panel.pager_reload cfg env m.panel })
repainted-Holds cfg env m h = refreshed-Sound m.panel.view m.panel.pager_reload cfg env m.panel h

on_tick-Holds :
    (cfg : Config) (env : Env) (t : Tick) (m : Machine)
    → Holds cfg m
    → Holds cfg (on_tick cfg env t m)
unfolding on_tick reconnected
on_tick-Holds cfg env t m h =
    repainted-Holds cfg env (reconnected cfg t (asked cfg t (record m { tick = m.tick + 1 })))
      (asked-Holds cfg t (record m { tick = m.tick + 1 }) h)

on_ready-Holds :
    (cfg : Config) (env : Env) (r : Ready) (m : Machine)
    → Holds cfg m
    → Holds cfg (on_ready cfg env r m)
unfolding on_ready
on_ready-Holds cfg env (timer t) m h = on_tick-Holds cfg env t m h
on_ready-Holds cfg env (stdin cs) m h = typed-Holds cfg env cs m h
on_ready-Holds cfg env keys_end m h = h
on_ready-Holds cfg env keys_partial m h = h
on_ready-Holds cfg env (keys_input now ev) m h = decoded-Holds cfg env _ m h
on_ready-Holds cfg env (socket []) m h = h
on_ready-Holds cfg env (socket (c ∷ cs)) m h = tokens-Holds cfg env (c ∷ cs) m h
on_ready-Holds cfg env (tailscale rs) m h = h
on_ready-Holds cfg env logo_timer m h = on_logo-Sound m.panel.view cfg env m.panel h

on_all-Holds :
    (cfg : Config) (rs : List (Env × Ready)) (m : Machine)
    → Holds cfg m
    → Holds cfg (on_all cfg rs m)
unfolding on_all
on_all-Holds cfg [] m h = h
on_all-Holds cfg ((env, r) ∷ rs) m h =
    on_all-Holds cfg rs (on_ready cfg env r m) (on_ready-Holds cfg env r m h)

main_round-Holds :
    (cfg : Config) (r : Round) (m : Machine) → Holds cfg m → Holds cfg (main_round cfg r m)
unfolding main_round
main_round-Holds cfg interrupted m h = h
main_round-Holds cfg (waited env now) m h = decoded-Holds cfg env _ m h
main_round-Holds cfg (reported rs) m h = on_all-Holds cfg rs m h

-- If the menu's selection is an item, the pager's page lies inside its text, the pager leads back
-- to the dashboard or the menu, a source to read again is set in the pager only, the terminal has at
-- most 128 rows and no repaint hangs, then all of this holds after any rounds of the panel's loop,
-- whatever is typed, sent, pressed, timed or read in between.
pub main_loop-Holds :
    (cfg : Config) (rs : List Round) (m : Machine) → Holds cfg m → Holds cfg (main_loop cfg rs m)
unfolding main_loop
main_loop-Holds cfg [] m h = h
main_loop-Holds cfg (r ∷ rs) m h =
    if-Holds cfg (m.stopping || m.panel.quitting) m _ h
      (main_loop-Holds cfg rs (main_round cfg r m) (main_round-Holds cfg r m h))
