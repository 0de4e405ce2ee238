-- ===== src/Machine.antt =====
-- modules/console/panel.c: `stdin_readable`, `keys_deliver` in the panel's own process, and the loop
-- of `main`. What the process reads from the system during an event comes with the event.
pub mod Typing
pub mod Runs
use mobile_config.Base.{
  ℕ, ◌+◌, ◌%◌, Bool, true, false, not, ◌&&◌, ◌||◌, List, [], ◌∷◌, ◌==◌, if◌then◌else◌, Option, none,
  some,
}
use mobile_config.Libc.{Bytes, is_alpha}
use mobile_config.Config.{Config, is_empty}
use mobile_config.Keys.{
  InputEvent, Decoder, Delivery, keys_event, keys_timeout, wake_guard, key_token,
}
use mobile_config.Tailscale.{Child, TsRead, tailscale_start, tailscale_drain}
use mobile_config.Views.State.{View, dash, menu, pager, Source, Panel, Env}
use mobile_config.Views.Draw.{repaint, repaint_logo_only}
use mobile_config.Views.Actions.{pager_refresh, handle_char}

-- `connected` is whether `sock_fd` is open, `tick` the counter of the timer, `child` the state of the
-- tailscale process, and `stopping` is `stop_requested`. The `peers` of the child are the panel's.
pub record Machine : Type 0 where
  pub panel : Panel
  pub decoder : Decoder
  pub in_escape : Bool
  pub tick : ℕ
  pub child : Child
  pub connected : Bool
  pub stopping : Bool

-- One round of the loop of `stdin_readable`.
unfoldable pub typed_byte : Config → Env → ℕ → Machine → Machine
typed_byte cfg env c m =
    if m.in_escape
    then if is_alpha c || c == b'~' then record m { in_escape = false } else m
    else if c == 27
    then record m { in_escape = true }
    else record m { panel = handle_char cfg env c m.panel }

unfoldable pub typed : Config → Env → Bytes → Machine → Machine
typed cfg env [] m = m
typed cfg env (c ∷ cs) m = typed cfg env cs (typed_byte cfg env c m)

-- The tokens of the socket go to `handle_char` one by one.
unfoldable pub tokens : Config → Env → Bytes → Machine → Machine
tokens cfg env [] m = m
tokens cfg env (c ∷ cs) m = tokens cfg env cs (record m { panel = handle_char cfg env c m.panel })

unfoldable pub pass_token : Config → Env → Delivery → Bool → Machine → Machine
pass_token cfg env x false m = m
pass_token cfg env x true m =
    let token = key_token cfg x.key x.is_hold in
    if token == 0 then m else record m { panel = handle_char cfg env token m.panel }

unfoldable pub deliver : Config → Env → Delivery → Machine → Machine
unfolding pass_token
deliver cfg env x m =
    let (fs, go) = wake_guard cfg x.is_hold m.panel.fs in
    pass_token cfg env x go (record m { panel = record m.panel { fs = fs } })

unfoldable pub decoded : Config → Env → Decoder × Option Delivery → Machine → Machine
unfolding deliver
decoded cfg env (dec, none) m = record m { decoder = dec }
decoded cfg env (dec, some x) m = deliver cfg env x (record m { decoder = dec })

-- The repaint of the timer: the dashboard's, or the one of a live view.
unfoldable pub refreshed : View → Option Source → Config → Env → Panel → Panel
refreshed dash r cfg env p = repaint false cfg env p
refreshed menu r cfg env p = p
refreshed pager none cfg env p = p
refreshed pager (some src) cfg env p = repaint false cfg env (pager_refresh cfg env p)

-- The state after the child has changed.
abbrev pub with_child : Child → Machine → Machine
with_child t m = record m { child = t; panel = record m.panel { peers = t.peers } }

-- What the calls of a tick give: whether `keys_connect` gives a descriptor, and whether a pipe and a
-- process are to be had for tailscale.
pub record Tick : Type 0 where
  pub connects : Bool
  pub pipes : Bool
  pub forks : Bool

-- Every sixth tick asks tailscale.
unfoldable pub asked : Config → Tick → Machine → Machine
unfolding tailscale_start
asked cfg t m =
    if m.tick % 6 == 0
    then with_child (tailscale_start cfg m.panel.fs t.pipes t.forks m.child) m
    else m

unfoldable pub reconnected : Config → Tick → Machine → Machine
reconnected cfg t m = record m {
  connected = m.connected || not (is_empty cfg.socket_path) && t.connects;
}

unfoldable pub on_tick : Config → Env → Tick → Machine → Machine
unfolding refreshed asked reconnected
on_tick cfg env t m =
    let m' = reconnected cfg t (asked cfg t (record m { tick = m.tick + 1 })) in
    record m' { panel = refreshed m'.panel.view m'.panel.pager_reload cfg env m'.panel }

unfoldable pub on_logo : View → Config → Env → Panel → Panel
on_logo dash cfg env p = repaint_logo_only cfg env p
on_logo _ cfg env p = p

-- A descriptor that `epoll_wait` reports: the timer; standard input with what a read gives, nothing
-- for a result of 0 or below; the key device at its end, with something that is no event, or with an
-- event; the socket; the pipe of tailscale with what the reads of it give; the timer of
-- the logo.
pub data Ready : Type 0 where
  timer : Tick → Ready
  stdin : Bytes → Ready
  keys_end keys_partial : Ready
  keys_input : ℕ → InputEvent → Ready
  socket : Bytes → Ready
  tailscale : List TsRead → Ready
  logo_timer : Ready

unfoldable pub on_ready : Config → Env → Ready → Machine → Machine
unfolding on_tick typed tokens decoded on_logo tailscale_drain
on_ready cfg env (timer t) m = on_tick cfg env t m
on_ready cfg env (stdin cs) m = typed cfg env cs m
on_ready cfg env keys_end m = record m { stopping = true }
on_ready cfg env keys_partial m = m
on_ready cfg env (keys_input now ev) m = decoded cfg env (keys_event cfg now ev m.decoder) m
on_ready cfg env (socket []) m = record m { connected = false }
on_ready cfg env (socket (c ∷ cs)) m = tokens cfg env (c ∷ cs) m
on_ready cfg env (tailscale rs) m = with_child (tailscale_drain rs m.child) m
on_ready cfg env logo_timer m = record m { panel = on_logo m.panel.view cfg env m.panel }

unfoldable pub on_all : Config → List (Env × Ready) → Machine → Machine
unfolding on_ready
on_all cfg [] m = m
on_all cfg ((env, r) ∷ rs) m = on_all cfg rs (on_ready cfg env r m)

-- One round of the loop: the wait is interrupted, ends at a time, or reports descriptors. A wait
-- that fails, or a signal, is the end of the rounds.
pub data Round : Type 0 where
  interrupted : Round
  waited : Env → ℕ → Round
  reported : List (Env × Ready) → Round

unfoldable pub main_round : Config → Round → Machine → Machine
unfolding on_all decoded
main_round cfg interrupted m = m
main_round cfg (waited env now) m = decoded cfg env (keys_timeout cfg now m.decoder) m
main_round cfg (reported rs) m = on_all cfg rs m

-- `while (!stop_requested && !quitting)`
unfoldable pub main_loop : Config → List Round → Machine → Machine
unfolding main_round
main_loop cfg [] m = m
main_loop cfg (r ∷ rs) m =
    let rest = main_loop cfg rs (main_round cfg r m) in
    if m.stopping || m.panel.quitting then m else rest
