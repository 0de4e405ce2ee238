-- ===== src/Start/Process.antt =====
-- modules/console/panel.c: the panel's process from `main` behind the subcommands and `--once` to its
-- end. What the calls of the start answer is a record; the rounds of the loop come with what the
-- descriptors give.
use mobile_config.Base.{
  ℕ, Bool, true, false, not, ◌&&◌, List, [], if◌then◌else◌, Option, none, some, pos,
}
use mobile_config.Libc.{codes}
use mobile_config.Config.{Config, is_empty}
use mobile_config.Files.{Fs, read_ll}
use mobile_config.Backlight.{backlight_path}
use mobile_config.Screen.{Screen, Display}
use mobile_config.Keys.{idle}
use mobile_config.Tailscale.{no_child, tailscale_start}
use mobile_config.Views.State.{dash, menu, Panel, Env}
use mobile_config.Views.Draw.{repaint}
use mobile_config.Machine.{Machine, Round, with_child, main_loop}
use mobile_config.Start.Terminal.{measure_screen, Terminal, term_raw, enter_screen, term_restore}

-- The answer of TIOCGWINSZ, and whether the bus opens, the two calls on the terminal's settings
-- succeed, the daemon's socket connects, a pipe and a process are to be had, and the call that puts the
-- terminal's settings back at the end succeeds.
pub record StartCalls : Type 0 where
  pub window : Option (ℕ × ℕ)
  pub bus_opens : Bool
  pub term_reads : Bool
  pub term_sets : Bool
  pub connects : Bool
  pub pipes : Bool
  pub forks : Bool
  pub term_restores : Bool

abbrev pub zeroed : Screen
zeroed = record { line = λ i. []; n = 0 }

abbrev pub first_display : Display
first_display = record { cur = zeroed; prev = zeroed; screen_rows = 24; screen_cols = 80 }

-- Whether `bus_init` leaves a bus.
unfoldable pub bus_init : Config → Bool → Bool
bus_init cfg bus_opens = is_empty cfg.root && bus_opens

-- The globals of the views before the first repaint.
unfoldable pub first_panel : Config → Fs → StartCalls → Panel
unfolding measure_screen bus_init read_ll
first_panel cfg fs calls = record {
  display = measure_screen calls.window first_display;
  fs = fs;
  view = dash;
  menu_sel = 0;
  pager_text = [];
  pager_top = pos 0;
  pager_reload = none;
  pager_parent = menu;
  quitting = false;
  anim_frame = 0;
  body_cache = none;
  backlight_max = read_ll fs (backlight_path cfg (codes "max_brightness")) (pos 0);
  peers = codes "-";
  has_bus = bus_init cfg calls.bus_opens;
  reboots = 0;
  output = [];
  hung = false;
}

-- The process before its loop, without the first repaint. `keys_connect` fails without a path.
unfoldable pub first_machine : Config → Fs → StartCalls → Machine
unfolding first_panel tailscale_start
first_machine cfg fs calls =
    with_child (tailscale_start cfg fs calls.pipes calls.forks no_child) (record {
      panel = first_panel cfg fs calls;
      decoder = idle;
      in_escape = false;
      tick = 0;
      child = no_child;
      connected = not (is_empty cfg.socket_path) && calls.connects;
      stopping = false;
    })

-- The first repaint, which is forced.
unfoldable pub drawn : Config → Env → Machine → Machine
drawn cfg env m = record m { panel = repaint true cfg env m.panel }

-- From the start to the end: the process as the loop leaves it, and the terminal behind
-- `term_restore`; `none` where a repaint never ends. `env` is what the first repaint reads.
unfoldable pub run_panel :
    Config → Fs → StartCalls → Env → List Round → Terminal → Option (Machine × Terminal)
unfolding first_machine drawn main_loop term_raw enter_screen term_restore
run_panel cfg fs calls env rounds t =
    let m = main_loop cfg rounds (drawn cfg env (first_machine cfg fs calls)) in
    if m.panel.hung
    then none
    else some (
      m,
      term_restore calls.term_restores (enter_screen (term_raw calls.term_reads calls.term_sets t)),
    )
