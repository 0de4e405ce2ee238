-- ===== src/Start/Hermetic.antt =====
-- `--once` under `--root`, as the console's tests run it.
use mobile_config.Base.{ℕ, ◌≡◌, ◌∙◌, ap, sym, refl, pos}
use mobile_config.Libc.{Bytes, codes}
use mobile_config.Config.{Config}
use mobile_config.Files.{Fs, first_line, read_ll}
use mobile_config.Backlight.{backlight_level, backlight_path}
use mobile_config.Screen.{Screen, screen_reset}
use mobile_config.System.{System, fixture_path, line_or}
use mobile_config.System.Below.{
  HasRoot, fs_below, below, rp-IsInside, print-IsInside, first_line-below, read_ll-below,
}
use mobile_config.Tailscale.{no_child, tailscale_start}
use mobile_config.Dashboard.{build_dashboard}
use mobile_config.Dashboard.Gather.{gather}
use mobile_config.Dashboard.Below.{gather-below}
use mobile_config.Collect.Cpu.{cpu_percent, core_count}
use mobile_config.Collect.Below.{cpu_percent-below, core_count-below}
use mobile_config.Start.Commands.{
  Asked, once_peers, drain_running, run_once, printed_frame, no_sample,
}

leaf-below :
    (cfg : Config) (h : HasRoot cfg) (fs : Fs) (leaf : Bytes)
    → read_ll (fs_below cfg fs) (backlight_path cfg leaf) (pos 0)
      ≡ read_ll fs (backlight_path cfg leaf) (pos 0)
unfolding backlight_path
leaf-below cfg h fs leaf = read_ll-below cfg _ (rp-IsInside cfg h _) fs (pos 0)

backlight_level-below :
    (cfg : Config) (h : HasRoot cfg) (fs : Fs)
    → backlight_level cfg (fs_below cfg fs) ≡ backlight_level cfg fs
unfolding backlight_level
backlight_level-below cfg h fs = leaf-below cfg h fs (codes "brightness")

-- Under a root no child is asked: the peers are those of the fixture.
once_peers-root :
    (cfg : Config) (h : HasRoot cfg) (fs : Fs) (ask : Asked)
    → once_peers cfg fs ask
      ≡ line_or (codes "-") (first_line fs (fixture_path cfg (codes "tailscale-peers")) 32)
unfolding once_peers drain_running
once_peers-root cfg h fs ask = ap (λ t. (drain_running ask.reads t).peers) (start cfg h fs ask)
  where
    start :
        (cfg : Config) (h : HasRoot cfg) (fs : Fs) (ask : Asked)
        → tailscale_start cfg fs ask.pipes ask.forks no_child ≡ record no_child {
          peers =
              line_or (codes "-") (first_line fs (fixture_path cfg (codes "tailscale-peers")) 32);
        }
    start cfg h fs ask = rw (tailscale_start, h.given) refl

once_peers-below :
    (cfg : Config) (h : HasRoot cfg) (fs : Fs) (ask other : Asked)
    → once_peers cfg (fs_below cfg fs) ask ≡ once_peers cfg fs other
unfolding fixture_path
once_peers-below cfg h fs ask other =
    let inside = print-IsInside cfg h (codes "/fixture/tailscale-peers") in
    once_peers-root cfg h (fs_below cfg fs) ask
    ∙ (ap (line_or (codes "-"))
          (first_line-below cfg (fixture_path cfg (codes "tailscale-peers")) inside fs 32)
        ∙ sym (once_peers-root cfg h fs other))

-- Whatever the terminal's size, what `--once` prints under a root that fits a path's buffer depends on
-- nothing outside the root but the clock, its time zone and the size of a page: every row is the same without the files, directories, links and sessions elsewhere and without statvfs, the interfaces
-- and the bus, at both samples, and with any other answers to the calls that ask tailscale.
pub run_once-below :
    (cfg : Config) (before after : System) (ask other : Asked) (rows cols : ℕ) (s : Screen)
    → HasRoot cfg
    → run_once cfg (below cfg before) (below cfg after) ask rows cols s
      ≡ run_once cfg before after other rows cols s
unfolding run_once
run_once-below cfg before after ask other rows cols s h =
    let cores = core_count-below cfg h before.fs in
    let first = cpu_percent-below cfg h before.fs no_sample in
    let peers = once_peers-below cfg h before.fs ask other in
    let readings =
      (λ i. gather cfg (below cfg after) (pos (cores i)) (peers i) (first i).0)
      ∙ gather-below cfg after (pos (core_count cfg before.fs)) (once_peers cfg before.fs other)
          (cpu_percent cfg before.fs no_sample).0 h in
    λ i.
      printed_frame
        (build_dashboard cfg (readings i).1 (backlight_level-below cfg h after.fs i)
          (leaf-below cfg h before.fs (codes "max_brightness") i) rows cols 0 (screen_reset s)).0
