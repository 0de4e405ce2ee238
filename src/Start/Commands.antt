-- ===== src/Start/Commands.antt =====
-- modules/console/panel.c: `display_command`, `keys_command` before its loop, and `main`.
-- `getopt_long` belongs to the C library: it is an argument, which gives the options in its order and
-- the operands behind them.
use mobile_config.Base.{
  ℕ, zero, suc, Bool, true, not, ◌||◌, List, [], ◌∷◌, ◌++◌, if◌then◌else◌, Option, none, some, pos,
}
use mobile_config.Libc.{Bytes, codes, streq}
use mobile_config.Config.{Config, Opt, default_config, parse_args, is_empty}
use mobile_config.Files.{Fs, read_ll}
use mobile_config.Backlight.{
  backlight_level, backlight_path, is_lit, display_on, display_off, display_toggle,
}
use mobile_config.Screen.{Screen, screen_reset}
use mobile_config.System.{System}
use mobile_config.Dashboard.{build_dashboard}
use mobile_config.Dashboard.Gather.{gather}
use mobile_config.Collect.Cpu.{CpuSample, cpu_percent, core_count}
use mobile_config.Tailscale.{Child, no_child, TsRead, tailscale_start, tailscale_drain}
use mobile_config.Daemon.{Daemon, Round, keys_command}

-- The files, what is printed on standard output, and the exit status.
pub record Outcome : Type 0 where
  pub fs : Fs
  pub printed : List Bytes
  pub status : ℕ

unfoldable pub display_command : Config → Bytes → Fs → Outcome
display_command cfg what fs =
    if streq what (codes "on")
    then record { fs = display_on cfg fs; printed = []; status = 0 }
    else if streq what (codes "off")
    then record { fs = display_off cfg fs; printed = []; status = 0 }
    else if streq what (codes "toggle")
    then record { fs = display_toggle cfg fs; printed = []; status = 0 }
    else if streq what (codes "status")
    then record {
      fs = fs;
      printed = (if is_lit (backlight_level cfg fs) then codes "on" else codes "off") ∷ [];
      status = 0;
    }
    else record { fs = fs; printed = []; status = 2 }

-- `opens` is whether the key device opens.
unfoldable pub run_keys : Config → Bool → List Round → Daemon → Daemon × ℕ
unfolding keys_command
run_keys cfg opens rounds d =
    if is_empty cfg.keys_dev
    then (d, 2)
    else if not opens
    then (d, 1)
    else (keys_command cfg rounds d, 0)

-- What `main` decides on before it starts anything.
pub data Command : Type 0 where
  refused : Command
  display : Config → Bytes → Command
  keys once panel : Config → Command

abbrev pub Getopt : Type 0
Getopt = List Bytes → List (Option (Opt × Bytes)) × List Bytes

-- `optind < argc ? argv[optind] : "toggle"`
abbrev pub operand_or_toggle : List Bytes → Bytes
operand_or_toggle [] = codes "toggle"
operand_or_toggle (a ∷ more) = a

abbrev pub Subcommand : Type 0
Subcommand = Option Bytes

-- The subcommand, and the arguments without it and the program's name.
unfoldable pub take_subcommand : List Bytes → Subcommand × List Bytes
take_subcommand [] = (none, [])
take_subcommand (a ∷ more) =
    if streq a (codes "display") || streq a (codes "keys") then (some a, more) else (none, a ∷ more)

unfoldable pub view_command : Bool → Config → Command
view_command tty cfg = if cfg.once || not tty then once (record cfg { once = true }) else panel cfg

unfoldable pub command_for : Bool → Subcommand → Config → List Bytes → Command
unfolding view_command
command_for tty none cfg operands = view_command tty cfg
command_for tty (some sub) cfg operands =
    if streq sub (codes "display") then display cfg (operand_or_toggle operands) else keys cfg

unfoldable pub after_parse : Bool → Subcommand → Option Config → List Bytes → Command
unfolding command_for
after_parse tty sub none operands = refused
after_parse tty sub (some cfg) operands = command_for tty sub cfg operands

-- `args` are the arguments behind the program's name; `tty` is whether standard input is a terminal.
unfoldable pub main_command : Getopt → Bool → List Bytes → Command
unfolding take_subcommand parse_args after_parse
main_command getopt tty args =
    let (sub, rest) = take_subcommand args in
    let (options, operands) = getopt rest in
    after_parse tty sub (parse_args default_config options) operands

-- The lines that `--once` prints: those before the last row, and the last one if it is not empty.
abbrev pub rows_before : (ℕ → Bytes) → ℕ → List Bytes
rows_before line zero = []
rows_before line (suc n) = rows_before line n ++ line n ∷ []

unfoldable pub once_rows : Screen → List Bytes
once_rows s = rows_before s.line s.n ++ (if is_empty (s.line s.n) then [] else s.line s.n ∷ [])

unfoldable pub printed_frame : Option Screen → Option (List Bytes)
unfolding once_rows
printed_frame none = none
printed_frame (some s) = some (once_rows s)

abbrev pub no_sample : CpuSample
no_sample = record { busy = pos 0; total = pos 0 }

-- `if (ts_fd >= 0) tailscale_drain();`
unfoldable pub drain_running : List TsRead → Child → Child
unfolding tailscale_drain
drain_running reads t = if t.running then tailscale_drain reads t else t

-- What asking tailscale gives: whether a pipe and a process are to be had, and the reads of the pipe.
pub record Asked : Type 0 where
  pub pipes : Bool
  pub forks : Bool
  pub reads : List TsRead

unfoldable pub once_peers : Config → Fs → Asked → Bytes
unfolding drain_running tailscale_start
once_peers cfg fs ask =
    (drain_running ask.reads (tailscale_start cfg fs ask.pipes ask.forks no_child)).peers

-- `--once`: `before` is the system at the first sample of the processor, `after` 200 ms later. The
-- terminal is measured before. `none` where the loop of the tag line never ends.
unfoldable pub run_once : Config → System → System → Asked → ℕ → ℕ → Screen → Option (List Bytes)
unfolding printed_frame once_peers cpu_percent gather build_dashboard core_count read_ll
run_once cfg before after ask screen_rows screen_cols s =
    let peers = once_peers cfg before.fs ask in
    let backlight_max = read_ll before.fs (backlight_path cfg (codes "max_brightness")) (pos 0) in
    let cores = pos (core_count cfg before.fs) in
    let first = cpu_percent cfg before.fs no_sample in
    let r = gather cfg after cores peers first.0 in
    printed_frame
      (build_dashboard cfg r.1 (backlight_level cfg after.fs) backlight_max screen_rows screen_cols
        0 (screen_reset s)).0
