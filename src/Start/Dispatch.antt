-- ===== src/Start/Dispatch.antt =====
-- What `main` starts.
use mobile_config.Base.{
  ◌≡◌, refl, ◌↔◌, Bool, true, false, not, ◌||◌, List, Option, none, some, pos, ◌≤ℤ◌, Bool-cases,
  Option-cases, inl, inr, arith,
}
use mobile_config.Libc.{Bytes, codes, streq}
use mobile_config.Config.{Config, Opt, default_config, parse_args}
use mobile_config.Config.Bounds.{IsBounded, parse_args-IsBounded, refuses, parse_args-none_iff}
use mobile_config.Start.Commands.{
  Command, refused, display, keys, once, panel, Getopt, Subcommand, take_subcommand, view_command,
  command_for, after_parse, main_command,
}

-- What a started command relies on: bounded tables and sensible intervals.
abbrev pub IsUsable : Config → Type 0
IsUsable cfg = IsBounded cfg × (pos 1 ≤ℤ cfg.interval) × (pos 0 ≤ℤ cfg.logo_interval_ms)

-- A command that may run, where `tty` is whether standard input is a terminal.
abbrev pub MayRun : Bool → Command → Type 0
MayRun tty refused = Unit
MayRun tty (display cfg what) = IsUsable cfg
MayRun tty (keys cfg) = IsUsable cfg
MayRun tty (once cfg) = IsUsable cfg × (cfg.once ≡ true)
MayRun tty (panel cfg) = IsUsable cfg × (cfg.once ≡ false) × (tty ≡ true)

view_command-MayRun : (tty : Bool) (cfg : Config) → IsUsable cfg → MayRun tty (view_command tty cfg)
unfolding view_command
view_command-MayRun tty cfg h = elim (Bool-cases (cfg.once || not tty)) [
  | inl e ↦
      rw e ((record { services_fit = h.0.services_fit; units_fit = h.0.units_fit }, h.1, h.2), refl)
  | inr e ↦ rw e (h, ground arith, ground arith)
]

command_for-MayRun :
    (tty : Bool) (sub : Subcommand) (cfg : Config) (operands : List Bytes)
    → IsUsable cfg
    → MayRun tty (command_for tty sub cfg operands)
unfolding command_for
command_for-MayRun tty none cfg operands h = view_command-MayRun tty cfg h
command_for-MayRun tty (some sub) cfg operands h = elim (Bool-cases (streq sub (codes "display"))) [
  | inl e ↦ rw e h
  | inr e ↦ rw e h
]

default_config-IsBounded : IsBounded default_config
default_config-IsBounded = record { services_fit = omega arith; units_fit = tt }

after_parse-MayRun :
    (tty : Bool) (sub : Subcommand) (options : List (Option (Opt × Bytes))) (operands : List Bytes)
    → MayRun tty (after_parse tty sub (parse_args default_config options) operands)
unfolding after_parse
after_parse-MayRun tty sub options operands =
    elim (Option-cases (parse_args default_config options)) [
      | inl e ↦ rw e tt
      | inr (cfg, e) ↦ rw e (
          command_for-MayRun tty sub cfg operands
            (parse_args-IsBounded options default_config default_config-IsBounded e))
    ]

view_command-runs : (tty : Bool) (cfg : Config) → ¬ (view_command tty cfg ≡ refused)
unfolding view_command
view_command-runs tty cfg e = ground arith

command_for-runs :
    (tty : Bool) (sub : Subcommand) (cfg : Config) (operands : List Bytes)
    → ¬ (command_for tty sub cfg operands ≡ refused)
unfolding command_for
command_for-runs tty none cfg operands e = view_command-runs tty cfg e
command_for-runs tty (some sub) cfg operands e = ground arith

refused_iff :
    (tty : Bool) (sub : Subcommand) (options : List (Option (Opt × Bytes))) (operands : List Bytes)
    → (after_parse tty sub (parse_args default_config options) operands ≡ refused)
      ↔ (refuses options ≡ true)
unfolding after_parse
refused_iff tty sub options operands = elim (Option-cases (parse_args default_config options)) [
  | inl e ↦ rw e (λ h. (parse_args-none_iff options default_config).0 e, λ h. refl)
  | inr (cfg, e) ↦ rw e (
    λ h. absurd (command_for-runs tty sub cfg operands h),
    λ h. let none_there = (parse_args-none_iff options default_config).1 h in cc,
  )
]

-- Whatever the arguments and whatever `getopt_long` makes of them, `main` starts nothing exactly when
-- an option is refused; what it starts has a configuration with bounded tables, an interval of at least
-- a second and a logo interval that is not negative; and the panel itself is started only on a terminal
-- and without `--once`.
pub main_command-MayRun :
    (getopt : Getopt) (tty : Bool) (args : List Bytes)
    → MayRun tty (main_command getopt tty args)
      × ((main_command getopt tty args ≡ refused)
          ↔ (refuses (getopt (take_subcommand args).1).0 ≡ true))
unfolding main_command
main_command-MayRun getopt tty args =
    let (options, operands) = getopt (take_subcommand args).1 in
    (
      after_parse-MayRun tty (take_subcommand args).0 options operands,
      refused_iff tty (take_subcommand args).0 options operands,
    )
