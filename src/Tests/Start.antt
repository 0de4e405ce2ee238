-- ===== src/Tests/Start.antt =====
-- Runs and instances for `main` of modules/console/panel.c and what it starts.
use mobile_config.Base.{◌≡◌, refl, ◌↔◌, true, false, [], ◌∷◌, none, some}
use mobile_config.Libc.{codes}
use mobile_config.Config.{Config, default_config, parse_args}
use mobile_config.Config.Bounds.{refuses}
use mobile_config.Start.Terminal.{Terminal, ground_state, in_sequence, parse_bytes, term_restore}
use mobile_config.Start.Restore.{term_restore_dangles}
use mobile_config.Start.Sockets.{
  SockEnv, opened, closed, unlinked, keys_listen, keys_connect, listen_on, sock_addr,
}
use mobile_config.Start.Descriptors.{LeavesOpen, sockets-LeavesOpen}
use mobile_config.Start.Commands.{
  Getopt, refused, display, once, panel, main_command, take_subcommand, after_parse, command_for,
  view_command,
}
use mobile_config.Start.Dispatch.{MayRun, main_command-MayRun}

-- A `getopt_long` for command lines without options.
abbrev no_options : Getopt
no_options args = ([], args)

commands_run :
    (main_command no_options true [] ≡ panel default_config)
    × (main_command no_options false [] ≡ once (record default_config { once = true }))
    × (main_command no_options true (codes "display" ∷ [])
        ≡ display default_config (codes "toggle"))
    × (main_command no_options true (codes "display" ∷ codes "off" ∷ [])
        ≡ display default_config (codes "off"))
unfolding main_command take_subcommand after_parse command_for view_command parse_args
commands_run = (refl, refl, refl, refl)

main_command-MayRun_example :
    MayRun true (main_command no_options true (codes "keys" ∷ []))
    × ((main_command no_options true (codes "keys" ∷ []) ≡ refused)
        ↔ (refuses (no_options (take_subcommand (codes "keys" ∷ [])).1).0 ≡ true))
main_command-MayRun_example = main_command-MayRun no_options true (codes "keys" ∷ [])

abbrev with_path : Config
with_path = record default_config { socket_path = codes "/run/k" }

abbrev taken : SockEnv
taken = record { descriptor = some 5; binds = false; listens = true; connects = true; stats = true }

-- A `bind` that fails closes what `socket` opened.
listen_run :
    keys_listen with_path taken ≡ (closed 5 ∷ unlinked (codes "/run/k") ∷ opened 5 ∷ [], none)
unfolding keys_listen listen_on sock_addr
listen_run = refl

sockets-LeavesOpen_example :
    LeavesOpen (keys_listen with_path taken) × LeavesOpen (keys_connect with_path taken)
sockets-LeavesOpen_example = sockets-LeavesOpen with_path taken

abbrev shell : Terminal
shell = record {
  current = record { icanon = true; echo = true; vmin = 1; vtime = 0 };
  saved = none;
  written = codes "$ ";
}

term_restore_dangles_example :
    parse_bytes ground_state (term_restore false shell).written ≡ in_sequence
term_restore_dangles_example = term_restore_dangles false shell refl
