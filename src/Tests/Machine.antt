-- ===== src/Tests/Machine.antt =====
-- Runs and instances for the loop of the panel in modules/console/panel.c.
use mobile_config.Base.{none, some, arith, ◌≡◌, refl, true, false, List, [], ◌∷◌, ◌++◌}
use mobile_config.Libc.{codes, snprintf, dec}
use mobile_config.Config.{default_config}
use mobile_config.Keys.{idle}
use mobile_config.Machine.{
  Machine, typed, timer, stdin, socket, logo_timer, Round, waited, reported,
}
use mobile_config.Machine.Typing.{typed-append, typed_sequence}
use mobile_config.Machine.Runs.{Holds}
use mobile_config.Start.Terminal.{Terminal, measure_screen}
use mobile_config.Start.Process.{StartCalls, run_panel}
use mobile_config.Start.Reached.{run_panel-Holds}
use mobile_config.Tailscale.{tailscale_drain, TsRead, some_bytes, interrupted, ended}
use mobile_config.Tailscale.Peers.{peers_in, text_of, tailscale_drain-peers_in}
use mobile_config.Tests.Views.{env, started}

abbrev machine : Machine
machine = record {
  panel = started;
  decoder = idle;
  in_escape = false;
  tick = 0;
  child = record { running = false; count = 0; buf = []; peers = codes "-" };
  connected = false;
  stopping = false;
}

abbrev rounds : List Round
rounds =
    reported (
      (env, stdin (codes "j"))
      ∷ (env, timer (record { connects = true; pipes = true; forks = true }))
      ∷ [])
    ∷ waited env 500
    ∷ reported ((env, socket (codes "+")) ∷ (env, logo_timer) ∷ [])
    ∷ []

abbrev calls : StartCalls
calls = record {
  window = some (48, 90);
  bus_opens = true;
  term_reads = true;
  term_sets = true;
  connects = true;
  pipes = true;
  forks = false;
  term_restores = true;
}

abbrev shell : Terminal
shell = record {
  current = record { icanon = true; echo = true; vmin = 1; vtime = 0 };
  saved = none;
  written = [];
}

run_panel-Holds_example :
    (m : Machine) × (t' : Terminal) × (run_panel default_config started.fs calls env rounds shell
      ≡ some (m, t'))
    × Holds default_config m
    × (t'.current ≡ shell.current)
    × (t'.saved ≡ none)
unfolding measure_screen
run_panel-Holds_example =
    run_panel-Holds default_config started.fs calls env rounds shell (omega arith) refl refl

typed-append_example :
    typed default_config env ((27 ∷ []) ++ codes "[Aq") machine
    ≡ typed default_config env (codes "[Aq") (typed default_config env (27 ∷ []) machine)
typed-append_example = typed-append default_config env (27 ∷ []) (codes "[Aq") machine

-- The sequence of the arrow up, then a key.
typed_sequence_example :
    typed default_config env (27 ∷ (codes "[" ++ b'A' ∷ codes "m")) machine
    ≡ typed default_config env (codes "m") machine
typed_sequence_example =
    typed_sequence default_config env (codes "[") (codes "m") b'A' machine refl (refl, tt) refl

-- Two peers, in three reads.
abbrev reads : List TsRead
reads =
    some_bytes (codes "100.64.0.1 phone\n10")
    ∷ interrupted
    ∷ some_bytes (codes "0.64.0.2 lap")
    ∷ some_bytes (codes "top\n")
    ∷ ended true
    ∷ []

tailscale_drain-peers_in_example :
    (tailscale_drain reads
      (record { running = true; count = 0; buf = []; peers = codes "-" })).peers
    ≡ snprintf 32 (dec (peers_in [] (text_of reads)))
tailscale_drain-peers_in_example = tailscale_drain-peers_in reads (codes "-") refl
