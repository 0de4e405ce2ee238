-- ===== src/Start/Reached.antt =====
-- What holds of every state that the panel reaches from its start.
use mobile_config.Base.{◌≡◌, refl, ◌≤◌, true, List, none, some, inl, inr, arith}
use mobile_config.Config.{Config}
use mobile_config.Files.{Fs}
use mobile_config.Views.State.{Env}
use mobile_config.Machine.{Machine, Round, main_loop}
use mobile_config.Machine.Runs.{Holds, main_loop-Holds, repaint-Sound}
use mobile_config.Start.Terminal.{Terminal, measure_screen, term_raw, enter_screen, term_restore}
use mobile_config.Start.Restore.{term_restore-current}
use mobile_config.Start.Process.{
  StartCalls, first_display, first_panel, first_machine, drawn, run_panel,
}

-- The terminal that the panel starts on has at most 128 rows.
abbrev pub HasFewRows : StartCalls → Type 0
HasFewRows calls = (measure_screen calls.window first_display).screen_rows ≤ 128

first_machine-Holds :
    (cfg : Config) (fs : Fs) (calls : StartCalls)
    → HasFewRows calls
    → Holds cfg (first_machine cfg fs calls)
unfolding first_machine first_panel
first_machine-Holds cfg fs calls few = (
  record {
    sel_fits = omega arith;
    in_text = (omega arith, inl refl);
    parent_apart = inr refl;
    reload_paged = inr refl;
  },
  (refl, few),
)

drawn-Holds : (cfg : Config) (env : Env) (m : Machine) → Holds cfg m → Holds cfg (drawn cfg env m)
unfolding drawn
drawn-Holds cfg env m h = repaint-Sound true cfg env m.panel h

-- From the panel's start on a terminal of at most 128 rows, whatever the other calls of the start answer
-- and whatever is typed, sent, pressed, timed or read in any rounds of its loop, no repaint hangs, so
-- that the process comes to the end of the rounds. Then the menu's selection is an item, the pager's
-- page lies inside its text, the pager leads back to the dashboard or the menu, and a source to read
-- again is set in the pager only. If no settings of the terminal were kept before, and the call that
-- puts them back succeeds, the terminal ends with the settings that it had, which are no longer kept.
pub run_panel-Holds :
    (cfg : Config) (fs : Fs) (calls : StartCalls) (env : Env) (rounds : List Round) (t : Terminal)
    → HasFewRows calls
    → calls.term_restores ≡ true
    → t.saved ≡ none
    → (m : Machine) × (t' : Terminal) × (run_panel cfg fs calls env rounds t ≡ some (m, t'))
      × Holds cfg m
      × (t'.current ≡ t.current)
      × (t'.saved ≡ none)
unfolding run_panel
run_panel-Holds cfg fs calls env rounds t few restores e =
    let (current, saved, again) = term_restore-current calls.term_reads calls.term_sets t e in
    let h =
      main_loop-Holds cfg rounds (drawn cfg env (first_machine cfg fs calls))
        (drawn-Holds cfg env (first_machine cfg fs calls) (first_machine-Holds cfg fs calls few)) in
    (
      main_loop cfg rounds (drawn cfg env (first_machine cfg fs calls)),
      term_restore true (enter_screen (term_raw calls.term_reads calls.term_sets t)),
      rw (h.1.0, restores) refl,
      h,
      current,
      saved,
    )
