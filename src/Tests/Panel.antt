-- ===== src/Tests/Panel.antt =====
-- Runs and instances for modules/console/panel.c.
use mathlib.Core.Bool.{not}
use mobile_config.Base.{
  ◌≡◌, refl, inl, inr, true, List, [], ◌∷◌, ◌++◌, Option, none, some, arith, All, pos,
}
use mobile_config.Libc.{Bytes, codes, streq-ne, dec, dec_ℤ, dec0, atoi, strtoll}
use mobile_config.Config.{
  Config, Opt, opt_interval, opt_service, default_config, parse_args, apply_option, rp,
}
use mobile_config.Files.{Fs, update, read_ll, write_num}
use mobile_config.Files.Numbers.{read_ll-write_num}
use mobile_config.Backlight.{
  backlight_path, saved_level_path, backlight_level, is_lit, display_off, display_on,
  display_toggle, wake_level,
}
use mobile_config.Backlight.Levels.{HasPanel, display_toggle_flips}
use mobile_config.Backlight.Saved.{
  display_on-display_off, level_forgotten, IsUnsaved, Switch, off, on, toggle, switch_all,
}
use mobile_config.Screen.{Screen, Display, render, out, bld, rst}
use mobile_config.Screen.Vt.{Vt, between, vt_run}
use mobile_config.Screen.Bounds.{IsValid, out-IsValid}
use mobile_config.Screen.Repaint.{Shows}
use mobile_config.Screen.Shown.{render-Shows}
use mobile_config.Format.{human_kb, duration}
use mobile_config.Keys.{Decoder, idle, Input, event, timeout, run}
use mobile_config.Keys
use mobile_config.Keys.Decode
use mobile_config.Keys.Decode.{power_delivered_once, volume_repeats, timeouts, key_event, tap, hold}

-- Printed sizes and durations.
sizes :
    (human_kb (pos 3145728) 32 ≡ codes "3.0G")
    × (human_kb (pos 2048) 32 ≡ codes "2M")
    × (duration (pos 93784) 64 ≡ codes "1d 02h 03m")
    × (duration (pos 59) 64 ≡ codes "0m 59s")
unfolding human_kb duration dec dec_ℤ dec0
sizes = (refl, refl, refl, refl)

abbrev fs_with : Bytes → Bytes → Fs
fs_with panel saved = record {
  content =
      update
        (update (λ p. none) (codes "/sys/class/leds/torch-light0/brightness") (some (codes "0\n")))
        (codes "/sys/class/leds/lcd-backlight/brightness") (some panel);
  writable = λ p. true;
  removable = λ p. true;
}

-- The panel is lit, and no level is saved.
abbrev lit_fs : Fs
lit_fs = fs_with (codes "1800\n") []

abbrev kept_fs : Fs
kept_fs = record lit_fs {
  content = update lit_fs.content (codes "/run/display/brightness") (some (codes "7\n"));
}

abbrev panel_path : Bytes
panel_path = codes "/sys/class/leds/lcd-backlight/brightness"

read_ll-write_num_example :
    read_ll (write_num lit_fs panel_path (pos 200)).0 panel_path (pos 0) ≡ pos 200
read_ll-write_num_example =
    read_ll-write_num lit_fs panel_path (pos 200) (pos 0)
      (record { old = codes "1800\n"; present = refl; allowed = refl }) (omega arith)

has_panel : HasPanel default_config lit_fs
unfolding backlight_path saved_level_path rp
has_panel = record {
  panel = record { old = codes "1800\n"; present = refl; allowed = refl };
  apart = streq-ne _ _ refl;
}

lit_level : backlight_level default_config lit_fs ≡ pos 1800
unfolding backlight_level backlight_path rp read_ll strtoll
lit_level = refl

display_toggle_flips_example :
    is_lit (backlight_level default_config (display_toggle default_config lit_fs))
    ≡ not (is_lit (backlight_level default_config lit_fs))
unfolding is_lit
display_toggle_flips_example =
    display_toggle_flips default_config lit_fs has_panel (omega arith) refl

kept_panel : HasPanel default_config kept_fs
unfolding backlight_path saved_level_path rp
kept_panel = record {
  panel = record { old = codes "1800\n"; present = refl; allowed = refl };
  apart = streq-ne _ _ refl;
}

display_on-display_off_example :
    backlight_level default_config (display_on default_config (display_off default_config kept_fs))
    ≡ backlight_level default_config kept_fs
unfolding backlight_level backlight_path saved_level_path rp read_ll strtoll is_lit
display_on-display_off_example =
    display_on-display_off default_config kept_fs kept_panel
      (record { old = codes "7\n"; present = refl; allowed = refl }) (omega arith) refl

abbrev switches : List Switch
switches = off ∷ on ∷ toggle ∷ []

level_forgotten_example :
    IsUnsaved default_config (switch_all default_config switches lit_fs)
    × (wake_level default_config (switch_all default_config switches lit_fs) ≡ pos 200)
unfolding saved_level_path rp
level_forgotten_example = level_forgotten default_config switches lit_fs has_panel.apart refl

abbrev empty_screen : Screen
empty_screen = record { line = λ i. []; n = 0 }

empty-IsValid : IsValid empty_screen
empty-IsValid = record { row_fits = omega arith; line_fits = λ i. omega arith }

out-IsValid_example : IsValid (out empty_screen (codes "HOST\n"))
out-IsValid_example = out-IsValid empty_screen (codes "HOST\n") empty-IsValid

-- A forced repaint of two bold rows on a console that shows something else.
abbrev bold : Screen
bold = record { line = λ i. bld ++ (codes "HOST" ++ rst); n = 1 }

abbrev bold_display : Display
bold_display = record { cur = bold; prev = empty_screen; screen_rows = 24; screen_cols = 80 }

abbrev console : Vt
console = record {
  mode = between;
  row = 3;
  col = 4;
  written = codes "boot";
  shown = λ k. codes "boot";
}

bold-IsValid : IsValid bold
bold-IsValid = record { row_fits = omega arith; line_fits = λ i. omega arith }

render-Shows_example :
    Shows 24 (vt_run 24 80 (render true bold_display).1 console).shown bold
    × ((vt_run 24 80 (render true bold_display).1 console).mode ≡ between)
render-Shows_example =
    render-Shows true bold_display console bold-IsValid empty-IsValid (omega arith) (λ i h. refl)
      refl (inl refl)

abbrev arguments : List (Option (Opt × Bytes))
arguments = some (opt_interval, codes "0") ∷ some (opt_service, codes "sshd:22") ∷ []

abbrev parsed_config : Config
parsed_config = record default_config {
  interval = pos 1;
  services = record { unit = codes "sshd"; port = pos 22 } ∷ [];
}

parses : parse_args default_config arguments ≡ some parsed_config
unfolding parse_args apply_option atoi
parses = refl

-- A hold of 900 ms, with a kernel autorepeat and another key's release in between.
abbrev held_inputs : List Input
held_inputs =
    event 150 (key_event 116 (pos 2)) ∷ timeout 600 ∷ event 700 (key_event 115 (pos 0)) ∷ []

power_delivered_once_example :
    (run default_config
      (event 100 (key_event 116 (pos 1)) ∷ (held_inputs ++ event 1000 (key_event 116 (pos 0)) ∷ []))
      idle).1
    ≡ hold 116 ∷ []
unfolding Keys.repeats
power_delivered_once_example =
    power_delivered_once default_config 100 1000 116 held_inputs idle refl refl (quiet)
  where
    quiet : All (Decode.IsQuiet 116) held_inputs
    quiet = (inr (λ e. cc, inl (λ e. cc)), (tt, (inr (λ e. cc, inr (λ e. omega arith)), tt)))

volume_repeats_example :
    (run default_config
      (event 100 (key_event 115 (pos 1))
        ∷ ((timeout 600 ∷ []) ++ event 1000 (key_event 115 (pos 0)) ∷ []))
      idle).1
    ≡ tap 115 ∷ tap 115 ∷ []
unfolding Keys.repeats
volume_repeats_example =
    volume_repeats default_config 100 1000 115 (timeout 600 ∷ []) idle refl (tt, tt)
