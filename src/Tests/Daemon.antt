-- ===== src/Tests/Daemon.antt =====
-- Runs and instances for the key daemon of modules/console/panel.c.
use mathlib.Core.List.Perm
use mathlib.Core.Bool.{not}
use mobile_config.Base.{◌≡◌, refl, true, false, List, [], ◌∷◌, none, some, arith}
use mobile_config.Libc.{codes, streq-ne, strtoll}
use mobile_config.Config.{default_config, rp}
use mobile_config.Files.{Fs, read_ll}
use mobile_config.Backlight.{backlight_path, saved_level_path, backlight_level, is_lit}
use mobile_config.Backlight.Levels.{HasPanel}
use mobile_config.Keys.{Delivery, idle, key_token}
use mobile_config.Daemon.{
  Daemon, keys_deliver, ended, key_device, listener, other, Round, reported, keys_command,
}
use mobile_config.Daemon.Clients.{Accounted, keys_command-Accounted}
use mobile_config.Daemon.Switching.{light, keys_deliver_wakes, power_tap_flips}

-- Every file holds 0 and can be written.
abbrev dark_fs : Fs
dark_fs = record { content = λ p. some (codes "0\n"); writable = λ p. true; removable = λ p. true }

abbrev daemon : Daemon
daemon = record {
  fs = dark_fs;
  decoder = idle;
  client = none;
  accepted = [];
  closed = [];
  sent = [];
  stopping = false;
}

dark_panel : HasPanel default_config dark_fs
unfolding backlight_path saved_level_path rp
dark_panel = record {
  panel = record { old = codes "0\n"; present = refl; allowed = refl };
  apart = streq-ne _ _ refl;
}

is_dark : light default_config daemon ≡ false
unfolding backlight_level backlight_path rp read_ll strtoll is_lit
is_dark = refl

-- One panel connects, a second one takes its place, and that one hangs up.
abbrev rounds : List Round
rounds =
    reported (listener (some 7) ∷ [])
    ∷ reported (listener (some 8) ∷ key_device ended ∷ other 8 false ∷ [])
    ∷ []

keys_command-Accounted_example : Accounted (keys_command default_config rounds daemon)
keys_command-Accounted_example = keys_command-Accounted default_config rounds daemon (Perm.refl [])

abbrev volume_tap : Delivery
volume_tap = record { key = 115; is_hold = false }

abbrev power_hold : Delivery
power_hold = record { key = 116; is_hold = true }

abbrev connected : Daemon
connected = record daemon { client = some 7 }

-- The hold opens the menu of the connected panel.
keys_deliver_wakes_example :
    (light default_config (keys_deliver default_config true power_hold connected) ≡ true)
    × ((keys_deliver default_config true power_hold connected).sent ≡ (7, b'm') ∷ [])
unfolding is_lit key_token
keys_deliver_wakes_example =
    keys_deliver_wakes default_config true power_hold connected dark_panel (omega arith) refl
      is_dark

-- A tap on the dark panel is not passed on.
dark_tap : (keys_deliver default_config true volume_tap connected).sent ≡ []
unfolding is_lit
dark_tap =
    (keys_deliver_wakes default_config true volume_tap connected dark_panel (omega arith) refl
      is_dark).1

power_tap_flips_example :
    light default_config
      (keys_deliver default_config true (record { key = 116; is_hold = false }) daemon)
    ≡ not (light default_config daemon)
unfolding is_lit
power_tap_flips_example =
    power_tap_flips default_config true 116 daemon refl refl dark_panel (omega arith) refl
