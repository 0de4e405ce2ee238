-- ===== src/Tests/Views.antt =====
-- Runs and instances for the views of modules/console/panel.c.
use mobile_config.Base.{
  ℕ, ◌<◌, ◌≡◌, refl, inl, inr, true, false, [], none, some, arith, pos, replicate, length, All,
  negsuc,
}
use mobile_config.Libc.{codes}
use mobile_config.Config.{default_config}
use mobile_config.Files.{Fs}
use mobile_config.Screen.{Screen, Display}
use mobile_config.Dashboard.Body.{Readings}
use mobile_config.Views.State.{dash, menu, pager, boot_log, select, other, Panel, Env}
use mobile_config.Views.Actions.{handle_action, handle_char, hotkey}
use mobile_config.Views.Effects.{effects, effects-handle_action}
use mobile_config.Views.Reading.{
  ShowsText, reading_keys, with_text, handle_char-opens, reading_returns,
}
use mobile_config.Screen.Bounds.{IsValid}
use mobile_config.Dashboard.Logo.{logo_row, pad_down, tagline}
use mobile_config.Dashboard.Rows.{
  tagged, IsGraphic, logo_row-IsGraphic, pad_down_ends, pad_down_hangs,
}
use mobile_config.Views.Invariant.{control, Inv, handle_char-Inv}

abbrev no_files : Fs
no_files = record { content = λ p. none; writable = λ p. false; removable = λ p. false }

abbrev readings : Readings
readings = record {
  now = codes "09:41";
  host = codes "phone";
  kernel = codes "4.9.190";
  generation = codes "12";
  same_system = true;
  uptime_s = pos 3600;
  l1 = codes "0.10";
  l5 = codes "0.20";
  l15 = codes "0.30";
  procs = codes "80";
  pct = pos 7;
  cores = pos 8;
  ghz = codes "1.5";
  soc_t = codes "41";
  memtotal = pos 2000000;
  memavail = pos 1500000;
  swaptotal = pos 0;
  swapfree = pos 0;
  zcompr = pos 0;
  zratio = [];
  top = codes "tailscaled 40M";
  fs_total_kb = pos 10000000;
  fs_used_kb = pos 4000000;
  fs_pct = pos 40;
  health = [];
  cap = pos 80;
  volt = pos 4000000;
  curr = pos 100000;
  batt_t = pos 300;
  input_ua = pos 0;
  status = codes "Discharging";
  flow = codes "out";
  est = [];
  rndis = codes "172.16.42.1";
  ts = [];
  gw = [];
  peers = [];
  listening = codes "22";
  users = [];
  peer_list = [];
  ttys = [];
  failed = [];
  unit_state = λ unit. codes "active";
  unit_memory = λ unit. pos 1024;
  clients_on = λ port. pos 0;
}

-- Every source loads a text of forty lines.
abbrev pub env : Env
env = record { readings = readings; load = λ src. replicate 40 (codes "line") }

abbrev blank : Screen
blank = record { line = λ i. []; n = 0 }

abbrev display : Display
display = record { screen_rows = 24; screen_cols = 80; cur = blank; prev = blank }

abbrev pub started : Panel
started = record {
  display = display;
  fs = no_files;
  view = dash;
  menu_sel = 0;
  pager_text = [];
  pager_top = pos 0;
  pager_reload = none;
  pager_parent = dash;
  quitting = false;
  anim_frame = 0;
  body_cache = none;
  backlight_max = pos 255;
  peers = [];
  has_bus = true;
  reboots = 0;
  output = [];
  hung = false;
}

-- The menu, with the selection on its last item.
abbrev on_last : Panel
on_last = record started { view = menu; menu_sel = 8 }

on_last-Inv : Inv default_config (control on_last)
on_last-Inv = record {
  sel_fits = omega arith;
  in_text = (omega arith, inl refl);
  parent_apart = inl refl;
  reload_paged = inr refl;
}

pub started-Inv : Inv default_config (control started)
started-Inv = record {
  sel_fits = omega arith;
  in_text = (omega arith, inl refl);
  parent_apart = inl refl;
  reload_paged = inr refl;
}

handle_char-Inv_example : Inv default_config (control (handle_char default_config env b'j' started))
handle_char-Inv_example = handle_char-Inv default_config env b'j' started started-Inv

-- The reboot item is selected.
abbrev on_reboot : Panel
on_reboot = record started { view = menu; menu_sel = 7 }

effects-handle_action_example :
    effects (control (handle_action default_config env select on_reboot))
    ≡ record { fs = no_files; reboots = 1; quitting = false }
effects-handle_action_example = effects-handle_action default_config env select on_reboot

handle_char-opens_example :
    All (λ (c, src, live). ShowsText default_config env env started c src live) reading_keys
handle_char-opens_example = handle_char-opens default_config env env started refl

reading_returns_example :
    control (handle_action default_config env other (handle_char default_config env b'j' started))
    ≡ record (with_text default_config env boot_log (control started)) {
      pager_reload = none;
      pager_parent = dash;
      view = dash;
    }
unfolding hotkey
reading_returns_example = reading_returns default_config env b'j' other started refl refl refl

abbrev live : Panel
live = record started { view = pager; pager_reload = some boot_log }

logo_row-IsGraphic_example :
    (length (logo_row 80 (negsuc 6)) ≡ 80) × All IsGraphic (logo_row 80 (negsuc 6))
logo_row-IsGraphic_example = logo_row-IsGraphic 80 (negsuc 6)

pad_down_ends_example :
    (t : Screen) × (tagline 24 80 blank ≡ some t)
    × ((k : ℕ) → k < 24 → t.line k ≡ tagged 24 80 blank k)
pad_down_ends_example = pad_down_ends 24 80 blank (omega arith) (omega arith) (omega arith)

blank-IsValid : IsValid blank
blank-IsValid = record { row_fits = omega arith; line_fits = λ i. omega arith }

pad_down_hangs_example : pad_down 100000 160 blank ≡ none
pad_down_hangs_example = pad_down_hangs 100000 160 blank blank-IsValid (omega arith)
