-- ===== src/Config.antt =====
-- modules/console/panel.c, "configuration" and "argument parsing": `cfg`, `rp`, `add_service` and
-- `parse_args`. `getopt_long` belongs to the C library: the options that it reports, in its order,
-- are the argument of `parse_args`, with `none` for what it refuses.
pub mod Bounds
use mobile_config.Base.{
  ℕ, zero, suc, ◌-◌, ◌≤◌, Bool, true, false, Option, none, some, List, [], ◌∷◌, ◌++◌, ltb, leb,
  if◌then◌else◌, length, ℤ, pos, negsuc, ltb_ℤ,
}
use mobile_config.Libc.{Bytes, codes, snprintf, until, behind, atoi, atol}

abbrev pub max_services : ℕ
max_services = 16

abbrev pub path_max : ℕ
path_max = 4096

pub record Service : Type 0 where
  pub unit : Bytes
  pub port : ℤ

-- `cfg`; `services` is the used part of the array, so `nservices` is its length.
pub record Config : Type 0 where
  pub root : Bytes
  pub backlight : Bytes
  pub torch : Bytes
  pub state_dir : Bytes
  pub keys_dev : Bytes
  pub socket_path : Bytes
  pub tailscale : Bytes
  pub subtitle : Bytes
  pub load_note : Bytes
  pub interval : ℤ
  pub logo_interval_ms : ℤ
  pub log_lines : ℤ
  pub top_margin : ℤ
  pub default_brightness : ℤ
  pub hold_ms : ℤ
  pub repeat_ms : ℤ
  pub k_power : ℤ
  pub k_volup : ℤ
  pub k_voldown : ℤ
  pub keys_raw : Bool
  pub once : Bool
  pub fixed_now : ℤ
  pub services : List Service

abbrev pub default_config : Config
default_config = record {
  root = [];
  backlight = codes "/sys/class/leds/lcd-backlight";
  torch = codes "/sys/class/leds/torch-light0";
  state_dir = codes "/run/display";
  keys_dev = [];
  socket_path = [];
  tailscale = codes "tailscale";
  subtitle = [];
  load_note = [];
  interval = pos 5;
  logo_interval_ms = pos 200;
  log_lines = pos 3000;
  top_margin = pos 5;
  default_brightness = pos 200;
  hold_ms = pos 500;
  repeat_ms = pos 120;
  k_power = pos 116;
  k_volup = pos 115;
  k_voldown = pos 114;
  keys_raw = false;
  once = false;
  fixed_now = negsuc 0;
  services = [];
}

-- A string is empty: `!s[0]`.
abbrev pub is_empty : Bytes → Bool
is_empty [] = true
is_empty (c ∷ s) = false

-- The rotation of the eight result buffers is not kept: no caller holds a result over eight calls.
unfoldable pub rp : Config → Bytes → Bytes
rp cfg path = if is_empty cfg.root then path else snprintf path_max (cfg.root ++ path)

abbrev unit_len : ℕ
unit_len = 64

-- The two forms of a service: `unit:port`, or a unit with no port.
service_of : Bytes → Option Bytes → Service
service_of spec (some port) = record {
  unit = snprintf unit_len (until b':' spec);
  port = atoi port;
}
service_of spec none = record { unit = snprintf unit_len spec; port = pos 0 }

unfoldable pub add_service : Config → Bytes → Config
unfolding service_of
add_service cfg spec =
    if leb max_services (length cfg.services)
    then cfg
    else record cfg { services = cfg.services ++ service_of spec (behind b':' spec) ∷ [] }

-- The values of `OPT_…`, in the order of the enumeration.
pub data Opt : Type 0 where
  opt_root opt_backlight opt_torch opt_state_dir opt_keys opt_keys_raw : Opt
  opt_tailscale opt_subtitle opt_load_note opt_interval : Opt
  opt_logo_interval_ms opt_log_lines : Opt
  opt_top_margin opt_brightness opt_hold_ms opt_repeat_ms opt_power : Opt
  opt_volup opt_voldown opt_service opt_once opt_now opt_socket : Opt

-- The switch of `parse_args` on an option and its argument.
unfoldable pub apply_option : Config → Opt → Bytes → Config
unfolding add_service
apply_option cfg opt_root arg = record cfg { root = arg }
apply_option cfg opt_backlight arg = record cfg { backlight = arg }
apply_option cfg opt_torch arg = record cfg { torch = arg }
apply_option cfg opt_state_dir arg = record cfg { state_dir = arg }
apply_option cfg opt_keys arg = record cfg { keys_dev = arg }
apply_option cfg opt_keys_raw arg = record cfg { keys_raw = true }
apply_option cfg opt_socket arg = record cfg { socket_path = arg }
apply_option cfg opt_tailscale arg = record cfg { tailscale = arg }
apply_option cfg opt_subtitle arg = record cfg { subtitle = arg }
apply_option cfg opt_load_note arg = record cfg { load_note = arg }
apply_option cfg opt_interval arg = record cfg { interval = atoi arg }
apply_option cfg opt_logo_interval_ms arg = record cfg { logo_interval_ms = atoi arg }
apply_option cfg opt_log_lines arg = record cfg { log_lines = atoi arg }
apply_option cfg opt_top_margin arg = record cfg { top_margin = atoi arg }
apply_option cfg opt_brightness arg = record cfg { default_brightness = atoi arg }
apply_option cfg opt_hold_ms arg = record cfg { hold_ms = atoi arg }
apply_option cfg opt_repeat_ms arg = record cfg { repeat_ms = atoi arg }
apply_option cfg opt_power arg = record cfg { k_power = atoi arg }
apply_option cfg opt_volup arg = record cfg { k_volup = atoi arg }
apply_option cfg opt_voldown arg = record cfg { k_voldown = atoi arg }
apply_option cfg opt_service arg = add_service cfg arg
apply_option cfg opt_once arg = record cfg { once = true }
apply_option cfg opt_now arg = record cfg { fixed_now = atol arg }

-- The two tests behind the loop.
clamp_intervals : Config → Config
clamp_intervals cfg = record cfg {
  interval = if ltb_ℤ cfg.interval (pos 1) then pos 1 else cfg.interval;
  logo_interval_ms = if ltb_ℤ cfg.logo_interval_ms (pos 0) then pos 0 else cfg.logo_interval_ms;
}

-- `none` is the result -1.
unfoldable pub parse_args : Config → List (Option (Opt × Bytes)) → Option Config
unfolding clamp_intervals
parse_args cfg [] = some (clamp_intervals cfg)
parse_args cfg (none ∷ rest) = none
parse_args cfg (some (o, arg) ∷ rest) = parse_args (apply_option cfg o arg) rest
