-- ===== src/Views/State.antt =====
-- The globals of the panel process that the views read and write.
use mobile_config.Base.{ℕ, Bool, List, [], ◌∷◌, Option, ℤ}
use mobile_config.Libc.{Bytes, codes}
use mobile_config.Files.{Fs}
use mobile_config.Screen.{Screen, Display}
use mobile_config.Dashboard.Body.{Readings}

-- `enum view`
pub data View : Type 0 where
  dash menu pager : View

-- The functions that `pager_open` is called with.
pub data Source : Type 0 where
  boot_log errors kmsg units network processes : Source

-- `enum action`
pub data Action : Type 0 where
  none_act up down select open_menu quit other : Action

-- `output` is what was written to the terminal, the newest call first, and `reboots` counts the
-- requests sent to logind. `peers` is the last count that tailscale gave. `body_cache` is
-- `none` while `body_cache_valid` is 0. `hung` is set where the loop of the tag line never ends: the
-- process stays in it for good, and nothing behind it happens.
pub record Panel : Type 0 where
  pub display : Display
  pub fs : Fs
  pub view : View
  pub menu_sel : ℕ
  pub pager_text : List Bytes
  pub pager_top : ℤ
  pub pager_reload : Option Source
  pub pager_parent : View
  pub quitting : Bool
  pub anim_frame : ℕ
  pub body_cache : Option Screen
  pub backlight_max : ℤ
  pub peers : Bytes
  pub has_bus : Bool
  pub reboots : ℕ
  pub output : List Bytes
  pub hung : Bool

-- What the process reads from the system while it handles one event: the values that the
-- collectors gather for a repaint (but `peers`, which the state holds), and the lines that each source pushes into an empty buffer.
pub record Env : Type 0 where
  pub readings : Readings
  pub load : Source → List Bytes

abbrev pub menu_items : List Bytes
menu_items =
    codes "backlight"
    ∷ codes "torch"
    ∷ codes "boot log"
    ∷ codes "errors"
    ∷ codes "kernel logs"
    ∷ codes "units"
    ∷ codes "network"
    ∷ codes "reboot"
    ∷ codes "back"
    ∷ []

abbrev pub menu_n : ℕ
menu_n = 9
