-- ===== src/System.antt =====
-- What modules/console/panel.c reads from the system besides the contents of files: directories,
-- links, the clock, statvfs, the interfaces, utmp, and systemd's answers on the bus. Below are
-- `fixture`, `read_link`, `unit_state` and `failed_units`.
pub mod Below
use mobile_config.Base.{
  ℕ, ◌-◌, Bool, true, List, [], ◌∷◌, ◌++◌, if◌then◌else◌, Option, none, some, take, ℤ,
}
use mobile_config.Libc.{Bytes, codes, snprintf, Printed, nothing_printed, put_word, text_in}
use mobile_config.Config.{Config, is_empty}
use mobile_config.Files.{Fs, first_line}

-- The fields of `struct statvfs` that are read; `f_frsize` may be 0.
pub record Statvfs : Type 0 where
  pub blocks : ℕ
  pub bfree : ℕ
  pub bavail : ℕ
  pub frsize : ℕ
  pub bsize : ℕ

-- An entry of `getifaddrs` with an IPv4 address; address and mask are in the host's order, and
-- `none` is a null `ifa_netmask`.
pub record Interface : Type 0 where
  pub name : Bytes
  pub is_up : Bool
  pub address : ℕ
  pub netmask : Option ℕ

-- An entry of utmp of the type USER_PROCESS.
pub record Session : Type 0 where
  pub user : Bytes
  pub tty : Bytes
  pub since : ℤ

-- One row of systemd's answer to ListUnits.
pub record UnitRow : Type 0 where
  pub id : Bytes
  pub load : Bytes
  pub active : Bytes
  pub sub : Bytes
  pub description : Bytes

-- systemd on the bus: the property ActiveState of a full unit name, the ids of the failed units, and
-- all units or the message of the error. `none` is a call that fails.
pub record Bus : Type 0 where
  pub active_state : Bytes → Option Bytes
  pub failed_ids : Option (List Bytes)
  pub all_units : Option (List UnitRow)
  pub error_message : Option Bytes

-- `entries` is a directory in the order of `readdir`; `local_time` is `localtime_r` with `strftime`
-- of a format, `none` where the first fails; `interfaces` leaves out other address families.
pub record System : Type 0 where
  pub fs : Fs
  pub entries : Bytes → Option (List Bytes)
  pub link : Bytes → Option Bytes
  pub page_kb : ℤ
  pub time : ℤ
  pub local_time : Bytes → ℤ → Option Bytes
  pub root_statvfs : Option Statvfs
  pub interfaces : Option (List Interface)
  pub utmp : Bytes → List Session
  pub bus : Option Bus

unfoldable pub fixture_path : Config → Bytes → Bytes
fixture_path cfg name = snprintf 4096 (cfg.root ++ (codes "/fixture/" ++ name))

unfoldable pub fixture : Config → Bytes → Option Bytes
unfolding fixture_path
fixture cfg name = if is_empty cfg.root then none else some (fixture_path cfg name)

-- The buffer after `read_link`, with 0 or -1 as `some` or `none`: on -1 it is empty.
unfoldable pub read_link : System → Bytes → ℕ → Option Bytes
read_link sys path n = elim (sys.link path) [ none ↦ none | some to ↦ some (take (n - 1) to) ]

-- A buffer that `first_line` may leave as it is.
abbrev pub line_or : Bytes → Option Bytes × Bool → Bytes
line_or old (none, ok) = old
line_or old (some out, ok) = out

-- `first_line(…) == 0`, with the line.
abbrev pub good_line : Option Bytes × Bool → Option Bytes
good_line (some out, true) = some out
good_line _ = none

abbrev state_on : ℕ → Bytes → Option Bus → Bytes
state_on n unit none = snprintf n (codes "unknown")
state_on n unit (some b) = elim (b.active_state (snprintf 128 (unit ++ codes ".service"))) [
  | none ↦ snprintf n (codes "unknown")
  | some value ↦ snprintf n value
]

unfoldable pub unit_state : Config → System → ℕ → Bytes → Bytes
unfolding first_line
unit_state cfg sys n unit =
    if is_empty cfg.root
    then state_on n unit sys.bus
    else line_or (snprintf n (codes "unknown")) (
        first_line sys.fs
          (snprintf 4096 (cfg.root ++ (codes "/fixture/units/" ++ (unit ++ codes ".service")))) n)

abbrev put_ids : ℕ → List Bytes → Printed → Printed
put_ids n [] p = p
put_ids n (id ∷ ids) p = put_ids n ids (put_word n (codes " ") id p)

abbrev failed_on : ℕ → Option Bus → Bytes
failed_on n none = []
failed_on n (some b) = elim b.failed_ids [
  | none ↦ []
  | some ids ↦ text_in (put_ids n ids nothing_printed)
]

unfoldable pub failed_units : Config → System → ℕ → Bytes
unfolding first_line
failed_units cfg sys n =
    if is_empty cfg.root
    then failed_on n sys.bus
    else line_or [] (first_line sys.fs (snprintf 4096 (cfg.root ++ codes "/fixture/failed")) n)
