-- ===== src/Wmt/Patches.antt =====
-- modules/connectivity/wmt-loader.c: `handle_rom_patch`, `handle_patch` and `handle_command`. The
-- kernel's side of an ioctl is an argument: its answer may depend on every ioctl before.
use mobile_config.Base.{
  ℕ, ◌+◌, Bool, true, false, ◌||◌, List, [], ◌∷◌, if◌then◌else◌, Option, none, some, length, ℤ, pos,
  ltb_ℤ,
}
use mobile_config.Libc.{Bytes, codes, streq}
use mobile_config.Wmt.Firmware.{Store, collect, read_patch_header, max_patch_num}

-- The ioctls of the three device nodes, with their arguments.
pub data Call : Type 0 where
  get_soc_chip_id : Call
  set_chip_id : ℤ → Call
  module_cleanup : Call
  do_module_init : ℤ → Call
  set_stp_mode : ℕ → Call
  set_patch_num : ℕ → Call
  set_patch_info : ℕ → Bytes → Bytes → Call
  set_rom_patch_info : ℕ → Bytes → Bytes → Call

-- The result of a call, given the calls before it, the newest first.
abbrev pub Kernel : Type 0
Kernel = List Call → Call → ℤ

-- `announced` is the static variable of `handle_patch`.
pub record Loader : Type 0 where
  pub calls : List Call
  pub announced : Bool

unfoldable pub ioctl : Kernel → Call → Loader → Loader × ℤ
ioctl k c s = (record s { calls = c ∷ s.calls }, k s.calls c)

-- `ioctl(…) < 0`
abbrev pub failed : Loader × ℤ → Bool
failed r = ltb_ℤ r.1 (pos 0)

-- The results 0 and -1 are `true` and `false`.
unfoldable pub rom_loop : Store → Kernel → List Bytes → Loader → Loader × Bool
rom_loop st k [] s = (s, true)
rom_loop st k (name ∷ names) s = elim (read_patch_header st name) [
  | none ↦ (s, false)
  | some h ↦
      let r = ioctl k (set_rom_patch_info h.type h.address name) s in
      let rest = rom_loop st k names r.0 in if failed r then (r.0, false) else rest
]

unfoldable pub rom_names : Store → Kernel → Option (List Bytes) → Loader → Loader × Bool
unfolding rom_loop
rom_names st k none s = (s, false)
rom_names st k (some []) s = (s, false)
rom_names st k (some (n ∷ ns)) s = rom_loop st k (n ∷ ns) s

unfoldable pub handle_rom_patch : Store → Kernel → Loader → Loader × Bool
unfolding rom_names
handle_rom_patch st k s = rom_names st k (collect st (codes "_ram_") max_patch_num) s

-- `seq` is `i + 1`.
unfoldable pub patch_loop : Store → Kernel → ℕ → List Bytes → Loader → Loader × Bool
patch_loop st k seq [] s = (s, true)
patch_loop st k seq (name ∷ names) s = elim (read_patch_header st name) [
  | none ↦ (s, false)
  | some h ↦
      let r = ioctl k (set_patch_info seq h.address name) s in
      let rest = patch_loop st k (seq + 1) names r.0 in if failed r then (r.0, false) else rest
]

-- The number of patches is told once.
unfoldable pub announce : Kernel → ℕ → Loader → Loader × Bool
announce k count s =
    if s.announced
    then (s, true)
    else let r = ioctl k (set_patch_num count) s in
      if failed r then (r.0, false) else (record r.0 { announced = true }, true)

unfoldable pub patch_names : Store → Kernel → Option (List Bytes) → Loader → Loader × Bool
unfolding announce patch_loop
patch_names st k none s = (s, false)
patch_names st k (some []) s = (s, false)
patch_names st k (some (n ∷ ns)) s =
    let a = announce k (length (n ∷ ns)) s in
    if a.1 then patch_loop st k 1 (n ∷ ns) a.0 else (a.0, false)

unfoldable pub handle_patch : Store → Kernel → Loader → Loader × Bool
unfolding patch_names
handle_patch st k s = patch_names st k (collect st (codes "_patch_") max_patch_num) s

unfoldable pub handle_command : Store → Kernel → Bytes → Loader → Loader × Bool
handle_command st k cmd s =
    if streq cmd (codes "srh_rom_patch")
    then handle_rom_patch st k s
    else if streq cmd (codes "srh_patch")
    then handle_patch st k s
    else if streq cmd (codes "update_patch_version")
    then (s, true)
    else if streq cmd (codes "open_stp") || streq cmd (codes "close_stp")
    then (s, true)
    else (s, false)
