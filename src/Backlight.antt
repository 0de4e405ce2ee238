-- ===== src/Backlight.antt =====
-- modules/console/panel.c, "backlight": the panel's brightness file, the level kept over a dark
-- panel in the state directory, and the torch.
pub mod Levels
pub mod Saved
use mobile_config.Base.{Bool, true, false, ◌++◌, if◌then◌else◌, ℤ, pos, ltb_ℤ}
use mobile_config.Libc.{Bytes, codes, snprintf}
use mobile_config.Config.{Config, path_max, rp}
use mobile_config.Files.{Fs, read_ll, write_num, unlink}

-- `backlight_path` of a leaf, behind the `rp` that every caller applies to it.
unfoldable pub backlight_path : Config → Bytes → Bytes
backlight_path cfg leaf = rp cfg (snprintf path_max (cfg.backlight ++ codes "/" ++ leaf))

abbrev pub brightness_path : Config → Bytes
brightness_path cfg = backlight_path cfg (codes "brightness")

unfoldable pub saved_level_path : Config → Bytes
saved_level_path cfg = rp cfg (snprintf path_max (cfg.state_dir ++ codes "/brightness"))

unfoldable pub torch_path : Config → Bytes
torch_path cfg = rp cfg (snprintf path_max (cfg.torch ++ codes "/brightness"))

unfoldable pub backlight_level : Config → Fs → ℤ
backlight_level cfg fs = read_ll fs (brightness_path cfg) (pos 0)

-- `level > 0`
unfoldable pub is_lit : ℤ → Bool
is_lit level = ltb_ℤ (pos 0) level

-- The write of a level above 0 to the saved file.
keep_level : Config → Fs → ℤ → Fs
keep_level cfg fs level = if is_lit level then (write_num fs (saved_level_path cfg) level).0 else fs

unfoldable pub display_off : Config → Fs → Fs
unfolding keep_level
display_off cfg fs =
    (write_num (keep_level cfg fs (backlight_level cfg fs)) (brightness_path cfg) (pos 0)).0

-- The level that `display_on` writes.
pub wake_level : Config → Fs → ℤ
wake_level cfg fs =
    let saved = read_ll fs (saved_level_path cfg) (pos 0) in
    if is_lit saved then saved else cfg.default_brightness

unfoldable pub display_on : Config → Fs → Fs
unfolding wake_level
display_on cfg fs =
    unlink (write_num fs (brightness_path cfg) (wake_level cfg fs)).0 (saved_level_path cfg)

unfoldable pub display_toggle : Config → Fs → Fs
display_toggle cfg fs =
    if is_lit (backlight_level cfg fs) then display_off cfg fs else display_on cfg fs

unfoldable pub torch_level : Config → Fs → ℤ
torch_level cfg fs = read_ll fs (torch_path cfg) (pos 0)

-- `level > 0 ? 0 : 1`
unfoldable pub switched : ℤ → ℤ
switched level = if is_lit level then pos 0 else pos 1

unfoldable pub torch_toggle : Config → Fs → Fs
torch_toggle cfg fs = (write_num fs (torch_path cfg) (switched (torch_level cfg fs))).0
