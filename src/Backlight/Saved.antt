-- ===== src/Backlight/Saved.antt =====
-- What becomes of the level that `display_off` means to keep for `display_on`.
use mobile_config.Base.{
  ◌≡◌, ◌≢◌, refl, ◌∙◌, true, none, List, [], ◌∷◌, arith, Bool-cases, inl, inr, ℤ, pos,
}
use mobile_config.Libc.RoundTrip.{IsInt64}
use mobile_config.Config.{Config}
use mobile_config.Files.{Fs, read_ll, write_num}
use mobile_config.Files.Numbers.{
  CanWrite, read_ll-missing, read_ll-write_num, read_ll-write_num_ne, write_num_ne,
  write_num-missing, unlink_self, read_ll-IsInt64, unlink-missing,
}
use mobile_config.Backlight.{
  brightness_path, saved_level_path, backlight_level, is_lit, display_off, display_on, wake_level,
  display_toggle, keep_level,
}
use mobile_config.Backlight.Levels.{HasPanel, backlight_level-display_on, display_off-HasPanel}

keep_level-read :
    (cfg : Config) (fs : Fs) (level : ℤ)
    → CanWrite fs (saved_level_path cfg)
    → IsInt64 level
    → is_lit level ≡ true
    → read_ll (keep_level cfg fs level) (saved_level_path cfg) (pos 0) ≡ level
unfolding keep_level
keep_level-read cfg fs level c h lit =
    rw (lit, keep_level) (read_ll-write_num fs (saved_level_path cfg) level (pos 0) c h)

wake_level-display_off :
    (cfg : Config) (fs : Fs)
    → HasPanel cfg fs
    → CanWrite fs (saved_level_path cfg)
    → is_lit (backlight_level cfg fs) ≡ true
    → wake_level cfg (display_off cfg fs) ≡ backlight_level cfg fs
unfolding wake_level display_off
wake_level-display_off cfg fs h c lit = rw (saved, wake_level) (rw lit)
  where
    saved : read_ll (display_off cfg fs) (saved_level_path cfg) (pos 0) ≡ backlight_level cfg fs
    saved =
        read_ll-write_num_ne _ (brightness_path cfg) (saved_level_path cfg) (pos 0) (pos 0) h.apart
        ∙ keep_level-read cfg fs (backlight_level cfg fs) c
            (unfold backlight_level in
              read_ll-IsInt64 fs (brightness_path cfg) (pos 0) (omega arith))
            lit

-- A lit panel that is turned off and on again shows its former level, if both the brightness file
-- and the saved level's file are there and can be written.
pub display_on-display_off :
    (cfg : Config) (fs : Fs)
    → HasPanel cfg fs
    → CanWrite fs (saved_level_path cfg)
    → IsInt64 cfg.default_brightness
    → is_lit (backlight_level cfg fs) ≡ true
    → backlight_level cfg (display_on cfg (display_off cfg fs)) ≡ backlight_level cfg fs
display_on-display_off cfg fs h c d lit =
    backlight_level-display_on cfg (display_off cfg fs) (display_off-HasPanel cfg fs h) d
    ∙ wake_level-display_off cfg fs h c lit

-- The saved level's file is not there.
abbrev pub IsUnsaved : Config → Fs → Type 0
IsUnsaved cfg fs = fs.content (saved_level_path cfg) ≡ none

-- `display_on` removes the saved level's file, if its directory allows that.
pub display_on-IsUnsaved :
    (cfg : Config) (fs : Fs)
    → (write_num fs (brightness_path cfg) (wake_level cfg fs)).0.removable (saved_level_path cfg)
      ≡ true
    → IsUnsaved cfg (display_on cfg fs)
unfolding display_on
display_on-IsUnsaved cfg fs r = unlink_self _ (saved_level_path cfg) r

keep_level-IsUnsaved :
    (cfg : Config) (fs : Fs) (level : ℤ)
    → IsUnsaved cfg fs
    → IsUnsaved cfg (keep_level cfg fs level)
unfolding keep_level
keep_level-IsUnsaved cfg fs level u = elim (Bool-cases (is_lit level)) [
  | inl lit ↦ rw (lit, keep_level) (rw (write_num-missing fs (saved_level_path cfg) level u) u)
  | inr dark ↦ rw (dark, keep_level) u
]

display_off-IsUnsaved :
    (cfg : Config) (fs : Fs)
    → saved_level_path cfg ≢ brightness_path cfg
    → IsUnsaved cfg fs
    → IsUnsaved cfg (display_off cfg fs)
unfolding display_off
display_off-IsUnsaved cfg fs a u =
    write_num_ne _ (brightness_path cfg) (saved_level_path cfg) (pos 0) a
    ∙ keep_level-IsUnsaved cfg fs (backlight_level cfg fs) u

display_on-stays :
    (cfg : Config) (fs : Fs)
    → saved_level_path cfg ≢ brightness_path cfg
    → IsUnsaved cfg fs
    → IsUnsaved cfg (display_on cfg fs)
unfolding display_on
display_on-stays cfg fs a u =
    unlink-missing _ (saved_level_path cfg)
      (write_num_ne fs (brightness_path cfg) (saved_level_path cfg) _ a ∙ u)

-- The three commands that change the panel.
pub data Switch : Type 0 where
  off on toggle : Switch

abbrev pub switch : Config → Switch → Fs → Fs
switch cfg off fs = display_off cfg fs
switch cfg on fs = display_on cfg fs
switch cfg toggle fs = display_toggle cfg fs

abbrev pub switch_all : Config → List Switch → Fs → Fs
switch_all cfg [] fs = fs
switch_all cfg (c ∷ cs) fs = switch_all cfg cs (switch cfg c fs)

switch-IsUnsaved :
    (cfg : Config) (c : Switch) (fs : Fs)
    → saved_level_path cfg ≢ brightness_path cfg
    → IsUnsaved cfg fs
    → IsUnsaved cfg (switch cfg c fs)
unfolding display_toggle
switch-IsUnsaved cfg off fs a u = display_off-IsUnsaved cfg fs a u
switch-IsUnsaved cfg on fs a u = display_on-stays cfg fs a u
switch-IsUnsaved cfg toggle fs a u = elim (Bool-cases (is_lit (backlight_level cfg fs))) [
  | inl lit ↦ rw (lit, display_toggle) (display_off-IsUnsaved cfg fs a u)
  | inr dark ↦ rw (dark, display_toggle) (display_on-stays cfg fs a u)
]

switch_all-IsUnsaved :
    (cfg : Config) (cs : List Switch) (fs : Fs)
    → saved_level_path cfg ≢ brightness_path cfg
    → IsUnsaved cfg fs
    → IsUnsaved cfg (switch_all cfg cs fs)
switch_all-IsUnsaved cfg [] fs a u = u
switch_all-IsUnsaved cfg (c ∷ cs) fs a u =
    switch_all-IsUnsaved cfg cs (switch cfg c fs) a (switch-IsUnsaved cfg c fs a u)

wake_level-IsUnsaved :
    (cfg : Config) (fs : Fs) → IsUnsaved cfg fs → wake_level cfg fs ≡ cfg.default_brightness
unfolding wake_level
wake_level-IsUnsaved cfg fs u =
    rw (read_ll-missing fs (saved_level_path cfg) (pos 0) u, wake_level) (unfold is_lit in refl)

-- If the saved level's file is missing and the panel's brightness file is another one, then after
-- any sequence of switches it is still missing, and the level that `display_on` would write is the
-- configured default, whatever the level at which the panel went dark.
pub level_forgotten :
    (cfg : Config) (cs : List Switch) (fs : Fs)
    → saved_level_path cfg ≢ brightness_path cfg
    → IsUnsaved cfg fs
    → (IsUnsaved cfg (switch_all cfg cs fs))
      × (wake_level cfg (switch_all cfg cs fs) ≡ cfg.default_brightness)
level_forgotten cfg cs fs a u =
    let stays = switch_all-IsUnsaved cfg cs fs a u in
    (stays, wake_level-IsUnsaved cfg (switch_all cfg cs fs) stays)
