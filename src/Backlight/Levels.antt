-- ===== src/Backlight/Levels.antt =====
-- How the three operations move the brightness.
use mobile_config.Base.{◌≡◌, ◌≢◌, refl, sym, ◌∙◌, true, not, arith, Bool-cases, inl, inr, ℤ, pos}
use mobile_config.Libc.RoundTrip.{IsInt64}
use mobile_config.Config.{Config}
use mobile_config.Files.{Fs, read_ll}
use mobile_config.Files.Numbers.{
  CanWrite, read_ll-write_num, read_ll-unlink_ne, write_num-CanWrite, write_num-CanWrite_ne,
  read_ll-IsInt64,
}
use mobile_config.Backlight.{
  brightness_path, saved_level_path, backlight_level, is_lit, display_off, display_on, wake_level,
  display_toggle, torch_path, torch_level, torch_toggle, switched, keep_level,
}

-- The panel's brightness file can be written, and the saved level is kept in another file.
pub record HasPanel (cfg : Config) (fs : Fs) : Type 0 where
  pub panel : CanWrite fs (brightness_path cfg)
  pub apart : saved_level_path cfg ≢ brightness_path cfg

keep_level-CanWrite :
    (cfg : Config) (fs : Fs) (level : ℤ)
    → HasPanel cfg fs
    → CanWrite (keep_level cfg fs level) (brightness_path cfg)
unfolding keep_level
keep_level-CanWrite cfg fs level h = elim (Bool-cases (is_lit level)) [
  | inl lit ↦ rw lit (
      write_num-CanWrite_ne fs (saved_level_path cfg) (brightness_path cfg) level
        (λ e. h.apart (sym e)) h.panel)
  | inr dark ↦ rw dark h.panel
]

-- After `display_off` the panel reads 0.
pub backlight_level-display_off :
    (cfg : Config) (fs : Fs) → HasPanel cfg fs → backlight_level cfg (display_off cfg fs) ≡ pos 0
unfolding backlight_level display_off
backlight_level-display_off cfg fs h =
    read_ll-write_num _ (brightness_path cfg) (pos 0) (pos 0)
      (keep_level-CanWrite cfg fs (backlight_level cfg fs) h) (omega arith)

wake_level-IsInt64 :
    (cfg : Config) (fs : Fs) → IsInt64 cfg.default_brightness → IsInt64 (wake_level cfg fs)
unfolding wake_level
wake_level-IsInt64 cfg fs d =
    elim (Bool-cases (is_lit (read_ll fs (saved_level_path cfg) (pos 0)))) [
      | inl lit ↦
          rw (lit, wake_level) (read_ll-IsInt64 fs (saved_level_path cfg) (pos 0) (omega arith))
      | inr dark ↦ rw (dark, wake_level) d
    ]

-- After `display_on` the panel reads the saved level, or the default one where none above 0 is
-- saved.
pub backlight_level-display_on :
    (cfg : Config) (fs : Fs)
    → HasPanel cfg fs
    → IsInt64 cfg.default_brightness
    → backlight_level cfg (display_on cfg fs) ≡ wake_level cfg fs
unfolding backlight_level display_on
backlight_level-display_on cfg fs h d =
    read_ll-unlink_ne _ (saved_level_path cfg) (brightness_path cfg) (pos 0) (λ e. h.apart (sym e))
    ∙ read_ll-write_num fs (brightness_path cfg) (wake_level cfg fs) (pos 0) h.panel
        (wake_level-IsInt64 cfg fs d)

pub is_lit-wake_level :
    (cfg : Config) (fs : Fs)
    → is_lit cfg.default_brightness ≡ true
    → is_lit (wake_level cfg fs) ≡ true
unfolding wake_level
is_lit-wake_level cfg fs d =
    elim (Bool-cases (is_lit (read_ll fs (saved_level_path cfg) (pos 0)))) [
      | inl lit ↦ rw (lit, wake_level) lit
      | inr dark ↦ rw (dark, wake_level) d
    ]

-- The toggle turns a lit panel dark and a dark panel lit, if the panel can be written, the saved
-- level has a file of its own and the configured default is a positive 64-bit level.
pub display_toggle_flips :
    (cfg : Config) (fs : Fs)
    → HasPanel cfg fs
    → IsInt64 cfg.default_brightness
    → is_lit cfg.default_brightness ≡ true
    → is_lit (backlight_level cfg (display_toggle cfg fs)) ≡ not (is_lit (backlight_level cfg fs))
unfolding display_toggle
display_toggle_flips cfg fs h d lit = elim (Bool-cases (is_lit (backlight_level cfg fs))) [
  | inl on ↦
      rw (on, display_toggle) (rw (backlight_level-display_off cfg fs h) (unfold is_lit in refl))
  | inr off ↦
      rw (off, display_toggle)
        (rw (backlight_level-display_on cfg fs h d) (is_lit-wake_level cfg fs lit))
]

switched-IsInt64 : (level : ℤ) → IsInt64 (switched level)
unfolding switched
switched-IsInt64 level = ground arith

-- The torch toggle turns a lit torch dark and a dark one lit, if its file can be written.
pub torch_toggle_flips :
    (cfg : Config) (fs : Fs)
    → CanWrite fs (torch_path cfg)
    → is_lit (torch_level cfg (torch_toggle cfg fs)) ≡ not (is_lit (torch_level cfg fs))
torch_toggle_flips cfg fs c = rw wrote (flips (torch_level cfg fs))
  where
    wrote : torch_level cfg (torch_toggle cfg fs) ≡ switched (torch_level cfg fs)
    wrote =
        unfold torch_toggle in
        unfold torch_level in
        read_ll-write_num fs (torch_path cfg) (switched (torch_level cfg fs)) (pos 0) c
          (switched-IsInt64 (torch_level cfg fs))

    flips : (level : ℤ) → is_lit (switched level) ≡ not (is_lit level)
    flips level = unfold switched is_lit in ground arith

pub display_off-HasPanel :
    (cfg : Config) (fs : Fs) → HasPanel cfg fs → HasPanel cfg (display_off cfg fs)
unfolding display_off
display_off-HasPanel cfg fs h = record {
  panel =
      write_num-CanWrite _ (brightness_path cfg) (pos 0)
        (keep_level-CanWrite cfg fs (backlight_level cfg fs) h);
  apart = h.apart;
}
