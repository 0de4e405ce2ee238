-- ===== src/Dashboard.antt =====
-- modules/console/panel.c, "dashboard": the text of the readings, the animated logo and the tag
-- line, as they are written into the frame buffer.
pub mod Logo
pub mod Body
pub mod Rows
pub mod Gather
pub mod Below
use mobile_config.Base.{ℕ, ℤ, Option}
use mobile_config.Libc.{Bytes}
use mobile_config.Config.{Config}
use mobile_config.Screen.{Screen}
use Logo.{logo_gap, logo, tagline}
use Body.{Readings, build_dashboard_body}

-- `cur` as the logo needs it: the buffer, the size of the terminal and the animation's clock; `none`
-- where the tag line's loop never ends.
unfoldable pub build_logo : ℕ → ℕ → ℕ → Screen → Option Screen
build_logo screen_rows screen_cols frame s =
    tagline screen_rows screen_cols (logo_gap (logo screen_rows screen_cols frame (logo_gap s)))

-- The new frame, and the part of it that `body_cache` keeps.
unfoldable pub build_dashboard :
    Config → Readings → ℤ → ℤ → ℕ → ℕ → ℕ → Screen → Option Screen × Screen
build_dashboard cfg r level backlight_max screen_rows screen_cols frame s =
    let body = build_dashboard_body cfg r level backlight_max s in
    (build_logo screen_rows screen_cols frame body, body)
