-- ===== src/Daemon/Switching.antt =====
-- What a key does to the panel's light.
use mobile_config.Base.{
  ℕ, ◌≡◌, refl, sym, ◌∙◌, ap, Bool, true, false, not, List, ◌∷◌, ◌==◌, if◌then◌else◌, Option, none,
  some, arith, Bool-cases, inl, inr,
}
use mobile_config.Config.{Config}
use mobile_config.Files.{Fs}
use mobile_config.Libc.RoundTrip.{IsInt64}
use mobile_config.Backlight.{backlight_level, is_lit, display_on, display_toggle}
use mobile_config.Backlight.Levels.{
  HasPanel, backlight_level-display_on, is_lit-wake_level, display_toggle_flips,
}
use mobile_config.Keys.{Delivery, wake_guard, key_token, is_key}
use mobile_config.Daemon.{Daemon, hang_up, fall_back, send_token, pass_on, keys_deliver}

-- The panel's light as the daemon's files have it.
abbrev pub light : Config → Daemon → Bool
light cfg d = is_lit (backlight_level cfg d.fs)

-- A hold has no token that would switch the panel.
key_token_hold : (cfg : Config) (code : ℕ) → (key_token cfg code true == b'.') ≡ false
unfolding key_token
key_token_hold cfg code = ground arith

send_token-fs :
    (cfg : Config) (written : Bool) (token : ℕ) (o : Option ℕ) (d : Daemon)
    → (token == b'.') ≡ false
    → (send_token cfg written token o d).fs ≡ d.fs
unfolding send_token fall_back hang_up
send_token-fs cfg written token none d e = rw e refl
send_token-fs cfg true token (some c) d e = refl
send_token-fs cfg false token (some c) d e = rw e refl

-- What has been sent after the token of a hold, 0 for a key that has none.
abbrev pub held_sent : Bool → ℕ → Option ℕ → List (ℕ × ℕ) → List (ℕ × ℕ)
held_sent written token none sent = sent
held_sent written token (some c) sent =
    if token == 0 then sent else if written then (c, token) ∷ sent else sent

held_sent-none :
    (written : Bool) (token : ℕ) (o : Option ℕ) (sent : List (ℕ × ℕ))
    → (token == 0) ≡ true
    → held_sent written token o sent ≡ sent
held_sent-none written token none sent e = refl
held_sent-none written token (some c) sent e = rw e refl

send_token-sent :
    (cfg : Config) (written : Bool) (token : ℕ) (o : Option ℕ) (d : Daemon)
    → (token == b'.') ≡ false
    → (token == 0) ≡ false
    → (send_token cfg written token o d).sent ≡ held_sent written token o d.sent
unfolding send_token fall_back hang_up
send_token-sent cfg written token none d e z = rw e refl
send_token-sent cfg true token (some c) d e z = rw z refl
send_token-sent cfg false token (some c) d e z = rw (e, z) refl

hold_keeps :
    (cfg : Config) (written : Bool) (k : ℕ) (d : Daemon)
    → (pass_on cfg written (record { key = k; is_hold = true }) true d).fs ≡ d.fs
unfolding pass_on
hold_keeps cfg written k d = elim (Bool-cases (key_token cfg k true == 0)) [
  | inl e ↦ rw (e, pass_on) refl
  | inr e ↦
      rw (e, pass_on)
        (send_token-fs cfg written (key_token cfg k true) d.client d (key_token_hold cfg k))
]

-- What the panel's process has been sent after a delivery on a dark panel: nothing more for a tap, and
-- for a hold the token of its key, if the key has one, a process is connected and takes the byte.
abbrev pub sent_dark : Config → Bool → Delivery → Daemon → List (ℕ × ℕ)
sent_dark cfg written x d =
    if x.is_hold then held_sent written (key_token cfg x.key true) d.client d.sent else d.sent

deliver_hold :
    (cfg : Config) (written : Bool) (k : ℕ) (d : Daemon)
    → (pass_on cfg written (record { key = k; is_hold = true }) true d).sent
      ≡ held_sent written (key_token cfg k true) d.client d.sent
unfolding pass_on
deliver_hold cfg written k d = elim (Bool-cases (key_token cfg k true == 0)) [
  | inl e ↦ rw (e, pass_on) (sym (held_sent-none written _ d.client d.sent e))
  | inr e ↦ rw (e, pass_on) (send_token-sent cfg written _ d.client d (key_token_hold cfg k) e)
]

-- What a delivery does while the panel is dark.
deliver_dark :
    (cfg : Config) (written hold : Bool) (k : ℕ) (d : Daemon)
    → light cfg d ≡ false
    → let d' = keys_deliver cfg written (record { key = k; is_hold = hold }) d in
      (d'.fs ≡ display_on cfg d.fs)
      × (d'.sent ≡ sent_dark cfg written (record { key = k; is_hold = hold }) d)
unfolding keys_deliver wake_guard
deliver_dark cfg written true k d dark =
    rw dark (hold_keeps cfg written k _, deliver_hold cfg written k _)
deliver_dark cfg written false k d dark = rw (dark, pass_on) (refl, refl)

-- While the panel is dark every key that the decoder delivers turns it on, and a tap does nothing
-- else: it sends nothing to the panel's process. A hold is passed on: the token of its key is sent to
-- the panel's process, if the key has one and the process is connected and takes it. The panel's file can be written, and the configured default is a positive 64-bit level.
pub keys_deliver_wakes :
    (cfg : Config) (written : Bool) (x : Delivery) (d : Daemon)
    → HasPanel cfg d.fs
    → IsInt64 cfg.default_brightness
    → is_lit cfg.default_brightness ≡ true
    → light cfg d ≡ false
    → (light cfg (keys_deliver cfg written x d) ≡ true)
      × ((keys_deliver cfg written x d).sent ≡ sent_dark cfg written x d)
keys_deliver_wakes cfg written x d h fits lit dark =
    let (same, silent) = deliver_dark cfg written x.is_hold x.key d dark in
    let on = is_lit-wake_level cfg d.fs lit in
    (
      ap (λ fs. is_lit (backlight_level cfg fs)) same
          ∙ (ap is_lit (backlight_level-display_on cfg d.fs h fits) ∙ on),
      silent,
    )

-- The light after a tap of the power key that no panel's process takes, as the guard has it.
tap_alone :
    (cfg : Config) (written lit : Bool) (k : ℕ) (d : Daemon)
    → is_key k cfg.k_power ≡ true
    → d.client ≡ none
    → light cfg d ≡ lit
    → (keys_deliver cfg written (record { key = k; is_hold = false }) d).fs
      ≡ (if lit then display_toggle cfg d.fs else display_on cfg d.fs)
unfolding keys_deliver wake_guard pass_on key_token send_token fall_back
tap_alone cfg written true k d p alone l = rw (l, p) (rw alone refl)
tap_alone cfg written false k d p alone l = rw l refl

tap_flips :
    (cfg : Config) (lit : Bool) (fs after : Fs)
    → HasPanel cfg fs
    → IsInt64 cfg.default_brightness
    → is_lit cfg.default_brightness ≡ true
    → is_lit (backlight_level cfg fs) ≡ lit
    → after ≡ (if lit then display_toggle cfg fs else display_on cfg fs)
    → is_lit (backlight_level cfg after) ≡ not lit
tap_flips cfg true fs after h fits dflt l e =
    ap (λ f. is_lit (backlight_level cfg f)) e
    ∙ (display_toggle_flips cfg fs h fits dflt ∙ ap not l)
tap_flips cfg false fs after h fits dflt l e =
    ap (λ f. is_lit (backlight_level cfg f)) e
    ∙ (ap is_lit (backlight_level-display_on cfg fs h fits) ∙ is_lit-wake_level cfg fs dflt)

-- With no panel's process connected the power key is the switch of the panel: a tap turns a lit
-- panel dark and a dark one lit. The panel's file can be written, and the configured default is a
-- positive 64-bit level.
pub power_tap_flips :
    (cfg : Config) (written : Bool) (k : ℕ) (d : Daemon)
    → is_key k cfg.k_power ≡ true
    → d.client ≡ none
    → HasPanel cfg d.fs
    → IsInt64 cfg.default_brightness
    → is_lit cfg.default_brightness ≡ true
    → light cfg (keys_deliver cfg written (record { key = k; is_hold = false }) d)
      ≡ not (light cfg d)
power_tap_flips cfg written k d p alone h fits dflt =
    tap_flips cfg (light cfg d) d.fs _ h fits dflt refl
      (tap_alone cfg written (light cfg d) k d p alone refl)
