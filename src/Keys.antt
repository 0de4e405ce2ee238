-- ===== src/Keys.antt =====
-- modules/console/panel.c, "key handling": the decoder of the three hardware keys, the wake guard
-- and the tokens. `held` is `none` for -1.
pub mod Decode
use mobile_config.Base.{
  ℕ, ◌-◌, Bool, true, false, not, ◌&&◌, ◌||◌, List, [], ◌∷◌, ◌==◌, if◌then◌else◌, Option, none,
  some, ℤ, pos, ◌+ℤ◌, ◌-ℤ◌, ltb_ℤ, eqb_ℤ, pos_part,
}
use mobile_config.Config.{Config}
use mobile_config.Files.{Fs}
use mobile_config.Backlight.{backlight_level, is_lit, display_on}

-- `struct input_event`, without its time.
pub record InputEvent : Type 0 where
  pub kind : ℕ
  pub code : ℕ
  pub value : ℤ

abbrev pub ev_key : ℕ
ev_key = 1

pub record Decoder : Type 0 where
  pub held : Option ℕ
  pub held_repeats : Bool
  pub announced : Bool
  pub pending : Bool
  pub due_ms : ℤ

abbrev pub idle : Decoder
idle = record {
  held = none;
  held_repeats = false;
  announced = false;
  pending = false;
  due_ms = pos 0;
}

-- The arguments of a call of `keys_deliver`: the key, and whether it is a hold. No statement of the
-- decoder reads what a delivery changes, nor the other way round.
pub record Delivery : Type 0 where
  pub key : ℕ
  pub is_hold : Bool

unfoldable pub timeout_of : Option ℕ → Config → ℕ → Decoder → Decoder × Option Delivery
timeout_of none cfg now d = (d, none)
timeout_of (some k) cfg now d =
    if not d.pending
    then (d, none)
    else if d.held_repeats
    then (
      record d { due_ms = pos now +ℤ cfg.repeat_ms },
      some (record { key = k; is_hold = false }),
    )
    else (record d { announced = true; pending = false }, some (record { key = k; is_hold = true }))

unfoldable pub keys_timeout : Config → ℕ → Decoder → Decoder × Option Delivery
unfolding timeout_of
keys_timeout cfg now d = timeout_of d.held cfg now d

abbrev pub is_key : ℕ → ℤ → Bool
is_key code k = eqb_ℤ (pos code) k

unfoldable pub repeats : Config → ℕ → Bool
repeats cfg code = is_key code cfg.k_volup || is_key code cfg.k_voldown

abbrev is_held : Option ℕ → ℕ → Bool
is_held none code = false
is_held (some k) code = code == k

unfoldable pub press : Config → ℕ → InputEvent → Decoder → Decoder × Option Delivery
press cfg now ev d =
    let rep = repeats cfg ev.code in
    (
      record d {
        held = some ev.code;
        held_repeats = rep;
        announced = false;
        pending = true;
        due_ms = pos now +ℤ cfg.hold_ms;
      },
      if rep then some (record { key = ev.code; is_hold = false }) else none,
    )

unfoldable pub release : InputEvent → Decoder → Decoder × Option Delivery
release ev d = (
  record d { held = none; pending = false },
  if not d.held_repeats && not d.announced
      then some (record { key = ev.code; is_hold = false })
      else none,
)

-- `keys_readable` on a whole event, which it reads at the time `now`.
unfoldable pub keys_event : Config → ℕ → InputEvent → Decoder → Decoder × Option Delivery
unfolding press release
keys_event cfg now ev d =
    if not (ev.kind == ev_key)
    then (d, none)
    else if not (is_key ev.code cfg.k_power) && not (repeats cfg ev.code)
    then (d, none)
    else if eqb_ℤ ev.value (pos 1)
    then press cfg now ev d
    else if eqb_ℤ ev.value (pos 0) && is_held d.held ev.code
    then release ev d
    else (d, none)

unfoldable pub waiting : Option ℕ → ℕ → Decoder → Option ℕ
waiting none now d = none
waiting (some k) now d =
    let left = d.due_ms -ℤ pos now in
    if d.pending then some (if ltb_ℤ left (pos 0) then 0 else pos_part left) else none

-- The time that the loops hand to `epoll_wait`: `none` is -1, for ever.
unfoldable pub poll_timeout : ℕ → Decoder → Option ℕ
unfolding waiting
poll_timeout now d = waiting d.held now d

-- The file system behind the guard, and whether the key goes on.
unfoldable pub wake_guard : Config → Bool → Fs → Fs × Bool
wake_guard cfg is_hold fs =
    if is_lit (backlight_level cfg fs) then (fs, true) else (display_on cfg fs, is_hold)

-- The character of a key, 0 for none.
unfoldable pub key_token : Config → ℕ → Bool → ℕ
key_token cfg code is_hold =
    if is_key code cfg.k_power
    then if is_hold then b'm' else b'.'
    else if is_key code cfg.k_volup
    then b'+'
    else if is_key code cfg.k_voldown
    then b'-'
    else 0

-- What the decoder is fed: an event that it reads, or the end of the wait that it asked for.
pub data Input : Type 0 where
  event : ℕ → InputEvent → Input
  timeout : ℕ → Input

unfoldable pub feed : Config → Input → Decoder → Decoder × Option Delivery
unfolding keys_event keys_timeout
feed cfg (event now ev) d = keys_event cfg now ev d
feed cfg (timeout now) d = keys_timeout cfg now d

abbrev pub add_to : Option Delivery → List Delivery → List Delivery
add_to none ds = ds
add_to (some x) ds = x ∷ ds

-- The decoder after a sequence of inputs, and what it delivered, the first one first.
unfoldable pub run : Config → List Input → Decoder → Decoder × List Delivery
run cfg [] d = (d, [])
run cfg (i ∷ is) d =
    let (d', out) = feed cfg i d in let (end, rest) = run cfg is d' in (end, add_to out rest)
