-- ===== src/Daemon.antt =====
-- modules/console/panel.c: `keys_deliver` with `mode_keys` set, `keys_readable`, and the loop of
-- `keys_command`. Descriptors are numbers; `epoll_ctl` changes nothing that the model keeps.
pub mod Clients
pub mod Switching
use mobile_config.Base.{
  ℕ, Bool, true, false, not, List, [], ◌∷◌, ◌==◌, if◌then◌else◌, Option, none, some,
}
use mobile_config.Config.{Config}
use mobile_config.Files.{Fs}
use mobile_config.Backlight.{display_toggle}
use mobile_config.Keys.{
  InputEvent, Decoder, Delivery, keys_event, keys_timeout, wake_guard, key_token,
}

-- `client` is `keys_client`, `none` for -1. `accepted`, `closed` and `sent` record the calls of
-- `accept4`, `close` and `write`, the newest first, and `stopping` is `stop_requested`.
pub record Daemon : Type 0 where
  pub fs : Fs
  pub decoder : Decoder
  pub client : Option ℕ
  pub accepted : List ℕ
  pub closed : List ℕ
  pub sent : List (ℕ × ℕ)
  pub stopping : Bool

-- `close(keys_client); keys_client = -1`, where there is one.
unfoldable pub hang_up : Option ℕ → Daemon → Daemon
hang_up none d = d
hang_up (some c) d = record d { client = none; closed = c ∷ d.closed }

-- The power key as the switch of the panel, where no dashboard takes it.
unfoldable pub fall_back : Config → ℕ → Daemon → Daemon
fall_back cfg token d = if token == b'.' then record d { fs = display_toggle cfg d.fs } else d

-- `written` is whether the write takes the byte.
unfoldable pub send_token : Config → Bool → ℕ → Option ℕ → Daemon → Daemon
unfolding hang_up fall_back
send_token cfg written token none d = fall_back cfg token d
send_token cfg written token (some c) d =
    if written
    then record d { sent = (c, token) ∷ d.sent }
    else fall_back cfg token (hang_up (some c) d)

unfoldable pub pass_on : Config → Bool → Delivery → Bool → Daemon → Daemon
unfolding send_token
pass_on cfg written x false d = d
pass_on cfg written x true d =
    let token = key_token cfg x.key x.is_hold in
    if token == 0 then d else send_token cfg written token d.client d

unfoldable pub keys_deliver : Config → Bool → Delivery → Daemon → Daemon
unfolding pass_on
keys_deliver cfg written x d =
    let (fs, go) = wake_guard cfg x.is_hold d.fs in pass_on cfg written x go (record d { fs = fs })

unfoldable pub after_decoder : Config → Bool → Decoder × Option Delivery → Daemon → Daemon
unfolding keys_deliver
after_decoder cfg written (dec, none) d = record d { decoder = dec }
after_decoder cfg written (dec, some x) d = keys_deliver cfg written x (record d { decoder = dec })

-- What a read of the key device gives: nothing more, something that is no whole event, or an
-- event at the time when it is read, with whether a write that it causes takes its byte.
pub data KeyRead : Type 0 where
  ended partial_event : KeyRead
  key_input : ℕ → InputEvent → Bool → KeyRead

unfoldable pub keys_readable : Config → KeyRead → Daemon → Daemon
unfolding after_decoder
keys_readable cfg ended d = record d { stopping = true }
keys_readable cfg partial_event d = d
keys_readable cfg (key_input now ev written) d =
    after_decoder cfg written (keys_event cfg now ev d.decoder) d

-- A descriptor that `epoll_wait` reports: the key device with what a read of it gives, the socket with the
-- result of `accept4`, or another one with whether a read gives bytes.
pub data Ready : Type 0 where
  key_device : KeyRead → Ready
  listener : Option ℕ → Ready
  other : ℕ → Bool → Ready

unfoldable pub is_client : Option ℕ → ℕ → Bool
is_client none fd = false
is_client (some c) fd = fd == c

unfoldable pub on_ready : Config → Ready → Daemon → Daemon
unfolding keys_readable hang_up is_client
on_ready cfg (key_device r) d = keys_readable cfg r d
on_ready cfg (listener none) d = d
on_ready cfg (listener (some c)) d =
    let d' = hang_up d.client d in record d' { client = some c; accepted = c ∷ d'.accepted }
on_ready cfg (other fd gives) d =
    if is_client d.client fd then if gives then d else hang_up d.client d else d

unfoldable pub on_all : Config → List Ready → Daemon → Daemon
unfolding on_ready
on_all cfg [] d = d
on_all cfg (r ∷ rs) d = on_all cfg rs (on_ready cfg r d)

-- One round of the loop: the wait is interrupted, ends at a time with no descriptor ready, or
-- reports some. A wait that fails, or a signal, is the end of the rounds.
pub data Round : Type 0 where
  interrupted : Round
  waited : ℕ → Bool → Round
  reported : List Ready → Round

unfoldable pub keys_round : Config → Round → Daemon → Daemon
unfolding on_all after_decoder
keys_round cfg interrupted d = d
keys_round cfg (waited now written) d = after_decoder cfg written (keys_timeout cfg now d.decoder) d
keys_round cfg (reported rs) d = on_all cfg rs d

unfoldable pub keys_command : Config → List Round → Daemon → Daemon
unfolding keys_round
keys_command cfg [] d = d
keys_command cfg (r ∷ rs) d =
    let rest = keys_command cfg rs (keys_round cfg r d) in if d.stopping then d else rest
