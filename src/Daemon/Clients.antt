-- ===== src/Daemon/Clients.antt =====
-- The descriptors of the panels that connect to the key daemon.
use mathlib.Core.List.{Perm}
use mathlib.Core.List.Perm
use mobile_config.Base.{
  ℕ, ◌≡◌, refl, Bool, true, false, List, [], ◌∷◌, ◌==◌, if◌then◌else◌, Option, none, some,
  Bool-cases, inl, inr,
}
use mobile_config.Config.{Config}
use mobile_config.Keys.{Decoder, Delivery, wake_guard, key_token}
use mobile_config.Daemon.{
  Daemon, hang_up, fall_back, send_token, pass_on, keys_deliver, after_decoder, KeyRead, ended,
  partial_event, key_input, keys_readable, Ready, key_device, listener, other, is_client, on_ready,
  on_all, Round, interrupted, waited, reported, keys_round, keys_command,
}

-- The open descriptor, if there is one, before others.
abbrev pub with_client : Option ℕ → List ℕ → List ℕ
with_client none fds = fds
with_client (some c) fds = c ∷ fds

-- Every descriptor that was accepted is the client's or was closed, and each of them just once.
abbrev pub Accounted : Daemon → Type 0
Accounted d = Perm d.accepted (with_client d.client d.closed)

hang_up-Accounted :
    (o : Option ℕ) (d : Daemon) → d.client ≡ o → Accounted d → Accounted (hang_up o d)
unfolding hang_up
hang_up-Accounted none d e a = a
hang_up-Accounted (some c) d e a = rw e at a

hang_up-client : (o : Option ℕ) (d : Daemon) → d.client ≡ o → (hang_up o d).client ≡ none
unfolding hang_up
hang_up-client none d e = e
hang_up-client (some c) d e = refl

fall_back-Accounted :
    (cfg : Config) (token : ℕ) (d : Daemon) → Accounted d → Accounted (fall_back cfg token d)
unfolding fall_back
fall_back-Accounted cfg token d a = elim (Bool-cases (token == b'.')) [
  | inl e ↦ rw (e, fall_back) a
  | inr e ↦ rw (e, fall_back) a
]

send_token-Accounted :
    (cfg : Config) (written : Bool) (token : ℕ) (o : Option ℕ) (d : Daemon)
    → d.client ≡ o
    → Accounted d
    → Accounted (send_token cfg written token o d)
unfolding send_token
send_token-Accounted cfg written token none d e a = fall_back-Accounted cfg token d a
send_token-Accounted cfg true token (some c) d e a = a
send_token-Accounted cfg false token (some c) d e a =
    fall_back-Accounted cfg token (hang_up (some c) d) (hang_up-Accounted (some c) d e a)

pass_on-Accounted :
    (cfg : Config) (written : Bool) (x : Delivery) (go : Bool) (d : Daemon)
    → Accounted d
    → Accounted (pass_on cfg written x go d)
unfolding pass_on
pass_on-Accounted cfg written x false d a = a
pass_on-Accounted cfg written x true d a = elim (Bool-cases (key_token cfg x.key x.is_hold == 0)) [
  | inl e ↦ rw (e, pass_on) a
  | inr e ↦
      rw (e, pass_on)
        (send_token-Accounted cfg written (key_token cfg x.key x.is_hold) d.client d refl a)
]

after_decoder-Accounted :
    (cfg : Config) (written : Bool) (r : Decoder × Option Delivery) (d : Daemon)
    → Accounted d
    → Accounted (after_decoder cfg written r d)
unfolding after_decoder keys_deliver
after_decoder-Accounted cfg written (dec, none) d a = a
after_decoder-Accounted cfg written (dec, some x) d a =
    pass_on-Accounted cfg written x (wake_guard cfg x.is_hold d.fs).1 _ a

keys_readable-Accounted :
    (cfg : Config) (r : KeyRead) (d : Daemon) → Accounted d → Accounted (keys_readable cfg r d)
unfolding keys_readable
keys_readable-Accounted cfg ended d a = a
keys_readable-Accounted cfg partial_event d a = a
keys_readable-Accounted cfg (key_input now ev written) d a =
    after_decoder-Accounted cfg written _ d a

accept-Accounted :
    (c : ℕ) (d : Daemon)
    → d.client ≡ none
    → Accounted d
    → Accounted (record d { client = some c; accepted = c ∷ d.accepted })
accept-Accounted c d e a = Perm.cons c (rw e at a)

on_ready-Accounted :
    (cfg : Config) (r : Ready) (d : Daemon) → Accounted d → Accounted (on_ready cfg r d)
unfolding on_ready
on_ready-Accounted cfg (key_device r) d a = keys_readable-Accounted cfg r d a
on_ready-Accounted cfg (listener none) d a = a
on_ready-Accounted cfg (listener (some c)) d a =
    accept-Accounted c (hang_up d.client d) (hang_up-client d.client d refl)
      (hang_up-Accounted d.client d refl a)
on_ready-Accounted cfg (other fd gives) d a =
    let gone = hang_up-Accounted d.client d refl a in
    elim (Bool-cases (is_client d.client fd)) [
      | inl e ↦ elim (Bool-cases gives) [
        | inl g ↦ rw (e, g, on_ready) a
        | inr g ↦ rw (e, g, on_ready) gone
      ]
      | inr e ↦ rw (e, on_ready) a
    ]

on_all-Accounted :
    (cfg : Config) (rs : List Ready) (d : Daemon) → Accounted d → Accounted (on_all cfg rs d)
unfolding on_all
on_all-Accounted cfg [] d a = a
on_all-Accounted cfg (r ∷ rs) d a =
    on_all-Accounted cfg rs (on_ready cfg r d) (on_ready-Accounted cfg r d a)

keys_round-Accounted :
    (cfg : Config) (r : Round) (d : Daemon) → Accounted d → Accounted (keys_round cfg r d)
unfolding keys_round
keys_round-Accounted cfg interrupted d a = a
keys_round-Accounted cfg (waited now written) d a = after_decoder-Accounted cfg written _ d a
keys_round-Accounted cfg (reported rs) d a = on_all-Accounted cfg rs d a

if-Accounted :
    (b : Bool) (d e : Daemon) → Accounted d → Accounted e → Accounted (if b then d else e)
if-Accounted true d e a b = a
if-Accounted false d e a b = b

-- If every descriptor that `accept4` gave is either the one client or was closed, each as often as
-- it was given, then this holds after any rounds of the key daemon, whatever connects, hangs up or
-- refuses a byte: no connection is lost open and none is closed twice.
pub keys_command-Accounted :
    (cfg : Config) (rs : List Round) (d : Daemon) → Accounted d → Accounted (keys_command cfg rs d)
unfolding keys_command
keys_command-Accounted cfg [] d a = a
keys_command-Accounted cfg (r ∷ rs) d a =
    if-Accounted d.stopping d (keys_command cfg rs (keys_round cfg r d)) a
      (keys_command-Accounted cfg rs (keys_round cfg r d) (keys_round-Accounted cfg r d a))
