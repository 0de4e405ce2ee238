-- ===== src/Keys/Decode.antt =====
-- What the decoder makes of presses, holds and releases.
use mobile_config.Base.{
  ℕ, suc, ◌≡◌, ◌≢◌, refl, ◌⊎◌, Bool, true, false, not, List, [], ◌∷◌, ◌++◌, ◌==◌, if◌then◌else◌,
  none, some, arith, ℤ, pos, All, replicate, ap, ◌∙◌,
}
use mobile_config.Config.{Config}
use mobile_config.Keys.{
  InputEvent, ev_key, Decoder, Delivery, Input, event, timeout, keys_event, keys_timeout, is_key,
  repeats, feed, run,
}

-- An event of another sort, a kernel autorepeat, or the release of a key that is not `k`.
abbrev pub IsQuietEvent : ℕ → InputEvent → Type 0
IsQuietEvent k ev = (ev.kind ≢ ev_key) ⊎ ((ev.value ≢ pos 1) × ((ev.value ≢ pos 0) ⊎ (ev.code ≢ k)))

abbrev pub IsQuiet : ℕ → Input → Type 0
IsQuiet k (event now ev) = IsQuietEvent k ev
IsQuiet k (timeout now) = Unit

-- The ends of waits among the inputs.
abbrev pub timeouts : List Input → ℕ
timeouts [] = 0
timeouts (event now ev ∷ is) = timeouts is
timeouts (timeout now ∷ is) = suc (timeouts is)

quiet_event :
    (cfg : Config) (now k : ℕ) (ev : InputEvent) (d : Decoder)
    → d.held ≡ some k
    → IsQuietEvent k ev
    → keys_event cfg now ev d ≡ (d, none)
unfolding keys_event
quiet_event cfg now k ev d h q = ground arith

abbrev pub key_event : ℕ → ℤ → InputEvent
key_event code value = record { kind = ev_key; code = code; value = value }

-- A key that does not repeat is held, and its hold has been announced or is still pending.
abbrev HoldsPower : ℕ → Bool → Decoder → Type 0
HoldsPower k announced d =
    (d.held ≡ some k)
    × (d.held_repeats ≡ false)
    × (d.announced ≡ announced)
    × (d.pending ≡ not announced)

-- A key that repeats is held.
abbrev HoldsVolume : ℕ → Decoder → Type 0
HoldsVolume k d = (d.held ≡ some k) × (d.held_repeats ≡ true) × (d.pending ≡ true)

abbrev pub tap : ℕ → Delivery
tap k = record { key = k; is_hold = false }

abbrev pub hold : ℕ → Delivery
hold k = record { key = k; is_hold = true }

press_power :
    (cfg : Config) (now k : ℕ) (d : Decoder)
    → is_key k cfg.k_power ≡ true
    → repeats cfg k ≡ false
    → let r = keys_event cfg now (key_event k (pos 1)) d in (r.1 ≡ none) × HoldsPower k false r.0
unfolding keys_event
press_power cfg now k d p r = ground arith

press_volume :
    (cfg : Config) (now k : ℕ) (d : Decoder)
    → repeats cfg k ≡ true
    → let r = keys_event cfg now (key_event k (pos 1)) d in (r.1 ≡ some (tap k)) × HoldsVolume k r.0
unfolding keys_event
press_volume cfg now k d r = ground arith

timeout_power :
    (cfg : Config) (now k : ℕ) (a : Bool) (d : Decoder)
    → HoldsPower k a d
    → let r = keys_timeout cfg now d in
      (r.1 ≡ (if a then none else some (hold k))) × HoldsPower k true r.0
unfolding keys_timeout
timeout_power cfg now k a d h = ground arith

timeout_volume :
    (cfg : Config) (now k : ℕ) (d : Decoder)
    → HoldsVolume k d
    → let r = keys_timeout cfg now d in (r.1 ≡ some (tap k)) × HoldsVolume k r.0
unfolding keys_timeout
timeout_volume cfg now k d h = ground arith

release_power :
    (cfg : Config) (now k : ℕ) (a : Bool) (d : Decoder)
    → is_key k cfg.k_power ≡ true
    → HoldsPower k a d
    → let r = keys_event cfg now (key_event k (pos 0)) d in
      (r.1 ≡ (if a then none else some (tap k))) × (r.0.held ≡ none) × (r.0.pending ≡ false)
unfolding keys_event
release_power cfg now k a d p h = ground arith

release_volume :
    (cfg : Config) (now k : ℕ) (d : Decoder)
    → repeats cfg k ≡ true
    → HoldsVolume k d
    → let r = keys_event cfg now (key_event k (pos 0)) d in
      (r.1 ≡ none) × (r.0.held ≡ none) × (r.0.pending ≡ false)
unfolding keys_event
release_volume cfg now k d p h = ground arith

-- What is delivered between the press and the release, and by the release.
abbrev power_tail : Bool → ℕ → List Input → List Delivery
power_tail true k is = []
power_tail false k is = (if timeouts is == 0 then tap k else hold k) ∷ []

run_power :
    (cfg : Config) (k later : ℕ) (is : List Input) (a : Bool) (d : Decoder)
    → is_key k cfg.k_power ≡ true
    → HoldsPower k a d
    → All (IsQuiet k) is
    → (run cfg (is ++ event later (key_event k (pos 0)) ∷ []) d).1 ≡ power_tail a k is
unfolding run feed
run_power cfg k later [] true d p h q = rw ((release_power cfg later k true d p h).0)
run_power cfg k later [] false d p h q = rw ((release_power cfg later k false d p h).0)
run_power cfg k later (event now ev ∷ is) a d p h q =
    rw (quiet_event cfg now k ev d h.0 q.0) (run_power cfg k later is a d p h q.1 ∙ same a)
  where
    same : (a : Bool) → power_tail a k is ≡ power_tail a k (event now ev ∷ is)
    same true = refl
    same false = refl
run_power cfg k later (timeout now ∷ is) true d p h q =
    let t = timeout_power cfg now k true d h in rw (t.0) (run_power cfg k later is true _ p t.1 q.1)
run_power cfg k later (timeout now ∷ is) false d p h q =
    let t = timeout_power cfg now k false d h in
    rw (t.0) (ap (◌∷◌ (hold k)) (run_power cfg k later is true _ p t.1 q.1) ∙ ground arith)

-- However long the power key is down, and whatever events of other sorts, kernel autorepeats and
-- releases of other keys come in between, a press and a release deliver it exactly once: as a tap if
-- no wait ended in between, and as a hold if one did. The key is taken not to be a volume key.
pub power_delivered_once :
    (cfg : Config) (now later k : ℕ) (is : List Input) (d : Decoder)
    → is_key k cfg.k_power ≡ true
    → repeats cfg k ≡ false
    → All (IsQuiet k) is
    → (run cfg
        (event now (key_event k (pos 1)) ∷ (is ++ event later (key_event k (pos 0)) ∷ []))
        d).1
      ≡ (if timeouts is == 0 then tap k else hold k) ∷ []
unfolding run feed
power_delivered_once cfg now later k is d p r q =
    let t = press_power cfg now k d p r in rw (t.0) (run_power cfg k later is false _ p t.1 q)

run_volume :
    (cfg : Config) (k later : ℕ) (is : List Input) (d : Decoder)
    → repeats cfg k ≡ true
    → HoldsVolume k d
    → All (IsQuiet k) is
    → (run cfg (is ++ event later (key_event k (pos 0)) ∷ []) d).1 ≡ replicate (timeouts is) (tap k)
unfolding run feed
run_volume cfg k later [] d r h q = rw ((release_volume cfg later k d r h).0)
run_volume cfg k later (event now ev ∷ is) d r h q =
    rw (quiet_event cfg now k ev d h.0 q.0) (run_volume cfg k later is d r h q.1)
run_volume cfg k later (timeout now ∷ is) d r h q =
    let t = timeout_volume cfg now k d h in
    rw (t.0) (ap (◌∷◌ (tap k)) (run_volume cfg k later is _ r t.1 q.1))

-- A volume key delivers a tap at its press and one more for each wait that ends before its release,
-- and nothing else: kernel autorepeats and releases of other keys add none.
pub volume_repeats :
    (cfg : Config) (now later k : ℕ) (is : List Input) (d : Decoder)
    → repeats cfg k ≡ true
    → All (IsQuiet k) is
    → (run cfg
        (event now (key_event k (pos 1)) ∷ (is ++ event later (key_event k (pos 0)) ∷ []))
        d).1
      ≡ replicate (suc (timeouts is)) (tap k)
unfolding run feed
volume_repeats cfg now later k is d r q =
    let t = press_volume cfg now k d r in
    rw (t.0) (ap (◌∷◌ (tap k)) (run_volume cfg k later is _ r t.1 q))
