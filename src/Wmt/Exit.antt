-- ===== src/Wmt/Exit.antt =====
-- The boundary between the exit statuses is the ioctl that latches.
use mobile_config.Base.{
  ℕ, zero, suc, ◌≡◌, refl, ◌⊎◌, Bool, true, false, ◌||◌, List, [], ◌∷◌, ap, ◌∙◌, none, some, arith,
  ℤ,
}
use mobile_config.Wmt.Patches.{
  Call, get_soc_chip_id, set_chip_id, module_cleanup, do_module_init, set_stp_mode, Kernel, Loader,
  ioctl,
}
use mobile_config.Wmt.Startup.{
  Nodes, exit_retryable, exit_latched, detect, start_service, after_detect, startup,
}

abbrev is_init : Call → Bool
is_init (do_module_init c) = true
is_init _ = false

-- Whether DO_MODULE_INIT was ever issued.
abbrev pub has_init : List Call → Bool
has_init [] = false
has_init (c ∷ cs) = is_init c || has_init cs

-- Before the init the status is the retryable one; with the init issued it is 0 or latched.
abbrev Marks : List Call → ℕ → Type 0
Marks calls rc =
    ((has_init calls ≡ false) × (rc ≡ exit_retryable))
    ⊎ ((has_init calls ≡ true) × ((rc ≡ 0) ⊎ (rc ≡ exit_latched)))

detect-Marks :
    (env : Nodes) (k : Kernel) (s : Loader)
    → has_init s.calls ≡ false
    → Marks (detect env k s).0.calls (detect env k s).1
unfolding detect ioctl
detect-Marks env k s h = ground arith

start_service-latched :
    (env : Nodes) (k : Kernel) (s : Loader)
    → has_init s.calls ≡ true
    → let r = start_service env k s in
      (has_init r.0.calls ≡ true) × ((r.1 ≡ none) ⊎ (r.1 ≡ some exit_latched))
unfolding start_service ioctl
start_service-latched env k s h = ground arith

after_detect-Marks :
    (env : Nodes) (k : Kernel) (s : Loader) (rc : ℕ)
    → Marks s.calls rc
    → let r = after_detect env k (s, rc) in
      ((has_init r.0.calls ≡ false) × (r.1 ≡ some exit_retryable))
      ⊎ ((has_init r.0.calls ≡ true) × ((r.1 ≡ none) ⊎ (r.1 ≡ some exit_latched)))
unfolding after_detect
after_detect-Marks env k s zero m = ground (arith, start_service-latched env k s)
after_detect-Marks env k s (suc rc) m = ground arith

-- Whatever the kernel answers and whichever nodes appear, a start that has not issued
-- DO_MODULE_INIT before ends in one of two ways: it exits with the retryable status, and the ioctl
-- was never issued; or the ioctl was issued, and it serves or exits with the latched status.
pub startup_boundary :
    (env : Nodes) (k : Kernel) (s : Loader)
    → has_init s.calls ≡ false
    → let r = startup env k s in
      ((has_init r.0.calls ≡ false) × (r.1 ≡ some exit_retryable))
      ⊎ ((has_init r.0.calls ≡ true) × ((r.1 ≡ none) ⊎ (r.1 ≡ some exit_latched)))
unfolding startup
startup_boundary env k s h =
    after_detect-Marks env k (detect env k s).0 (detect env k s).1 (detect-Marks env k s h)

-- The four calls of a detection that succeeds, the newest first, before those that were there.
abbrev pub detect_calls : ℤ → List Call → List Call
detect_calls chip_id older =
    do_module_init chip_id ∷ module_cleanup ∷ set_chip_id chip_id ∷ get_soc_chip_id ∷ older

detect_order :
    (env : Nodes) (k : Kernel) (s : Loader)
    → (detect env k s).1 ≡ 0
    → (detect env k s).0.calls ≡ detect_calls (k s.calls get_soc_chip_id) s.calls
unfolding detect ioctl
detect_order env k s h = ground arith

start_service_order :
    (env : Nodes) (k : Kernel) (s : Loader)
    → (start_service env k s).1 ≡ none
    → (start_service env k s).0.calls ≡ set_stp_mode 0x23 ∷ s.calls
unfolding start_service ioctl
start_service_order env k s h = ground arith

after_detect_order :
    (env : Nodes) (k : Kernel) (s : Loader) (rc : ℕ)
    → (after_detect env k (s, rc)).1 ≡ none
    → (rc ≡ 0) × ((after_detect env k (s, rc)).0.calls ≡ set_stp_mode 0x23 ∷ s.calls)
unfolding after_detect
after_detect_order env k s zero h = (refl, start_service_order env k s h)
after_detect_order env k s (suc rc) h = cc

-- A start that reaches the service loop has made five ioctls in their one order, each once: the
-- chip id is read, set, the modules are cleaned up, initialised with that id, and the transport mode
-- is set last; it made no other.
pub startup_order :
    (env : Nodes) (k : Kernel) (s : Loader)
    → (startup env k s).1 ≡ none
    → (startup env k s).0.calls
      ≡ set_stp_mode 0x23 ∷ detect_calls (k s.calls get_soc_chip_id) s.calls
unfolding startup
startup_order env k s served =
    let r = after_detect_order env k (detect env k s).0 (detect env k s).1 served in
    r.1 ∙ ap (◌∷◌ (set_stp_mode 0x23)) (detect_order env k s r.0)
