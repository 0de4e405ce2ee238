-- ===== src/Wmt/Startup.antt =====
-- modules/connectivity/wmt-loader.c: `wait_for_node`, `detect`, `power_on` and `main` up to its
-- service loop.
use mobile_config.Base.{
  ℕ, zero, suc, ◌+◌, Bool, true, false, not, ◌&&◌, if◌then◌else◌, Option, none, some, ℤ, pos, ltb_ℤ,
}
use mobile_config.Wmt.Patches.{
  get_soc_chip_id, set_chip_id, module_cleanup, do_module_init, set_stp_mode, Kernel, Loader, ioctl,
  failed,
}

abbrev pub exit_retryable : ℕ
exit_retryable = 1

abbrev pub exit_latched : ℕ
exit_latched = 2

-- `STP_BTIF_FULL | (WMT_FM_COMM << 4)`
abbrev pub stp_mode : ℕ
stp_mode = 0x23

-- The rounds that `wait_for_node` makes at most: `NODE_TIMEOUT_S * 10`.
abbrev pub node_rounds : ℕ
node_rounds = 100

-- Whether the node is there at the rounds that are left, from round `i`.
unfoldable pub polls : ℕ → ℕ → (ℕ → Bool) → Bool
polls zero i there = false
polls (suc left) i there = let rest = polls left (i + 1) there in if there i then true else rest

-- `there i` tells whether `access` finds the node at round `i`, a tenth of a second apart.
unfoldable pub wait_for_node : (ℕ → Bool) → Bool
unfolding polls
wait_for_node there = polls node_rounds 0 there

-- What the process finds besides the ioctls: which nodes open and when the two later ones appear,
-- whether `fork` succeeds, and how many bytes the power-on write takes.
pub record Nodes : Type 0 where
  pub detect_opens : Bool
  pub wmt_there : ℕ → Bool
  pub wmt_opens : Bool
  pub forks : Bool
  pub wifi_there : ℕ → Bool
  pub wifi_opens : Bool
  pub written : ℤ

-- The last of the three checked steps: DO_MODULE_INIT latches.
unfoldable pub init_chip : Kernel → ℤ → Loader → Loader × ℕ
init_chip k chip_id s =
    let r = ioctl k (do_module_init chip_id) s in if failed r then (r.0, exit_latched) else (r.0, 0)

unfoldable pub clean_up : Kernel → ℤ → Loader → Loader × ℕ
unfolding init_chip
clean_up k chip_id s =
    let r = ioctl k module_cleanup s in
    if failed r then (r.0, exit_retryable) else init_chip k chip_id r.0

unfoldable pub set_chip : Kernel → ℤ → Loader → Loader × ℕ
unfolding clean_up
set_chip k chip_id s =
    let r = ioctl k (set_chip_id chip_id) s in
    if failed r then (r.0, exit_retryable) else clean_up k chip_id r.0

-- 0, or the exit status. A chip id of 0 or below is refused.
unfoldable pub detect : Nodes → Kernel → Loader → Loader × ℕ
unfolding set_chip
detect env k s =
    if not env.detect_opens
    then (s, exit_retryable)
    else let r = ioctl k get_soc_chip_id s in
      if ltb_ℤ (pos 0) r.1 then set_chip k r.1 r.0 else (r.0, exit_retryable)

-- What the child process does; its exit status is 0 for `true` and 1 for `false`.
unfoldable pub power_on : Nodes → Bool
power_on env =
    if not (wait_for_node env.wifi_there)
    then false
    else if not env.wifi_opens
    then false
    else not (ltb_ℤ env.written (pos 1)) && not (ltb_ℤ (pos 1) env.written)

-- The steps of `main` behind `detect`. `none` is the start of the service loop.
unfoldable pub start_service : Nodes → Kernel → Loader → Loader × Option ℕ
start_service env k s =
    if not (wait_for_node env.wmt_there)
    then (s, some exit_latched)
    else if not env.wmt_opens
    then (s, some exit_latched)
    else let r = ioctl k (set_stp_mode stp_mode) s in
      if failed r
      then (r.0, some exit_latched)
      else if not env.forks
      then (r.0, some exit_latched)
      else (r.0, none)

unfoldable pub after_detect : Nodes → Kernel → Loader × ℕ → Loader × Option ℕ
unfolding start_service
after_detect env k (s, zero) = start_service env k s
after_detect env k (s, suc rc) = (s, some (suc rc))

-- `main`: the exit status, or `none` where the process serves.
unfoldable pub startup : Nodes → Kernel → Loader → Loader × Option ℕ
unfolding after_detect
startup env k s = after_detect env k (detect env k s)
