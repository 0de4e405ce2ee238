-- ===== src/Tests/Loader.antt =====
-- Runs and instances for modules/connectivity/wmt-loader.c.
use mathlib.Core.List.{Perm}
use mathlib.Core.List.Perm
use mobile_config.Base.{
  ◌≡◌, refl, true, false, List, [], ◌∷◌, none, some, pos, replicate, ◌≤◌, ◌⊎◌, length, leb,
}
use mobile_config.Libc.{Bytes, codes}
use mobile_config.Wmt.Firmware.{
  Store, collect, matches, scan_dir, sorted_within, sort, insert, read_patch_header, parse_header,
  max_patch_num,
}
use mobile_config.Wmt.Patches.{
  Kernel, Loader, set_stp_mode, set_patch_num, ioctl, handle_patch, patch_names, patch_loop,
  announce,
}
use mobile_config.Wmt.Startup.{
  Nodes, startup, after_detect, start_service, detect, set_chip, clean_up, init_chip, wait_for_node,
  polls, exit_retryable, exit_latched,
}
use mobile_config.Wmt.Serve.{Round, interrupted, broken, command, Served, serve-Served}
use mobile_config.Wmt.Order.{picked, IsSorted, collect_any_order, collect_sound}
use mobile_config.Wmt.Exit.{has_init, detect_calls, startup_boundary, startup_order}
use mobile_config.Wmt.Once.{told, handle_patch_order}

-- Every ioctl answers with the chip id.
abbrev kernel : Kernel
kernel = λ before call. pos 0x6771

abbrev fresh : Loader
fresh = record { calls = []; announced = false }

-- The node of the service appears after half a second.
abbrev nodes : Nodes
nodes = record {
  detect_opens = true;
  wmt_there = λ i. leb 5 i;
  wmt_opens = true;
  forks = true;
  wifi_there = λ i. true;
  wifi_opens = true;
  written = pos 1;
}

startup_boundary_example :
    ((has_init (startup nodes kernel fresh).0.calls ≡ false)
      × ((startup nodes kernel fresh).1 ≡ some exit_retryable))
    ⊎ ((has_init (startup nodes kernel fresh).0.calls ≡ true)
        × (((startup nodes kernel fresh).1 ≡ none)
            ⊎ ((startup nodes kernel fresh).1 ≡ some exit_latched)))
startup_boundary_example = startup_boundary nodes kernel fresh refl

serves : (startup nodes kernel fresh).1 ≡ none
unfolding startup after_detect start_service detect set_chip clean_up init_chip wait_for_node polls
    ioctl
serves = refl

startup_order_example :
    (startup nodes kernel fresh).0.calls ≡ set_stp_mode 0x23 ∷ detect_calls (pos 0x6771) []
startup_order_example = startup_order nodes kernel fresh serves

abbrev patch_a : Bytes
patch_a = codes "soc3_patch_1_hdr.bin"

abbrev patch_b : Bytes
patch_b = codes "soc3_patch_2_hdr.bin"

-- Two patches, and a file that is none; every file is 40 bytes long.
abbrev store : Store
store = record {
  firmware_dir = codes "/fw";
  entries = some (patch_b ∷ codes "wifi.cfg" ∷ patch_a ∷ []);
  bytes = λ path. some (replicate 40 1);
}

abbrev patches : List Bytes
patches = patch_a ∷ patch_b ∷ []

collected : collect store (codes "_patch_") max_patch_num ≡ some patches
unfolding collect matches scan_dir sorted_within sort insert
collected = refl

collect_any_order_example :
    collect (record store { entries = some (patch_a ∷ patch_b ∷ []) }) (codes "_patch_") 10
    ≡ collect (record store { entries = some (patch_b ∷ patch_a ∷ []) }) (codes "_patch_") 10
collect_any_order_example =
    collect_any_order store (codes "_patch_") 10 (patch_a ∷ patch_b ∷ []) (patch_b ∷ patch_a ∷ [])
      (Perm.swap patch_b patch_a [])

collect_sound_example :
    IsSorted patches
    × Perm patches (picked (codes "_patch_") (patch_b ∷ codes "wifi.cfg" ∷ patch_a ∷ []))
    × (length (picked (codes "_patch_") (patch_b ∷ codes "wifi.cfg" ∷ patch_a ∷ [])) ≤ 10)
collect_sound_example =
    collect_sound store (codes "_patch_") 10 (patch_b ∷ codes "wifi.cfg" ∷ patch_a ∷ []) refl
      collected

abbrev asks : List (Store × Bytes)
asks = (store, codes "srh_patch") ∷ (store, codes "srh_rom_patch") ∷ (store, codes "srh_patch") ∷ []

abbrev after_first : Loader
after_first = record { calls = set_patch_num 2 ∷ []; announced = true }

succeeds : (handle_patch store kernel after_first).1 ≡ true
unfolding handle_patch patch_names announce patch_loop read_patch_header parse_header collect
    matches scan_dir sorted_within sort insert ioctl
succeeds = refl

handle_patch_order_example :
    (handle_patch store kernel after_first).0.calls ≡ told store 1 patches (set_patch_num 2 ∷ [])
handle_patch_order_example = handle_patch_order store kernel after_first refl collected succeeds

abbrev rounds : List Round
rounds =
    command store (codes "srh_patch") (some true)
    ∷ interrupted
    ∷ command store (codes "open_stp") none
    ∷ broken
    ∷ []

serve-Served_example :
    Served kernel rounds (record { loader = fresh; child = true; powered = none; replies = [] })
serve-Served_example =
    serve-Served kernel rounds
      (record { loader = fresh; child = true; powered = none; replies = [] }) refl
