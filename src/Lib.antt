-- ===== src/Lib.antt =====
-- The console panel and the Wi-Fi loader of this repository: modules/console/panel.c and
-- modules/connectivity/wmt-loader.c.
--
-- The panel draws a dashboard, a menu and a pager on the phone's console, reads the three hardware
-- keys and a keyboard, and switches the backlight and the torch through files of /sys. One process
-- loops over epoll: a key or a byte becomes an action, an action changes the view, and a repaint builds
-- the frame in a buffer and sends the rows that changed. The loader brings up the connectivity chip by a
-- fixed sequence of ioctls and then serves the commands with which the kernel asks for firmware patches.
--
-- Files and code:
--  Base       native numbers, integers, lists and Boolean tests
--  Libc       byte strings, snprintf, decimal printing, strtoll and atoi
--  Config     struct service, cfg, rp, add_service, parse_args
--  Files      slurp, first_line, read_ll, write_num on a map from paths to contents
--  System     what is read besides files; fixture, read_link, unit_state, failed_units; the files named
--             Below are about --root
--  Backlight  backlight_level, display_off, display_on, display_toggle, torch_level, torch_toggle
--  Screen     struct screen, screen_reset, out, label, emit, render; Terminal says what the
--             emitted sequences are to do, Vt is a terminal that is fed their bytes
--  Format     human_kb, duration, bar, state_of
--  Collect    core_count, cpu_percent, cpu_ghz, temp_c in Cpu; emmc_health, endurance, disk_usage in
--             Storage; scan_procs, top_rss in Procs; ssh_users, tty_sessions in Sessions
--  Net        clients_on, peers_on, listening_ports; Scan is scan_tcp; Route is default_gateway and
--             iface_addr
--  Text       Buffer is struct textbuf; load_journal, load_kmsg, and in Lists load_units, load_network
--             and load_processes
--  Dashboard  logo, tagline, build_dashboard_body, build_dashboard; Gather is the part of
--             build_dashboard_body that asks the collectors
--  Views      the globals of the panel, build_menu, build_pager, pager_open, pager_refresh, repaint,
--             repaint_logo_only, menu_activate, handle_action, handle_char; Sources ties the texts and
--             the readings of Text and Dashboard.Gather to the views
--  Keys       keys_timeout, an event of keys_readable, wake_guard, key_token and the poll timeout of
--             keys_command
--  Daemon     keys_deliver with mode_keys set, keys_readable, the loop of keys_command
--  Tailscale  tailscale_start, tailscale_drain
--  Machine    stdin_readable, keys_deliver in the panel, the loop of main
--  Start      main: the subcommands and --once in Commands, the panel's process in Process; the terminal,
--             keys_listen and keys_connect
--  Wmt        Firmware is collect and read_patch_header; Patches is handle_rom_patch, handle_patch and
--             handle_command; Startup is detect, power_on and the first part of main; Serve is its loop
--  Tests      runs, and the properties at concrete inputs; Frame computes --once on the fixture of
--             modules/console/tests and compares it with expected/dashboard.txt, row by row
--
-- Conventions. Strings are lists of bytes without the final NUL. An int or long is an integer; a
-- conversion from text saturates or wraps as the source's own conversion does. Rows of a screen are a
-- function of the row number, since an array keeps the rows of older frames. Loops recurse on the
-- rounds left, with the number of rounds taken from the loop's condition: 20 digits for a 64-bit
-- number, 100 rounds for a node to appear, as many rows as the frame has. The loop of tagline does not
-- end on every terminal: pad_down then gives none for every number of rounds, a panel that repaints is
-- hung, and run_once and run_panel give none.
--
-- How the parts meet. Dashboard.Gather turns the system (System) and the last sample of the processor into
-- the readings that build_dashboard draws; Views.Sources makes of the same system the environment that an
-- event of Machine comes with; Start.Commands runs both once for --once; Start.Process starts the
-- Machine and the terminal and ends with term_restore. Commands and the Machine ask tailscale alike, with
-- what its calls answer as arguments.
--
-- Outside the model. The kernel's answers to ioctls are an arbitrary function of the calls before them.
-- libsystemd, getifaddrs, utmp, statvfs, localtime, readdir and getopt_long are arguments: fields of
-- System, a Journal, a Bus, a Getopt. A text is stated for an allocator that has memory, except in
-- Text.Buffer. Log lines, signal handlers, the registration of descriptors with epoll and the timers'
-- settings are left out: they are calls of the system only. The sums and products of 64-bit counters
-- in Collect are taken to fit, except in Cpu and usage_of, which wrap. Under src/ there is also NixOS
-- configuration, kernel patches and Python tools, which are not modelled.
pub mod Base
pub mod Libc
pub mod Config
pub mod Files
pub mod System
pub mod Backlight
pub mod Screen
pub mod Format
pub mod Collect
pub mod Net
pub mod Text
pub mod Dashboard
pub mod Views
pub mod Keys
pub mod Daemon
pub mod Tailscale
pub mod Machine
pub mod Start
pub mod Wmt
pub mod Tests
