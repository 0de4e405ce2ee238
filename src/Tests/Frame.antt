-- ===== src/Tests/Frame.antt =====
-- `--once` on the fixture of modules/console/tests, row by row against its expected/dashboard.txt.
use mobile_config.Base.{
  ◌≡◌, refl, true, false, List, [], ◌∷◌, ◌++◌, if◌then◌else◌, Option, some, pos, ℤ, eqb_ℤ, arith,
}
use mobile_config.Libc.{
  Bytes, codes, streq, dec, dec_ℤ, dec0, dec_plus, strtoll, to_int32, wrap64, atoi, atol, scan_ll,
  scan_ull, strtoul16, strtol16, scan_x, scan_word, lines_of, put_piece, put_word, shown_or_dash,
}
use mobile_config.Config.{Config, rp}
use mobile_config.Files.{slurp, first_line, read_ll}
use mobile_config.System.{System, fixture_path, fixture, read_link, unit_state, failed_units}
use mobile_config.Backlight.{
  backlight_path, saved_level_path, torch_path, backlight_level, is_lit, display_off, display_on,
  display_toggle, torch_level, switched, torch_toggle,
}
use mobile_config.Screen.{Screen, screen_reset, out_byte, out_bytes, out, newlines, label}
use mobile_config.Format.{human_kb, duration, bar_filled, bar_colour, bar_cells, bar, state_of}
use mobile_config.Collect.Cpu.{
  cores_in, core_count, counters, sample_of, percent_since, sample_in, used_sample, sample_of_read,
  cpu_percent, top_freq, cpu_ghz, temp_c,
}
use mobile_config.Collect.Storage.{
  life_of, life_in, life_text, eol_text, emmc_health, minutes_text, endurance, scan_statvfs,
  fixture_statvfs, usage_of, disk_usage, zram_in,
}
use mobile_config.Collect.Procs.{
  resident_in, proc_of, collect_procs, insert_rss, sort_rss, scan_procs, put_procs, top_rss,
}
use mobile_config.Collect.Sessions.{
  cmdline, is_user, named_in, user_in, user_of, collect_users, put_users, ssh_users, session_text,
  put_sessions, tty_sessions,
}
use mobile_config.Net.{
  clients_on, put_peers, peers_on, listeners, insert_port, sort_ports, put_ports, listening_ports,
}
use mobile_config.Net.Scan.{
  format_v4, scan_row, word_at, host_text, conn_of, scan_line, scan_lines, scan_tcp_file, scan_tcp,
}
use mobile_config.Net.Route.{
  scan_route, find_gateway, default_gateway, scan_ifaddr, find_fixture, leading_ones,
  interface_text, find_interface, iface_addr,
}
use mobile_config.Dashboard.Logo.{
  logo_gap, ramp_byte, row_from, logo_row, fire_bands, frost_bands, band, scroll, top_half,
  bottom_half, split_rows, logo, tag, pad_down, tag_left, tagline,
}
use mobile_config.Dashboard.Body.{
  top_margin, heading, host_lines, cpu_line, usage_line, memory_lines, battery_line, panel_line,
  net_lines, service_line, service_lines, last_lines, build_dashboard_body,
}
use mobile_config.Dashboard.{build_logo, build_dashboard}
use mobile_config.Dashboard.Gather.{
  line_at, words_in, kernel_in, generation_in, scan_mem, set_mem, mem_lines, meminfo, battery,
  flow_of, current_of, uptime_of, load_words, gather,
}
use mobile_config.Start.Commands.{once_rows, printed_frame, drain_running, once_peers, run_once}
use mobile_config.Screen.{esc}
use mobile_config.Start.Commands.{Asked}
use mobile_config.Tailscale.{tailscale_start, some_bytes, ended}
use mobile_config.System.Below.{HasRoot, below}
use mobile_config.Start.Hermetic.{run_once-below}
use mobile_config.Tests.Golden.{with_root, device}

abbrev options : Config
options = record with_root {
  fixed_now = pos 1770000000;
  once = true;
  subtitle = codes "xiaomi redmi 9a . mt6765";
  load_note = codes "23 mt6765 vendor threads sit in D forever";
  services =
      record { unit = codes "sshd"; port = pos 22 }
      ∷ record { unit = codes "tailscaled"; port = pos 0 }
      ∷ [];
}

-- The clock in UTC, at the three times that occur.
abbrev clock : Bytes → ℤ → Option Bytes
clock format t =
    if streq format (codes "%H:%M")
    then some (if eqb_ℤ t (pos 1) then codes "02:30" else codes "02:38")
    else some (codes "2026-02-02 02:40:00")

abbrev phone : System
phone = record device {
  link = λ p.
      if streq p (codes "/f/nix/var/nix/profiles/system")
      then some (codes "system-21-link")
      else if streq p (codes "/f/run/booted-system")
      then some (codes "/nix/store/a")
      else some (codes "/nix/store/b");
  local_time = clock;
  utmp = λ p.
      record { user = codes "root"; tty = codes "tty1"; since = pos 1 }
      ∷ record { user = codes "luisnquin"; tty = codes "pts/0"; since = pos 2 }
      ∷ [];
}

abbrev blank : Screen
blank = record { line = λ i. []; n = 0 }

-- Two answers to the calls that ask tailscale.
abbrev asked : Asked
asked = record { pipes = false; forks = false; reads = [] }

abbrev other_asked : Asked
other_asked = record {
  pipes = true;
  forks = true;
  reads = some_bytes (codes "100.64.0.1 phone\n") ∷ ended true ∷ [];
}

abbrev expected : List Bytes
expected =
    ([])
    ∷ ([])
    ∷ ([])
    ∷ ([])
    ∷ ([])
    ∷ ((codes "  ")
        ++ ((esc (codes "1m"))
            ++ ((esc (codes "36mTHOMPSON"))
                ++ ((esc (codes "0m   "))
                    ++ ((esc (codes "2mxiaomi redmi 9a . mt6765 . 2026-02-02 02:40:00"))
                        ++ (esc (codes "0m")))))))
    ∷ ([])
    ∷ ((codes " ")
        ++ ((esc (codes "36mHOST  "))
            ++ ((esc (codes "0m "))
                ++ ((esc (codes "1mthompson"))
                    ++ ((esc (codes "0m   linux 4.9.190   gen "))
                        ++ ((esc (codes "33m21")) ++ (esc (codes "0m   up 3h 22m"))))))))
    ∷ ((codes " ")
        ++ ((esc (codes "36mLOAD  "))
            ++ ((esc (codes "0m 25.49 25.74 25.89   procs 4/366   "))
                ++ ((esc (codes "2m23 mt6765 vendor threads sit in D forever"))
                    ++ (esc (codes "0m"))))))
    ∷ ([])
    ∷ ((codes " ")
        ++ ((esc (codes "36mCPU   "))
            ++ ((esc (codes "0m "))
                ++ ((esc (codes "32m[..........]"))
                    ++ (esc (codes "0m   0%   8x 2.00GHz   soc 33C"))))))
    ∷ ((codes " ")
        ++ ((esc (codes "36mMEM   "))
            ++ ((esc (codes "0m "))
                ++ ((esc (codes "32m[#.........]"))
                    ++ ((esc (codes "0m   223M / 1.8G   "))
                        ++ ((esc (
                              codes
                                "2mtop systemd-journal 108M  .tailscaled-wra 54M  postgres 30M  "))
                            ++ (esc (codes "0m"))))))))
    ∷ ((codes " ")
        ++ ((esc (codes "36mSWAP  "))
            ++ ((esc (codes "0m "))
                ++ ((esc (codes "32m[..........]"))
                    ++ ((esc (codes "0m     0K / 937M   "))
                        ++ ((esc (codes "2mzram holds 0K at 93.0x")) ++ (esc (codes "0m"))))))))
    ∷ ((codes " ")
        ++ ((esc (codes "36mDISK  "))
            ++ ((esc (codes "0m "))
                ++ ((esc (codes "32m[##........]"))
                    ++ ((esc (codes "0m   4.2G / 15.6G  "))
                        ++ ((esc (codes "2memmc 20-30% used, normal")) ++ (esc (codes "0m"))))))))
    ∷ ((codes " ")
        ++ ((esc (codes "36mBATT  "))
            ++ ((esc (codes "0m "))
                ++ ((esc (codes "32m[#####.....]"))
                    ++ ((esc (codes "0m  53%  Full     4.319V  -90mA  32.9C  "))
                        ++ ((esc (codes "2mfull, in 480mA")) ++ (esc (codes "0m"))))))))
    ∷ ((codes " ")
        ++ ((esc (codes "36mPANEL "))
            ++ ((esc (codes "0m on  ")) ++ ((esc (codes "2m200 of 2047")) ++ (esc (codes "0m"))))))
    ∷ ([])
    ∷ ((codes " ")
        ++ ((esc (codes "36mNET   "))
            ++ (esc (codes "0m rndis0      172.16.42.1/16       tailscale0  100.80.122.40/32"))))
    ∷ (codes "        gateway     172.16.42.2          peers       8")
    ∷ ((codes "        ")
        ++ ((esc (codes "2mlistening   22 2222 5432 6379 52772 55923")) ++ (esc (codes "0m"))))
    ∷ ([])
    ∷ ((codes " ")
        ++ ((esc (codes "36mSVC   "))
            ++ ((esc (codes "0m "))
                ++ ((esc (codes "1msshd       "))
                    ++ ((esc (codes "0m "))
                        ++ ((esc (codes "32mactive  "))
                            ++ (esc (codes "0m   472M  1 clients"))))))))
    ∷ ((codes "        ")
        ++ ((esc (codes "1mtailscaled "))
            ++ ((esc (codes "0m ")) ++ ((esc (codes "32mactive  ")) ++ (esc (codes "0m    61M"))))))
    ∷ ((codes "        ") ++ ((esc (codes "2mfailed      none")) ++ (esc (codes "0m"))))
    ∷ ([])
    ∷ ((codes " ")
        ++ ((esc (codes "36mSSH   "))
            ++ (esc (codes "0m root                   172.16.42.2:42898"))))
    ∷ ((codes " ")
        ++ ((esc (codes "36mTTY   "))
            ++ (esc (codes "0m root@tty1 since 02:30   luisnquin@pts/0 since 02:38   "))))
    ∷ ([])
    ∷ ((codes " ")
        ++ ((esc (codes "1mpower"))
            ++ ((esc (codes "0m screen   "))
                ++ ((esc (codes "1mhold power"))
                    ++ ((esc (codes "0m menu"))
                        ++ ((esc (codes "2m        every 5s")) ++ (esc (codes "0m"))))))))
    ∷ ([])
    ∷ ([])
    ∷ ([])
    ∷ ([])
    ∷ ([])
    ∷ ([])
    ∷ ((codes "                   ")
        ++ ((esc (codes "2m\"break my feelings with your violence...\"")) ++ (esc (codes "0m"))))
    ∷ []

-- The frame is the expected one.
golden_frame : run_once options phone phone asked 24 80 blank ≡ some expected
unfolding dec dec_ℤ dec0 dec_plus strtoll to_int32 wrap64 atoi atol scan_ll scan_ull strtoul16
    strtol16 scan_x scan_word lines_of put_piece put_word shown_or_dash rp slurp first_line read_ll
    fixture_path fixture read_link unit_state failed_units backlight_path saved_level_path
    torch_path backlight_level is_lit display_off display_on display_toggle torch_level switched
    torch_toggle screen_reset out_byte out_bytes out newlines label human_kb duration bar_filled
    bar_colour bar_cells bar state_of cores_in core_count counters sample_of percent_since sample_in
    used_sample sample_of_read cpu_percent top_freq cpu_ghz temp_c life_of life_in life_text
    eol_text emmc_health minutes_text endurance scan_statvfs fixture_statvfs usage_of disk_usage
    zram_in resident_in proc_of collect_procs insert_rss sort_rss scan_procs put_procs top_rss
    cmdline is_user named_in user_in user_of collect_users put_users ssh_users session_text
    put_sessions tty_sessions clients_on put_peers peers_on listeners insert_port sort_ports
    put_ports listening_ports format_v4 scan_row word_at host_text conn_of scan_line scan_lines
    scan_tcp_file scan_tcp scan_route find_gateway default_gateway scan_ifaddr find_fixture
    leading_ones interface_text find_interface iface_addr logo_gap ramp_byte row_from logo_row
    fire_bands frost_bands band scroll top_half bottom_half split_rows logo tag pad_down tag_left
    tagline top_margin heading host_lines cpu_line usage_line memory_lines battery_line panel_line
    net_lines service_line service_lines last_lines build_dashboard_body build_logo build_dashboard
    line_at words_in kernel_in generation_in scan_mem set_mem mem_lines meminfo battery flow_of
    current_of uptime_of load_words gather once_rows printed_frame drain_running once_peers run_once
    tailscale_start
golden_frame = refl

abbrev rooted : HasRoot options
rooted = record { given = refl; fits = omega arith }

run_once-below_example :
    run_once options (below options phone) (below options phone) asked 24 80 blank
    ≡ run_once options phone phone other_asked 24 80 blank
run_once-below_example = run_once-below options phone phone asked other_asked 24 80 blank rooted
