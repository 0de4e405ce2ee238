-- ===== src/Tests/Golden.antt =====
-- The collectors on the fixture of modules/console/tests: the values of its expected/dashboard.txt. Rows
-- are cut behind the columns that are read, and of the processes those with the greatest memory, the
-- root's session and one more are kept.
use mobile_config.Base.{◌≡◌, refl, List, [], ◌∷◌, ◌++◌, some, pos}
use mobile_config.Libc.{
  Bytes, codes, dec, dec_ℤ, dec0, strtoll, atoi, to_int32, scan_ll, scan_ull, scan_word, scan_x,
  strtol16, strtoul16, put_piece, put_word, shown_or_dash, lines_of,
}
use mobile_config.Config.{Config, default_config, rp}
use mobile_config.Files.{first_line, slurp, read_ll}
use mobile_config.System.{System, fixture, fixture_path}
use mobile_config.Tests.Systems.{system_with}
use mobile_config.Collect.Cpu.{cores_in, core_count, top_freq, cpu_ghz, temp_c}
use mobile_config.Collect.Storage.{
  usage_of, disk_usage, scan_statvfs, fixture_statvfs, life_in, life_of, life_text, eol_text,
  emmc_health, zram_in,
}
use mobile_config.Collect.Procs.{
  scan_procs, collect_procs, proc_of, resident_in, insert_rss, sort_rss, put_procs, top_rss,
}
use mobile_config.Collect.Sessions.{
  ssh_users, collect_users, user_of, user_in, named_in, is_user, cmdline, put_users,
}
use mobile_config.Net.{
  clients_on, peers_on, put_peers, listening_ports, listeners, sort_ports, insert_port, put_ports,
}
use mobile_config.Net.Scan.{
  scan_line, scan_tcp, scan_tcp_file, scan_lines, scan_row, conn_of, host_text, word_at, format_v4,
}
use mobile_config.Net.Route.{
  scan_route, find_gateway, default_gateway, scan_ifaddr, find_fixture, iface_addr,
}

abbrev pub with_root : Config
with_root = record default_config { root = codes "/f" }

abbrev pids : List Bytes
pids = codes "1" ∷ codes "21309" ∷ codes "1263" ∷ codes "876" ∷ codes "538" ∷ codes "936" ∷ []

abbrev cpus : List Bytes
cpus = codes "cpu0" ∷ codes "cpu1" ∷ codes "cpufreq" ∷ []

abbrev pub device : System
device = system_with ((codes "/f/proc", pids) ∷ (codes "/f/sys/devices/system/cpu", cpus) ∷ []) (
    (
      codes "/f/proc/net/tcp",
      codes "  sl  local_address rem_address   st t\n"
          ++ (codes "   0: 00000000:0016 00000000:0000 0A 0\n"
              ++ (codes "   1: 00000000:1538 00000000:0000 0A 0\n"
                  ++ (codes "   2: 287A5064:CE24 00000000:0000 0A 0\n"
                      ++ (codes "   3: 00000000:18EB 00000000:0000 0A 0\n"
                          ++ (codes "   4: 00000000:08AE 00000000:0000 0A 0\n"
                              ++ (codes "   5: 012A10AC:0016 022A10AC:A792 01 0\n"
                                  ++ (codes "   6: 012A10AC:CEC6 7200C8C0:01BB 01 0\n"
                                      ++ (codes "   7: 012A10AC:BA14 6488A5C7:01BB 01 0\n"
                                          ++ (codes
                                              "   8: 012A10AC:8F86 8DF349C0:01BB 01 0\n"))))))))),
    )
    ∷ (
      codes "/f/proc/net/tcp6",
      codes
            "  sl  local_address                         remote_address                        st tx_queue rx_queue tr tm->when retrnsmt   uid  timeout inode\n"
          ++ (codes
                "   0: 5C117AFD0000E0A100000000297A3BB1:DA73 00000000000000000000000000000000:0000 0A 0\n"
              ++ (codes
                    "   1: 00000000000000000000000000000000:0016 00000000000000000000000000000000:0000 0A 0\n"
                  ++ (codes
                        "   2: 00000000000000000000000000000000:1538 00000000000000000000000000000000:0000 0A 0\n"
                      ++ (codes
                          "   3: 00000000000000000000000000000000:08AE 00000000000000000000000000000000:0000 0A 0\n")))),
    )
    ∷ (
      codes "/f/proc/net/route",
      codes "Iface\tDestination\tGateway \tFlags\n"
          ++ (codes "rndis0\t00000000\t022A10AC\t0003\n"
              ++ (codes "rndis0\t000010AC\t00000000\t0001\n"
                  ++ (codes "rndis0\t002A10AC\t00000000\t0001\n"))),
    )
    ∷ (
      codes "/f/proc/stat",
      codes "cpu  342853 28 424594 8878881 16150 0 205 0 0 0\n"
          ++ (codes "cpu0 81268 12 96434 1024733 4592 0 18 0 0 0\n"
              ++ (codes "cpu1 64593 7 81566 1060724 2151 0 30 0 0 0\n"
                  ++ (codes "cpu2 44891 0 52174 1112704 1311 0 59 0 0 0\n"
                      ++ (codes "cpu3 31755 2 39441 1140325 860 0 42 0 0 0\n"
                          ++ (codes "cpu4 39444 1 50086 1111919 2132 0 15 0 0 0\n"
                              ++ (codes "cpu5 35018 2 44850 1122550 2125 0 13 0 0 0\n"
                                  ++ (codes "cpu6 25910 0 32941 1146023 1515 0 12 0 0 0\n"
                                      ++ (codes "cpu7 19970 0 27098 1159899 1459 0 14 0 0 0\n"
                                          ++ (codes "ctxt 22160745\n"))))))))),
    )
    ∷ (codes "/f/sys/devices/system/cpu/cpu0/cpufreq/scaling_cur_freq", codes "2001000\n")
    ∷ (codes "/f/sys/devices/system/cpu/cpu1/cpufreq/scaling_cur_freq", codes "2001000\n")
    ∷ (codes "/f/sys/class/thermal/thermal_zone1/temp", codes "33000\n")
    ∷ (codes "/f/sys/block/mmcblk0/device/life_time", codes "0x03 0x03\n")
    ∷ (codes "/f/sys/block/mmcblk0/device/pre_eol_info", codes "01\n")
    ∷ (codes "/f/fixture/statvfs", codes "4112431 2988663 2984567 4096\n")
    ∷ (
      codes "/f/fixture/ifaddr",
      codes "lo 127.0.0.1/8\n"
          ++ (codes "rndis0 172.16.42.1/16\n"
              ++ (codes "rndis0 172.16.42.1/24\n" ++ (codes "tailscale0 100.80.122.40/32\n"))),
    )
    ∷ (
      codes "/f/proc/meminfo",
      codes "MemTotal:        1921000 kB\n"
          ++ (codes "MemFree:          856020 kB\n"
              ++ (codes "MemAvailable:    1691944 kB\n"
                  ++ (codes "SwapCached:            0 kB\n"
                      ++ (codes "SwapTotal:        960496 kB\n"
                          ++ (codes "SwapFree:         960496 kB\n"))))),
    )
    ∷ (codes "/f/proc/sys/kernel/hostname", codes "thompson\n")
    ∷ (codes "/f/proc/loadavg", codes "25.49 25.74 25.89 4/366 698385\n")
    ∷ (
      codes "/f/proc/version",
      codes
          "Linux version 4.9.190 (nixbld@localhost) (gcc version 13.4.0 (GCC) ) #1-mobile-nixos SMP PREEMPT Tue Jan 1 00:00:00 UTC 1980\n",
    )
    ∷ (codes "/f/proc/uptime", codes "12160.07 89455.66\n")
    ∷ (
      codes "/f/sys/block/zram0/mm_stat",
      codes "    4096       44     4096        0     4096        0        0\n",
    )
    ∷ (codes "/f/fixture/units/sshd.service", codes "active\n")
    ∷ (codes "/f/fixture/units/tailscaled.service", codes "active\n")
    ∷ (codes "/f/fixture/tailscale-peers", codes "8\n")
    ∷ (codes "/f/fixture/failed", codes "\n")
    ∷ (codes "/f/sys/class/leds/lcd-backlight/brightness", codes "200\n")
    ∷ (codes "/f/sys/class/leds/lcd-backlight/max_brightness", codes "2047\n")
    ∷ (codes "/f/sys/class/power_supply/main/input_current_now", codes "480000\n")
    ∷ (codes "/f/sys/fs/cgroup/system.slice/sshd.service/memory.current", codes "495337472\n")
    ∷ (codes "/f/sys/fs/cgroup/system.slice/tailscaled.service/memory.current", codes "64888832\n")
    ∷ (codes "/f/sys/class/power_supply/battery/current_avg", codes "0\n")
    ∷ (codes "/f/sys/class/power_supply/battery/current_now", codes "-900\n")
    ∷ (codes "/f/sys/class/power_supply/battery/charge_full", codes "5071000\n")
    ∷ (codes "/f/sys/class/power_supply/battery/voltage_now", codes "4319000\n")
    ∷ (codes "/f/sys/class/power_supply/battery/status", codes "Full\n")
    ∷ (codes "/f/sys/class/power_supply/battery/capacity", codes "53\n")
    ∷ (codes "/f/sys/class/power_supply/battery/temp", codes "329\n")
    ∷ (codes "/f/sys/class/power_supply/battery/charge_counter", codes "2687630\n")
    ∷ (codes "/f/proc/21309/comm", codes "sshd-session\n")
    ∷ (codes "/f/proc/21309/statm", codes "4824 1696 1178 219 0 417 0\n")
    ∷ (codes "/f/proc/21309/cmdline", codes "sshd-session: root@notty")
    ∷ (codes "/f/proc/1263/comm", codes "postgres\n")
    ∷ (codes "/f/proc/1263/statm", codes "73270 7793 7259 3092 0 410 0\n")
    ∷ (codes "/f/proc/876/comm", codes "dbus-broker-lau\n")
    ∷ (codes "/f/proc/876/statm", codes "3068 1608 1274 27 0 375 0\n")
    ∷ (codes "/f/proc/538/comm", codes "systemd-journal\n")
    ∷ (codes "/f/proc/538/statm", codes "51956 27664 27358 54 0 4497 0\n")
    ∷ (codes "/f/proc/936/comm", codes ".tailscaled-wra\n")
    ∷ (codes "/f/proc/936/statm", codes "342007 13918 7708 9418 0 39988 0\n")
    ∷ [])

-- listening and peers
golden_ports :
    (listening_ports 1024 (scan_tcp with_root device.fs) ≡ codes "22 2222 5432 6379 52772 55923")
    × (peers_on 512 (pos 22) (scan_tcp with_root device.fs) ≡ codes "172.16.42.2:42898")
    × (clients_on (pos 22) (scan_tcp with_root device.fs) ≡ 1)
unfolding listening_ports listeners sort_ports insert_port put_ports peers_on put_peers clients_on
    put_word put_piece shown_or_dash lines_of scan_tcp scan_tcp_file scan_lines scan_line scan_row
    conn_of host_text word_at format_v4 slurp rp scan_ll scan_word scan_x strtol16 strtoul16
    to_int32 dec dec_ℤ
golden_ports = (refl, refl, refl)

-- gateway, rndis0 and tailscale0
golden_routes :
    (default_gateway with_root device.fs 64 ≡ codes "172.16.42.2")
    × (iface_addr with_root device 64 (codes "rndis0") ≡ codes "172.16.42.1/16")
    × (iface_addr with_root device 64 (codes "tailscale0") ≡ codes "100.80.122.40/32")
unfolding default_gateway find_gateway scan_route iface_addr find_fixture scan_ifaddr fixture
    fixture_path lines_of format_v4 slurp rp scan_word scan_x strtoul16 dec
golden_routes = (refl, refl, refl)

-- CPU: eight cores, and the frequency and the temperature
golden_cpu :
    (core_count with_root device.fs ≡ 8)
    × (cpu_ghz with_root device 32 ≡ codes "2.00GHz")
    × (temp_c with_root device.fs (codes "/sys/class/thermal/thermal_zone1/temp") 16 ≡ codes "33")
unfolding core_count cores_in cpu_ghz top_freq temp_c read_ll first_line slurp rp strtoll to_int32
    dec dec_ℤ dec0
golden_cpu = (refl, refl, refl)

-- MEM: the three largest
golden_top :
    top_rss with_root device 256 ≡ codes "systemd-journal 108M  .tailscaled-wra 54M  postgres 30M  "
unfolding top_rss scan_procs collect_procs proc_of resident_in first_line slurp rp insert_rss
    sort_rss put_procs put_piece scan_ll atoi strtoll to_int32 dec dec_ℤ
golden_top = refl

-- DISK and SWAP: the health, the blocks, and what zram holds
golden_disk :
    (emmc_health with_root device.fs 128 ≡ codes "emmc 20-30% used, normal")
    × ((disk_usage with_root device).total_kb ≡ 16449724)
    × ((disk_usage with_root device).used_kb ≡ 4495072)
    × ((disk_usage with_root device).pct ≡ pos 28)
    × (zram_in (some (codes "    4096       44     4096        0     4096        0        0"))
        ≡ (pos 44, codes "93.0x"))
unfolding emmc_health life_in life_of life_text eol_text disk_usage usage_of fixture fixture_path
    fixture_statvfs scan_statvfs zram_in first_line slurp rp scan_ll scan_ull scan_word strtol16
    to_int32 dec dec_ℤ
golden_disk = (refl, refl, refl, refl, refl)

-- SSH
golden_users : ssh_users with_root device 256 ≡ codes "root"
unfolding ssh_users collect_users user_of user_in named_in is_user cmdline slurp rp put_users
    put_word put_piece shown_or_dash
golden_users = refl
