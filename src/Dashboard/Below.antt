-- ===== src/Dashboard/Below.antt =====
-- The readings of the dashboard come from below `--root`.
use mobile_config.Base.{ℕ, ◌≡◌, refl, ap, ◌++◌, ℤ, pos}
use mobile_config.Libc.{Bytes, codes}
use mobile_config.Config.{Config, rp}
use mobile_config.Files.{first_line, read_ll}
use mobile_config.System.{System, read_link, good_line}
use mobile_config.System.Below.{
  HasRoot, fs_below, below, rp-IsInside, slurp-below, first_line-below, read_ll-below,
  read_link-below, unit_state-below, failed_units-below,
}
use mobile_config.Collect.Cpu.{CpuSample}
use mobile_config.Collect.Below.{
  cpu_percent-below, cpu_ghz-below, temp_c-below, emmc_health-below, disk_usage-below,
  top_rss-below, ssh_users-below, tty_sessions-below,
}
use mobile_config.Net.Below.{scan_tcp-below, default_gateway-below, iface_addr-below}
use mobile_config.Dashboard.Gather.{line_at, meminfo, battery, current_of, memory_path, gather}

module _ (cfg : Config) (h : HasRoot cfg) (sys : System) where
  line_at-below : (path : Bytes) → line_at cfg (below cfg sys) path ≡ line_at cfg sys path
  unfolding line_at
  line_at-below path =
      ap good_line (first_line-below cfg (rp cfg path) (rp-IsInside cfg h path) sys.fs 8192)

  meminfo-below : meminfo cfg (fs_below cfg sys.fs) ≡ meminfo cfg sys.fs
  unfolding meminfo
  meminfo-below =
      rw
        (
          meminfo,
          slurp-below cfg (rp cfg (codes "/proc/meminfo"))
              (rp-IsInside cfg h (codes "/proc/meminfo")) sys.fs 8192,
        )
        refl

  battery-below : (leaf : Bytes) → battery cfg (fs_below cfg sys.fs) leaf ≡ battery cfg sys.fs leaf
  unfolding battery
  battery-below leaf =
      let path = codes "/sys/class/power_supply/battery/" ++ leaf in
      read_ll-below cfg (rp cfg path) (rp-IsInside cfg h path) sys.fs (pos 0)

  current_of-below : current_of cfg (fs_below cfg sys.fs) ≡ current_of cfg sys.fs
  unfolding current_of
  current_of-below =
      rw (battery-below (codes "current_avg"), battery-below (codes "current_now")) refl

  first_there :
      (path : Bytes) (n : ℕ)
      → first_line (fs_below cfg sys.fs) (rp cfg path) n ≡ first_line sys.fs (rp cfg path) n
  first_there path n = first_line-below cfg (rp cfg path) (rp-IsInside cfg h path) sys.fs n

  number_there :
      (path : Bytes)
      → read_ll (fs_below cfg sys.fs) (rp cfg path) (pos 0) ≡ read_ll sys.fs (rp cfg path) (pos 0)
  number_there path = read_ll-below cfg (rp cfg path) (rp-IsInside cfg h path) sys.fs (pos 0)

  link_there :
      (path : Bytes) (n : ℕ)
      → read_link (below cfg sys) (rp cfg path) n ≡ read_link sys (rp cfg path) n
  link_there path n = read_link-below cfg (rp cfg path) (rp-IsInside cfg h path) sys n

-- With a root that is given and fits a path's buffer, the readings of a frame and the sample of the
-- processor depend on nothing outside it: they are the same for a system from which every file,
-- directory, link and session elsewhere is taken away, and statvfs, the interfaces and the bus with them.
pub gather-below :
    (cfg : Config) (sys : System) (cores : ℤ) (peers : Bytes) (prev : CpuSample)
    → HasRoot cfg
    → gather cfg (below cfg sys) cores peers prev ≡ gather cfg sys cores peers prev
unfolding gather
gather-below cfg sys cores peers prev h =
    rw
      (
        line_at-below cfg h sys (codes "/proc/loadavg"),
        line_at-below cfg h sys (codes "/sys/block/zram0/mm_stat"),
        line_at-below cfg h sys (codes "/proc/version"),
        line_at-below cfg h sys (codes "/proc/uptime"),
        cpu_percent-below cfg h sys.fs prev,
        meminfo-below cfg h sys,
        current_of-below cfg h sys,
        scan_tcp-below cfg h sys.fs,
        first_there cfg h sys (codes "/sys/class/power_supply/battery/status") 32,
        first_there cfg h sys (codes "/proc/sys/kernel/hostname") 128,
        link_there cfg h sys (codes "/nix/var/nix/profiles/system") 8192,
        link_there cfg h sys (codes "/run/booted-system") 4096,
        link_there cfg h sys (codes "/run/current-system") 4096,
        cpu_ghz-below cfg h sys 32,
        temp_c-below cfg h sys.fs (codes "/sys/class/thermal/thermal_zone1/temp") 16,
        top_rss-below cfg h sys 256,
        emmc_health-below cfg h sys.fs 128,
        battery-below cfg h sys (codes "capacity"),
        battery-below cfg h sys (codes "voltage_now"),
        battery-below cfg h sys (codes "temp"),
        battery-below cfg h sys (codes "charge_counter"),
        battery-below cfg h sys (codes "charge_full"),
        number_there cfg h sys (codes "/sys/class/power_supply/main/input_current_now"),
        iface_addr-below cfg h sys 64 (codes "rndis0"),
        iface_addr-below cfg h sys 64 (codes "tailscale0"),
        default_gateway-below cfg h sys.fs 64,
        ssh_users-below cfg h sys 256,
        tty_sessions-below cfg h sys 512,
        failed_units-below cfg h sys 512,
      )
      (λ i. (
        (gather cfg sys cores peers prev).0,
        record (gather cfg sys cores peers prev).1 {
          fs_total_kb = pos (disk_usage-below cfg h sys i).total_kb;
          fs_used_kb = pos (disk_usage-below cfg h sys i).used_kb;
          fs_pct = (disk_usage-below cfg h sys i).pct;
          unit_state = λ unit. unit_state-below cfg h sys 64 unit i;
          unit_memory = λ unit. number_there cfg h sys (memory_path unit) i;
        },
      ))
