-- ===== src/Dashboard/Gather.antt =====
-- modules/console/panel.c: `build_dashboard_body` up to its first `out`, with the readings that the
-- lines behind it ask for: the collectors, as the dashboard calls them.
use mobile_config.Base.{
  ℕ, List, [], ◌∷◌, ◌++◌, if◌then◌else◌, Option, none, some, take, drop, get_or, ℤ, pos, ltb_ℤ,
  eqb_ℤ,
}
use mobile_config.Libc.{
  Bytes, codes, snprintf, until, starts_with, streq, strtoll, scan_word, scan_ll, lines_of,
  split_last, split_at, ◌>>=◌,
}
use mobile_config.Config.{Config, rp}
use mobile_config.Files.{Fs, slurp, first_line, read_ll}
use mobile_config.System.{System, read_link, line_or, good_line, unit_state, failed_units}
use mobile_config.Collect.Cpu.{CpuSample, cpu_percent, cpu_ghz, temp_c}
use mobile_config.Collect.Storage.{emmc_health, disk_usage, endurance, zram_in}
use mobile_config.Collect.Procs.{top_rss}
use mobile_config.Collect.Sessions.{ssh_users, tty_sessions}
use mobile_config.Net.{clients_on, peers_on, listening_ports}
use mobile_config.Net.Scan.{scan_tcp}
use mobile_config.Net.Route.{default_gateway, iface_addr}
use mobile_config.Text.Journal.{or_default}
use mobile_config.Dashboard.Body.{Readings}

-- `cfg.fixed_now >= 0 ? cfg.fixed_now : time(NULL)`
abbrev pub shown_time : Config → System → ℤ
shown_time cfg sys = if ltb_ℤ cfg.fixed_now (pos 0) then sys.time else cfg.fixed_now

unfoldable pub line_at : Config → System → Bytes → Option Bytes
unfolding first_line
line_at cfg sys path = good_line (first_line sys.fs (rp cfg path) 8192)

-- The words that `sscanf` assigns, each with its width; the others keep the text `?`.
unfoldable pub words_in : List ℕ → Bytes → List Bytes
unfolding scan_word
words_in [] s = []
words_in (w ∷ ws) s = elim (scan_word w s) [
  | none ↦ codes "?" ∷ words_in ws []
  | some (word, rest) ↦ word ∷ words_in ws rest
]

abbrev pub word_no : ℕ → List Bytes → Bytes
word_no i ws = get_or ws i (codes "?")

-- The third word of `/proc/version`: `"%*s %*s %127s"`.
unfoldable pub kernel_in : Bytes → Option Bytes
unfolding scan_word
kernel_in buf = do
  (_, s1) ← scan_word 8192 buf
  (_, s2) ← scan_word 8192 s1
  (word, _) ← scan_word 127 s2
  some word

abbrev pub behind_slash : Option (Bytes × Bytes) → Bytes → Bytes
behind_slash none whole = whole
behind_slash (some (dir, base)) whole = base

abbrev pub before_link : Option (Bytes × Bytes) → Bytes → Bytes
before_link none whole = whole
before_link (some (name, rest)) whole = name

-- The number in the name `system-N-link` that the profile points to.
unfoldable pub generation_in : Option Bytes → Bytes
generation_in none = codes "?"
generation_in (some to) =
    let base = behind_slash (split_last b'/' to) to in
    let name = if starts_with (codes "system-") base then drop 7 base else base in
    take 63 (before_link (split_at (codes "-link") name) name)

-- `memtotal`, `memavail`, `swaptotal` and `swapfree`
pub record MemInfo : Type 0 where
  pub memtotal : ℤ
  pub memavail : ℤ
  pub swaptotal : ℤ
  pub swapfree : ℤ

abbrev pub no_meminfo : MemInfo
no_meminfo = record { memtotal = pos 0; memavail = pos 0; swaptotal = pos 0; swapfree = pos 0 }

-- `sscanf(l, "%31s %lld", key, &v) == 2`
unfoldable pub scan_mem : Bytes → Option (Bytes × ℤ)
unfolding scan_word scan_ll
scan_mem l = do (key, s1) ← scan_word 31 l; (v, _) ← scan_ll s1; some (key, v)

unfoldable pub set_mem : Option (Bytes × ℤ) → MemInfo → MemInfo
set_mem none m = m
set_mem (some (key, v)) m =
    if streq key (codes "MemTotal:")
    then record m { memtotal = v }
    else if streq key (codes "MemAvailable:")
    then record m { memavail = v }
    else if streq key (codes "SwapTotal:")
    then record m { swaptotal = v }
    else if streq key (codes "SwapFree:")
    then record m { swapfree = v }
    else m

unfoldable pub mem_lines : List Bytes → MemInfo → MemInfo
unfolding scan_mem set_mem
mem_lines [] m = m
mem_lines (l ∷ ls) m = mem_lines ls (set_mem (scan_mem l) m)

unfoldable pub meminfo : Config → Fs → MemInfo
unfolding mem_lines slurp
meminfo cfg fs = elim (slurp fs (rp cfg (codes "/proc/meminfo")) 8192) [
  | none ↦ no_meminfo
  | some buf ↦ mem_lines (lines_of (until 0 buf)) no_meminfo
]

-- `BATF`
unfoldable pub battery : Config → Fs → Bytes → ℤ
unfolding read_ll
battery cfg fs leaf = read_ll fs (rp cfg (codes "/sys/class/power_supply/battery/" ++ leaf)) (pos 0)

unfoldable pub flow_of : Bytes → Bytes
flow_of status =
    if streq status (codes "Charging")
    then codes "charging"
    else if streq status (codes "Full")
    then codes "full"
    else codes "draining"

-- `current_avg`, or `current_now` where that is 0.
unfoldable pub current_of : Config → Fs → ℤ
unfolding battery
current_of cfg fs =
    let avg = battery cfg fs (codes "current_avg") in
    if eqb_ℤ avg (pos 0) then battery cfg fs (codes "current_now") else avg

abbrev pub or_dash : Bytes → Bytes
or_dash [] = codes "-"
or_dash (c ∷ s) = c ∷ s

abbrev pub memory_path : Bytes → Bytes
memory_path unit =
    snprintf 256 (codes "/sys/fs/cgroup/system.slice/" ++ (unit ++ codes ".service/memory.current"))

unfoldable pub uptime_of : Option Bytes → ℤ
unfolding strtoll
uptime_of none = pos 0
uptime_of (some buf) = (strtoll buf).value

unfoldable pub load_words : Option Bytes → List Bytes
unfolding words_in
load_words none = []
load_words (some buf) = words_in (15 ∷ 15 ∷ 15 ∷ 31 ∷ []) buf

-- The readings of a frame, and the sample of the processor that the next frame is measured against.
-- `cores` and `peers` are the globals of these names.
unfoldable pub gather : Config → System → ℤ → Bytes → CpuSample → CpuSample × Readings
unfolding line_at load_words uptime_of kernel_in generation_in cpu_percent cpu_ghz temp_c meminfo
    zram_in disk_usage battery current_of flow_of endurance scan_tcp ssh_users tty_sessions
    failed_units top_rss emmc_health iface_addr default_gateway unit_state
gather cfg sys cores peers prev =
    let fs = sys.fs in
    let loads = load_words (line_at cfg sys (codes "/proc/loadavg")) in
    let cpu = cpu_percent cfg fs prev in
    let mem = meminfo cfg fs in
    let zram = zram_in (line_at cfg sys (codes "/sys/block/zram0/mm_stat")) in
    let disk = disk_usage cfg sys in
    let curr = current_of cfg fs in
    let status =
      line_or (codes "?")
        (first_line fs (rp cfg (codes "/sys/class/power_supply/battery/status")) 32) in
    let conns = scan_tcp cfg fs in
    (
      cpu.0,
      record {
        now =
            take 31
              (or_default [] (sys.local_time (codes "%Y-%m-%d %H:%M:%S") (shown_time cfg sys)));
        host = line_or (codes "?") (first_line fs (rp cfg (codes "/proc/sys/kernel/hostname")) 128);
        kernel = or_default (codes "?") (line_at cfg sys (codes "/proc/version") >>= kernel_in);
        generation =
            generation_in (read_link sys (rp cfg (codes "/nix/var/nix/profiles/system")) 8192);
        same_system =
            streq (or_default [] (read_link sys (rp cfg (codes "/run/booted-system")) 4096))
              (or_default [] (read_link sys (rp cfg (codes "/run/current-system")) 4096));
        uptime_s = uptime_of (line_at cfg sys (codes "/proc/uptime"));
        l1 = word_no 0 loads;
        l5 = word_no 1 loads;
        l15 = word_no 2 loads;
        procs = word_no 3 loads;
        pct = cpu.1;
        cores = cores;
        ghz = cpu_ghz cfg sys 32;
        soc_t = temp_c cfg fs (codes "/sys/class/thermal/thermal_zone1/temp") 16;
        memtotal = mem.memtotal;
        memavail = mem.memavail;
        swaptotal = mem.swaptotal;
        swapfree = mem.swapfree;
        zcompr = zram.0;
        zratio = zram.1;
        top = top_rss cfg sys 256;
        fs_total_kb = pos disk.total_kb;
        fs_used_kb = pos disk.used_kb;
        fs_pct = disk.pct;
        health = emmc_health cfg fs 128;
        cap = battery cfg fs (codes "capacity");
        volt = battery cfg fs (codes "voltage_now");
        curr = curr;
        batt_t = battery cfg fs (codes "temp");
        input_ua =
            read_ll fs (rp cfg (codes "/sys/class/power_supply/main/input_current_now")) (pos 0);
        status = status;
        flow = flow_of status;
        est =
            endurance (battery cfg fs (codes "charge_counter")) curr
              (battery cfg fs (codes "charge_full")) (flow_of status) 32;
        rndis = iface_addr cfg sys 64 (codes "rndis0");
        ts = iface_addr cfg sys 64 (codes "tailscale0");
        gw = default_gateway cfg fs 64;
        peers = peers;
        listening = listening_ports 1024 conns;
        users = ssh_users cfg sys 256;
        peer_list = or_dash (peers_on 512 (pos 22) conns);
        ttys = tty_sessions cfg sys 512;
        failed = failed_units cfg sys 512;
        unit_state = unit_state cfg sys 64;
        unit_memory = λ unit. read_ll fs (rp cfg (memory_path unit)) (pos 0);
        clients_on = λ port. pos (clients_on port conns);
      },
    )
