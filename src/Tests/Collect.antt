-- ===== src/Tests/Collect.antt =====
-- Runs and instances for the collectors of modules/console/panel.c.
use mathlib.Core.List.{Perm}
use mobile_config.Base.{ℕ, ◌≡◌, refl, ◌<◌, List, [], ◌∷◌, some, length, take, arith, pos}
use mobile_config.Libc.{
  Bytes, codes, dec, dec_ℤ, dec0, strtoll, atoi, to_int32, wrap64, scan_ll, scan_word, strtol16,
  put_piece, put_word, shown_or_dash,
}
use mobile_config.Config.{default_config, rp}
use mobile_config.Files.{first_line, slurp}
use mobile_config.System.{System, Statvfs}
use mobile_config.Tests.Systems.{system_with, files}
use mobile_config.Collect.Cpu.{
  CpuSample, cores_in, counters, sample_of, sample_in, sample_of_read, cpu_percent,
}
use mobile_config.Collect.Storage.{usage_of, endurance, minutes_text, life_in, life_of, life_text}
use mobile_config.Collect.Procs.{
  scan_procs, collect_procs, proc_of, resident_in, insert_rss, sort_rss, put_procs, top_rss,
}
use mobile_config.Collect.Sessions.{
  ssh_users, collect_users, user_of, user_in, named_in, is_user, cmdline, put_users,
}
use mobile_config.Collect.Shares.{
  IsShare, IsShareUp, IsSane, cpu_percent-IsShare, usage_of-IsShareUp,
}
use mobile_config.Collect.Largest.{IsRanked, procs_in, scan_procs-IsRanked}
use mobile_config.Collect.Users.{UserList, ssh_users-UserList}

abbrev sshd : Bytes
sshd = codes "sshd: ada@pts/0"

abbrev entries : List Bytes
entries = codes "self" ∷ codes "12" ∷ codes "7" ∷ codes "31" ∷ []

abbrev phone : System
phone = system_with ((codes "/proc", entries) ∷ []) (
    (codes "/proc/12/cmdline", sshd)
    ∷ (codes "/proc/31/cmdline", sshd)
    ∷ (codes "/proc/12/statm", codes "900 512 3")
    ∷ (codes "/proc/12/comm", codes "sshd")
    ∷ (codes "/proc/7/statm", codes "9000 2560 3")
    ∷ (codes "/proc/7/comm", codes "panel")
    ∷ [])

-- Two sessions of one user are printed once.
users_run : ssh_users default_config phone 64 ≡ codes "ada"
unfolding ssh_users collect_users user_of user_in named_in is_user cmdline slurp rp put_users
    put_word put_piece shown_or_dash
users_run = refl

-- The larger process is first; the one without `statm` is not shown.
top_run : top_rss default_config phone 64 ≡ codes "panel 10M  sshd 2M  "
unfolding top_rss scan_procs collect_procs proc_of resident_in first_line slurp rp insert_rss
    sort_rss put_procs put_piece scan_ll atoi strtoll to_int32 dec dec_ℤ
top_run = refl

-- 1.1 Ah at 1 A, in the units of the driver.
endurance_run : endurance (pos 1100000) (pos 10000) (pos 0) (codes "discharging") 32 ≡ codes "1h06m"
unfolding endurance minutes_text dec dec0
endurance_run = refl

life_run : life_text (life_in (codes "0x02 0x01")) ≡ codes "10-20%"
unfolding life_text life_in life_of scan_word strtol16 to_int32 dec_ℤ dec
life_run = refl

abbrev before : CpuSample
before = record { busy = pos 100; total = pos 1000 }

abbrev after : CpuSample
after = record { busy = pos 151; total = pos 1200 }

abbrev stat : Bytes
stat = codes "cpu  120 0 31 1000 49 0 0 0\ncpu0 1\ncpu1 2\n"

cores_run : cores_in stat ≡ 2
unfolding cores_in
cores_run = refl

stat_read : sample_of_read (some stat) ≡ some after
unfolding sample_of_read sample_in counters sample_of wrap64 scan_ll
stat_read = refl

cpu_percent-IsShare_example :
    (p : ℕ) × (cpu_percent default_config (files ((codes "/proc/stat", stat) ∷ [])) before
      ≡ (after, pos p))
    × IsShare 51 200 p
unfolding rp
cpu_percent-IsShare_example =
    cpu_percent-IsShare default_config (files ((codes "/proc/stat", stat) ∷ [])) before after 51 200
      stat_read refl refl (omega arith) (omega arith) (omega arith) (omega arith)

abbrev root_fs : Statvfs
root_fs = record { blocks = 1000; bfree = 300; bavail = 200; frsize = 4096; bsize = 4096 }

abbrev root_sane : IsSane root_fs
root_sane = record { free = omega arith; some_block = omega arith; small = omega arith }

usage_of-IsShareUp_example : (p : ℕ) × ((usage_of root_fs).pct ≡ pos p) × IsShareUp 700 900 p
usage_of-IsShareUp_example = usage_of-IsShareUp root_fs root_sane

ssh_users-UserList_example :
    UserList default_config phone entries (collect_users default_config phone entries [])
    × (length (ssh_users default_config phone 64) < 64)
unfolding rp
ssh_users-UserList_example = ssh_users-UserList default_config phone entries 64 refl (omega arith)

scan_procs-IsRanked_example :
    IsRanked (scan_procs default_config phone 40)
    × Perm (scan_procs default_config phone 40) (take 40 (procs_in default_config phone entries))
    × (length (top_rss default_config phone 64) < 64)
unfolding rp
scan_procs-IsRanked_example =
    scan_procs-IsRanked default_config phone 40 entries 64 refl (omega arith)
