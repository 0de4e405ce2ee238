-- ===== src/Collect/Below.antt =====
-- The collectors read nothing outside `--root`.
use mobile_config.Base.{
  ℕ, ◌≡◌, refl, ap, List, [], ◌∷◌, if◌then◌else◌, none, ℤ, pos, Option-cases, inl, inr,
}
use mobile_config.Libc.{Bytes, codes, Printed, nothing_printed, shown_or_dash}
use mobile_config.Config.{Config, rp}
use mobile_config.Files.{Fs, slurp, first_line, read_ll}
use mobile_config.System.{System, Session}
use mobile_config.System.Below.{
  HasRoot, fs_below, below, only_below, rp-IsInside, same_below, slurp-below, first_line-below,
  read_ll-below, fixture-IsInside,
}
use mobile_config.Collect.Cpu.{
  CpuSample, cpu_percent, used_sample, sample_of_read, top_freq, freq_path, listed, cpu_ghz, temp_c,
  core_count,
}
use mobile_config.Collect.Storage.{emmc_health, disk_usage}
use mobile_config.Collect.Procs.{
  ProcEntry, proc_path, proc_of, is_pid_name, add_proc, collect_procs, scan_procs, sort_rss,
  top_rss, max_procs,
}
use mobile_config.Collect.Sessions.{
  cmdline, user_of, add_user, collect_users, ssh_users, tty_sessions, put_users, put_sessions,
  session_text,
}

module _ (cfg : Config) (h : HasRoot cfg) where
  line_there :
      (fs : Fs) (path : Bytes) (n : ℕ)
      → first_line (fs_below cfg fs) (rp cfg path) n ≡ first_line fs (rp cfg path) n
  line_there fs path n = first_line-below cfg (rp cfg path) (rp-IsInside cfg h path) fs n

  number_there :
      (fs : Fs) (path : Bytes) (d : ℤ)
      → read_ll (fs_below cfg fs) (rp cfg path) d ≡ read_ll fs (rp cfg path) d
  number_there fs path d = read_ll-below cfg (rp cfg path) (rp-IsInside cfg h path) fs d

  text_there :
      (fs : Fs) (path : Bytes) (n : ℕ)
      → slurp (fs_below cfg fs) (rp cfg path) n ≡ slurp fs (rp cfg path) n
  text_there fs path n = slurp-below cfg (rp cfg path) (rp-IsInside cfg h path) fs n

  there {ℓ} :
      {A : Type ℓ} (missing : A) (f : Bytes → A) (path : Bytes)
      → only_below cfg.root missing f (rp cfg path) ≡ f (rp cfg path)
  there missing f path = same_below cfg (rp cfg path) (rp-IsInside cfg h path) missing f

  pub cpu_percent-below :
      (fs : Fs) (prev : CpuSample)
      → cpu_percent cfg (fs_below cfg fs) prev ≡ cpu_percent cfg fs prev
  unfolding cpu_percent
  cpu_percent-below fs prev =
      ap (λ o. used_sample prev (sample_of_read o)) (there none fs.content (codes "/proc/stat"))

  pub core_count-below : (fs : Fs) → core_count cfg (fs_below cfg fs) ≡ core_count cfg fs
  unfolding core_count
  core_count-below fs = rw (core_count, text_there fs (codes "/proc/stat") 8192) refl

  top_freq-below :
      (fs : Fs) (es : List Bytes) (top : ℤ)
      → top_freq cfg (fs_below cfg fs) es top ≡ top_freq cfg fs es top
  unfolding top_freq
  top_freq-below fs [] top = refl
  top_freq-below fs (e ∷ es) top =
      rw (number_there fs (freq_path e) (pos 0)) (top_freq-below fs es _)

  pub cpu_ghz-below : (sys : System) (n : ℕ) → cpu_ghz cfg (below cfg sys) n ≡ cpu_ghz cfg sys n
  unfolding cpu_ghz
  cpu_ghz-below sys n =
      rw
        (
          there none sys.entries (codes "/sys/devices/system/cpu"),
          top_freq-below sys.fs (listed (sys.entries (rp cfg (codes "/sys/devices/system/cpu"))))
              (pos 0),
        )
        refl

  pub temp_c-below :
      (fs : Fs) (path : Bytes) (n : ℕ) → temp_c cfg (fs_below cfg fs) path n ≡ temp_c cfg fs path n
  unfolding temp_c
  temp_c-below fs path n = rw (temp_c, line_there fs path 64) refl

  pub emmc_health-below :
      (fs : Fs) (n : ℕ) → emmc_health cfg (fs_below cfg fs) n ≡ emmc_health cfg fs n
  unfolding emmc_health
  emmc_health-below fs n =
      rw
        (
          line_there fs (codes "/sys/block/mmcblk0/device/life_time") 128,
          line_there fs (codes "/sys/block/mmcblk0/device/pre_eol_info") 128,
        )
        refl

  pub disk_usage-below : (sys : System) → disk_usage cfg (below cfg sys) ≡ disk_usage cfg sys
  unfolding disk_usage
  disk_usage-below sys =
      let (path, e, inside) = fixture-IsInside cfg h sys (codes "statvfs") in
      rw (disk_usage, e, first_line-below cfg path inside sys.fs 256) refl

  proc_of-below :
      (sys : System) (name : Bytes) → proc_of cfg (below cfg sys) name ≡ proc_of cfg sys name
  unfolding proc_of
  proc_of-below sys name =
      rw
        (
          line_there sys.fs (proc_path name (codes "/statm")) 256,
          line_there sys.fs (proc_path name (codes "/comm")) 32,
        )
        refl

  collect_procs-below :
      (sys : System) (max : ℕ) (es : List Bytes) (list : List ProcEntry)
      → collect_procs cfg (below cfg sys) max es list ≡ collect_procs cfg sys max es list
  unfolding collect_procs
  collect_procs-below sys max [] list = refl
  collect_procs-below sys max (e ∷ es) list =
      rw
        (
          proc_of-below sys e,
          collect_procs-below sys max es
              (add_proc (if is_pid_name e then proc_of cfg sys e else none) list),
        )
        refl

  scan_procs-below :
      (sys : System) (max : ℕ) → scan_procs cfg (below cfg sys) max ≡ scan_procs cfg sys max
  unfolding scan_procs
  scan_procs-below sys max = elim (Option-cases (sys.entries (rp cfg (codes "/proc")))) [
    | inl e ↦ rw (scan_procs, there none sys.entries (codes "/proc"), e) refl
    | inr (es, e) ↦
        rw (scan_procs, there none sys.entries (codes "/proc"), e)
          (ap sort_rss (collect_procs-below sys max es []))
  ]

  pub top_rss-below : (sys : System) (n : ℕ) → top_rss cfg (below cfg sys) n ≡ top_rss cfg sys n
  unfolding top_rss
  top_rss-below sys n = rw (scan_procs-below sys max_procs) refl

  cmdline-below :
      (sys : System) (name : Bytes) → cmdline cfg (below cfg sys) name ≡ cmdline cfg sys name
  unfolding cmdline
  cmdline-below sys name =
      rw (cmdline, text_there sys.fs (proc_path name (codes "/cmdline")) 1024) refl

  user_of-below : (sys : System) (e : Bytes) → user_of cfg (below cfg sys) e ≡ user_of cfg sys e
  unfolding user_of
  user_of-below sys e = rw (cmdline-below sys e) refl

  collect_users-below :
      (sys : System) (es names : List Bytes)
      → collect_users cfg (below cfg sys) es names ≡ collect_users cfg sys es names
  unfolding collect_users
  collect_users-below sys [] names = refl
  collect_users-below sys (e ∷ es) names =
      rw (user_of-below sys e, collect_users-below sys es (add_user (user_of cfg sys e) names)) refl

  pub ssh_users-below :
      (sys : System) (n : ℕ) → ssh_users cfg (below cfg sys) n ≡ ssh_users cfg sys n
  unfolding ssh_users
  ssh_users-below sys n = elim (Option-cases (sys.entries (rp cfg (codes "/proc")))) [
    | inl e ↦ rw (ssh_users, there none sys.entries (codes "/proc"), e) refl
    | inr (es, e) ↦
        rw (ssh_users, there none sys.entries (codes "/proc"), e)
          (ap (λ names. shown_or_dash n (put_users n names nothing_printed))
            (collect_users-below sys es []))
  ]

  put_sessions-below :
      (sys : System) (n : ℕ) (us : List Session) (p : Printed)
      → put_sessions n (below cfg sys) us p ≡ put_sessions n sys us p
  unfolding put_sessions session_text
  put_sessions-below sys n [] p = refl
  put_sessions-below sys n (u ∷ us) p = put_sessions-below sys n us _

  pub tty_sessions-below :
      (sys : System) (n : ℕ) → tty_sessions cfg (below cfg sys) n ≡ tty_sessions cfg sys n
  unfolding tty_sessions
  tty_sessions-below sys n =
      rw
        (
          there [] sys.utmp (codes "/var/run/utmp"),
          put_sessions-below sys n (sys.utmp (rp cfg (codes "/var/run/utmp"))) nothing_printed,
        )
        refl
