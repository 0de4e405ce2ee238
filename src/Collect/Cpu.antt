-- ===== src/Collect/Cpu.antt =====
-- modules/console/panel.c: `core_count`, `cpu_percent`, `cpu_ghz` and `temp_c`.
use mobile_config.Base.{
  ℕ, zero, suc, Bool, ◌&&◌, List, [], ◌∷◌, ◌++◌, ltb, ◌==◌, if◌then◌else◌, Option, none, some,
  length, take, drop, get_or, ℤ, pos, ◌+ℤ◌, ◌-ℤ◌, ◌*ℤ◌, ltb_ℤ, pos_part, quot_ℤ, rem_ℤ,
}
use mobile_config.Libc.{
  Bytes, codes, snprintf, until, starts_with, is_digit, dec_ℤ, dec0, to_int32, wrap64, strtoll,
  scan_ll,
}
use mobile_config.Config.{Config, rp}
use mobile_config.Files.{Fs, slurp, first_line, read_ll}
use mobile_config.System.{System, good_line}

-- `!strncmp(p, "cpu", 3) && isdigit(p[3])`
abbrev pub is_cpu_name : Bytes → Bool
is_cpu_name s = starts_with (codes "cpu") s && is_digit (get_or s 3 0)

-- How many of the places behind a newline begin with the name of a processor.
abbrev pub count_cpus : Bytes → ℕ
count_cpus [] = 0
count_cpus (c ∷ s) =
    let more = count_cpus s in if c == b'\n' && is_cpu_name s then suc more else more

-- The loop looks at the start of the text as at any place behind a newline; where the text itself
-- starts with a newline, that place is looked at once.
unfoldable pub cores_in : Bytes → ℕ
cores_in s = count_cpus (if starts_with (b'\n' ∷ []) s then s else b'\n' ∷ s)

unfoldable pub core_count : Config → Fs → ℕ
unfolding slurp cores_in
core_count cfg fs = elim (slurp fs (rp cfg (codes "/proc/stat")) 8192) [
  | none ↦ 1
  | some buf ↦ let n = cores_in (until 0 buf) in if n == 0 then 1 else n
]

-- `cpu_prev_busy` and `cpu_prev_total`
pub record CpuSample : Type 0 where
  pub busy : ℤ
  pub total : ℤ

-- The counters that `sscanf` assigns, as many as the text gives, up to eight.
unfoldable pub counters : ℕ → Bytes → List ℤ
unfolding scan_ll
counters zero s = []
counters (suc left) s = elim (scan_ll s) [ none ↦ [] | some (v, rest) ↦ v ∷ counters left rest ]

abbrev pub sum_ℤ : List ℤ → ℤ
sum_ℤ [] = pos 0
sum_ℤ (v ∷ vs) = v +ℤ sum_ℤ vs

-- The sample of the counters; the array starts as zeros. The fourth is idle and the fifth iowait.
unfoldable pub sample_of : List ℤ → CpuSample
unfolding wrap64
sample_of vs = record {
  total = wrap64 (sum_ℤ vs);
  busy = wrap64 (sum_ℤ vs -ℤ get_or vs 3 (pos 0) -ℤ get_or vs 4 (pos 0));
}

unfoldable pub percent_since : CpuSample → CpuSample → ℤ
unfolding to_int32 wrap64
percent_since prev now =
    let dt = wrap64 (now.total -ℤ prev.total) in
    let db = wrap64 (now.busy -ℤ prev.busy) in
    if ltb_ℤ (pos 0) dt then to_int32 (quot_ℤ (wrap64 (db *ℤ pos 100)) (pos_part dt)) else pos 0

abbrev pub enough : List ℤ → Option CpuSample
unfolding sample_of
enough vs = if ltb (length vs) 4 then none else some (sample_of vs)

-- `none` stands for a return before the counters are used: fewer than four of them.
unfoldable pub sample_in : Bytes → Option CpuSample
unfolding counters enough
sample_in buf = if starts_with (codes "cpu") buf then enough (counters 8 (drop 3 buf)) else none

unfoldable pub used_sample : CpuSample → Option CpuSample → CpuSample × ℤ
unfolding percent_since
used_sample prev none = (prev, pos 0)
used_sample prev (some now) = (now, percent_since prev now)

unfoldable pub sample_of_read : Option Bytes → Option CpuSample
unfolding sample_in
sample_of_read none = none
sample_of_read (some buf) = sample_in (until 0 (take 511 buf))

-- One `read` of 511 bytes; an empty file gives no sample, as the text has no counters.
unfoldable pub cpu_percent : Config → Fs → CpuSample → CpuSample × ℤ
unfolding used_sample sample_of_read
cpu_percent cfg fs prev =
    used_sample prev (sample_of_read (fs.content (rp cfg (codes "/proc/stat"))))

abbrev pub freq_path : Bytes → Bytes
freq_path name =
    snprintf 4096 (codes "/sys/devices/system/cpu/" ++ (name ++ codes "/cpufreq/scaling_cur_freq"))

-- The greatest frequency of the processors in the directory, and of `top`.
unfoldable pub top_freq : Config → Fs → List Bytes → ℤ → ℤ
unfolding read_ll
top_freq cfg fs [] top = top
top_freq cfg fs (e ∷ es) top =
    let v = read_ll fs (rp cfg (freq_path e)) (pos 0) in
    top_freq cfg fs es (if is_cpu_name e && ltb_ℤ top v then v else top)

abbrev pub listed : Option (List Bytes) → List Bytes
listed none = []
listed (some es) = es

unfoldable pub cpu_ghz : Config → System → ℕ → Bytes
unfolding top_freq
cpu_ghz cfg sys n =
    let top =
      top_freq cfg sys.fs (listed (sys.entries (rp cfg (codes "/sys/devices/system/cpu"))))
        (pos 0) in
    snprintf n (
      dec_ℤ (quot_ℤ top 1000000)
      ++ (codes "." ++ (dec0 2 (quot_ℤ (rem_ℤ top 1000000) 10000) ++ codes "GHz")))

-- A line that is empty counts as none.
unfoldable pub temp_c : Config → Fs → Bytes → ℕ → Bytes
unfolding first_line strtoll to_int32
temp_c cfg fs path n = elim (good_line (first_line fs (rp cfg path) 64)) [
  | none ↦ snprintf n (codes "?")
  | some buf ↦ snprintf n (dec_ℤ (to_int32 (quot_ℤ (strtoll buf).value 1000)))
]
