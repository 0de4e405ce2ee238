-- ===== src/Text/Kmsg.antt =====
-- modules/console/panel.c: `load_kmsg`. Memory is taken to suffice.
use mobile_config.Base.{ℕ, ◌/◌, List, [], ◌∷◌, ◌++◌, Option, none, some, take, ℤ, pos, ◌+ℤ◌, ◌-ℤ◌}
use mobile_config.Libc.{Bytes, codes, snprintf, until, behind, scan_ull, scan_byte, strtoll, ◌>>=◌}
use mobile_config.Config.{Config, rp}
use mobile_config.Files.{first_line}
use mobile_config.System.{System, good_line}
use mobile_config.Text.Journal.{or_default, or_no_entries}

-- A read of the device: a record, records that were overwritten before they were read (EPIPE), or the
-- end, for a result of 0 or another error.
pub data KmsgRead : Type 0 where
  record_text : Bytes → KmsgRead
  overwritten finished : KmsgRead

-- `sscanf(rec, "%*u,%*u,%llu", &usec) == 1`, on the part before the semicolon.
unfoldable pub usec_in : Bytes → Option ℕ
unfolding scan_ull
usec_in head = do
  (_, s1) ← scan_ull head
  s2 ← scan_byte b',' s1
  (_, s3) ← scan_ull s2
  s4 ← scan_byte b',' s3
  (usec, _) ← scan_ull s4
  some usec

-- The line of a record; `boot` is the time at which the machine started.
unfoldable pub kmsg_line : System → ℤ → Bytes → Option Bytes
unfolding usec_in
kmsg_line sys boot rec = do
  msg ← behind b';' rec
  usec ← usec_in (until b';' rec)
  let when =
      or_default (codes "?")
        (sys.local_time (codes "%a %b %e %H:%M:%S %Y") (boot +ℤ pos (usec / 1000000)))
  some (snprintf 4096 (codes "[" ++ (when ++ (codes "] " ++ until b'\n' msg))))

abbrev pub add_line : Option Bytes → List Bytes → List Bytes
add_line none lines = lines
add_line (some l) lines = l ∷ lines

-- The loop over the reads. A record is cut to the buffer and read as a C string.
unfoldable pub kmsg_lines : System → ℤ → List KmsgRead → List Bytes
unfolding kmsg_line
kmsg_lines sys boot [] = []
kmsg_lines sys boot (overwritten ∷ rs) = kmsg_lines sys boot rs
kmsg_lines sys boot (finished ∷ rs) = []
kmsg_lines sys boot (record_text [] ∷ rs) = []
kmsg_lines sys boot (record_text (c ∷ s) ∷ rs) =
    add_line (kmsg_line sys boot (until 0 (take 8191 (c ∷ s)))) (kmsg_lines sys boot rs)

-- The whole seconds of the uptime: `(time_t)strtod(…)` of a number that is printed without exponent.
unfoldable pub uptime_s : Option Bytes → ℤ
unfolding strtoll
uptime_s none = pos 0
uptime_s (some buf) = (strtoll buf).value

-- `reads` is `none` where the device does not open.
unfoldable pub load_kmsg : Config → System → Option (List KmsgRead) → List Bytes
unfolding kmsg_lines uptime_s first_line
load_kmsg cfg sys none = codes "/dev/kmsg unavailable" ∷ []
load_kmsg cfg sys (some reads) =
    let up = uptime_s (good_line (first_line sys.fs (rp cfg (codes "/proc/uptime")) 64)) in
    or_no_entries (kmsg_lines sys (sys.time -ℤ up) reads)
