-- ===== src/Collect/Procs.antt =====
-- modules/console/panel.c: `scan_procs`, `cmp_rss` and `top_rss`.
use mobile_config.Base.{
  ℕ, Bool, false, List, [], ◌∷◌, ◌++◌, ltb, if◌then◌else◌, Option, none, some, length, take, ℤ, pos,
  ◌*ℤ◌, ltb_ℤ, eqb_ℤ, quot_ℤ,
}
use mobile_config.Libc.{
  Bytes, codes, snprintf, is_digit, dec_ℤ, atoi, scan_ll, Printed, nothing_printed, put_piece,
  text_in, ◌>>=◌,
}
use mobile_config.Config.{Config, rp}
use mobile_config.Files.{first_line}
use mobile_config.System.{System, good_line}

abbrev pub max_procs : ℕ
max_procs = 4096

abbrev pub max_top : ℕ
max_top = 3

-- `struct proc_entry`
pub record ProcEntry : Type 0 where
  pub pid : ℤ
  pub rss_kb : ℤ
  pub comm : Bytes

abbrev pub is_pid_name : Bytes → Bool
is_pid_name [] = false
is_pid_name (c ∷ s) = is_digit c

abbrev pub proc_path : Bytes → Bytes → Bytes
proc_path name leaf = snprintf 4096 (codes "/proc/" ++ (name ++ leaf))

-- `sscanf(buf, "%lld %lld", …) == 2`, and a resident size that is not 0.
unfoldable pub resident_in : Bytes → Option ℤ
unfolding scan_ll
resident_in buf = do
  (_, s1) ← scan_ll buf
  (resident, _) ← scan_ll s1
  if eqb_ℤ resident (pos 0) then none else some resident

-- The body of the loop for an entry whose name starts with a digit.
unfoldable pub proc_of : Config → System → Bytes → Option ProcEntry
unfolding resident_in first_line
proc_of cfg sys name = do
  buf ← good_line (first_line sys.fs (rp cfg (proc_path name (codes "/statm"))) 256)
  resident ← resident_in buf
  comm ← good_line (first_line sys.fs (rp cfg (proc_path name (codes "/comm"))) 32)
  some (record { pid = atoi name; rss_kb = resident *ℤ sys.page_kb; comm = comm })

abbrev pub add_proc : Option ProcEntry → List ProcEntry → List ProcEntry
add_proc none list = list
add_proc (some e) list = list ++ e ∷ []

-- The loop over the directory.
unfoldable pub collect_procs : Config → System → ℕ → List Bytes → List ProcEntry → List ProcEntry
unfolding proc_of
collect_procs cfg sys max [] list = list
collect_procs cfg sys max (e ∷ es) list =
    let found = if is_pid_name e then proc_of cfg sys e else none in
    let rest = collect_procs cfg sys max es (add_proc found list) in
    if ltb (length list) max then rest else list

-- `qsort` by `cmp_rss`: the greatest first. Where sizes are equal `qsort` may leave any order; the
-- model keeps the order of the directory, as a merge sort does.
unfoldable pub insert_rss : ProcEntry → List ProcEntry → List ProcEntry
insert_rss a [] = a ∷ []
insert_rss a (b ∷ bs) = if ltb_ℤ a.rss_kb b.rss_kb then b ∷ insert_rss a bs else a ∷ b ∷ bs

unfoldable pub sort_rss : List ProcEntry → List ProcEntry
unfolding insert_rss
sort_rss [] = []
sort_rss (a ∷ rest) = insert_rss a (sort_rss rest)

-- The list that `scan_procs` fills, as long as its result.
unfoldable pub scan_procs : Config → System → ℕ → List ProcEntry
unfolding collect_procs sort_rss
scan_procs cfg sys max = elim (sys.entries (rp cfg (codes "/proc"))) [
  | none ↦ []
  | some es ↦ sort_rss (collect_procs cfg sys max es [])
]

unfoldable pub put_procs : ℕ → List ProcEntry → Printed → Printed
unfolding put_piece
put_procs n [] p = p
put_procs n (e ∷ es) p =
    put_procs n es
      (put_piece n (e.comm ++ (codes " " ++ (dec_ℤ (quot_ℤ e.rss_kb 1024) ++ codes "M  "))) p)

unfoldable pub top_rss : Config → System → ℕ → Bytes
unfolding scan_procs put_procs
top_rss cfg sys n =
    text_in (put_procs n (take max_top (scan_procs cfg sys max_procs)) nothing_printed)
