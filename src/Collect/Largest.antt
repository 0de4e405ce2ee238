-- ===== src/Collect/Largest.antt =====
-- What `scan_procs` gives and `top_rss` prints.
use mathlib.Core.List.{Perm}
use mathlib.Core.List.Perm
use mobile_config.Base.{
  ℕ, zero, suc, ◌≡◌, refl, sym, ◌∙◌, ap, ◌<◌, ◌≤◌, List, [], ◌∷◌, ◌++◌, ltb, if◌then◌else◌, Option,
  none, some, length, length-append, take, take_all, All, arith, Bool-cases, inl, inr, ltb_ℤ, ◌≤ℤ◌,
  ltb→lt, append_assoc, append-nil, quot_ℤ,
}
use mobile_config.Libc.{
  Bytes, codes, Printed, nothing_printed, put_piece-Fits, Fits, text_in-Fits, dec_ℤ,
}
use mobile_config.Config.{Config, rp}
use mobile_config.System.{System}
use mobile_config.Collect.Procs.{
  ProcEntry, max_procs, max_top, is_pid_name, proc_of, add_proc, collect_procs, insert_rss,
  sort_rss, scan_procs, put_procs, top_rss,
}

-- No more resident memory than `e`.
abbrev pub IsBelow : ProcEntry → List ProcEntry → Type 0
IsBelow e es = All (λ x. x.rss_kb ≤ℤ e.rss_kb) es

-- The greatest first.
abbrev pub IsRanked : List ProcEntry → Type 0
IsRanked [] = Unit
IsRanked (e ∷ es) = IsBelow e es × IsRanked es

IsBelow-trans :
    (a b : ProcEntry) (es : List ProcEntry) → b.rss_kb ≤ℤ a.rss_kb → IsBelow b es → IsBelow a es
IsBelow-trans a b [] h t = tt
IsBelow-trans a b (x ∷ xs) h t = (omega (arith, h, t.0), IsBelow-trans a b xs h t.1)

IsBelow-insert :
    (a b : ProcEntry) (es : List ProcEntry)
    → b.rss_kb ≤ℤ a.rss_kb
    → IsBelow a es
    → IsBelow a (insert_rss b es)
unfolding insert_rss
IsBelow-insert a b [] h t = (h, tt)
IsBelow-insert a b (x ∷ xs) h t = elim (Bool-cases (ltb_ℤ b.rss_kb x.rss_kb)) [
  | inl e ↦ rw e (t.0, IsBelow-insert a b xs h t.1)
  | inr e ↦ rw e (h, t)
]

insert_rss-IsRanked :
    (a : ProcEntry) (es : List ProcEntry) → IsRanked es → IsRanked (insert_rss a es)
unfolding insert_rss
insert_rss-IsRanked a [] r = (tt, tt)
insert_rss-IsRanked a (x ∷ xs) r = elim (Bool-cases (ltb_ℤ a.rss_kb x.rss_kb)) [
  | inl e ↦ rw e (IsBelow-insert x a xs (ground arith) r.0, insert_rss-IsRanked a xs r.1)
  | inr e ↦
      let le : x.rss_kb ≤ℤ a.rss_kb = ground arith in rw e ((le, IsBelow-trans a x xs le r.0), r)
]

sort_rss-IsRanked : (es : List ProcEntry) → IsRanked (sort_rss es)
unfolding sort_rss
sort_rss-IsRanked [] = tt
sort_rss-IsRanked (e ∷ es) = insert_rss-IsRanked e (sort_rss es) (sort_rss-IsRanked es)

insert_rss-perm : (a : ProcEntry) (es : List ProcEntry) → Perm (insert_rss a es) (a ∷ es)
unfolding insert_rss
insert_rss-perm a [] = Perm.rfl
insert_rss-perm a (x ∷ xs) = elim (Bool-cases (ltb_ℤ a.rss_kb x.rss_kb)) [
  | inl e ↦ rw e (Perm.trans (Perm.cons x (insert_rss-perm a xs)) (Perm.swap a x xs))
  | inr e ↦ rw e Perm.rfl
]

sort_rss-perm : (es : List ProcEntry) → Perm (sort_rss es) es
unfolding sort_rss
sort_rss-perm [] = Perm.rfl
sort_rss-perm (e ∷ es) =
    Perm.trans (insert_rss-perm e (sort_rss es)) (Perm.cons e (sort_rss-perm es))

-- What the entries of a directory show, without a bound.
abbrev pub procs_in : Config → System → List Bytes → List ProcEntry
procs_in cfg sys [] = []
procs_in cfg sys (e ∷ es) =
    add_proc (if is_pid_name e then proc_of cfg sys e else none) [] ++ procs_in cfg sys es

add_proc-append :
    (o : Option ProcEntry) (list : List ProcEntry) → add_proc o list ≡ list ++ add_proc o []
add_proc-append none list = sym (append-nil list)
add_proc-append (some e) list = refl

take_front : (max : ℕ) (xs ys : List ProcEntry) → length xs ≡ max → take max (xs ++ ys) ≡ xs
take_front zero [] ys e = refl
take_front zero (x ∷ xs) ys e = absurd (omega (arith, e))
take_front (suc max) [] ys e = absurd (omega (arith, e))
take_front (suc max) (x ∷ xs) ys e = ap (◌∷◌ x) (take_front max xs ys (omega (arith, e)))

length-add_proc :
    (o : Option ProcEntry) (list : List ProcEntry) → length (add_proc o list) ≤ suc (length list)
length-add_proc none list = omega arith
length-add_proc (some e) list = omega (arith, length-append list (e ∷ []))

-- The loop keeps the first `max` of what the directory shows.
collect_procs_all :
    (cfg : Config) (sys : System) (max : ℕ) (es : List Bytes) (list : List ProcEntry)
    → length list ≤ max
    → collect_procs cfg sys max es list ≡ take max (list ++ procs_in cfg sys es)
unfolding collect_procs
collect_procs_all cfg sys max [] list h =
    sym (ap (take max) (append-nil list) ∙ take_all max list h)
collect_procs_all cfg sys max (e ∷ es) list h = elim (Bool-cases (ltb (length list) max)) [
  | inl b ↦
      let o = if is_pid_name e then proc_of cfg sys e else none in
      let room : length (add_proc o list) ≤ max =
        omega (arith, length-add_proc o list, ltb→lt (length list) max b) in
      rw b (
        collect_procs_all cfg sys max es (add_proc o list) room
        ∙ ap (take max) (
            ap (λ l. l ++ procs_in cfg sys es) (add_proc-append o list)
            ∙ append_assoc list (add_proc o []) (procs_in cfg sys es)))
  | inr b ↦ rw b (sym (take_front max list (procs_in cfg sys (e ∷ es)) (ground arith)))
]

put_procs-Fits : (n : ℕ) (es : List ProcEntry) (p : Printed) → Fits n p → Fits n (put_procs n es p)
unfolding put_procs
put_procs-Fits n [] p h = h
put_procs-Fits n (e ∷ es) p h =
    put_procs-Fits n es _ (
      put_piece-Fits n (e.comm ++ (codes " " ++ (dec_ℤ (quot_ℤ e.rss_kb 1024) ++ codes "M  "))) p h)

scan_procs_listed :
    (cfg : Config) (sys : System) (max : ℕ) (es : List Bytes)
    → sys.entries (rp cfg (codes "/proc")) ≡ some es
    → scan_procs cfg sys max ≡ sort_rss (take max (procs_in cfg sys es))
unfolding scan_procs
scan_procs_listed cfg sys max es e =
    rw (scan_procs, e) (ap sort_rss (collect_procs_all cfg sys max es [] (omega arith)))

-- For entries that show at most `max` processes, `scan_procs` gives them all, the greatest resident
-- memory first; of more it gives the first `max` of the directory in that order. The line of the
-- greatest stays inside its buffer.
pub scan_procs-IsRanked :
    (cfg : Config) (sys : System) (max : ℕ) (es : List Bytes) (n : ℕ)
    → sys.entries (rp cfg (codes "/proc")) ≡ some es
    → 0 < n
    → IsRanked (scan_procs cfg sys max)
      × Perm (scan_procs cfg sys max) (take max (procs_in cfg sys es))
      × (length (top_rss cfg sys n) < n)
unfolding top_rss
scan_procs-IsRanked cfg sys max es n e z = (
  rw (scan_procs_listed cfg sys max es e) (sort_rss-IsRanked (take max (procs_in cfg sys es))),
  rw (scan_procs_listed cfg sys max es e) (sort_rss-perm (take max (procs_in cfg sys es))),
  text_in-Fits n _ (
      put_procs-Fits n (take max_top (scan_procs cfg sys max_procs)) nothing_printed
        (omega (arith, z))),
)
