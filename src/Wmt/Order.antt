-- ===== src/Wmt/Order.antt =====
-- `collect` gives the matching names in order, whatever the order of the directory.
use mathlib.Core.List.{Perm, Permᴰ}
use mathlib.Core.List.Perm
use mathlib.Core.Logic.{∥∥₁_elim}
use mobile_config.Base.{
  ℕ, suc, ◌+◌, ◌≤◌, ◌<◌, ◌≡◌, refl, sym, ◌∙◌, inl, inr, true, false, List, [], ◌∷◌, ◌++◌, ltb,
  lt→ltb, if◌then◌else◌, Option, none, some, arith, length, length-append, Bool-cases, append_assoc,
  append-nil,
}
use mobile_config.Libc.{Bytes, str_lt}
use mobile_config.Wmt.Firmware.{Store, matches, scan_dir, insert, sort, sorted_within, collect}

str_lt_irrefl : (a : Bytes) → str_lt a a ≡ false
str_lt_irrefl [] = refl
str_lt_irrefl (x ∷ xs) = ground (arith, str_lt_irrefl xs)

str_lt-asym : (a b : Bytes) → str_lt a b ≡ true → str_lt b a ≡ false
str_lt-asym [] [] h = cc
str_lt-asym [] (y ∷ ys) h = refl
str_lt-asym (x ∷ xs) [] h = cc
str_lt-asym (x ∷ xs) (y ∷ ys) h = ground (arith, str_lt-asym xs ys)

str_lt_trans : (a b c : Bytes) → str_lt a b ≡ true → str_lt b c ≡ true → str_lt a c ≡ true
str_lt_trans [] [] c h k = cc
str_lt_trans [] (y ∷ ys) [] h k = cc
str_lt_trans [] (y ∷ ys) (z ∷ zs) h k = refl
str_lt_trans (x ∷ xs) [] c h k = cc
str_lt_trans (x ∷ xs) (y ∷ ys) [] h k = cc
str_lt_trans (x ∷ xs) (y ∷ ys) (z ∷ zs) h k = ground (arith, str_lt_trans xs ys zs)

-- Names of which neither comes before the other are equal.
str_lt-antisym : (a b : Bytes) → str_lt a b ≡ false → str_lt b a ≡ false → a ≡ b
str_lt-antisym [] [] h k = refl
str_lt-antisym [] (y ∷ ys) h k = cc
str_lt-antisym (x ∷ xs) [] h k = cc
str_lt-antisym (x ∷ xs) (y ∷ ys) h k = ground (arith, str_lt-antisym xs ys)

-- Each name is not after the next one.
abbrev pub IsSorted : List Bytes → Type 0
IsSorted [] = Unit {0}
IsSorted (a ∷ []) = Unit {0}
IsSorted (a ∷ b ∷ rest) = (str_lt b a ≡ false) × IsSorted (b ∷ rest)

-- Two insertions commute, so the order of the entries does not matter.
insert_comm : (a b : Bytes) (xs : List Bytes) → insert a (insert b xs) ≡ insert b (insert a xs)
unfolding insert
insert_comm a b [] = ground (arith, str_lt-antisym a b, str_lt-asym a b)
insert_comm a b (x ∷ xs) = ground (
  arith,
  str_lt-antisym a b,
  str_lt-asym a b,
  str_lt_trans x a b,
  str_lt_trans x b a,
  str_lt-antisym a x,
  str_lt-antisym b x,
  insert_comm a b xs,
)

insert-IsSorted : (a : Bytes) (xs : List Bytes) → IsSorted xs → IsSorted (insert a xs)
unfolding insert
insert-IsSorted a [] h = tt
insert-IsSorted a (x ∷ []) h = ground (arith, str_lt-asym x a)
insert-IsSorted a (x ∷ y ∷ xs) h =
    ground (arith, insert-IsSorted a (y ∷ xs) h.1, str_lt-asym x a, str_lt-asym y a)

sort-IsSorted : (xs : List Bytes) → IsSorted (sort xs)
unfolding sort
sort-IsSorted [] = tt
sort-IsSorted (x ∷ xs) = insert-IsSorted x (sort xs) (sort-IsSorted xs)

insert-perm : (a : Bytes) (xs : List Bytes) → Perm (insert a xs) (a ∷ xs)
unfolding insert
insert-perm a [] = Perm.refl (a ∷ [])
insert-perm a (x ∷ xs) = elim (Bool-cases (str_lt x a)) [
  | inl e ↦ rw e (Perm.trans (Perm.cons x (insert-perm a xs)) (Perm.swap a x xs))
  | inr e ↦ rw e (Perm.refl (a ∷ x ∷ xs))
]

sort-perm : (xs : List Bytes) → Perm (sort xs) xs
unfolding sort
sort-perm [] = Perm.refl []
sort-perm (x ∷ xs) = Perm.trans (insert-perm x (sort xs)) (Perm.cons x (sort-perm xs))

-- The entries that match.
abbrev pub picked : Bytes → List Bytes → List Bytes
picked part [] = []
picked part (e ∷ es) = if matches part e then e ∷ picked part es else picked part es

scan_dir-matched :
    (part : Bytes) (max : ℕ) (es : List Bytes) (m : ℕ) (names : List Bytes)
    → (scan_dir part max es m names).0 ≡ m + length (picked part es)
unfolding scan_dir
scan_dir-matched part max [] m names = omega arith
scan_dir-matched part max (e ∷ es) m names = ground (
  arith,
  scan_dir-matched part max es (suc m) (names ++ e ∷ []),
  scan_dir-matched part max es (suc m) names,
  scan_dir-matched part max es m names,
)

-- While there is room the matching entries are appended.
scan_dir-names :
    (part : Bytes) (max : ℕ) (es names : List Bytes) (m : ℕ)
    → length names + length (picked part es) ≤ max
    → (scan_dir part max es m names).1 ≡ names ++ picked part es
unfolding scan_dir
scan_dir-names part max [] names m h = sym (append-nil names)
scan_dir-names part max (e ∷ es) names m h = ground (
  arith,
  scan_dir-names part max es (names ++ e ∷ []) (suc m),
  scan_dir-names part max es names m,
  length-append names (e ∷ []),
  append_assoc names (e ∷ []) (picked part es),
)

-- `collect` over the entries: none where too many match, and all that match, sorted, otherwise.
collected : Bytes → ℕ → List Bytes → Option (List Bytes)
collected part max es =
    if ltb max (length (picked part es)) then none else some (sort (picked part es))

collect_lem :
    (part : Bytes) (max : ℕ) (es : List Bytes)
    → sorted_within max (scan_dir part max es 0 []) ≡ collected part max es
unfolding sorted_within collected
collect_lem part max es =
    ground (arith, scan_dir-matched part max es 0 [], scan_dir-names part max es [] 0)

insert_cong : {a b : Bytes} {xs ys : List Bytes} → a ≡ b → xs ≡ ys → insert a xs ≡ insert b ys
insert_cong p q = cc

-- The same entries in another order match as often and are sorted alike.
picked-perm :
    (part : Bytes) {es fs : List Bytes}
    → Permᴰ es fs
    → (length (picked part es) ≡ length (picked part fs))
      × (sort (picked part es) ≡ sort (picked part fs))
unfolding sort
picked-perm part Permᴰ.nil = (refl, refl)
picked-perm part (Permᴰ.cons {a} {b} {l₁} {l₂} e p) =
    let (m, s) = picked-perm part p in rw e (ground (arith, m, s))
picked-perm part (Permᴰ.swap {a} {b} {a'} {b'} {l} e f) =
    rw (e, f) (ground (arith, insert_comm b' a' (sort (picked part l))))
picked-perm part (Permᴰ.trans p q) =
    let (m, s) = picked-perm part p in let (n, t) = picked-perm part q in (m ∙ n, s ∙ t)

entries_set : IsSet (Option (List Bytes))
entries_set = hlevel

-- Two directories with the same entries in any order give the same result: the same list of names,
-- so the same download sequence, or the same refusal.
pub collect_any_order :
    (st : Store) (part : Bytes) (max : ℕ) (es fs : List Bytes)
    → Perm es fs
    → collect (record st { entries = some es }) part max
      ≡ collect (record st { entries = some fs }) part max
unfolding collect collected
collect_any_order st part max es fs p = ∥∥₁_elim p (entries_set _ _) λ d.
    let (m, s) = picked-perm part d in
    rw (collect_lem part max es, collect_lem part max fs) (rw (m, s))

collected-some :
    (part : Bytes) (max : ℕ) (es : List Bytes) {names : List Bytes}
    → collected part max es ≡ some names
    → (names ≡ sort (picked part es)) × (length (picked part es) ≤ max)
unfolding collected
collected-some part max es h = ground arith

collect-collected :
    (st : Store) (part : Bytes) (max : ℕ) (es : List Bytes)
    → st.entries ≡ some es
    → collect st part max ≡ collected part max es
unfolding collect
collect-collected st part max es e = rw (e, collect) (collect_lem part max es)

-- A list that `collect` gives is sorted, holds exactly the entries that match, each as often as the
-- directory does, and is no longer than the room for it. So nothing that matches is left out.
pub collect_sound :
    (st : Store) (part : Bytes) (max : ℕ) (es : List Bytes) {names : List Bytes}
    → st.entries ≡ some es
    → collect st part max ≡ some names
    → IsSorted names × Perm names (picked part es) × (length (picked part es) ≤ max)
collect_sound st part max es {names} e h =
    let (whole, fits) = collected-some part max es (sym (collect-collected st part max es e) ∙ h) in
    rw whole (sort-IsSorted (picked part es), sort-perm (picked part es), fits)

-- Where more match than there is room for, it refuses and does not cut the list.
pub collect_overflow :
    (st : Store) (part : Bytes) (max : ℕ) (es : List Bytes)
    → st.entries ≡ some es
    → max < length (picked part es)
    → collect st part max ≡ none
collect_overflow st part max es e h =
    collect-collected st part max es e ∙ (unfold collected in rw (lt→ltb _ _ h))
