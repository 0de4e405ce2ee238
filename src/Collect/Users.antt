-- ===== src/Collect/Users.antt =====
-- What `ssh_users` collects and prints.
use mobile_config.Base.{
  ℕ, ◌≡◌, ◌≢◌, refl, ◌<◌, ◌≤◌, ◌⊎◌, inl, inr, true, false, List, [], ◌∷◌, ◌++◌, ltb, if◌then◌else◌,
  Option, none, some, length, length-append, All, All-append, arith, Bool-cases, ltb→lt, if_ind,
  drop,
}
use mobile_config.Libc.{
  Bytes, codes, streq, streq_refl, Printed, nothing_printed, put_word, put_word-Fits, Fits,
  shown_or_dash, shown_or_dash-Fits, split_at, Gives, bind-Gives, starts_with,
}
use mobile_config.Config.{Config, rp}
use mobile_config.System.{System}
use mobile_config.Collect.Procs.{is_pid_name}
use mobile_config.Collect.Sessions.{
  max_users, is_user, named_in, user_in, is_listed, add_user, user_of, collect_users, put_users,
  ssh_users, cmdline, before_at, has_byte,
}

-- No name stands twice.
abbrev pub Distinct : List Bytes → Type 0
Distinct [] = Unit
Distinct (x ∷ xs) = (is_listed x xs ≡ false) × Distinct xs

-- A name that the list may hold: it fits the 64 bytes of its place with the final NUL.
pub record IsUser (name : Bytes) : Type 0 where
  pub not_empty : 0 < length name
  pub fits : length name < 64
  pub no_space : All (λ c. c ≢ 32) name
  pub no_bracket : All (λ c. c ≢ b'[') name

has_byte-none : (b : ℕ) (s : Bytes) → has_byte b s ≡ false → All (λ c. c ≢ b) s
has_byte-none b [] h = tt
has_byte-none b (c ∷ s) h = (ground (arith, h), has_byte-none b s (ground (arith, h)))

is_user-IsUser : (name : Bytes) → is_user name ≡ true → IsUser name
unfolding is_user
is_user-IsUser name h = record {
  not_empty = ground (arith, h);
  fits = ground (arith, h);
  no_space = has_byte-none 32 name (ground (arith, h));
  no_bracket = has_byte-none b'[' name (ground (arith, h));
}

-- The name that an entry shows is listed, unless the list is full.
abbrev pub Reached : List Bytes → Option Bytes → Type 0
Reached names none = Unit
Reached names (some name) = (is_listed name names ≡ true) ⊎ (max_users ≤ length names)

is_listed-append :
    (x : Bytes) (xs ys : List Bytes)
    → is_listed x (xs ++ ys) ≡ (if is_listed x xs then true else is_listed x ys)
is_listed-append x [] ys = refl
is_listed-append x (a ∷ xs) ys = ground (arith, is_listed-append x xs ys)

streq-false : (a b : Bytes) → streq a b ≡ false → streq b a ≡ false
streq-false [] [] h = h
streq-false [] (y ∷ ys) h = refl
streq-false (x ∷ xs) [] h = refl
streq-false (x ∷ xs) (y ∷ ys) h = ground (arith, streq-false xs ys)

Distinct-append :
    (name : Bytes) (names : List Bytes)
    → Distinct names
    → is_listed name names ≡ false
    → Distinct (names ++ name ∷ [])
Distinct-append name [] d h = (refl, tt)
Distinct-append name (x ∷ xs) d h = (
  ground (arith, is_listed-append x xs (name ∷ []), streq-false x name, d.0),
  Distinct-append name xs d.1 (ground arith),
)

if-IsUser : (name : Bytes) → Gives IsUser (if is_user name then some name else none)
if-IsUser name = elim (Bool-cases (is_user name)) [
  | inl e ↦ rw e (is_user-IsUser name e)
  | inr e ↦ rw e tt
]

named_in-IsUser : (line : Bytes) → Gives IsUser (named_in line)
unfolding named_in
named_in-IsUser line =
    bind-Gives IsUser (split_at (codes ": ") line) _
      λ r. bind-Gives IsUser (before_at (drop 2 r.1)) _ λ name. if-IsUser name

user_in-IsUser : (line : Bytes) → Gives IsUser (user_in line)
unfolding user_in
user_in-IsUser line =
    if_ind (Gives IsUser) (starts_with (codes "sshd") line) (named_in-IsUser line) tt

user_of-IsUser : (cfg : Config) (sys : System) (e : Bytes) → Gives IsUser (user_of cfg sys e)
unfolding user_of
user_of-IsUser cfg sys e =
    if_ind (Gives IsUser) (is_pid_name e)
      (bind-Gives IsUser (cmdline cfg sys e) user_in λ line. user_in-IsUser line) tt

add_user-Distinct :
    (o : Option Bytes) (names : List Bytes) → Distinct names → Distinct (add_user o names)
add_user-Distinct none names d = d
add_user-Distinct (some name) names d = elim (Bool-cases (is_listed name names)) [
  | inl e ↦ rw e d
  | inr e ↦ rw e (Distinct-append name names d e)
]

add_user-IsUser :
    (o : Option Bytes) (names : List Bytes)
    → Gives IsUser o
    → All IsUser names
    → All IsUser (add_user o names)
add_user-IsUser none names h a = a
add_user-IsUser (some name) names h a = elim (Bool-cases (is_listed name names)) [
  | inl e ↦ rw e a
  | inr e ↦ rw e (All-append IsUser names (name ∷ []) a (h, tt))
]

length-add_user :
    (o : Option Bytes) (names : List Bytes)
    → length names < max_users
    → length (add_user o names) ≤ max_users
length-add_user none names h = omega (arith, h)
length-add_user (some name) names h = elim (Bool-cases (is_listed name names)) [
  | inl e ↦ rw e (omega (arith, h))
  | inr e ↦ rw e (omega (arith, h, length-append names (name ∷ [])))
]

-- What is listed stays listed.
is_listed-add :
    (x : Bytes) (o : Option Bytes) (names : List Bytes)
    → is_listed x names ≡ true
    → is_listed x (add_user o names) ≡ true
is_listed-add x none names h = h
is_listed-add x (some name) names h = elim (Bool-cases (is_listed name names)) [
  | inl e ↦ rw e h
  | inr e ↦ rw (e, is_listed-append x names (name ∷ []), h) refl
]

is_listed-collect :
    (cfg : Config) (sys : System) (es : List Bytes) (x : Bytes) (names : List Bytes)
    → is_listed x names ≡ true
    → is_listed x (collect_users cfg sys es names) ≡ true
unfolding collect_users
is_listed-collect cfg sys [] x names h = h
is_listed-collect cfg sys (e ∷ es) x names h = elim (Bool-cases (ltb (length names) max_users)) [
  | inl b ↦ rw b (
      is_listed-collect cfg sys es x (add_user (user_of cfg sys e) names)
        (is_listed-add x (user_of cfg sys e) names h))
  | inr b ↦ rw b h
]

-- The names that entries of `/proc` give: at most 16, each of them a name, none twice, and that of
-- every entry among them unless the list is full.
pub record UserList (cfg : Config) (sys : System) (es names : List Bytes) : Type 0 where
  pub few : length names ≤ max_users
  pub distinct : Distinct names
  pub users : All IsUser names
  pub complete : All (λ e. Reached names (user_of cfg sys e)) es

Reached-full : (names : List Bytes) (o : Option Bytes) → max_users ≤ length names → Reached names o
Reached-full names none h = tt
Reached-full names (some name) h = inr h

All-full :
    (cfg : Config) (sys : System) (names es : List Bytes)
    → max_users ≤ length names
    → All (λ e. Reached names (user_of cfg sys e)) es
All-full cfg sys names [] h = tt
All-full cfg sys names (e ∷ es) h =
    (Reached-full names (user_of cfg sys e) h, All-full cfg sys names es h)

is_listed_self : (x : Bytes) (names : List Bytes) → is_listed x (add_user (some x) names) ≡ true
is_listed_self x names = elim (Bool-cases (is_listed x names)) [
  | inl e ↦ rw e e
  | inr e ↦ rw (e, is_listed-append x names (x ∷ []), e, streq_refl x) refl
]

Reached-collect :
    (cfg : Config) (sys : System) (es : List Bytes) (o : Option Bytes) (names : List Bytes)
    → Reached (collect_users cfg sys es (add_user o names)) o
Reached-collect cfg sys es none names = tt
Reached-collect cfg sys es (some x) names =
    inl (is_listed-collect cfg sys es x (add_user (some x) names) (is_listed_self x names))

collect_users-UserList :
    (cfg : Config) (sys : System) (es names : List Bytes)
    → length names ≤ max_users
    → Distinct names
    → All IsUser names
    → UserList cfg sys es (collect_users cfg sys es names)
unfolding collect_users
collect_users-UserList cfg sys [] names n d u = record {
  few = n;
  distinct = d;
  users = u;
  complete = tt;
}
collect_users-UserList cfg sys (e ∷ es) names n d u =
    elim (Bool-cases (ltb (length names) max_users)) [
      | inl b ↦
          let o = user_of cfg sys e in
          let rest =
            collect_users-UserList cfg sys es (add_user o names)
              (length-add_user o names (ltb→lt (length names) max_users b))
              (add_user-Distinct o names d)
              (add_user-IsUser o names (user_of-IsUser cfg sys e) u) in
          rw b (record {
            few = rest.few;
            distinct = rest.distinct;
            users = rest.users;
            complete = (Reached-collect cfg sys es o names, rest.complete);
          })
      | inr b ↦ rw b (record {
        few = n;
        distinct = d;
        users = u;
        complete = All-full cfg sys names (e ∷ es) (ground arith);
      })
    ]

put_users-Fits :
    (n : ℕ) (names : List Bytes) (p : Printed) → Fits n p → Fits n (put_users n names p)
unfolding put_users
put_users-Fits n [] p h = h
put_users-Fits n (x ∷ xs) p h =
    put_users-Fits n xs (put_word n (codes ",") x p) (put_word-Fits n (codes ",") x p h)

ssh_users_listed :
    (cfg : Config) (sys : System) (es : List Bytes) (n : ℕ)
    → sys.entries (rp cfg (codes "/proc")) ≡ some es
    → ssh_users cfg sys n
      ≡ shown_or_dash n (put_users n (collect_users cfg sys es []) nothing_printed)
unfolding ssh_users
ssh_users_listed cfg sys es n e = rw (ssh_users, e) refl

-- From the entries of `/proc`, `ssh_users` collects at most 16 names, each of them not empty, shorter
-- than 64 bytes and without a space or a bracket, none of them twice, and the name that each entry
-- shows is among them unless there are 16; the text that it prints stays inside the buffer.
pub ssh_users-UserList :
    (cfg : Config) (sys : System) (es : List Bytes) (n : ℕ)
    → sys.entries (rp cfg (codes "/proc")) ≡ some es
    → 0 < n
    → UserList cfg sys es (collect_users cfg sys es []) × (length (ssh_users cfg sys n) < n)
ssh_users-UserList cfg sys es n e z = (
  collect_users-UserList cfg sys es [] (omega arith) tt tt,
  rw (ssh_users_listed cfg sys es n e) (
      shown_or_dash-Fits n _ z
        (put_users-Fits n (collect_users cfg sys es []) nothing_printed (omega (arith, z)))),
)
