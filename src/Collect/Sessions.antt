-- ===== src/Collect/Sessions.antt =====
-- modules/console/panel.c: `ssh_users` and `tty_sessions`.
use mobile_config.Base.{
  ℕ, Bool, false, not, ◌&&◌, ◌||◌, List, [], ◌∷◌, ◌++◌, ltb, ◌==◌, if◌then◌else◌, Option, none,
  some, length, take, drop, map,
}
use mobile_config.Libc.{
  Bytes, codes, snprintf, starts_with, streq, until, split_at, Printed, nothing_printed, put_piece,
  put_word, shown_or_dash, ◌>>=◌,
}
use mobile_config.Config.{Config, rp}
use mobile_config.Files.{slurp}
use mobile_config.System.{System, Session}
use mobile_config.Collect.Procs.{is_pid_name, proc_path}

abbrev pub max_users : ℕ
max_users = 16

-- The command line with its NULs made spaces; `none` where there is none.
unfoldable pub cmdline : Config → System → Bytes → Option Bytes
unfolding slurp
cmdline cfg sys name = elim (slurp sys.fs (rp cfg (proc_path name (codes "/cmdline"))) 1024) [
  | none ↦ none
  | some [] ↦ none
  | some (c ∷ s) ↦ some (map (λ b. if b == 0 then 32 else b) (c ∷ s))
]

-- Whether a byte stands in a text: `memchr`.
abbrev pub has_byte : ℕ → Bytes → Bool
has_byte b [] = false
has_byte b (c ∷ s) = c == b || has_byte b s

-- The bytes before the first `@` of a text that has one.
abbrev pub before_at : Bytes → Option Bytes
before_at s = if has_byte b'@' s then some (until b'@' s) else none

-- The tests of the name between the colon and the at sign.
unfoldable pub is_user : Bytes → Bool
is_user name =
    not (length name == 0)
    && (ltb (length name) 64 && (not (has_byte 32 name) && not (has_byte b'[' name)))

-- What stands between the first `: ` and the first `@` behind it, if it is a name.
unfoldable pub named_in : Bytes → Option Bytes
unfolding is_user
named_in line = do
  (_, from_colon) ← split_at (codes ": ") line
  name ← before_at (drop 2 from_colon)
  if is_user name then some name else none

-- The name that a command line of sshd shows.
unfoldable pub user_in : Bytes → Option Bytes
unfolding named_in
user_in line = if starts_with (codes "sshd") line then named_in line else none

abbrev pub is_listed : Bytes → List Bytes → Bool
is_listed name [] = false
is_listed name (x ∷ xs) = streq x name || is_listed name xs

-- `names`, with a name that is not among them.
abbrev pub add_user : Option Bytes → List Bytes → List Bytes
add_user none names = names
add_user (some name) names = if is_listed name names then names else names ++ name ∷ []

unfoldable pub user_of : Config → System → Bytes → Option Bytes
unfolding cmdline user_in
user_of cfg sys e = if is_pid_name e then cmdline cfg sys e >>= user_in else none

-- The loop over the directory.
unfoldable pub collect_users : Config → System → List Bytes → List Bytes → List Bytes
unfolding user_of
collect_users cfg sys [] names = names
collect_users cfg sys (e ∷ es) names =
    let rest = collect_users cfg sys es (add_user (user_of cfg sys e) names) in
    if ltb (length names) max_users then rest else names

unfoldable pub put_users : ℕ → List Bytes → Printed → Printed
unfolding put_word
put_users n [] p = p
put_users n (x ∷ xs) p = put_users n xs (put_word n (codes ",") x p)

unfoldable pub ssh_users : Config → System → ℕ → Bytes
unfolding collect_users put_users shown_or_dash
ssh_users cfg sys n = elim (sys.entries (rp cfg (codes "/proc"))) [
  | none ↦ snprintf n (codes "-")
  | some es ↦ shown_or_dash n (put_users n (collect_users cfg sys es []) nothing_printed)
]

abbrev or_question : Option Bytes → Bytes
or_question none = codes "?"
or_question (some when) = when

-- `"%.32s@%.32s since %s   "`
unfoldable pub session_text : System → Session → Bytes
session_text sys u =
    take 32 u.user
    ++ (codes "@"
        ++ (take 32 u.tty
            ++ (codes " since "
                ++ (or_question (sys.local_time (codes "%H:%M") u.since) ++ codes "   "))))

unfoldable pub put_sessions : ℕ → System → List Session → Printed → Printed
unfolding put_piece session_text
put_sessions n sys [] p = p
put_sessions n sys (u ∷ us) p = put_sessions n sys us (put_piece n (session_text sys u) p)

unfoldable pub tty_sessions : Config → System → ℕ → Bytes
unfolding put_sessions shown_or_dash
tty_sessions cfg sys n =
    shown_or_dash n (put_sessions n sys (sys.utmp (rp cfg (codes "/var/run/utmp"))) nothing_printed)
