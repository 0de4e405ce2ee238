-- ===== src/Text/Journal.antt =====
-- modules/console/panel.c: `jfield`, `journal_format` and `load_journal`. libsystemd is an argument:
-- whether the journal opens and seeks, and the entries at which it stands one after the other. Memory
-- is taken to suffice, so the pushed lines are the loaded text.
use mobile_config.Base.{
  ℕ, ◌+◌, ◌-◌, ◌/◌, Bool, true, false, not, ◌&&◌, List, [], ◌∷◌, ◌++◌, ltb, leb, ◌==◌,
  if◌then◌else◌, Option, none, some, length, take, drop, pos,
}
use mobile_config.Libc.{Bytes, codes, snprintf}
use mobile_config.Config.{Config, rp}
use mobile_config.Files.{first_line}
use mobile_config.System.{System, good_line}

-- An entry: the result of `sd_journal_get_data` for a field, which is `FIELD=value`, and the time.
-- Where the journal stands at no entry, every field is missing and the time is 0.
pub record Entry : Type 0 where
  pub field_data : Bytes → Option Bytes
  pub usec : ℕ

-- The journal: the calls that may fail, and the entry that it stands at after the seek, with those
-- that `sd_journal_next` then reaches.
pub record Journal : Type 0 where
  pub opens : Bool
  pub seeks : Bool
  pub first : Entry
  pub nexts : List Entry

-- The matches that narrow the journal: those of one field are alternatives, and `conjunction`
-- demands what is on both sides of it.
pub data Match : Type 0 where
  matching : Bytes → Match
  conjunction : Match

-- The value behind `FIELD=`, in a buffer of `n` bytes.
unfoldable pub jfield : Entry → Bytes → ℕ → Option Bytes
jfield e field n = elim (e.field_data field) [
  | none ↦ none
  | some whole ↦
      let skip = length field + 1 in
      if leb (length whole) skip then none else some (take (n - 1) (drop skip whole))
]

abbrev pub or_default : Bytes → Option Bytes → Bytes
or_default d none = d
or_default d (some s) = s

abbrev pub first_of : Option Bytes → Option Bytes → Option Bytes
first_of none b = b
first_of (some a) b = some a

-- The parts of a line around the process number.
abbrev pub pid_text : Option Bytes → Bytes
pid_text none = []
pid_text (some p) = codes "[" ++ (p ++ codes "]")

unfoldable pub journal_format : System → Entry → Bytes
unfolding jfield
journal_format sys e =
    let when = or_default [] (sys.local_time (codes "%b %d %H:%M:%S") (pos (e.usec / 1000000))) in
    let id = first_of (jfield e (codes "SYSLOG_IDENTIFIER") 128) (jfield e (codes "_COMM") 128) in
    snprintf 4096 (
      when
      ++ (codes " "
          ++ (or_default (codes "?") id
              ++ (pid_text (jfield e (codes "_PID") 32)
                  ++ (codes ": " ++ or_default [] (jfield e (codes "MESSAGE") 3072))))))

-- The bytes of the boot id without its dashes, while there is room.
abbrev pub put_id : Bytes → Bytes → Bytes
put_id match [] = match
put_id match (c ∷ s) =
    put_id (if not (c == b'-') && ltb (length match + 1) 128 then match ++ c ∷ [] else match) s

unfoldable pub boot_match : Option Bytes → List Match
boot_match none = []
boot_match (some id) = matching (put_id (codes "_BOOT_ID=") id) ∷ []

unfoldable pub priorities : Bool → List Match
priorities false = []
priorities true =
    conjunction
    ∷ matching (codes "PRIORITY=0")
    ∷ matching (codes "PRIORITY=1")
    ∷ matching (codes "PRIORITY=2")
    ∷ matching (codes "PRIORITY=3")
    ∷ []

unfoldable pub matches_of : Config → System → Bool → List Match
unfolding boot_match priorities first_line
matches_of cfg sys errors_only =
    boot_match (good_line (first_line sys.fs (rp cfg (codes "/proc/sys/kernel/random/boot_id")) 64))
    ++ priorities errors_only

-- The `do … while` of `load_journal`.
unfoldable pub format_all : System → Entry → List Entry → List Bytes
unfolding journal_format
format_all sys e [] = journal_format sys e ∷ []
format_all sys e (e' ∷ es) = journal_format sys e ∷ format_all sys e' es

-- `if (!tb->n) tb_push(tb, "-- no entries --")`
abbrev pub or_no_entries : List Bytes → List Bytes
or_no_entries [] = codes "-- no entries --" ∷ []
or_no_entries (l ∷ ls) = l ∷ ls

-- `journal` answers for the matches that were added.
unfoldable pub load_journal : Config → System → (List Match → Journal) → Bool → List Bytes
unfolding matches_of format_all
load_journal cfg sys journal errors_only =
    let j = journal (matches_of cfg sys errors_only) in
    if not j.opens
    then codes "journal unavailable" ∷ []
    else if not j.seeks
    then []
    else or_no_entries (format_all sys j.first j.nexts)
