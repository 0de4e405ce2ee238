-- ===== src/Text/Lines.antt =====
-- The lines that the journal gives.
use mobile_config.Base.{
  ℕ, suc, ◌≡◌, refl, ap, ◌<◌, List, [], ◌∷◌, length, true, All, arith, length-take-le, take, Bool,
}
use mobile_config.Libc.{Bytes}
use mobile_config.Config.{Config}
use mobile_config.System.{System}
use mobile_config.Text.Journal.{
  Entry, Journal, Match, journal_format, format_all, matches_of, load_journal, or_no_entries,
}

length-snprintf : (n : ℕ) (text : Bytes) → length (take n text) < suc n
length-snprintf n text = omega (arith, length-take-le n text)

length-journal_format : (sys : System) (e : Entry) → length (journal_format sys e) < 4096
unfolding journal_format
length-journal_format sys e = length-snprintf 4095 _

-- No line is longer than the buffer it is printed in.
abbrev pub IsShort : Bytes → Type 0
IsShort l = length l < 4096

format_all-Short : (sys : System) (e : Entry) (es : List Entry) → All IsShort (format_all sys e es)
unfolding format_all
format_all-Short sys e [] = (length-journal_format sys e, tt)
format_all-Short sys e (e' ∷ es) = (length-journal_format sys e, format_all-Short sys e' es)

length-format_all :
    (sys : System) (e : Entry) (es : List Entry) → length (format_all sys e es) ≡ suc (length es)
unfolding format_all
length-format_all sys e [] = refl
length-format_all sys e (e' ∷ es) = ap suc (length-format_all sys e' es)

no_entries_unused :
    (sys : System) (e : Entry) (es : List Entry)
    → or_no_entries (format_all sys e es) ≡ format_all sys e es
unfolding format_all
no_entries_unused sys e [] = refl
no_entries_unused sys e (e' ∷ es) = refl

-- Where the journal opens and seeks, `load_journal` gives a line for the entry at which it stands and
-- one for each that follows, none longer than the buffer: the line "-- no entries --" is never put, not
-- even for a journal without entries.
pub load_journal_lines :
    (cfg : Config) (sys : System) (journal : List Match → Journal) (errors_only : Bool)
    (j : Journal)
    → journal (matches_of cfg sys errors_only) ≡ j
    → j.opens ≡ true
    → j.seeks ≡ true
    → (load_journal cfg sys journal errors_only ≡ format_all sys j.first j.nexts)
      × (length (load_journal cfg sys journal errors_only) ≡ suc (length j.nexts))
      × All IsShort (load_journal cfg sys journal errors_only)
unfolding load_journal
load_journal_lines cfg sys journal errors_only j e opens seeks =
    let same = no_entries_unused sys j.first j.nexts in
    rw (e, opens, seeks, same)
      (refl, length-format_all sys j.first j.nexts, format_all-Short sys j.first j.nexts)
