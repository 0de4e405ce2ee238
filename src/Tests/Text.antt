-- ===== src/Tests/Text.antt =====
-- Runs and instances for the text sources of modules/console/panel.c.
use mobile_config.Base.{
  ◌≡◌, refl, suc, true, false, List, [], ◌∷◌, ◌++◌, if◌then◌else◌, none, some, length, All, arith,
}
use mobile_config.Libc.{Bytes, codes, streq}
use mobile_config.Config.{default_config, rp}
use mobile_config.Files.{first_line, slurp}
use mobile_config.Tests.Systems.{system_with}
use mobile_config.System.{System}
use mobile_config.Text.Buffer.{empty_buf, Memory, enough_memory, tb_push, store_line, push_all}
use mobile_config.Text.Pushes.{IsValid, Sub, texts, all_stored, push_all-Holds}
use mobile_config.Text.Journal.{
  Entry, Journal, jfield, journal_format, matches_of, boot_match, priorities, format_all,
  load_journal,
}
use mobile_config.Text.Lines.{IsShort, load_journal_lines}

abbrev boot : System
boot = system_with [] ((codes "/proc/sys/kernel/random/boot_id", codes "12-ab\n") ∷ [])

abbrev started : Entry
started = record {
  field_data = λ field.
      if streq field (codes "MESSAGE")
      then some (codes "MESSAGE=hello")
      else if streq field (codes "_COMM")
      then some (codes "_COMM=init")
      else none;
  usec = 0;
}

abbrev nothing_there : Entry
nothing_there = record { field_data = λ field. none; usec = 0 }

abbrev empty_journal : Journal
empty_journal = record { opens = true; seeks = true; first = nothing_there; nexts = [] }

format_run : journal_format boot started ≡ codes " init: hello"
unfolding journal_format jfield
format_run = refl

-- A journal without entries gives one line, of an entry without fields.
empty_run : load_journal default_config boot (λ m. empty_journal) false ≡ codes " ?: " ∷ []
unfolding load_journal matches_of boot_match priorities format_all journal_format jfield first_line
    slurp rp
empty_run = refl

load_journal_lines_example :
    (load_journal default_config boot (λ m. empty_journal) true
      ≡ format_all boot empty_journal.first empty_journal.nexts)
    × (length (load_journal default_config boot (λ m. empty_journal) true)
        ≡ suc (length empty_journal.nexts))
    × All IsShort (load_journal default_config boot (λ m. empty_journal) true)
load_journal_lines_example =
    load_journal_lines default_config boot (λ m. empty_journal) true empty_journal refl refl refl

-- The second copy fails.
abbrev pushes : List (Memory × Bytes)
pushes =
    (enough_memory, codes "one")
    ∷ (record { grows = true; copies = false }, codes "two")
    ∷ (enough_memory, codes "three")
    ∷ []

pushes_run :
    push_all pushes empty_buf ≡ record { line = codes "one" ∷ codes "three" ∷ []; cap = 256 }
unfolding push_all tb_push store_line
pushes_run = refl

push_all-Holds_example :
    IsValid (push_all pushes empty_buf)
    × ((out : List Bytes) × ((push_all pushes empty_buf).line ≡ empty_buf.line ++ out)
        × Sub out (texts pushes))
    × ((push_all (all_stored (texts pushes)) empty_buf).line ≡ empty_buf.line ++ texts pushes)
push_all-Holds_example = push_all-Holds pushes empty_buf (omega arith)
