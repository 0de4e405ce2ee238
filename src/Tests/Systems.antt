-- ===== src/Tests/Systems.antt =====
-- A small system for the runs: its files are a list, and what is not a file is empty or missing.
use mobile_config.Base.{true, List, [], ◌∷◌, if◌then◌else◌, Option, none, some, pos}
use mobile_config.Libc.{Bytes, streq}
use mobile_config.Files.{Fs}
use mobile_config.System.{System}

abbrev pub look_up {ℓ} : {A : Type ℓ} → List (Bytes × A) → Bytes → Option A
look_up [] path = none
look_up ((p, a) ∷ rest) path = if streq p path then some a else look_up rest path

abbrev pub files : List (Bytes × Bytes) → Fs
files list = record { content = look_up list; writable = λ p. true; removable = λ p. true }

abbrev pub system_with : List (Bytes × List Bytes) → List (Bytes × Bytes) → System
system_with directories list = record {
  fs = files list;
  entries = look_up directories;
  link = λ p. none;
  page_kb = pos 4;
  time = pos 1700000000;
  local_time = λ format t. none;
  root_statvfs = none;
  interfaces = none;
  utmp = λ p. [];
  bus = none;
}
