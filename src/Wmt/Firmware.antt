-- ===== src/Wmt/Firmware.antt =====
-- modules/connectivity/wmt-loader.c: `collect` and `read_patch_header`. The directory, in the order
-- of `readdir`, and the files are arguments.
use mobile_config.Base.{
  ℕ, suc, ◌+◌, ◌-◌, ◌*◌, Bool, not, ◌&&◌, List, [], ◌∷◌, ◌++◌, ltb, leb, ◌==◌, if◌then◌else◌,
  Option, none, some, length, take, drop, get_or,
}
use mobile_config.Libc.{Bytes, codes, streq, str_lt, starts_with, contains, snprintf}

abbrev pub name_max : ℕ
name_max = 255

abbrev pub max_patch_num : ℕ
max_patch_num = 10

abbrev pub patch_hdr_len : ℕ
patch_hdr_len = 32

-- What the process finds of the firmware: the names in the directory, `none` where `opendir`
-- fails, and the bytes of a path, `none` where `open` fails.
pub record Store : Type 0 where
  pub firmware_dir : Bytes
  pub entries : Option (List Bytes)
  pub bytes : Bytes → Option Bytes

-- The four tests of an entry.
unfoldable pub matches : Bytes → Bytes → Bool
matches part name =
    leb (length name) name_max
    && (starts_with (codes "soc") name
        && (contains part name
            && (leb 8 (length name) && streq (drop (length name - 8) name) (codes "_hdr.bin"))))

-- The loop over the entries: `matched`, and the first `max` names that match.
unfoldable pub scan_dir : Bytes → ℕ → List Bytes → ℕ → List Bytes → ℕ × List Bytes
scan_dir part max [] matched names = (matched, names)
scan_dir part max (e ∷ es) matched names =
    scan_dir part max es (if matches part e then suc matched else matched)
      (if matches part e && ltb (length names) max then names ++ e ∷ [] else names)

-- `qsort` by `strcmp`. Names that it takes for equal are equal, so every sort gives this list.
unfoldable pub insert : Bytes → List Bytes → List Bytes
insert a [] = a ∷ []
insert a (b ∷ bs) = if str_lt b a then b ∷ insert a bs else a ∷ b ∷ bs

unfoldable pub sort : List Bytes → List Bytes
unfolding insert
sort [] = []
sort (a ∷ rest) = insert a (sort rest)

unfoldable pub sorted_within : ℕ → ℕ × List Bytes → Option (List Bytes)
unfolding sort
sorted_within max (matched, names) = if ltb max matched then none else some (sort names)

-- The names that `collect` fills in, as many as its result; `none` is the result -1.
unfoldable pub collect : Store → Bytes → ℕ → Option (List Bytes)
unfolding scan_dir sorted_within matches
collect st part max = elim st.entries [
  | none ↦ none
  | some es ↦ sorted_within max (scan_dir part max es 0 [])
]

-- `u4PatchAddr` as it stands in the file, and the type read as a big-endian word.
pub record Header : Type 0 where
  pub address : Bytes
  pub type : ℕ

unfoldable pub parse_header : Bytes → Option Header
parse_header hdr =
    if not (length hdr == patch_hdr_len)
    then none
    else some (record {
      address = take 4 (drop 24 hdr);
      type =
          get_or hdr 28 0 * 16777216
          + get_or hdr 29 0 * 65536
          + get_or hdr 30 0 * 256
          + get_or hdr 31 0;
    })

-- One `read` of 32 bytes is taken to return as many as the file has.
unfoldable pub read_patch_header : Store → Bytes → Option Header
unfolding parse_header
read_patch_header st name = elim (st.bytes (snprintf 4096 (st.firmware_dir ++ codes "/" ++ name))) [
  | none ↦ none
  | some content ↦ parse_header (take patch_hdr_len content)
]
