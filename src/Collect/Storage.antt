-- ===== src/Collect/Storage.antt =====
-- modules/console/panel.c: `emmc_health`, `disk_usage`, `endurance`, and the ratio that the zram
-- device saves.
use mobile_config.Base.{
  ℕ, ◌+◌, ◌-◌, ◌*◌, ◌/◌, ◌%◌, ◌^◌, ◌&&◌, ◌||◌, [], ◌∷◌, ◌++◌, leb, ◌==◌, if◌then◌else◌, Option,
  none, some, take, ℤ, pos, ◌-ℤ◌, ◌*ℤ◌, ltb_ℤ, pos_part, neg_part, quot_ℤ, rem_ℤ,
}
use mobile_config.Libc.{
  Bytes, codes, snprintf, streq, dec, dec_ℤ, dec0, to_int32, scan_word, scan_ull, scan_ll, strtol16,
}
use mobile_config.Config.{Config, rp}
use mobile_config.Files.{Fs, first_line}
use mobile_config.Screen.{rst, dim, red, yel}
use mobile_config.System.{System, Statvfs, fixture, good_line}

-- `strtol` of a word in base 16 behind an optional `0x`; `strtol` would itself skip one more.
unfoldable pub life_of : Bytes → ℤ
unfolding strtol16
life_of (z ∷ x ∷ s) =
    if z == b'0' && (x == b'x' || x == b'X') then strtol16 s else strtol16 (z ∷ x ∷ s)
life_of s = strtol16 s

abbrev pub second_word : Option (Bytes × Bytes) → Bytes
second_word none = []
second_word (some (w, rest)) = w

-- The greater of the two banks. Without a word both are 0.
unfoldable pub life_in : Bytes → ℤ
unfolding scan_word life_of to_int32
life_in buf = elim (scan_word 31 buf) [
  | none ↦ pos 0
  | some (sa, rest) ↦
      let a = life_of sa in
      let b = life_of (second_word (scan_word 31 rest)) in to_int32 (if ltb_ℤ b a then a else b)
]

unfoldable pub life_text : ℤ → Bytes
life_text v =
    if ltb_ℤ (pos 0) v && ltb_ℤ v (pos 16)
    then snprintf 32
        (dec_ℤ ((v -ℤ pos 1) *ℤ pos 10) ++ (codes "-" ++ (dec_ℤ (v *ℤ pos 10) ++ codes "%")))
    else codes "?"

unfoldable pub eol_text : Bytes → Bytes
eol_text buf =
    if streq buf (codes "01")
    then codes "normal"
    else if streq buf (codes "02")
    then yel ++ (codes "warning" ++ (rst ++ dim))
    else if streq buf (codes "03")
    then red ++ (codes "urgent" ++ (rst ++ dim))
    else snprintf 64 (take 31 buf)

abbrev pub or_unknown : (Bytes → Bytes) → Option Bytes → Bytes
or_unknown f none = codes "?"
or_unknown f (some buf) = f buf

unfoldable pub emmc_health : Config → Fs → ℕ → Bytes
unfolding life_in life_text eol_text first_line
emmc_health cfg fs n =
    let life =
      or_unknown (λ buf. life_text (life_in buf))
        (good_line (first_line fs (rp cfg (codes "/sys/block/mmcblk0/device/life_time")) 128)) in
    let eol =
      or_unknown eol_text
        (good_line (first_line fs (rp cfg (codes "/sys/block/mmcblk0/device/pre_eol_info")) 128)) in
    snprintf n (codes "emmc " ++ (life ++ (codes " used, " ++ eol)))

-- `raw_ma < 0 ? -raw_ma : raw_ma`, in whole mA
abbrev pub draw_of : ℤ → ℕ
draw_of raw = (pos_part raw + neg_part raw) / 10

abbrev pub charge_left : ℤ → ℤ → Bytes → ℤ
charge_left charge full flow = if streq flow (codes "charging") then full -ℤ charge else charge

-- `%lldh%02lldm`
unfoldable pub minutes_text : ℕ → Bytes
minutes_text mins = dec (mins / 60) ++ (codes "h" ++ (dec0 2 (pos (mins % 60)) ++ codes "m"))

-- The products and differences are taken to fit 64 bits.
unfoldable pub endurance : ℤ → ℤ → ℤ → Bytes → ℕ → Bytes
unfolding minutes_text
endurance charge raw_ma full flow n =
    let ma = draw_of raw_ma in
    let left = charge_left charge full flow in
    if streq flow (codes "full")
    then []
    else if leb ma 5
    then []
    else if ltb_ℤ (pos 0) left
    then snprintf n (minutes_text (pos_part left * 60 / (ma * 1000)))
    else []

-- `struct fsinfo`
pub record FsInfo : Type 0 where
  pub total_kb : ℕ
  pub used_kb : ℕ
  pub pct : ℤ

-- The four numbers of the fixture, as many as it gives; the others keep their first values.
unfoldable pub scan_statvfs : Bytes → Statvfs
unfolding scan_ull
scan_statvfs buf = elim (scan_ull buf) [
  | none ↦ record { blocks = 0; bfree = 0; bavail = 0; frsize = 4096; bsize = 4096 }
  | some (a, s1) ↦ elim (scan_ull s1) [
    | none ↦ record { blocks = a; bfree = 0; bavail = 0; frsize = 4096; bsize = 4096 }
    | some (b, s2) ↦ elim (scan_ull s2) [
      | none ↦ record { blocks = a; bfree = b; bavail = 0; frsize = 4096; bsize = 4096 }
      | some (c, s3) ↦ elim (scan_ull s3) [
        | none ↦ record { blocks = a; bfree = b; bavail = c; frsize = 4096; bsize = 4096 }
        | some (d, s4) ↦ record { blocks = a; bfree = b; bavail = c; frsize = d; bsize = 4096 }
      ]
    ]
  ]
]

abbrev pub no_statvfs : Statvfs
no_statvfs = record { blocks = 0; bfree = 0; bavail = 0; frsize = 4096; bsize = 4096 }

unfoldable pub fixture_statvfs : Option Bytes → Statvfs
unfolding scan_statvfs
fixture_statvfs none = no_statvfs
fixture_statvfs (some buf) = scan_statvfs buf

-- `st.f_frsize ? st.f_frsize : st.f_bsize`
abbrev pub root_statvfs_of : Option Statvfs → Statvfs
root_statvfs_of none = no_statvfs
root_statvfs_of (some st) = if st.frsize == 0 then record st { frsize = st.bsize } else st

-- The rest of `disk_usage`, in unsigned 64-bit arithmetic. A size below 2^63 is taken over as it is.
unfoldable pub usage_of : Statvfs → FsInfo
unfolding to_int32
usage_of st =
    let w = 2 ^ 64 in
    let block = if st.frsize == 0 then 4096 else st.frsize in
    let used = (st.blocks + w - st.bfree) % w in
    let denom = (used + st.bavail) % w in
    record {
      total_kb = st.blocks * block % w / 1024;
      used_kb = used * block % w / 1024;
      pct = if denom == 0 then pos 0 else to_int32 (pos ((used * 100 + denom + w - 1) % w / denom));
    }

unfoldable pub disk_usage : Config → System → FsInfo
unfolding usage_of fixture_statvfs first_line
disk_usage cfg sys = usage_of (elim (fixture cfg (codes "statvfs")) [
  | none ↦ root_statvfs_of sys.root_statvfs
  | some fx ↦ fixture_statvfs (good_line (first_line sys.fs fx 256))
])

-- The compressed size of zram and the ratio, from `mm_stat`. C's division of a negative original
-- size rounds towards 0.
unfoldable pub zram_in : Option Bytes → ℤ × Bytes
unfolding scan_ll
zram_in none = (pos 0, codes "-")
zram_in (some buf) = elim (scan_ll buf) [
  | none ↦ (pos 0, codes "-")
  | some (orig, s1) ↦ elim (scan_ll s1) [
    | none ↦ (pos 0, codes "-")
    | some (compr, s2) ↦
        if ltb_ℤ (pos 0) compr
        then (
          compr,
          snprintf 16 (
              dec_ℤ (quot_ℤ orig (pos_part compr))
              ++ (codes "."
                  ++ (dec_ℤ (rem_ℤ (quot_ℤ (orig *ℤ pos 10) (pos_part compr)) 10) ++ codes "x"))),
        )
        else (compr, codes "-")
  ]
]
