-- ===== src/Net/Route.antt =====
-- modules/console/panel.c: `default_gateway` and `iface_addr`.
use mobile_config.Base.{
  ℕ, zero, suc, ◌/◌, ◌%◌, ◌^◌, List, [], ◌∷◌, ◌++◌, ◌==◌, if◌then◌else◌, Option, none, some,
}
use mobile_config.Libc.{
  Bytes, codes, snprintf, until, dec, streq, scan_word, scan_x, lines_of, ◌>>=◌,
}
use mobile_config.Config.{Config, rp}
use mobile_config.Files.{Fs, slurp}
use mobile_config.System.{System, Interface, fixture}
use mobile_config.Net.Scan.{format_v4, rows_behind_heading}

-- Destination and gateway of a row: `sscanf(line, "%63s %x %x %x", …)` gives all four.
unfoldable pub scan_route : Bytes → Option (ℕ × ℕ)
unfolding scan_word scan_x
scan_route line = do
  (_, s1) ← scan_word 63 line
  (dest, s2) ← scan_x s1
  (gw, s3) ← scan_x s2
  (flags, _) ← scan_x s3
  some (dest, gw)

-- The loop over the rows: the first default route.
unfoldable pub find_gateway : ℕ → List Bytes → Bytes
unfolding scan_route format_v4
find_gateway n [] = []
find_gateway n (l ∷ ls) =
    let rest = find_gateway n ls in
    elim (scan_route l) [
      | none ↦ rest
      | some (dest, gw) ↦ if dest == 0 then format_v4 gw n else rest
    ]

unfoldable pub default_gateway : Config → Fs → ℕ → Bytes
unfolding find_gateway slurp
default_gateway cfg fs n = elim (slurp fs (rp cfg (codes "/proc/net/route")) 16384) [
  | none ↦ []
  | some buf ↦ find_gateway n (rows_behind_heading (lines_of (until 0 buf)))
]

-- `sscanf(l, "%63s %63s", iface, addr) == 2`
unfoldable pub scan_ifaddr : Bytes → Option (Bytes × Bytes)
unfolding scan_word
scan_ifaddr line = do
  (iface, s1) ← scan_word 63 line
  (addr, _) ← scan_word 63 s1
  some (iface, addr)

unfoldable pub find_fixture : ℕ → Bytes → List Bytes → Bytes
unfolding scan_ifaddr
find_fixture n name [] = snprintf n (codes "-")
find_fixture n name (l ∷ ls) =
    let rest = find_fixture n name ls in
    elim (scan_ifaddr l) [
      | none ↦ rest
      | some (iface, addr) ↦ if streq iface name then snprintf n addr else rest
    ]

-- How many of the bits from `i - 1` down are set, up to the first that is not.
unfoldable pub leading_ones : ℕ → ℕ → ℕ
leading_ones zero mask = 0
leading_ones (suc i) mask =
    let more = leading_ones i mask in if mask / 2 ^ i % 2 == 1 then suc more else 0

abbrev mask_of : Option ℕ → ℕ
mask_of none = 0
mask_of (some mask) = mask

-- `%u.%u.%u.%u/%d`, the highest byte first
unfoldable pub interface_text : ℕ → Interface → Bytes
unfolding leading_ones
interface_text n i =
    let a = i.address in
    let dot = codes "." in
    snprintf n (
      dec (a / 16777216)
      ++ (dot
          ++ (dec (a / 65536 % 256)
              ++ (dot
                  ++ (dec (a / 256 % 256)
                      ++ (dot
                          ++ (dec (a % 256)
                              ++ (codes "/" ++ dec (leading_ones 32 (mask_of i.netmask))))))))))

unfoldable pub find_interface : ℕ → Bytes → List Interface → Bytes
unfolding interface_text
find_interface n name [] = snprintf n (codes "-")
find_interface n name (i ∷ is) =
    if streq i.name name then interface_text n i else find_interface n name is

abbrev addresses_of : ℕ → Bytes → Option (List Interface) → Bytes
addresses_of n name none = snprintf n (codes "-")
addresses_of n name (some is) = find_interface n name is

unfoldable pub iface_addr : Config → System → ℕ → Bytes → Bytes
unfolding find_fixture find_interface slurp
iface_addr cfg sys n name = elim (fixture cfg (codes "ifaddr")) [
  | none ↦ addresses_of n name sys.interfaces
  | some fx ↦ elim (slurp sys.fs fx 4096) [
    | none ↦ snprintf n (codes "-")
    | some buf ↦ find_fixture n name (lines_of (until 0 buf))
  ]
]
