-- ===== src/Net/Kernel.antt =====
-- A row of /proc/net/tcp as the kernel prints it, read back by `scan_tcp_file`.
use mobile_config.Base.{
  ℕ, suc, ◌+◌, ◌/◌, ◌%◌, ◌^◌, ◌≡◌, refl, ◌∙◌, ap, ◌<◌, ◌≤◌, true, false, [], ◌∷◌, ◌++◌, some,
  length, length-append, take, take_all, replicate, All, All-append, arith, pos,
}
use mobile_config.Libc.{
  Bytes, codes, dec, to_int32, to_int32-small, scan_x, split_last, strtol16, strtoul16, ◌>>=◌,
  starts_hex, hex_body, skip_hex, snprintf,
}
use mobile_config.Libc.RoundTrip.{All-dec, starts-dec, length-dec}
use mobile_config.Libc.Hex.{
  IsHex, upper_digits, All-upper_digits, length-upper_digits, hex_body-upper, starts_hex-upper,
  strtoul16-upper, strtol16-upper,
}
use mobile_config.Net.Scan.{scan_row, conn_of, scan_line, host_text, word_at, format_v4}
use mobile_config.Net.Words.{IsWordByte, scan_word-All, NoColon, split_last-colon, scan_ll-number}

-- An address and a port: `%08X:%04X`.
abbrev pub endpoint : ℕ → ℕ → Bytes
endpoint a p = upper_digits 8 a [] ++ b':' ∷ upper_digits 4 p []

-- The front of a row of the kernel: the number in a field of some width, the two ends, the state, and
-- whatever stands behind it.
abbrev pub kernel_row : ℕ → ℕ → Bytes → Bytes → ℕ → Bytes → Bytes
kernel_row k sl local remote st more =
    replicate k 32
    ++ (dec sl ++ b':' ∷ 32 ∷ (local ++ 32 ∷ (remote ++ 32 ∷ upper_digits 2 st (32 ∷ more))))

hex_word : (c : ℕ) → IsHex c → IsWordByte c
hex_word c h = ground arith

hex_colon : (c : ℕ) → IsHex c → NoColon c
hex_colon c h = ground arith

module _ {P Q : ℕ → Type 0} (f : (c : ℕ) → P c → Q c) where
  All-map : (s : Bytes) → All P s → All Q s
  All-map [] a = tt
  All-map (c ∷ s) a = (f c a.0, All-map s a.1)

endpoint-words : (a p : ℕ) → All IsWordByte (endpoint a p)
endpoint-words a p =
    All-append IsWordByte (upper_digits 8 a []) (b':' ∷ upper_digits 4 p [])
      (All-map hex_word (upper_digits 8 a []) (All-upper_digits 8 a [] tt))
      (refl, All-map hex_word (upper_digits 4 p []) (All-upper_digits 4 p [] tt))

length-endpoint : (a p : ℕ) → length (endpoint a p) ≡ 13
length-endpoint a p = omega (
  arith,
  length-append (upper_digits 8 a []) (b':' ∷ upper_digits 4 p []),
  length-upper_digits 8 a [],
  length-upper_digits 4 p [],
)

split_last-endpoint :
    (a p : ℕ) → split_last b':' (endpoint a p) ≡ some (upper_digits 8 a [], upper_digits 4 p [])
split_last-endpoint a p =
    split_last-colon (upper_digits 8 a []) (upper_digits 4 p [])
      (All-map hex_colon (upper_digits 4 p []) (All-upper_digits 4 p [] tt))

ends_number : (more : Bytes) → starts_hex (32 ∷ more) ≡ false
ends_number more = refl

scan_x_from :
    (s t : Bytes) (n : ℕ)
    → hex_body s ≡ t
    → starts_hex t ≡ true
    → strtoul16 s ≡ n
    → n < 2 ^ 32
    → scan_x s ≡ some (n, skip_hex t)
unfolding scan_x
scan_x_from s t n e starts value small =
    rw (value, e, starts) (ap (λ m. some (m, skip_hex t)) (omega (arith, small)))

strtoul16-space : (s : Bytes) → strtoul16 (32 ∷ s) ≡ strtoul16 s
unfolding strtoul16
strtoul16-space s = refl

scan_x-state :
    (st : ℕ) (more : Bytes)
    → st < 256
    → (r : Bytes) × (scan_x (32 ∷ upper_digits 2 st (32 ∷ more)) ≡ some (st, r))
scan_x-state st more h =
    let t = upper_digits 2 st (32 ∷ more) in
    (
      skip_hex t,
      scan_x_from (32 ∷ t) t st (hex_body-upper 0 st (32 ∷ more) h refl)
          (starts_hex-upper 0 st (32 ∷ more) h refl)
          (strtoul16-space t ∙ strtoul16-upper 0 st (32 ∷ more) h refl (omega (arith, h)))
          (omega (arith, h)),
    )

scan_row-kernel :
    (k sl : ℕ) (local remote : Bytes) (st : ℕ) (more : Bytes)
    → All IsWordByte local
    → All IsWordByte remote
    → length local ≡ 13
    → length remote ≡ 13
    → st < 256
    → scan_row (kernel_row k sl local remote st more)
      ≡ some (record { local_text = local; remote_text = remote; row_state = st })
unfolding scan_row
scan_row-kernel k sl local remote st more al ar nl nr h =
    let behind_remote = upper_digits 2 st (32 ∷ more) in
    let behind_local = remote ++ 32 ∷ behind_remote in
    let (v, number) =
      scan_ll-number k (dec sl) (32 ∷ (local ++ 32 ∷ behind_local)) (All-dec sl) (starts-dec sl) in
    let (r, state) = scan_x-state st more h in
    rw
      (
        number,
        scan_word-All local behind_local al (omega (arith, nl)) (omega (arith, nl)),
        scan_word-All remote behind_remote ar (omega (arith, nr)) (omega (arith, nr)),
        state,
      )
      refl

word_at-address : (a : ℕ) → a < 2 ^ 32 → word_at (upper_digits 8 a []) 0 ≡ a
unfolding word_at
word_at-address a h =
    ap (λ t. strtoul16 t % 2 ^ 32)
      (take_all 8 (upper_digits 8 a []) (omega (arith, length-upper_digits 8 a [])))
    ∙ (ap (λ n. n % 2 ^ 32) (strtoul16-upper 6 a [] h refl (omega (arith, h))) ∙ omega (arith, h))

local_port-kernel : (p : ℕ) → p < 2 ^ 16 → to_int32 (strtol16 (upper_digits 4 p [])) ≡ pos p
local_port-kernel p h =
    ap to_int32 (strtol16-upper 2 p [] h refl (omega (arith, h)))
    ∙ to_int32-small p (omega (arith, h))

remote_port-kernel : (p : ℕ) → p < 2 ^ 16 → strtoul16 (upper_digits 4 p []) % 2 ^ 32 ≡ p
remote_port-kernel p h =
    ap (λ n. n % 2 ^ 32) (strtoul16-upper 2 p [] h refl (omega (arith, h))) ∙ omega (arith, h)

-- The four bytes of an address in the order of the kernel's table, with dots between them.
abbrev pub dotted : ℕ → Bytes
dotted a =
    dec (a % 256)
    ++ (codes "."
        ++ (dec (a / 256 % 256)
            ++ (codes "." ++ (dec (a / 65536 % 256) ++ (codes "." ++ dec (a / 16777216 % 256))))))

length-byte : (n : ℕ) → n < 256 → length (dec n) ≤ 3
length-byte n h = length-dec n 2 (omega (arith, h))

length-dot : (x y : Bytes) → length (x ++ (codes "." ++ y)) ≡ length x + suc (length y)
length-dot x y = length-append x (codes "." ++ y)

length-dotted : (a : ℕ) → length (dotted a) ≤ 15
length-dotted a = omega (
  arith,
  length-dot (dec (a % 256)) (
      dec (a / 256 % 256)
      ++ (codes "." ++ (dec (a / 65536 % 256) ++ (codes "." ++ dec (a / 16777216 % 256))))),
  length-dot (dec (a / 256 % 256))
      (dec (a / 65536 % 256) ++ (codes "." ++ dec (a / 16777216 % 256))),
  length-dot (dec (a / 65536 % 256)) (dec (a / 16777216 % 256)),
  length-byte (a % 256) (omega arith),
  length-byte (a / 256 % 256) (omega arith),
  length-byte (a / 65536 % 256) (omega arith),
  length-byte (a / 16777216 % 256) (omega arith),
)

format_v4-dotted : (a : ℕ) → format_v4 a 64 ≡ dotted a
unfolding format_v4
format_v4-dotted a = take_all 63 (dotted a) (omega (arith, length-dotted a))

peer-kernel :
    (a p : ℕ)
    → p < 2 ^ 16
    → snprintf 80 (take 63 (dotted a) ++ (codes ":" ++ dec p)) ≡ dotted a ++ (codes ":" ++ dec p)
peer-kernel a p h =
    ap (λ t. snprintf 80 (t ++ (codes ":" ++ dec p)))
      (take_all 63 (dotted a) (omega (arith, length-dotted a)))
    ∙ take_all 79 (dotted a ++ (codes ":" ++ dec p)) (
        omega (
          arith,
          length-append (dotted a) (codes ":" ++ dec p),
          length-dotted a,
          length-dec p 4 (omega (arith, h)),
        ))

conn_of-kernel :
    (a p ra rp st : ℕ)
    → p < 2 ^ 16
    → ra < 2 ^ 32
    → rp < 2 ^ 16
    → conn_of false
        (record { local_text = endpoint a p; remote_text = endpoint ra rp; row_state = st })
      ≡ some (record { local_port = pos p; state = st; peer = dotted ra ++ (codes ":" ++ dec rp) })
unfolding conn_of host_text
conn_of-kernel a p ra rp st hp ha hr =
    rw
      (
        split_last-endpoint a p,
        split_last-endpoint ra rp,
        local_port-kernel p hp,
        word_at-address ra ha,
        format_v4-dotted ra,
        remote_port-kernel rp hr,
        peer-kernel ra rp hr,
      )
      refl

-- A row of /proc/net/tcp that the kernel prints is read back: the local port, the state, and the
-- remote address with its port in decimal, as the peer's text. The row's number may have any width.
pub scan_line-kernel_row :
    (k sl a p ra rp st : ℕ) (more : Bytes)
    → p < 2 ^ 16
    → ra < 2 ^ 32
    → rp < 2 ^ 16
    → st < 256
    → scan_line false (kernel_row k sl (endpoint a p) (endpoint ra rp) st more)
      ≡ some (record { local_port = pos p; state = st; peer = dotted ra ++ (codes ":" ++ dec rp) })
unfolding scan_line
scan_line-kernel_row k sl a p ra rp st more hp ha hr hs =
    ap (λ r. r >>= conn_of false)
      (scan_row-kernel k sl (endpoint a p) (endpoint ra rp) st more (endpoint-words a p)
        (endpoint-words ra rp) (length-endpoint a p) (length-endpoint ra rp) hs)
    ∙ conn_of-kernel a p ra rp st hp ha hr
