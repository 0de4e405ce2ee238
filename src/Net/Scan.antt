-- ===== src/Net/Scan.antt =====
-- modules/console/panel.c: `format_v4`, `scan_tcp_file` and `scan_tcp`. `conns` is the list of its
-- used part, in order.
use mobile_config.Base.{
  ℕ, zero, suc, ◌+◌, ◌-◌, ◌*◌, ◌/◌, ◌%◌, ◌^◌, Bool, true, false, ◌&&◌, List, [], ◌∷◌, ◌++◌, leb,
  ◌==◌, if◌then◌else◌, Option, none, some, length, take, drop,
}
use mobile_config.Libc.{
  Bytes, codes, snprintf, until, dec, to_int32, scan_ll, scan_byte, scan_word, scan_x, strtol16,
  strtoul16, split_last, lines_of, ◌>>=◌,
}
use mobile_config.Config.{Config, rp}
use mobile_config.Files.{Fs, slurp}
use mobile_config.Net.{Conn}

abbrev pub max_conns : ℕ
max_conns = 512

abbrev dot : Bytes
dot = codes "."

-- The address in the order of the kernel's table: the lowest byte first.
unfoldable pub format_v4 : ℕ → ℕ → Bytes
format_v4 a n = snprintf n (
    dec (a % 256)
    ++ (dot
        ++ (dec (a / 256 % 256)
            ++ (dot ++ (dec (a / 65536 % 256) ++ (dot ++ dec (a / 16777216 % 256)))))))

abbrev pub hex_digit : ℕ → ℕ
hex_digit d = if leb d 9 then b'0' + d else b'a' + (d - 10)

-- The last `digits` hexadecimal digits of `n`, in front of `out`: `%08x` has eight.
abbrev pub hex_digits : ℕ → ℕ → Bytes → Bytes
hex_digits zero n out = out
hex_digits (suc digits) n out = hex_digits digits (n / 16) (hex_digit (n % 16) ∷ out)

-- What the first three conversions of a row give, and whether all of them succeed.
pub record Row : Type 0 where
  pub local_text : Bytes
  pub remote_text : Bytes
  pub row_state : ℕ

-- `sscanf(line, "%*d: %127s %127s %x", …) == 3`
unfoldable pub scan_row : Bytes → Option Row
unfolding scan_ll scan_word scan_x
scan_row line = do
  (_, s0) ← scan_ll line
  s1 ← scan_byte b':' s0
  (local, s2) ← scan_word 127 s1
  (remote, s3) ← scan_word 127 s2
  (state, _) ← scan_x s3
  some (record { local_text = local; remote_text = remote; row_state = state })

-- The 32 bits of the word at place `i`. Behind a short address stands what an earlier row left; the
-- kernel prints all of its digits, so the words are read inside the address.
unfoldable pub word_at : Bytes → ℕ → ℕ
unfolding strtoul16
word_at remote i = strtoul16 (take 8 (drop (i * 8) remote)) % 2 ^ 32

-- The text of an address, of 32 or 128 bits.
unfoldable pub host_text : Bool → Bytes → Bytes
unfolding format_v4 word_at
host_text false remote = format_v4 (word_at remote 0) 64
host_text true remote =
    let w0 = word_at remote 0 in
    let w1 = word_at remote 1 in
    let w2 = word_at remote 2 in
    let w3 = word_at remote 3 in
    if w0 == 0 && (w1 == 0 && w2 == 0xffff0000)
    then format_v4 w3 64
    else snprintf 64 (
        codes "["
        ++ (hex_digits 8 w0 []
            ++ (codes ":"
                ++ (hex_digits 8 w1 []
                    ++ (codes ":"
                        ++ (hex_digits 8 w2 []
                            ++ (codes ":" ++ (hex_digits 8 w3 [] ++ codes "]"))))))))

unfoldable pub conn_of : Bool → Row → Option Conn
unfolding strtol16 to_int32 host_text
conn_of v6 r = do
  (_, lp) ← split_last b':' r.local_text
  (remote, port) ← split_last b':' r.remote_text
  some (record {
    local_port = to_int32 (strtol16 lp);
    state = r.row_state;
    peer =
        snprintf 80 (take 63 (host_text v6 remote) ++ (codes ":" ++ dec (strtoul16 port % 2 ^ 32)));
  })

-- The body of the loop, from a line to the connection that it adds.
unfoldable pub scan_line : Bool → Bytes → Option Conn
unfolding scan_row conn_of
scan_line v6 line = do r ← scan_row line; conn_of v6 r

abbrev pub add_conn : Option Conn → List Conn → List Conn
add_conn none conns = conns
add_conn (some c) conns = conns ++ c ∷ []

unfoldable pub scan_lines : Bool → List Bytes → List Conn → List Conn
scan_lines v6 [] conns = conns
scan_lines v6 (l ∷ ls) conns =
    let rest = scan_lines v6 ls (add_conn (scan_line v6 l) conns) in
    if leb max_conns (length conns) then conns else rest

abbrev pub rows_behind_heading : List Bytes → List Bytes
rows_behind_heading [] = []
rows_behind_heading (heading ∷ rows) = rows

unfoldable pub scan_tcp_file : Config → Fs → Bytes → Bool → List Conn → List Conn
unfolding scan_lines slurp
scan_tcp_file cfg fs path v6 conns = elim (slurp fs (rp cfg path) 524288) [
  | none ↦ conns
  | some buf ↦ scan_lines v6 (rows_behind_heading (lines_of (until 0 buf))) conns
]

unfoldable pub scan_tcp : Config → Fs → List Conn
unfolding scan_tcp_file
scan_tcp cfg fs =
    scan_tcp_file cfg fs (codes "/proc/net/tcp6") true
      (scan_tcp_file cfg fs (codes "/proc/net/tcp") false [])
