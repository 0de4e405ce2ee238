-- ===== src/Net/Table.antt =====
-- The table that `scan_tcp` fills.
use mobile_config.Base.{
  suc, ◌≤◌, List, [], ◌∷◌, leb, Bool, true, false, Option, none, some, length, length-append, arith,
  Bool-cases, Option-cases, inl, inr, ℤ,
}
use mobile_config.Libc.{Bytes, codes, until, lines_of}
use mobile_config.Config.{Config, rp}
use mobile_config.Files.{Fs, slurp}
use mobile_config.Net.{Conn, clients_on}
use mobile_config.Net.Scan.{
  max_conns, scan_line, add_conn, scan_lines, rows_behind_heading, scan_tcp_file, scan_tcp,
}

pub length-add_conn :
    (o : Option Conn) (conns : List Conn) → length (add_conn o conns) ≤ suc (length conns)
length-add_conn none conns = omega arith
length-add_conn (some c) conns = omega (arith, length-append conns (c ∷ []))

length-scan_lines :
    (v6 : Bool) (ls : List Bytes) (conns : List Conn)
    → length conns ≤ max_conns
    → length (scan_lines v6 ls conns) ≤ max_conns
unfolding scan_lines
length-scan_lines v6 [] conns h = h
length-scan_lines v6 (l ∷ ls) conns h = elim (Bool-cases (leb max_conns (length conns))) [
  | inl e ↦ rw e h
  | inr e ↦
      let more = length-add_conn (scan_line v6 l) conns in
      rw e (length-scan_lines v6 ls (add_conn (scan_line v6 l) conns) (ground arith))
]

length-scan_tcp_file :
    (cfg : Config) (fs : Fs) (path : Bytes) (v6 : Bool) (conns : List Conn)
    → length conns ≤ max_conns
    → length (scan_tcp_file cfg fs path v6 conns) ≤ max_conns
unfolding scan_tcp_file
length-scan_tcp_file cfg fs path v6 conns h = elim (Option-cases (slurp fs (rp cfg path) 524288)) [
  | inl e ↦ rw (scan_tcp_file, e) h
  | inr (buf, e) ↦
      rw (scan_tcp_file, e)
        (length-scan_lines v6 (rows_behind_heading (lines_of (until 0 buf))) conns h)
]

clients_on-le : (port : ℤ) (cs : List Conn) → clients_on port cs ≤ length cs
unfolding clients_on
clients_on-le port [] = omega arith
clients_on-le port (c ∷ cs) = ground (arith, clients_on-le port cs)

-- Whatever the two files hold, `scan_tcp` stores no more than the 512 connections of its array, and
-- the count of a service's clients is no greater.
pub length-scan_tcp :
    (cfg : Config) (fs : Fs) (port : ℤ)
    → (length (scan_tcp cfg fs) ≤ max_conns) × (clients_on port (scan_tcp cfg fs) ≤ max_conns)
unfolding scan_tcp
length-scan_tcp cfg fs port =
    let bound =
      length-scan_tcp_file cfg fs (codes "/proc/net/tcp6") true
        (scan_tcp_file cfg fs (codes "/proc/net/tcp") false [])
        (length-scan_tcp_file cfg fs (codes "/proc/net/tcp") false [] (omega arith)) in
    (bound, omega (arith, bound, clients_on-le port (scan_tcp cfg fs)))
