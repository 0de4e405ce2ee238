-- ===== src/Net.antt =====
-- modules/console/panel.c: `clients_on`, `peers_on` and `listening_ports`, on the connections that
-- `scan_tcp` leaves in `conns`. Scan is `scan_tcp` itself, Route `default_gateway` and `iface_addr`.
pub mod Ports
pub mod Scan
pub mod Route
pub mod Words
pub mod Kernel
pub mod Table
pub mod Below
use mobile_config.Base.{
  ℕ, suc, ◌+◌, ◌-◌, Bool, true, false, not, ◌&&◌, List, [], ◌∷◌, ◌++◌, ltb, ◌==◌, if◌then◌else◌,
  length, take, ℤ, negsuc, eqb_ℤ, ltb_ℤ,
}
use mobile_config.Libc.{
  Bytes, codes, dec_ℤ, Printed, nothing_printed, put_word, text_in, shown_or_dash,
}

-- `struct conn`. `state` is an `int` too, compared with small numbers only.
pub record Conn : Type 0 where
  pub local_port : ℤ
  pub state : ℕ
  pub peer : Bytes

abbrev pub tcp_established : ℕ
tcp_established = 1

abbrev pub tcp_listen : ℕ
tcp_listen = 10

unfoldable pub clients_on : ℤ → List Conn → ℕ
clients_on port [] = 0
clients_on port (c ∷ cs) =
    if c.state == tcp_established && eqb_ℤ c.local_port port
    then suc (clients_on port cs)
    else clients_on port cs

unfoldable pub put_peers : ℕ → ℤ → List Conn → Printed → Printed
unfolding put_word
put_peers size port [] p = p
put_peers size port (c ∷ cs) p =
    if c.state == tcp_established && eqb_ℤ c.local_port port
    then put_peers size port cs (put_word size (codes " ") c.peer p)
    else put_peers size port cs p

unfoldable pub peers_on : ℕ → ℤ → List Conn → Bytes
unfolding put_peers
peers_on size port cs = text_in (put_peers size port cs nothing_printed)

-- The ports of the first loop of `listening_ports`.
unfoldable pub listeners : List Conn → List ℤ
listeners [] = []
listeners (c ∷ cs) = if c.state == tcp_listen then c.local_port ∷ listeners cs else listeners cs

-- `qsort` by `cmp_int`; equal ports are alike, so every sort gives this list.
unfoldable pub insert_port : ℤ → List ℤ → List ℤ
insert_port a [] = a ∷ []
insert_port a (b ∷ bs) = if ltb_ℤ b a then b ∷ insert_port a bs else a ∷ b ∷ bs

unfoldable pub sort_ports : List ℤ → List ℤ
unfolding insert_port
sort_ports [] = []
sort_ports (a ∷ rest) = insert_port a (sort_ports rest)

-- The second loop: a port like the last one is skipped.
unfoldable pub put_ports : ℕ → ℤ → List ℤ → Printed → Printed
unfolding put_word
put_ports size last [] p = p
put_ports size last (a ∷ rest) p =
    if eqb_ℤ a last
    then put_ports size last rest p
    else put_ports size a rest (put_word size (codes " ") (dec_ℤ a) p)

unfoldable pub listening_ports : ℕ → List Conn → Bytes
unfolding listeners sort_ports put_ports shown_or_dash
listening_ports size cs =
    shown_or_dash size (put_ports size (negsuc 0) (sort_ports (listeners cs)) nothing_printed)
