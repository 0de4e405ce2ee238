-- ===== src/Net/Ports.antt =====
-- The list of the listening ports.
use mathlib.Core.List.{Perm, Permᴰ}
use mathlib.Core.List.Perm
use mathlib.Core.Logic.{∥∥₁_elim}
use mobile_config.Base.{
  ℕ, suc, ◌≡◌, refl, sym, subst, ◌∙◌, ap, ◌<◌, ◌≤◌, ◌+◌, ◌++◌, Bool, true, false, Option, none,
  some, leb, append_assoc, append-nil, length-append, List, [], ◌∷◌, ◌==◌, ℤ, negsuc, eqb_ℤ, arith,
  Bool-cases, inl, inr, ◌&&◌, length,
}
use mobile_config.Libc.{
  Bytes, codes, dec_ℤ, Printed, nothing_printed, put_word, put_word-Fits, Fits, text_in-Fits,
  shown_or_dash, shown_or_dash-Fits,
}
use mobile_config.Net.{
  Conn, tcp_established, put_peers, peers_on, listeners, insert_port, sort_ports, put_ports,
  listening_ports,
}
use mobile_config.Net.Scan.{max_conns, scan_line, add_conn, scan_lines}
use mobile_config.Net.Table.{length-add_conn}

insert_port_comm :
    (a b : ℤ) (xs : List ℤ) → insert_port a (insert_port b xs) ≡ insert_port b (insert_port a xs)
unfolding insert_port
insert_port_comm a b [] = ground arith
insert_port_comm a b (x ∷ xs) = ground (arith, insert_port_comm a b xs)

-- The sorted ports of two tables with the same rows.
listeners-perm :
    {cs ds : List Conn} → Permᴰ cs ds → sort_ports (listeners cs) ≡ sort_ports (listeners ds)
unfolding listeners sort_ports
listeners-perm Permᴰ.nil = refl
listeners-perm (Permᴰ.cons {a} {b} {l₁} {l₂} e p) =
    let same = listeners-perm p in rw e (ground (arith, same))
listeners-perm (Permᴰ.swap {a} {b} {a'} {b'} {l} e f) =
    rw (e, f)
      (ground (arith, insert_port_comm b'.local_port a'.local_port (sort_ports (listeners l))))
listeners-perm (Permᴰ.trans p q) = listeners-perm p ∙ listeners-perm q

ports_set : IsSet Bytes
ports_set = hlevel

listening_ports-perm :
    (size : ℕ) (cs ds : List Conn) → Perm cs ds → listening_ports size cs ≡ listening_ports size ds
unfolding listening_ports
listening_ports-perm size cs ds p = ∥∥₁_elim p (ports_set _ _) λ d.
    ap (λ ports. shown_or_dash size (put_ports size (negsuc 0) ports nothing_printed))
      (listeners-perm d)

-- The connections of all rows, with no bound.
abbrev scanned : Bool → List Bytes → List Conn
scanned v6 [] = []
scanned v6 (l ∷ ls) = add_conn (scan_line v6 l) [] ++ scanned v6 ls

add_conn-append : (o : Option Conn) (cs : List Conn) → add_conn o cs ≡ cs ++ add_conn o []
add_conn-append none cs = sym (append-nil cs)
add_conn-append (some c) cs = refl

length-scanned : (v6 : Bool) (ls : List Bytes) → length (scanned v6 ls) ≤ length ls
length-scanned v6 [] = omega arith
length-scanned v6 (l ∷ ls) = omega (
  arith,
  length-append (add_conn (scan_line v6 l) []) (scanned v6 ls),
  length-add_conn (scan_line v6 l) [],
  length-scanned v6 ls,
)

-- Rows for which there is room are all scanned.
scan_lines-room :
    (v6 : Bool) (ls : List Bytes) (conns : List Conn)
    → length conns + length ls ≤ max_conns
    → scan_lines v6 ls conns ≡ conns ++ scanned v6 ls
unfolding scan_lines
scan_lines-room v6 [] conns h = sym (append-nil conns)
scan_lines-room v6 (l ∷ ls) conns h =
    let room : leb max_conns (length conns) ≡ false = ground (arith, h) in
    rw room (
      scan_lines-room v6 ls (add_conn (scan_line v6 l) conns)
        (omega (arith, h, length-add_conn (scan_line v6 l) conns))
      ∙ (ap (λ cs. cs ++ scanned v6 ls) (add_conn-append (scan_line v6 l) conns)
          ∙ append_assoc conns (add_conn (scan_line v6 l) []) (scanned v6 ls)))

swap_conns :
    (o p : Option Conn) (cs : List Conn)
    → Perm (add_conn o [] ++ (add_conn p [] ++ cs)) (add_conn p [] ++ (add_conn o [] ++ cs))
swap_conns none p cs = Perm.refl _
swap_conns (some a) none cs = Perm.refl _
swap_conns (some a) (some b) cs = Perm.swap b a cs

length-perm : {ls ms : List Bytes} → Permᴰ ls ms → length ls ≡ length ms
length-perm Permᴰ.nil = refl
length-perm (Permᴰ.cons e p) = ap suc (length-perm p)
length-perm (Permᴰ.swap e f) = refl
length-perm (Permᴰ.trans p q) = length-perm p ∙ length-perm q

scanned-perm : (v6 : Bool) {ls ms : List Bytes} → Permᴰ ls ms → Perm (scanned v6 ls) (scanned v6 ms)
scanned-perm v6 Permᴰ.nil = Perm.refl []
scanned-perm v6 (Permᴰ.cons {a} {b} {l₁} {l₂} e p) =
    subst (λ x. Perm (scanned v6 (a ∷ l₁)) (scanned v6 (x ∷ l₂))) e
      (Perm.append_left (add_conn (scan_line v6 a) []) (scanned-perm v6 p))
scanned-perm v6 (Permᴰ.swap {a} {b} {a'} {b'} {l} e f) =
    rw (e, f) (swap_conns (scan_line v6 b') (scan_line v6 a') (scanned v6 l))
scanned-perm v6 (Permᴰ.trans p q) = Perm.trans (scanned-perm v6 p) (scanned-perm v6 q)

scanned_both :
    (v4 v6 : List Bytes)
    → length v4 + length v6 ≤ max_conns
    → scan_lines true v6 (scan_lines false v4 []) ≡ scanned false v4 ++ scanned true v6
scanned_both v4 v6 few =
    ap (scan_lines true v6) (scan_lines-room false v4 [] (omega arith))
    ∙ scan_lines-room true v6 (scanned false v4) (omega (arith, length-scanned false v4))

-- If the two tables of the kernel, of IPv4 and of IPv6, have at most 512 rows together, the printed list
-- of listening ports does not depend on the order of the rows in either of them.
pub listening_ports_any_order :
    (size : ℕ) (v4 v4' v6 v6' : List Bytes)
    → Perm v4 v4'
    → Perm v6 v6'
    → length v4 + length v6 ≤ max_conns
    → listening_ports size (scan_lines true v6 (scan_lines false v4 []))
      ≡ listening_ports size (scan_lines true v6' (scan_lines false v4' []))
listening_ports_any_order size v4 v4' v6 v6' p q few = ∥∥₁_elim p (ports_set _ _) λ d.
    ∥∥₁_elim q (ports_set _ _) λ e.
      ap (listening_ports size) (scanned_both v4 v6 few)
      ∙ (listening_ports-perm size _ _ (Perm.append (scanned-perm false d) (scanned-perm true e))
          ∙ ap (listening_ports size)
              (sym (scanned_both v4' v6' (omega (arith, few, length-perm d, length-perm e)))))

put_peers-Fits :
    (size : ℕ) (port : ℤ) (cs : List Conn) (p : Printed)
    → Fits size p
    → Fits size (put_peers size port cs p)
unfolding put_peers
put_peers-Fits size port [] p h = h
put_peers-Fits size port (c ∷ cs) p h =
    elim (Bool-cases (c.state == tcp_established && eqb_ℤ c.local_port port)) [
      | inl e ↦ rw e (
          put_peers-Fits size port cs (put_word size (codes " ") c.peer p)
            (put_word-Fits size (codes " ") c.peer p h))
      | inr e ↦ rw e (put_peers-Fits size port cs p h)
    ]

put_ports-Fits :
    (size : ℕ) (last : ℤ) (ports : List ℤ) (p : Printed)
    → Fits size p
    → Fits size (put_ports size last ports p)
unfolding put_ports
put_ports-Fits size last [] p h = h
put_ports-Fits size last (a ∷ rest) p h = elim (Bool-cases (eqb_ℤ a last)) [
  | inl e ↦ rw e (put_ports-Fits size last rest p h)
  | inr e ↦ rw e (
      put_ports-Fits size a rest (put_word size (codes " ") (dec_ℤ a) p)
        (put_word-Fits size (codes " ") (dec_ℤ a) p h))
]

-- Whatever the table holds, both printed lists, of the peers at a port and of the listening ports, stay
-- inside their buffers, with room for the final NUL.
pub printed-Fits :
    (size : ℕ) (port : ℤ) (cs : List Conn)
    → 0 < size
    → (length (peers_on size port cs) < size) × (length (listening_ports size cs) < size)
unfolding peers_on listening_ports
printed-Fits size port cs h = (
  text_in-Fits size _ (put_peers-Fits size port cs nothing_printed (omega (arith, h))),
  shown_or_dash-Fits size _ h (
      put_ports-Fits size (negsuc 0) (sort_ports (listeners cs)) nothing_printed
        (omega (arith, h))),
)
