-- ===== src/Tests/Net.antt =====
-- Runs and instances for the table of connections of modules/console/panel.c.
use mathlib.Core.List.Perm
use mobile_config.Base.{◌≡◌, refl, ◌<◌, [], ◌∷◌, ◌++◌, false, true, some, arith, length, pos}
use mobile_config.Libc.{
  Bytes, codes, dec, dec_ℤ, scan_ll, scan_word, scan_x, strtol16, strtoul16, to_int32, put_piece,
  put_word, shown_or_dash,
}
use mobile_config.Net.{
  Conn, listening_ports, listeners, sort_ports, insert_port, put_ports, peers_on,
}
use mobile_config.Net.Scan.{scan_line, scan_lines, scan_row, conn_of, host_text, word_at, format_v4}
use mobile_config.Net.Route.{leading_ones}
use mobile_config.Net.Kernel.{kernel_row, endpoint, dotted, scan_line-kernel_row}
use mobile_config.Net.Ports.{listening_ports_any_order, printed-Fits}

abbrev ssh : Conn
ssh = record { local_port = pos 22; state = 10; peer = codes "0.0.0.0:0" }

abbrev web : Conn
web = record { local_port = pos 80; state = 10; peer = codes "0.0.0.0:0" }

-- A port that listens twice is printed once, and the ports are in order.
ports : listening_ports 128 (web ∷ ssh ∷ web ∷ []) ≡ codes "22 80"
unfolding listening_ports listeners sort_ports insert_port put_ports put_word put_piece
    shown_or_dash dec dec_ℤ
ports = refl

-- A list that is cut leaves a part of the last port in the buffer.
cut_ports : listening_ports 5 (web ∷ ssh ∷ []) ≡ codes "22 8"
unfolding listening_ports listeners sort_ports insert_port put_ports put_word put_piece
    shown_or_dash dec dec_ℤ
cut_ports = refl

-- Rows of the kernel's tables.
abbrev listens : Bytes
listens = codes "   0: 00000000:0016 00000000:0000 0A 00000000:00000000"

abbrev serves : Bytes
serves = codes "   1: 00000000:0050 00000000:0000 0A 00000000:00000000"

listening_ports_any_order_example :
    listening_ports 128 (scan_lines true [] (scan_lines false (listens ∷ serves ∷ []) []))
    ≡ listening_ports 128 (scan_lines true [] (scan_lines false (serves ∷ listens ∷ []) []))
listening_ports_any_order_example =
    listening_ports_any_order 128 (listens ∷ serves ∷ []) (serves ∷ listens ∷ []) [] []
      (Perm.swap serves listens []) (Perm.refl []) (omega arith)

printed-Fits_example :
    (length (peers_on 16 (pos 22) (ssh ∷ web ∷ [])) < 16)
    × (length (listening_ports 16 (ssh ∷ web ∷ [])) < 16)
printed-Fits_example = printed-Fits 16 (pos 22) (ssh ∷ web ∷ []) (omega arith)

abbrev row : Bytes
row = codes "   2: 0100007F:0016 0200A8C0:C350 01 00000000:00000000"

-- A row with its addresses in the order of the kernel.
row_run :
    scan_line false row
    ≡ some (record { local_port = pos 22; state = 1; peer = codes "192.168.0.2:50000" })
unfolding scan_line scan_row conn_of host_text word_at format_v4 scan_ll scan_word scan_x strtol16
    strtoul16 to_int32 dec
row_run = refl

-- A mask of 24 bits.
mask_run : leading_ones 32 0xffffff00 ≡ 24
unfolding leading_ones
mask_run = refl

scan_line-kernel_row_example :
    scan_line false
      (kernel_row 3 2 (endpoint 0x0100007f 22) (endpoint 0xc0a80002 50000) 1 (codes "0"))
    ≡ some (record {
      local_port = pos 22;
      state = 1;
      peer = dotted 0xc0a80002 ++ (codes ":" ++ dec 50000);
    })
scan_line-kernel_row_example =
    scan_line-kernel_row 3 2 0x0100007f 22 0xc0a80002 50000 1 (codes "0") (omega arith)
      (omega arith) (omega arith) (omega arith)
