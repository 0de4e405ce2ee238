-- ===== src/Text/Lists.antt =====
-- modules/console/panel.c: `load_units`, `load_network` and `load_processes`. Memory is taken to
-- suffice. The array of `load_network` is the one that `scan_tcp` fills.
use mobile_config.Base.{
  List, [], ◌∷◌, ◌++◌, ◌==◌, if◌then◌else◌, Option, none, some, take, map, quot_ℤ,
}
use mobile_config.Libc.{Bytes, codes, snprintf, dec_ℤ, pad_left, pad_right}
use mobile_config.Config.{Config, is_empty}
use mobile_config.System.{System, UnitRow, Bus, Interface}
use mobile_config.Collect.Procs.{ProcEntry, scan_procs}
use mobile_config.Net.{Conn, tcp_established}
use mobile_config.Net.Scan.{scan_tcp}
use mobile_config.Net.Route.{default_gateway, iface_addr}
use mobile_config.Text.Journal.{or_default}

abbrev space : Bytes
space = codes " "

-- `"%-44s %-8s %-10s %-10s %s"`
unfoldable pub unit_line : UnitRow → Bytes
unit_line u = snprintf 4096 (
    pad_right 44 u.id
    ++ (space
        ++ (pad_right 8 u.load
            ++ (space
                ++ (pad_right 10 u.active
                    ++ (space ++ (pad_right 10 u.sub ++ (space ++ u.description))))))))

unfoldable pub load_units : Option Bus → List Bytes
unfolding unit_line
load_units none = codes "bus unavailable" ∷ []
load_units (some b) = elim b.all_units [
  | none ↦ snprintf 4096 (codes "ListUnits: " ++ or_default (codes "failed") b.error_message) ∷ []
  | some us ↦ map unit_line us
]

-- `"%-12s %-8s %s"`
unfoldable pub interface_line : Config → System → Interface → Bytes
unfolding iface_addr
interface_line cfg sys i = snprintf 4096 (
    pad_right 12 i.name
    ++ (space
        ++ (pad_right 8 (if i.is_up then codes "UP" else codes "DOWN")
            ++ (space ++ iface_addr cfg sys 64 i.name))))

abbrev pub interfaces_of : Option (List Interface) → List Interface
interfaces_of none = []
interfaces_of (some is) = is

unfoldable pub gateway_line : Bytes → Bytes
gateway_line gw = snprintf 4096 (codes "default via " ++ (if is_empty gw then codes "-" else gw))

-- `"  :%-6d %s"`
unfoldable pub conn_line : Conn → Bytes
conn_line c = snprintf 4096 (codes "  :" ++ (pad_right 6 (dec_ℤ c.local_port) ++ (space ++ c.peer)))

unfoldable pub conn_lines : List Conn → List Bytes
unfolding conn_line
conn_lines [] = []
conn_lines (c ∷ cs) =
    if c.state == tcp_established then conn_line c ∷ conn_lines cs else conn_lines cs

unfoldable pub load_network : Config → System → List Bytes
unfolding interface_line gateway_line conn_lines default_gateway scan_tcp
load_network cfg sys =
    map (interface_line cfg sys) (interfaces_of sys.interfaces)
    ++ ([]
        ∷ gateway_line (default_gateway cfg sys.fs 64)
        ∷ []
        ∷ codes "established"
        ∷ conn_lines (scan_tcp cfg sys.fs))

-- `"%7d %-20s %8ldM"`
unfoldable pub process_line : ProcEntry → Bytes
process_line e = snprintf 4096 (
    pad_left 7 (dec_ℤ e.pid)
    ++ (space
        ++ (pad_right 20 e.comm
            ++ (space ++ (pad_left 8 (dec_ℤ (quot_ℤ e.rss_kb 1024)) ++ codes "M")))))

abbrev pub process_heading : Bytes
process_heading =
    pad_left 7 (codes "PID")
    ++ (space ++ (pad_right 20 (codes "COMMAND") ++ (space ++ pad_left 10 (codes "RSS"))))

unfoldable pub load_processes : Config → System → List Bytes
unfolding process_line scan_procs
load_processes cfg sys = process_heading ∷ map process_line (take 40 (scan_procs cfg sys 4096))
