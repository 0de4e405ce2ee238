-- ===== src/Dashboard/Body.antt =====
-- modules/console/panel.c: `build_dashboard_body` from its first `out`. What the collectors above
-- that line leave in the local variables is a record of readings.
use mobile_config.Base.{
  ℕ, Bool, List, [], ◌∷◌, ◌++◌, leb, if◌then◌else◌, take, map, ℤ, pos, negsuc, ◌-ℤ◌, quot_ℤ, rem_ℤ,
  ltb_ℤ, eqb_ℤ, ◌&&◌, ◌-◌,
}
use mobile_config.Libc.{Bytes, codes, dec_ℤ, dec0, dec_plus, pad_left, pad_right}
use mobile_config.Config.{Config, Service, is_empty}
use mobile_config.Screen.{Screen, out, newlines, label, rst, bld, dim, red, yel, cyn}
use mobile_config.Format.{human_kb, duration, bar, state_of}

pub record Readings : Type 0 where
  pub now : Bytes
  pub host : Bytes
  pub kernel : Bytes
  pub generation : Bytes
  pub same_system : Bool
  pub uptime_s : ℤ
  pub l1 : Bytes
  pub l5 : Bytes
  pub l15 : Bytes
  pub procs : Bytes
  pub pct : ℤ
  pub cores : ℤ
  pub ghz : Bytes
  pub soc_t : Bytes
  pub memtotal : ℤ
  pub memavail : ℤ
  pub swaptotal : ℤ
  pub swapfree : ℤ
  pub zcompr : ℤ
  pub zratio : Bytes
  pub top : Bytes
  pub fs_total_kb : ℤ
  pub fs_used_kb : ℤ
  pub fs_pct : ℤ
  pub health : Bytes
  pub cap : ℤ
  pub volt : ℤ
  pub curr : ℤ
  pub batt_t : ℤ
  pub input_ua : ℤ
  pub status : Bytes
  pub flow : Bytes
  pub est : Bytes
  pub rndis : Bytes
  pub ts : Bytes
  pub gw : Bytes
  pub peers : Bytes
  pub listening : Bytes
  pub users : Bytes
  pub peer_list : Bytes
  pub ttys : Bytes
  pub failed : Bytes
  pub unit_state : Bytes → Bytes
  pub unit_memory : Bytes → ℤ
  pub clients_on : ℤ → ℤ

abbrev to_upper : ℕ → ℕ
to_upper c = if leb b'a' c && leb c b'z' then c - 32 else c

-- `for (i = 0; i < cfg.top_margin; i++) out("\n")`
unfoldable pub top_margin : Config → Screen → Screen
unfolding newlines
top_margin cfg s = elim cfg.top_margin [ pos k ↦ newlines k s | negsuc k ↦ s ]

abbrev pub nl : Bytes
nl = b'\n' ∷ []

unfoldable pub heading : Config → Readings → Screen → Screen
heading cfg r s =
    let upper = map to_upper (take 127 r.host) in
    let s1 = out s (codes "  " ++ bld ++ cyn ++ upper ++ rst ++ codes "   " ++ dim) in
    let s2 = if is_empty cfg.subtitle then s1 else out s1 (cfg.subtitle ++ codes " . ") in
    out s2 (r.now ++ rst ++ nl ++ nl)

unfoldable pub host_lines : Config → Readings → Screen → Screen
host_lines cfg r s =
    let booted = if r.same_system then dim else yel in
    let s1 = out (label s (codes "HOST")) (
      bld
      ++ r.host
      ++ rst
      ++ codes "   linux "
      ++ r.kernel
      ++ codes "   gen "
      ++ booted
      ++ r.generation
      ++ rst
      ++ codes "   up "
      ++ duration r.uptime_s 64
      ++ nl) in
    out (label s1 (codes "LOAD")) (
      r.l1
      ++ codes " "
      ++ r.l5
      ++ codes " "
      ++ r.l15
      ++ codes "   procs "
      ++ r.procs
      ++ codes "   "
      ++ dim
      ++ cfg.load_note
      ++ rst
      ++ nl
      ++ nl)

unfoldable pub cpu_line : Readings → Screen → Screen
cpu_line r s = out (label s (codes "CPU")) (
    bar r.pct (pos 100) 10 64
    ++ codes " "
    ++ pad_left 3 (dec_ℤ r.pct)
    ++ codes "%   "
    ++ dec_ℤ r.cores
    ++ codes "x "
    ++ r.ghz
    ++ codes "   soc "
    ++ r.soc_t
    ++ codes "C"
    ++ nl)

-- The form that MEM, SWAP and DISK share: a bar, two sizes and a note.
unfoldable pub usage_line : Bytes → Bytes → ℤ → ℤ → Bytes → Screen → Screen
usage_line name shown used total note s = out (label s name) (
    shown
    ++ codes " "
    ++ pad_left 6 (human_kb used 32)
    ++ codes " / "
    ++ pad_right 6 (human_kb total 32)
    ++ codes " "
    ++ dim
    ++ note
    ++ rst
    ++ nl)

unfoldable pub memory_lines : Readings → Screen → Screen
unfolding usage_line
memory_lines r s =
    let memused = r.memtotal -ℤ r.memavail in
    let swapused = r.swaptotal -ℤ r.swapfree in
    let s1 =
      usage_line (codes "MEM") (bar memused r.memtotal 10 64) memused r.memtotal
        (codes "top " ++ r.top) s in
    let s2 =
      usage_line (codes "SWAP") (bar swapused r.swaptotal 10 64) swapused r.swaptotal
        (codes "zram holds " ++ human_kb (quot_ℤ r.zcompr 1024) 256 ++ codes " at " ++ r.zratio)
        s1 in
    usage_line (codes "DISK") (bar r.fs_pct (pos 100) 10 64) r.fs_used_kb r.fs_total_kb r.health s2

unfoldable pub battery_line : Readings → Screen → Screen
battery_line r s = out (label s (codes "BATT")) (
    bar r.cap (pos 100) 10 64
    ++ codes " "
    ++ pad_left 3 (dec_ℤ r.cap)
    ++ codes "%  "
    ++ pad_right 8 r.status
    ++ codes " "
    ++ dec_ℤ (quot_ℤ r.volt 1000000)
    ++ codes "."
    ++ dec0 3 (quot_ℤ (rem_ℤ r.volt 1000000) 1000)
    ++ codes "V  "
    ++ dec_plus (quot_ℤ r.curr 10)
    ++ codes "mA  "
    ++ dec_ℤ (quot_ℤ r.batt_t 10)
    ++ codes "."
    ++ dec_ℤ (rem_ℤ r.batt_t 10)
    ++ codes "C  "
    ++ dim
    ++ r.est
    ++ (if is_empty r.est then [] else codes " ")
    ++ r.flow
    ++ codes ", in "
    ++ dec_ℤ (quot_ℤ r.input_ua 1000)
    ++ codes "mA"
    ++ rst
    ++ nl)

unfoldable pub panel_line : ℤ → ℤ → Screen → Screen
panel_line level backlight_max s =
    let panel_state = if ltb_ℤ (pos 0) level then codes "on" else codes "off" in
    out (label s (codes "PANEL")) (
      panel_state
      ++ codes "  "
      ++ dim
      ++ dec_ℤ level
      ++ codes " of "
      ++ dec_ℤ backlight_max
      ++ rst
      ++ nl
      ++ nl)

unfoldable pub net_lines : Readings → Screen → Screen
net_lines r s =
    let s1 =
      out (label s (codes "NET"))
        (codes "rndis0      " ++ pad_right 20 r.rndis ++ codes " tailscale0  " ++ r.ts ++ nl) in
    let s2 = out s1 (
      codes "        gateway     "
      ++ pad_right 20 r.gw
      ++ codes " peers       "
      ++ r.peers
      ++ nl) in
    out s2 (codes "        " ++ dim ++ codes "listening   " ++ r.listening ++ rst ++ nl ++ nl)

unfoldable pub service_line : Readings → Bytes → Service → Screen → Screen
service_line r pad v s =
    let s1 = out s (
      pad
      ++ bld
      ++ pad_right 11 v.unit
      ++ rst
      ++ codes " "
      ++ state_of (r.unit_state v.unit) 128
      ++ codes " "
      ++ pad_left 6 (human_kb (quot_ℤ (r.unit_memory v.unit) 1024) 32)) in
    let s2 =
      if eqb_ℤ v.port (pos 0)
      then s1
      else out s1 (codes "  " ++ dec_ℤ (r.clients_on v.port) ++ codes " clients") in
    out s2 nl

-- The first service stands behind the label, the others are indented.
unfoldable pub service_lines : Readings → Bytes → List Service → Screen → Screen
unfolding service_line
service_lines r pad [] s = s
service_lines r pad (v ∷ vs) s = service_lines r (codes "        ") vs (service_line r pad v s)

unfoldable pub last_lines : Config → Readings → Screen → Screen
last_lines cfg r s =
    let s1 =
      if is_empty r.failed
      then out s (codes "        " ++ dim ++ codes "failed      none" ++ rst ++ nl ++ nl)
      else out s (codes "        " ++ red ++ codes "failed      " ++ r.failed ++ rst ++ nl ++ nl) in
    let s2 =
      out (label s1 (codes "SSH")) (pad_right 22 r.users ++ codes " " ++ r.peer_list ++ nl) in
    let s3 = out (label s2 (codes "TTY")) (r.ttys ++ nl ++ nl) in
    out s3 (
      codes " "
      ++ bld
      ++ codes "power"
      ++ rst
      ++ codes " screen   "
      ++ bld
      ++ codes "hold power"
      ++ rst
      ++ codes " menu"
      ++ dim
      ++ codes "        every "
      ++ dec_ℤ cfg.interval
      ++ codes "s"
      ++ rst
      ++ nl)

unfoldable pub build_dashboard_body : Config → Readings → ℤ → ℤ → Screen → Screen
unfolding heading host_lines cpu_line memory_lines battery_line panel_line net_lines service_lines
    last_lines
build_dashboard_body cfg r level backlight_max s = last_lines cfg r (
    service_lines r [] cfg.services (
      label
        (net_lines r (
          panel_line level backlight_max (
            battery_line r
              (memory_lines r (cpu_line r (host_lines cfg r (heading cfg r (top_margin cfg s))))))))
        (codes "SVC")))
