-- ===== src/Net/Below.antt =====
-- The network's tables are read below `--root` only.
use mobile_config.Base.{ℕ, ◌≡◌, refl, ap, ◌∙◌, Bool, true, false, List, []}
use mobile_config.Libc.{Bytes, codes}
use mobile_config.Config.{Config, rp}
use mobile_config.Files.{Fs, slurp}
use mobile_config.System.{System}
use mobile_config.System.Below.{
  HasRoot, fs_below, below, rp-IsInside, slurp-below, fixture-IsInside,
}
use mobile_config.Net.{Conn}
use mobile_config.Net.Scan.{scan_tcp_file, scan_tcp}
use mobile_config.Net.Route.{default_gateway, iface_addr}

module _ (cfg : Config) (h : HasRoot cfg) where
  text_there :
      (fs : Fs) (path : Bytes) (n : ℕ)
      → slurp (fs_below cfg fs) (rp cfg path) n ≡ slurp fs (rp cfg path) n
  text_there fs path n = slurp-below cfg (rp cfg path) (rp-IsInside cfg h path) fs n

  scan_tcp_file-below :
      (fs : Fs) (path : Bytes) (v6 : Bool) (conns : List Conn)
      → scan_tcp_file cfg (fs_below cfg fs) path v6 conns ≡ scan_tcp_file cfg fs path v6 conns
  unfolding scan_tcp_file
  scan_tcp_file-below fs path v6 conns = rw (scan_tcp_file, text_there fs path 524288) refl

  pub scan_tcp-below : (fs : Fs) → scan_tcp cfg (fs_below cfg fs) ≡ scan_tcp cfg fs
  unfolding scan_tcp
  scan_tcp-below fs =
      scan_tcp_file-below fs (codes "/proc/net/tcp6") true
        (scan_tcp_file cfg (fs_below cfg fs) (codes "/proc/net/tcp") false [])
      ∙ ap (scan_tcp_file cfg fs (codes "/proc/net/tcp6") true)
          (scan_tcp_file-below fs (codes "/proc/net/tcp") false [])

  pub default_gateway-below :
      (fs : Fs) (n : ℕ) → default_gateway cfg (fs_below cfg fs) n ≡ default_gateway cfg fs n
  unfolding default_gateway
  default_gateway-below fs n =
      rw (default_gateway, text_there fs (codes "/proc/net/route") 16384) refl

  pub iface_addr-below :
      (sys : System) (n : ℕ) (name : Bytes)
      → iface_addr cfg (below cfg sys) n name ≡ iface_addr cfg sys n name
  unfolding iface_addr
  iface_addr-below sys n name =
      let (path, e, inside) = fixture-IsInside cfg h sys (codes "ifaddr") in
      rw (iface_addr, e, slurp-below cfg path inside sys.fs 4096) refl
