-- ===== src/Start/Sockets.antt =====
-- modules/console/panel.c: `sock_addr`, `keys_listen` and `keys_connect`, as the list of the calls
-- that they make, the newest first.
use mobile_config.Base.{
  ℕ, Bool, not, ◌||◌, List, [], ◌∷◌, leb, if◌then◌else◌, Option, none, some, length,
}
use mobile_config.Libc.{Bytes}
use mobile_config.Config.{Config, is_empty}

-- `sizeof sa->sun_path`
abbrev pub sun_path_len : ℕ
sun_path_len = 108

pub data SockCall : Type 0 where
  opened : ℕ → SockCall
  unlinked bound connected chowned chmodded : Bytes → SockCall
  listened closed : ℕ → SockCall

-- What the calls give: the descriptor of `socket`, and whether `bind`, `listen`, `connect` and `stat`
-- of the state directory succeed.
pub record SockEnv : Type 0 where
  pub descriptor : Option ℕ
  pub binds : Bool
  pub listens : Bool
  pub connects : Bool
  pub stats : Bool

-- The path, where there is one and it fits.
unfoldable pub sock_addr : Config → Option Bytes
sock_addr cfg =
    if is_empty cfg.socket_path || leb sun_path_len (length cfg.socket_path)
    then none
    else some cfg.socket_path

-- Behind `listen`: group and mode of the socket.
unfoldable pub open_up : SockEnv → Bytes → List SockCall → List SockCall
open_up env path calls = chmodded path ∷ (if env.stats then chowned path ∷ calls else calls)

unfoldable pub listen_on : SockEnv → Bytes → ℕ → List SockCall × Option ℕ
unfolding open_up
listen_on env path fd =
    let calls = unlinked path ∷ opened fd ∷ [] in
    if not env.binds
    then (closed fd ∷ calls, none)
    else if not env.listens
    then (closed fd ∷ bound path ∷ calls, none)
    else (open_up env path (listened fd ∷ bound path ∷ calls), some fd)

abbrev pub with_socket :
    Option Bytes → Option ℕ → (Bytes → ℕ → List SockCall × Option ℕ) → List SockCall × Option ℕ
with_socket none fd f = ([], none)
with_socket (some path) none f = ([], none)
with_socket (some path) (some fd) f = f path fd

unfoldable pub keys_listen : Config → SockEnv → List SockCall × Option ℕ
unfolding sock_addr listen_on
keys_listen cfg env = with_socket (sock_addr cfg) env.descriptor (listen_on env)

unfoldable pub connect_to : SockEnv → Bytes → ℕ → List SockCall × Option ℕ
connect_to env path fd =
    if env.connects
    then (connected path ∷ opened fd ∷ [], some fd)
    else (closed fd ∷ opened fd ∷ [], none)

unfoldable pub keys_connect : Config → SockEnv → List SockCall × Option ℕ
unfolding sock_addr connect_to
keys_connect cfg env = with_socket (sock_addr cfg) env.descriptor (connect_to env)
