-- ===== src/Start/Descriptors.antt =====
-- Which descriptors the socket calls leave open.
use mobile_config.Base.{ℕ, ◌≡◌, refl, List, [], ◌∷◌, ◌==◌, if◌then◌else◌, Option, none, some, arith}
use mobile_config.Libc.{Bytes}
use mobile_config.Config.{Config}
use mobile_config.Start.Sockets.{
  SockCall, opened, closed, SockEnv, sock_addr, open_up, listen_on, with_socket, keys_listen,
  connect_to, keys_connect,
}

-- Without the first of them that equals `fd`.
abbrev pub without : ℕ → List ℕ → List ℕ
without fd [] = []
without fd (x ∷ xs) = if x == fd then xs else x ∷ without fd xs

-- The descriptors that calls leave open, the newest call first.
abbrev pub open_after : List SockCall → List ℕ
open_after [] = []
open_after (opened fd ∷ calls) = fd ∷ open_after calls
open_after (closed fd ∷ calls) = without fd (open_after calls)
open_after (c ∷ calls) = open_after calls

abbrev pub returned : Option ℕ → List ℕ
returned none = []
returned (some fd) = fd ∷ []

-- Only the descriptor that is returned stays open.
abbrev pub LeavesOpen : List SockCall × Option ℕ → Type 0
LeavesOpen r = open_after r.0 ≡ returned r.1

with_socket-LeavesOpen :
    (path : Option Bytes) (fd : Option ℕ) (f : Bytes → ℕ → List SockCall × Option ℕ)
    → ((p : Bytes) (d : ℕ) → LeavesOpen (f p d))
    → LeavesOpen (with_socket path fd f)
with_socket-LeavesOpen none fd f h = refl
with_socket-LeavesOpen (some path) none f h = refl
with_socket-LeavesOpen (some path) (some fd) f h = h path fd

listen_on-LeavesOpen : (env : SockEnv) (path : Bytes) (fd : ℕ) → LeavesOpen (listen_on env path fd)
unfolding listen_on open_up
listen_on-LeavesOpen env path fd = ground arith

connect_to-LeavesOpen :
    (env : SockEnv) (path : Bytes) (fd : ℕ) → LeavesOpen (connect_to env path fd)
unfolding connect_to
connect_to-LeavesOpen env path fd = ground arith

-- Whichever of the socket calls fail, listening and connecting leave open exactly the descriptor that
-- they return: a failure behind `socket` closes what it opened.
pub sockets-LeavesOpen :
    (cfg : Config) (env : SockEnv)
    → LeavesOpen (keys_listen cfg env) × LeavesOpen (keys_connect cfg env)
unfolding keys_listen keys_connect
sockets-LeavesOpen cfg env = (
  with_socket-LeavesOpen (sock_addr cfg) env.descriptor (listen_on env) (listen_on-LeavesOpen env),
  with_socket-LeavesOpen (sock_addr cfg) env.descriptor (connect_to env)
      (connect_to-LeavesOpen env),
)
