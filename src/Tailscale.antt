-- ===== src/Tailscale.antt =====
-- modules/console/panel.c: `tailscale_start`, and `tailscale_drain`, which counts the peers in the
-- output of tailscale. Whether a pipe and a process are to be had, the results of the reads, and the
-- end of the child, are arguments.
pub mod Peers
use mobile_config.Base.{
  ℕ, suc, ◌+◌, ◌-◌, ◌<◌, Bool, true, false, not, ◌&&◌, List, [], ◌∷◌, ◌++◌, ltb, ◌==◌,
  if◌then◌else◌, length,
}
use mobile_config.Config.{Config, is_empty}
use mobile_config.Files.{Fs, first_line}
use mobile_config.System.{fixture_path, line_or}
use mobile_config.Libc.{Bytes, codes, starts_with, snprintf, dec}

-- `running` is whether `ts_fd` and `ts_pid` stand for a child; the others are `ts_count`, the bytes
-- in `ts_buf` and `peers`.
pub record Child : Type 0 where
  pub running : Bool
  pub count : ℕ
  pub buf : Bytes
  pub peers : Bytes

-- The child before any is started.
abbrev pub no_child : Child
no_child = record { running = false; count = 0; buf = []; peers = codes "-" }

abbrev pub ts_buf_size : ℕ
ts_buf_size = 4096

abbrev pub peer_prefix : Bytes
peer_prefix = codes "100."

-- `pipes` and `forks` are whether the two calls succeed.
unfoldable pub tailscale_start : Config → Fs → Bool → Bool → Child → Child
unfolding fixture_path first_line
tailscale_start cfg fs pipes forks t =
    if not (is_empty cfg.root)
    then record t {
      peers = line_or t.peers (first_line fs (fixture_path cfg (codes "tailscale-peers")) 32);
    }
    else if t.running
    then t
    else if pipes && forks
    then record t { running = true; count = 0; buf = [] }
    else t

-- One round of the loop over the bytes of a read.
unfoldable pub drain_byte : ℕ → Child → Child
drain_byte c t =
    if c == b'\n'
    then record t {
      count = if starts_with peer_prefix t.buf then suc t.count else t.count;
      buf = [];
    }
    else if ltb (length t.buf + 1) ts_buf_size
    then record t { buf = t.buf ++ c ∷ [] }
    else t

unfoldable pub drain_bytes : Bytes → Child → Child
drain_bytes [] t = t
drain_bytes (c ∷ cs) t = drain_bytes cs (drain_byte c t)

-- The result of a read: bytes, an interruption, nothing yet, or the end, where the child is waited
-- for, with whether its exit status is 0.
pub data TsRead : Type 0 where
  some_bytes : Bytes → TsRead
  interrupted again : TsRead
  ended : Bool → TsRead

unfoldable pub reap_child : Bool → Child → Child
reap_child ok t = record t {
  running = false;
  peers = if ok then snprintf 32 (dec t.count) else t.peers;
}

-- The loop over the reads; where the list ends it is still waiting.
unfoldable pub tailscale_drain : List TsRead → Child → Child
unfolding drain_bytes reap_child
tailscale_drain [] t = t
tailscale_drain (some_bytes cs ∷ rs) t = tailscale_drain rs (drain_bytes cs t)
tailscale_drain (interrupted ∷ rs) t = tailscale_drain rs t
tailscale_drain (again ∷ rs) t = t
tailscale_drain (ended ok ∷ rs) t = reap_child ok t
