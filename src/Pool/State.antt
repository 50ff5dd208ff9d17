-- ===== src/Pool/State.antt =====
-- src/glb_pool.c and src/glb_pool_stats.h: connection ends, counters, and the state of one pool
-- thread, as built for epoll without splice.
use glb.Common.{ℕ, ◌+◌, Bool, true, false, Option, none, some, List, ◌==◌}
use glb.SockAddr.{SockAddr}

-- `pool_end_t`
pub data EndKind : Type 0 where
  incomplete complete client : EndKind

-- One end of a connection. `buf` holds the first `total` bytes of the buffer: what was received for
-- this end; `sock` is none where the descriptor is negative. The two flags are those of `events`.
pub record End : Type 0 where
  pub addr : SockAddr
  pub sent : ℕ
  pub buf : List ℕ
  pub sock : Option ℕ
  pub read : Bool
  pub write : Bool
  pub kind : EndKind

-- The two ends stand in one block of memory, so each is found from the other.
pub record Conn : Type 0 where
  pub inc : End
  pub dst : End

-- Each end has BUFSIZ bytes, of which the fields above take 48.
abbrev pub buf_size : ℕ
buf_size = 8144

pub record Stats : Type 0 where
  pub rx_bytes : ℕ
  pub tx_bytes : ℕ
  pub recv_bytes : ℕ
  pub n_recv : ℕ
  pub send_bytes : ℕ
  pub n_send : ℕ
  pub conns_opened : ℕ
  pub conns_closed : ℕ
  pub n_conns : ℕ
  pub poll_reads : ℕ
  pub poll_writes : ℕ
  pub n_polls : ℕ

abbrev pub zero_stats : Stats
zero_stats = record {
  rx_bytes = 0;
  tx_bytes = 0;
  recv_bytes = 0;
  n_recv = 0;
  send_bytes = 0;
  n_send = 0;
  conns_opened = 0;
  conns_closed = 0;
  n_conns = 0;
  poll_reads = 0;
  poll_writes = 0;
  n_polls = 0;
}

-- The counters are 64-bit, and do not wrap in the life of a process.
unfoldable pub stats_add : Stats → Stats → Stats
stats_add left right = record {
  rx_bytes = left.rx_bytes + right.rx_bytes;
  tx_bytes = left.tx_bytes + right.tx_bytes;
  recv_bytes = left.recv_bytes + right.recv_bytes;
  n_recv = left.n_recv + right.n_recv;
  send_bytes = left.send_bytes + right.send_bytes;
  n_send = left.n_send + right.n_send;
  conns_opened = left.conns_opened + right.conns_opened;
  conns_closed = left.conns_closed + right.conns_closed;
  n_conns = left.n_conns + right.n_conns;
  poll_reads = left.poll_reads + right.poll_reads;
  poll_writes = left.poll_writes + right.poll_writes;
  n_polls = left.n_polls + right.n_polls;
}

-- `errno` after a failed call, with the values that the code tells apart.
pub data Errno : Type 0 where
  eintr eagain ebusy enobufs enotconn epipe econnreset : Errno
  other : ℕ → Errno

-- What a call returns: a number that is not negative, or an error.
pub data Ret : Type 0 where
  ok : ℕ → Ret
  err : Errno → Ret

abbrev pub is_client : EndKind → Bool
is_client EndKind.client = true
is_client _ = false

abbrev pub is_incomplete : EndKind → Bool
is_incomplete EndKind.incomplete = true
is_incomplete _ = false

-- The bytes that were received for the end and not sent yet.
abbrev pub has_sock : End → ℕ → Bool
has_sock end fd = elim end.sock [ none ↦ false | some s ↦ s == fd ]
