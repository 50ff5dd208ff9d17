-- ===== src/Pool/Events.antt =====
-- src/glb_pool.c: the events of one `epoll_wait`, `pool_handle_events`, and the commands from the
-- control pipe, `pool_handle_ctl`. `none` is a NULL of `route_map` that is read, or an assertion that
-- fails.
use glb.Common.{
  ℕ, ◌+◌, ◌-◌, Bool, true, false, not, ◌&&◌, Option, none, some, List, [], ◌∷◌, set, if◌then◌else◌,
}
use glb.SockAddr.{SockAddr}
use glb.Pool.State.{End, Conn, Stats, Ret, ok, err, is_incomplete}
use glb.Pool.Send.{Sent}
use glb.Pool.Receive.{Received, handle_read, handle_write}
use glb.Pool.Conns.{
  Pool, Done, nothing_done, after, find_conn, remove_conn, handle_add_conn, handle_drop_dst,
  handle_stats, handle_shutdown,
}
use glb.Pool.Threads.{conn_failed}

-- What is read from the control pipe, with what happens on the way: the block to add and its new
-- descriptor, or the address to drop and what stands before the blocks.
pub data Ctl : Type 0 where
  add_conn : Conn → Option ℕ → Ctl
  drop_dst : SockAddr → (Conn → SockAddr) → Ctl
  stats : Stats → Ctl
  shutdown : Ctl
  unsupported : Ctl

-- The events of one descriptor, with what the calls that they lead to return: `recv`, and `send`
-- after it; the pending error of a connection that was being made, the address that the router gives
-- instead and the descriptor for it; and `send` for a write event.
pub record Io : Type 0 where
  pub fd : ℕ
  pub readable : Bool
  pub writable : Bool
  pub received : Received
  pub passed : Sent
  pub broken : Bool
  pub again : Option SockAddr
  pub started : Option ℕ
  pub sent : Sent

pub data Event : Type 0 where
  ctl : Ctl → Event
  io : Io → Event

abbrev pub end_at : Bool → Conn → End
end_at from_client c = if from_client then c.inc else c.dst

abbrev pub conn_of : Bool → End → End → Conn
conn_of from_client this that =
    if from_client then record { inc = this; dst = that } else record { inc = that; dst = this }

unfoldable pub put_conn : Pool → ℕ → Conn → Stats → Pool
put_conn pool i c s = record pool { conns = set pool.conns i c; stats = s }

-- At the end of the stream the reader's descriptor is the one removed; where sending fails, the
-- other one.
abbrev pub removed_fd : ℕ → Received → End → Option ℕ
removed_fd fd Received.closed dst = some fd
removed_fd fd _ dst = dst.sock

unfoldable pub remove_sock : Pool → Option ℕ → Option Done
unfolding remove_conn
remove_sock pool none = none
remove_sock pool (some fd) = remove_conn pool fd true

-- A read event, for the pool: `pool_handle_read`.
unfoldable pub read_at : Pool → ℕ → Conn → Bool → Io → Option Done × Ret
unfolding handle_read put_conn remove_sock
read_at pool i c from_client e =
    let r =
      handle_read pool.stats (end_at from_client c) (end_at (not from_client) c) e.received
        e.passed in
    let pool' = put_conn pool i (conn_of from_client r.src r.dst) r.stats in
    (
      if r.removes
          then remove_sock pool' (removed_fd e.fd e.received r.dst)
          else some (nothing_done pool'),
      r.ret,
    )

-- A write event, for the pool: `pool_handle_write`.
unfoldable pub write_at : Pool → ℕ → Conn → Bool → Io → Option Done
unfolding handle_write put_conn conn_failed remove_sock
write_at pool i c from_client e =
    let dst = end_at from_client c in
    let src = end_at (not from_client) c in
    let s = handle_write pool.stats dst src e.sent in
    let src' : End = elim s.src [ none ↦ src | some x ↦ x ] in
    let pool' = put_conn pool i (conn_of from_client s.dst src') s.stats in
    if is_incomplete dst.kind && e.broken
    then conn_failed pool e.fd e.again e.started
    else if s.removes
    then remove_sock pool' s.dst.sock
    else some (nothing_done pool')

abbrev is_error : Ret → Bool
is_error (ok n) = false
is_error (err e) = true

abbrev pub count_read : Pool → Pool
count_read pool = record pool {
  stats = record pool.stats { poll_reads = pool.stats.poll_reads + 1 };
}

abbrev pub count_write : Pool → Pool
count_write pool = record pool {
  stats = record pool.stats { poll_writes = pool.stats.poll_writes + 1 };
}

-- Nothing, if the event is not there.
unfoldable pub read_event : Pool → Io → Option Done × Bool
unfolding find_conn read_at
read_event pool e =
    if e.readable
    then elim (find_conn e.fd 0 pool.conns) [
      | none ↦ (none, false)
      | some (i, c, from_client) ↦
          let (done, ret) = read_at (count_read pool) i c from_client e in (done, is_error ret)
    ]
    else (some (nothing_done pool), false)

unfoldable pub write_event : Io → Pool → Option Done
unfolding find_conn write_at
write_event e pool =
    if e.writable
    then elim (find_conn e.fd 0 pool.conns) [
      | none ↦ none
      | some (i, c, from_client) ↦ write_at (count_write pool) i c from_client e
    ]
    else some (nothing_done pool)

-- Both events of a descriptor, and whether the loop is left: after an error of the read.
unfoldable pub io_event : Pool → Io → Option Done × Bool
unfolding read_event write_event
io_event pool e =
    let (done, stop) = read_event pool e in
    if stop then (done, true) else (after done (write_event e), false)

abbrev pub uncount_poll : Pool → Pool
uncount_poll pool = record pool { stats = record pool.stats { n_polls = pool.stats.n_polls - 1 } }

-- One command, which does not count as a poll.
unfoldable pub handle_ctl : Pool → Ctl → Option Done
unfolding handle_add_conn handle_drop_dst handle_stats handle_shutdown
handle_ctl pool (add_conn c started) = some (handle_add_conn (uncount_poll pool) c started)
handle_ctl pool (drop_dst dst before) = handle_drop_dst (uncount_poll pool) dst before
handle_ctl pool (stats s) = some (nothing_done (handle_stats (uncount_poll pool) s).1)
handle_ctl pool shutdown = handle_shutdown (uncount_poll pool)
handle_ctl pool unsupported = some (nothing_done (uncount_poll pool))

-- The loop over the events: it is left after a command, and after an error of a read.
unfoldable pub handle_events : Pool → List Event → Option Done
unfolding handle_ctl io_event
handle_events pool [] = some (nothing_done pool)
handle_events pool (ctl c ∷ events) = handle_ctl pool c
handle_events pool (io e ∷ events) =
    let (done, stop) = io_event pool e in
    after done
      (λ p. let rest = handle_events p events in if stop then some (nothing_done p) else rest)
