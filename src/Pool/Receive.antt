-- ===== src/Pool/Receive.antt =====
-- src/glb_pool.c: `pool_handle_read` and `pool_handle_write`, on the two ends of a connection.
use glb.Common.{ℕ, ◌+◌, Bool, true, false, none, some, List, ◌++◌, length, ltb, ◌==◌, if◌then◌else◌}
use glb.Pool.State.{End, EndKind, Stats, Errno, Ret, ok, err, buf_size, is_client, is_incomplete}
use glb.Pool.Send.{Sent, Sending, send_data}

-- The result of `recv`: bytes, the end of the stream, or an error.
pub data Received : Type 0 where
  data_in : List ℕ → Received
  closed : Received
  failed : Errno → Received

-- What a read event does. `removes` as for `Sending`.
pub record Reading : Type 0 where
  pub ret : Ret
  pub src : End
  pub dst : End
  pub stats : Stats
  pub removes : Bool

-- No space for the next read: the READ flag of the source is cleared.
unfoldable pub stop_reading : End → End → End
stop_reading src dst = if length dst.buf == buf_size then record src { read = false } else src

unfoldable count_received : Stats → End → ℕ → Stats
count_received stats dst n = record stats {
  recv_bytes = stats.recv_bytes + n;
  rx_bytes = stats.rx_bytes + (if is_client dst.kind then 0 else n);
  n_recv = stats.n_recv + 1;
}

-- What was received is buffered, and sent on at once as far as it goes.
unfoldable pub pass_on : Stats → End → End → List ℕ → Sent → Reading
unfolding send_data stop_reading count_received
pass_on stats src dst bs sent =
    let s = send_data stats (record dst { buf = dst.buf ++ bs }) none sent in
    if s.removes
    then record { ret = s.ret; src = src; dst = s.dst; stats = s.stats; removes = true }
    else record {
      ret = ok (length bs);
      src = stop_reading src s.dst;
      dst = s.dst;
      stats = count_received s.stats s.dst (length bs);
      removes = false;
    }

-- `recv` returned -1 with EAGAIN: that number is returned, which read as an error is EPERM.
abbrev eperm : Errno
eperm = Errno.other 1

unfoldable read_error : Errno → Errno
read_error Errno.eagain = eperm
read_error e = e

-- A read event on `src`, where `dst` is the other end, and `sent` is what `send` does then.
unfoldable pub handle_read : Stats → End → End → Received → Sent → Reading
unfolding pass_on read_error
handle_read stats src dst received sent =
    let done = record stats { n_recv = stats.n_recv + 1 } in
    if ltb (length dst.buf) buf_size
    then elim received [
      | data_in bs ↦ pass_on stats src dst bs sent
      | closed ↦ record {
        ret = err Errno.epipe;
        src = src;
        dst = dst;
        stats = done;
        removes = true;
      }
      | failed e ↦ record {
        ret = err (read_error e);
        src = src;
        dst = dst;
        stats = done;
        removes = false;
      }
    ]
    else record { ret = ok 0; src = src; dst = dst; stats = stats; removes = false }

-- The connection is established: the end waits for data only.
unfoldable pub complete_end : End → End
complete_end dst = record dst { kind = EndKind.complete; read = true; write = false }

-- Sends what is buffered for `dst`, where there is anything.
unfoldable pub flush : Stats → End → End → Sent → Sending
unfolding send_data
flush stats dst src sent =
    if length dst.buf == 0
    then record { ret = ok 0; dst = dst; src = some src; stats = stats; removes = false }
    else send_data stats dst (some src) sent

-- A write event on `dst`, where a connection that was being made has no pending error: `SO_ERROR`
-- is 0. The return value of the handler is 0 whatever `ret` is.
unfoldable pub handle_write : Stats → End → End → Sent → Sending
unfolding complete_end flush
handle_write stats dst src sent =
    flush stats (if is_incomplete dst.kind then complete_end dst else dst) src sent
