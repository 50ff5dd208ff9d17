-- ===== src/Pool/Send.antt =====
-- src/glb_pool.c: sending what is buffered for one end, `pool_send_data`.
use glb.Common.{
  ℕ, ◌+◌, Bool, true, false, not, ◌&&◌, Option, none, some, [], length, ltb, ◌==◌, if◌then◌else◌,
}
use glb.Pool.State.{End, Stats, Errno, Ret, ok, err, buf_size, is_client, is_incomplete}

-- The result of `send`: a positive number of bytes, or an error.
pub data Sent : Type 0 where
  bytes : ℕ → Sent
  failed : Errno → Sent

-- What the call returns and leaves behind; where it `removes` the connection, it has called
-- `pool_remove_conn` on the end, notifying the router.
pub record Sending : Type 0 where
  pub ret : Ret
  pub dst : End
  pub src : Option End
  pub stats : Stats
  pub removes : Bool

-- All data sent, the pointers are reset and the WRITE flag is cleared; else it is set.
unfoldable pub advance : End → ℕ → End
advance dst n =
    if dst.sent + n == length dst.buf
    then record dst { sent = 0; buf = []; write = false }
    else record dst { sent = dst.sent + n; write = true }

-- Where the buffer has space again, the source may be read again.
unfoldable pub reopen : End → ℕ → End
reopen src total = if not src.read && ltb total buf_size then record src { read = true } else src

unfoldable reopen_src : Option End → ℕ → Option End
unfolding reopen
reopen_src none total = none
reopen_src (some src) total = some (reopen src total)

unfoldable count_sent : Stats → End → ℕ → Stats
count_sent stats dst n = record stats {
  send_bytes = stats.send_bytes + n;
  tx_bytes = stats.tx_bytes + (if is_client dst.kind then n else 0);
  n_send = stats.n_send + 1;
}

-- An error that waits for the next write event.
unfoldable retry_later : Stats → End → Option End → Sending
retry_later stats dst src = record {
  ret = ok 0;
  dst = record dst { write = true };
  src = src;
  stats = record stats { n_send = stats.n_send + 1 };
  removes = false;
}

-- A broken pipe ends the connection, unless it is not complete yet.
unfoldable broken_pipe : Stats → End → Option End → Sending
broken_pipe stats dst src = record {
  ret = if is_incomplete dst.kind then ok 0 else err Errno.epipe;
  dst = dst;
  src = src;
  stats = stats;
  removes = not (is_incomplete dst.kind);
}

-- Any other error is reported and counted, and the flags stay as they are.
unfoldable unhandled : Stats → End → Option End → Errno → Sending
unhandled stats dst src e = record {
  ret = err e;
  dst = dst;
  src = src;
  stats = record stats { n_send = stats.n_send + 1 };
  removes = false;
}

-- `src` is none where the caller passes NULL.
unfoldable pub send_data : Stats → End → Option End → Sent → Sending
unfolding advance reopen_src count_sent retry_later broken_pipe unhandled
send_data stats dst src (Sent.bytes n) =
    let dst' = advance dst n in
    record {
      ret = ok n;
      dst = dst';
      src = reopen_src src (length dst'.buf);
      stats = count_sent stats dst n;
      removes = false;
    }
send_data stats dst src (Sent.failed Errno.eintr) = retry_later stats dst src
send_data stats dst src (Sent.failed Errno.eagain) = retry_later stats dst src
send_data stats dst src (Sent.failed Errno.ebusy) = retry_later stats dst src
send_data stats dst src (Sent.failed Errno.enobufs) = retry_later stats dst src
send_data stats dst src (Sent.failed Errno.enotconn) = retry_later stats dst src
send_data stats dst src (Sent.failed Errno.epipe) = broken_pipe stats dst src
send_data stats dst src (Sent.failed Errno.econnreset) = unhandled stats dst src Errno.econnreset
send_data stats dst src (Sent.failed (Errno.other n)) = unhandled stats dst src (Errno.other n)
