-- ===== src/Pool/Tests.antt =====
-- The theorems on the pool at concrete connections.
use glb.Common.{
  ℕ, ◌≡◌, ◌++◌, refl, inl, inr, true, false, none, some, List, [], ◌∷◌, length, All, arith,
}
use glb.SockAddr.{SockAddr}
use glb.Pool.State.{End, EndKind, zero_stats}
use glb.Pool.Send.{Sent, send_data}
use glb.Pool.Receive.{Received, data_in, handle_read, handle_write}
use glb.Pool.Conns.{Pool, Done}
use glb.Pool.Stream.{
  IsEnd, pending, passed_on, taken_in, written, send_data-IsEnd, handle_read_stream,
  handle_write_stream,
}
use glb.Pool.Flow.{Flows, Keeps, Writes, handle_read-Flows, handle_write-Flows}
use glb.Pool.Events.{Io, io, handle_events}
use glb.Pool.EventCounts.{handle_events-Kept}
use glb.Pool.Broadcast.{CanEnd, HasEnded, pool_destroy, pool_destroy-HasEnded}
use glb.Pool.Counts.{IsPool, Kept}
use glb.Pool.Threads.{get_pool}
use glb.Pool.Balance.{IsLeast, get_pool-IsLeast}

abbrev addr_of : ℕ → SockAddr
addr_of n = record { sin_family = 2; sin_port = 15_360; sin_addr = n; sin_zero = 0 }

-- The end of the client, read and with nothing buffered.
abbrev client_end : End
client_end = record {
  addr = addr_of 5;
  sent = 0;
  buf = [];
  sock = some 7;
  read = true;
  write = false;
  kind = EndKind.client;
}

-- The end of a destination with three bytes buffered, of which one was sent.
abbrev server_end : End
server_end = record {
  addr = addr_of 1;
  sent = 1;
  buf = 10 ∷ 11 ∷ 12 ∷ [];
  sock = some 8;
  read = true;
  write = true;
  kind = EndKind.complete;
}

abbrev incomplete_end : End
incomplete_end = record server_end { sent = 0; buf = []; read = false; kind = EndKind.incomplete }

server_end-IsEnd : IsEnd server_end
server_end-IsEnd = record { bound = omega arith; order = omega arith }

send_data-IsEnd_example : IsEnd (send_data zero_stats server_end none (Sent.bytes 2)).dst
send_data-IsEnd_example =
    send_data-IsEnd zero_stats server_end none (Sent.bytes 2) (omega arith, omega arith)
      server_end-IsEnd

handle_read_stream_example :
    passed_on server_end (data_in (20 ∷ [])) (Sent.bytes 2)
      ++ pending
          (handle_read zero_stats client_end server_end (data_in (20 ∷ [])) (Sent.bytes 2)).dst
    ≡ pending server_end ++ taken_in server_end (data_in (20 ∷ []))
handle_read_stream_example =
    handle_read_stream zero_stats client_end server_end (data_in (20 ∷ [])) (Sent.bytes 2)
      (omega arith, omega arith, (omega arith, omega arith)) server_end-IsEnd

handle_write_stream_example :
    written server_end (Sent.bytes 2)
      ++ pending (handle_write zero_stats server_end client_end (Sent.bytes 2)).dst
    ≡ pending server_end
handle_write_stream_example =
    handle_write_stream zero_stats server_end client_end (Sent.bytes 2) (omega arith, omega arith)

server_end-Flows : Flows client_end server_end
server_end-Flows = record { can_read = inl refl; can_write = inr refl }

handle_read-Flows_example :
    Keeps (handle_read zero_stats client_end server_end (data_in (20 ∷ [])) (Sent.bytes 2))
handle_read-Flows_example =
    handle_read-Flows zero_stats client_end server_end (data_in (20 ∷ [])) (Sent.bytes 2) tt refl
      refl server_end-Flows

handle_write-Flows_example : Writes (handle_write zero_stats server_end client_end (Sent.bytes 2))
handle_write-Flows_example =
    handle_write-Flows zero_stats server_end client_end (Sent.bytes 2) tt server_end-IsEnd
      (inl refl)

abbrev one_conn : Pool
one_conn = record {
  conns = record { inc = client_end; dst = server_end } ∷ [];
  n_conns = 1;
  fd_max = 3;
  pollfds_len = 1024;
  stats = zero_stats;
  shutdown = false;
}

one_conn-IsPool : IsPool one_conn
one_conn-IsPool = record { counted = refl; descriptors = omega arith; allocated = omega arith }

get_pool-IsLeast_example :
    IsLeast
      (one_conn ∷ record one_conn { n_conns = 0 } ∷ [])
      (get_pool one_conn (record one_conn { n_conns = 0 } ∷ []))
get_pool-IsLeast_example = get_pool-IsLeast one_conn (record one_conn { n_conns = 0 } ∷ [])

-- The connection ends: the client closes it, in the same batch as data for it.
abbrev closing : Io
closing = record {
  fd = 7;
  readable = true;
  writable = false;
  received = Received.closed;
  passed = Sent.bytes 1;
  broken = false;
  again = none;
  started = none;
  sent = Sent.bytes 1;
}

abbrev flushing : Io
flushing = record closing { fd = 8; readable = false; writable = true }

handle_events-Kept_example : Kept (handle_events one_conn (io flushing ∷ io closing ∷ []))
handle_events-Kept_example =
    handle_events-Kept one_conn (io flushing ∷ io closing ∷ []) one_conn-IsPool

-- Such a batch comes back, with no connection left.
handle_events_runs :
    (d : Done) × (handle_events one_conn (io flushing ∷ io closing ∷ []) ≡ some d)
    × (d.pool.conns ≡ [])
unfolding handle_events
handle_events_runs = (_, refl, refl)

one_conn-CanEnd : CanEnd one_conn
one_conn-CanEnd = record {
  counts = one_conn-IsPool;
  single = λ k. ground arith;
  between = (((7, refl, omega arith, omega arith), (8, refl, omega arith, omega arith)), tt);
}

pool_destroy-HasEnded_example :
    (ds : List Done) × (pool_destroy (one_conn ∷ []) ≡ some ds) × (length ds ≡ 1) × All HasEnded ds
pool_destroy-HasEnded_example = pool_destroy-HasEnded (one_conn ∷ []) (one_conn-CanEnd, tt)
