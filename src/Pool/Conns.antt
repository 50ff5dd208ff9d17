-- ===== src/Pool/Conns.antt =====
-- src/glb_pool.c: the connections of one pool thread: adding, removing, dropping a destination,
-- statistics and shutdown. A call that reads a NULL of `route_map`, or that fails an assertion, ends
-- the process: `none`. So does a descriptor that epoll or `realloc` refuses, which is left out.
use glb.Common.{
  ℕ, zero, suc, ◌+◌, ◌-◌, Bool, true, false, not, ◌||◌, Option, none, some, List, [], ◌∷◌, ◌++◌,
  ◌==◌, if◌then◌else◌,
}
use glb.SockAddr.{SockAddr, sockaddr_is_equal}
use glb.Pool.State.{End, EndKind, Conn, Stats, zero_stats, stats_add, is_incomplete, has_sock}

-- `conns` are the blocks that `route_map` leads to: the entry of a descriptor is the other end of the
-- block that has the descriptor. `fd_max` counts the control pipe too.
pub record Pool : Type 0 where
  pub conns : List Conn
  pub n_conns : ℕ
  pub fd_max : ℕ
  pub pollfds_len : ℕ
  pub stats : Stats
  pub shutdown : Bool

-- What a call did: descriptors closed, the router told of a closed connection (and whether it
-- failed), and blocks that are neither in the pool nor freed.
pub record Done : Type 0 where
  pub pool : Pool
  pub closed : List ℕ
  pub disconnected : List (SockAddr × Bool)
  pub left : List Conn

abbrev pub nothing_done : Pool → Done
nothing_done pool = record { pool = pool; closed = []; disconnected = []; left = [] }

abbrev fd_setsize : ℕ
fd_setsize = 1024

-- The array is made longer where it is full.
unfoldable pub fds_add : Pool → Pool
fds_add pool = record pool {
  pollfds_len =
      if pool.fd_max == pool.pollfds_len then pool.pollfds_len + fd_setsize else pool.pollfds_len;
  fd_max = pool.fd_max + 1;
}

unfoldable pub fds_del : Pool → Pool
fds_del pool = record pool { fd_max = pool.fd_max - 1 }

-- An end waits for data, or for its connection to be made.
unfoldable set_events : End → End
set_events end = record end { read = not (is_incomplete end.kind); write = is_incomplete end.kind }

-- The index and the block of a descriptor, and whether it is the client's.
unfoldable pub find_conn : ℕ → ℕ → List Conn → Option (ℕ × Conn × Bool)
find_conn fd i [] = none
find_conn fd i (c ∷ cs) =
    let rest = find_conn fd (suc i) cs in
    if has_sock c.inc fd
    then some (i, c, true)
    else if has_sock c.dst fd
    then some (i, c, false)
    else rest

unfoldable pub remove_index : ℕ → List Conn → List Conn
remove_index i [] = []
remove_index zero (c ∷ cs) = cs
remove_index (suc i) (c ∷ cs) = c ∷ remove_index i cs

abbrev sock_list : End → List ℕ
sock_list end = elim end.sock [ none ↦ [] | some s ↦ s ∷ [] ]

-- `pool_remove_conn` for the block at index `i`. `full` is the full cleanup: both descriptors are
-- closed and the block is freed. Else the client's end stays open.
unfoldable pub remove_found : Pool → ℕ → Conn → Bool → Bool → Option Done
unfolding fds_del remove_index
remove_found pool i c full notify_router =
    let counted = record pool {
      n_conns = pool.n_conns - 1;
      stats = record pool.stats { conns_closed = pool.stats.conns_closed + 1 };
    } in
    let removed = record (fds_del (fds_del counted)) { conns = remove_index i pool.conns } in
    if full
    then some (record {
      pool = removed;
      closed = sock_list c.dst ++ sock_list c.inc;
      disconnected = if notify_router then (c.dst.addr, false) ∷ [] else [];
      left = [];
    })
    else if notify_router
    then none
    else some
        (record { pool = removed; closed = sock_list c.dst; disconnected = []; left = c ∷ [] })

unfoldable pub remove_conn : Pool → ℕ → Bool → Option Done
unfolding find_conn remove_found
remove_conn pool fd notify_router = elim (find_conn fd 0 pool.conns) [
  | none ↦ none
  | some (i, c, from_client) ↦
      remove_found pool i c (from_client || not (is_incomplete c.dst.kind)) notify_router
]

-- The two ends of a block enter the pool.
unfoldable pub register : Pool → Conn → Pool
unfolding fds_add set_events
register pool c =
    let added = fds_add (fds_add pool) in
    record added {
      conns = record { inc = set_events c.inc; dst = set_events c.dst } ∷ pool.conns;
      n_conns = pool.n_conns + 1;
      stats = record pool.stats { conns_opened = pool.stats.conns_opened + 1 };
    }

-- `started` is the descriptor that `pool_handle_async_conn` has begun to connect, none if that
-- failed.
unfoldable pub handle_add_conn : Pool → Conn → Option ℕ → Done
unfolding register
handle_add_conn pool c started = elim c.dst.sock [
  | some s ↦ nothing_done (register pool c)
  | none ↦ elim started [
    | some s ↦ nothing_done (register pool (record c { dst = record c.dst { sock = some s } }))
    | none ↦ record {
      pool = pool;
      closed = sock_list c.inc;
      disconnected = (c.dst.addr, true) ∷ [];
      left = [];
    }
  ]
]

abbrev pub join : Done → Done → Done
join first next = record next {
  closed = first.closed ++ next.closed;
  disconnected = first.disconnected ++ next.disconnected;
  left = first.left ++ next.left;
}

-- What goes on with the pool that a call left, where the call came back.
abbrev pub after : Option Done → (Pool → Option Done) → Option Done
after none next = none
after (some d) next = elim (next d.pool) [ none ↦ none | some d' ↦ some (join d d') ]

-- The loop over the descriptors from `fd` on, where `left` more are below POOL_MAX_FD, and `count`
-- of the pool's are still to come. `before` is what the 16 bytes before a block hold, which
-- `pool_conn_end_dstaddr` takes for the address of the destination.
unfoldable pub drop_loop : ℕ → ℕ → ℕ → SockAddr → (Conn → SockAddr) → Pool → Option Done
unfolding find_conn remove_conn
drop_loop zero fd count dst before pool = if count == 0 then some (nothing_done pool) else none
drop_loop (suc left) fd count dst before pool = elim (count == 0) [
  | true ↦ some (nothing_done pool)
  | false ↦ elim (find_conn fd 0 pool.conns) [
    | none ↦ drop_loop left (suc fd) count dst before pool
    | some (i, c, from_client) ↦ elim (sockaddr_is_equal dst (before c)) [
      | true ↦
          after (remove_conn pool fd false) (drop_loop left (suc fd) (count - 1 - 1) dst before)
      | false ↦ drop_loop left (suc fd) (count - 1) dst before pool
    ]
  ]
]

abbrev pub pool_max_fd : ℕ
pool_max_fd = 65536

-- The control pipe is not in `route_map`.
unfoldable pub handle_drop_dst : Pool → SockAddr → (Conn → SockAddr) → Option Done
unfolding drop_loop
handle_drop_dst pool dst before = drop_loop pool_max_fd 0 (pool.fd_max - 1) dst before pool

unfoldable pub shutdown_loop : ℕ → ℕ → ℕ → Pool → Option Done
unfolding find_conn remove_conn
shutdown_loop zero fd count pool = if count == 0 then some (nothing_done pool) else none
shutdown_loop (suc left) fd count pool = elim (count == 0) [
  | true ↦ some (nothing_done pool)
  | false ↦ elim (find_conn fd 0 pool.conns) [
    | none ↦ shutdown_loop left (suc fd) count pool
    | some c ↦ after (remove_conn pool fd false) (shutdown_loop left (suc fd) (count - 2))
  ]
]

unfoldable pub handle_shutdown : Pool → Option Done
unfolding shutdown_loop
handle_shutdown pool =
    after (shutdown_loop pool_max_fd 0 (pool.fd_max - 1) pool)
      (λ p. some (nothing_done (record p { shutdown = true })))

-- The counters of the thread are added to those of the caller, and start anew.
unfoldable pub handle_stats : Pool → Stats → Stats × Pool
unfolding stats_add
handle_stats pool stats = (
  stats_add stats (record pool.stats { n_conns = pool.n_conns }),
  record pool { stats = zero_stats },
)

-- The data of a block that `glb_pool_add_conn` makes.
unfoldable pub new_conn : ℕ → SockAddr → Option ℕ → SockAddr → Bool → Conn
new_conn inc_sock inc_addr dst_sock dst_addr complete = record {
  inc = record {
    addr = inc_addr;
    sent = 0;
    buf = [];
    sock = some inc_sock;
    read = false;
    write = false;
    kind = EndKind.client;
  };
  dst = record {
    addr = dst_addr;
    sent = 0;
    buf = [];
    sock = dst_sock;
    read = false;
    write = false;
    kind = if complete then EndKind.complete else EndKind.incomplete;
  };
}
