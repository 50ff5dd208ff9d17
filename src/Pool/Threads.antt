-- ===== src/Pool/Threads.antt =====
-- src/glb_pool.c: which pool thread takes a connection, and a connection that could not be made.
use glb.Common.{ℕ, suc, true, false, Option, none, some, List, [], ◌∷◌, ◌++◌, ltb, if◌then◌else◌}
use glb.SockAddr.{SockAddr}
use glb.Pool.State.{Conn}
use glb.Pool.Conns.{Pool, Done, find_conn, remove_found, handle_add_conn}

-- The loop of `pool_get_pool` from index `i` on, with the least busy pool so far.
unfoldable pub get_loop : ℕ → List Pool → ℕ → ℕ → ℕ
get_loop i [] ret min_conns = ret
get_loop i (p ∷ ps) ret min_conns =
    let less = ltb p.n_conns min_conns in
    get_loop (suc i) ps (if less then i else ret) (if less then p.n_conns else min_conns)

-- There is at least one pool.
unfoldable pub get_pool : Pool → List Pool → ℕ
unfolding get_loop
get_pool p ps = get_loop 1 ps 0 p.n_conns

-- The block enters the pool again, on the way to another destination.
unfoldable pub reconnect : Done → Conn → SockAddr → Option ℕ → Done
unfolding handle_add_conn
reconnect d c addr started =
    let moved = record c { dst = record c.dst { addr = addr; sock = none } } in
    let added = handle_add_conn d.pool moved started in
    record added { closed = d.closed ++ added.closed }

-- `pool_handle_conn_complete` where the connection to the destination of the block at descriptor
-- `fd` failed. `again` is the address that the router gives instead, and `started` the descriptor of
-- the new attempt. Without another destination the cleanup is a full one.
unfoldable pub conn_failed : Pool → ℕ → Option SockAddr → Option ℕ → Option Done
unfolding find_conn remove_found reconnect
conn_failed pool fd again started = elim (find_conn fd 0 pool.conns) [
  | none ↦ none
  | some (i, c, from_client) ↦ elim again [
    | none ↦ remove_found pool i c true false
    | some addr ↦ elim (remove_found pool i c false false) [
      | none ↦ none
      | some d ↦ some (reconnect d c addr started)
    ]
  ]
]
