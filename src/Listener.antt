-- ===== src/Listener.antt =====
-- src/glb_listener.c: one connection that the daemon accepts, `listener_thread`, and
-- `glb_pool_add_conn` of src/glb_pool.c, where connections are made asynchronously.
pub mod Balance
mod Tests
use glb.Common.{
  ℕ, ◌+◌, Bool, true, false, Option, none, some, List, [], ◌∷◌, get_elem?, set, if◌then◌else◌,
}
use glb.Double.{Double}
use glb.SockAddr.{SockAddr}
use glb.Cnf.{Cnf}
use glb.Router.State.{Router}
use glb.Router.Choose.{World}
use glb.Router.Disconnect.{disconnect}
use glb.Router.Connect.{Connecting, connect}
use glb.Pool.State.{Conn}
use glb.Pool.Conns.{Pool, Done, new_conn, handle_add_conn}
use glb.Pool.Threads.{get_pool}

-- The daemon, as far as the listener sees it: the router, the pool threads, of which there is a first
-- one, and the descriptors that have been closed.
pub record Daemon (F : Type 0) : Type 0 where
  pub router : Router F
  pub first : Pool
  pub others : List Pool
  pub closed : List ℕ

abbrev pub pools : {F : Type 0} → Daemon F → List Pool
pools s = s.first ∷ s.others

-- What happens to an accepted connection on its way to a pool thread: there is no memory for it, or
-- the thread takes it and begins to connect, which gives a descriptor or fails.
pub data Adding : Type 0 where
  no_memory : Adding
  taken : Option ℕ → Adding

module _ {F : Type 0} where
  unfoldable pub put_pool : Daemon F → ℕ → Pool → Daemon F
  put_pool s k p = elim (set (pools s) k p) [
    | [] ↦ s
    | q ∷ qs ↦ record s { first = q; others = qs }
  ]

module _ {F : Type 0} ⦃fp : Double F⦄ where
  -- The calls of `glb_router_disconnect` that the pool thread makes; `now` is the time of each.
  unfoldable pub notify_router : Router F → Cnf F → List (SockAddr × Bool) → ℕ → Option (Router F)
  unfolding disconnect
  notify_router router cnf [] now = some router
  notify_router router cnf ((addr, failed) ∷ rest) now =
      elim (disconnect router cnf addr failed now) [
        | none ↦ none
        | some (i, router') ↦ notify_router router' cnf rest now
      ]

  -- The least busy thread takes the connection, and has told the router when the call comes back.
  unfoldable pub pool_add_conn : Daemon F → Cnf F → Conn → Option ℕ → ℕ → Option (Daemon F)
  unfolding get_pool handle_add_conn put_pool notify_router
  pool_add_conn s cnf c started now =
      let k = get_pool s.first s.others in
      elim (get_elem? (pools s) k) [
        | none ↦ none
        | some p ↦
            let d = handle_add_conn p c started in
            elim (notify_router s.router cnf d.disconnected now) [
              | none ↦ none
              | some router ↦
                  some (record (put_pool s k d.pool) { router = router; closed = d.closed })
            ]
      ]

  -- What follows the router's answer: `sock` is the descriptor of the client. Where there is no memory,
  -- the assertion that there is a server's descriptor to close fails.
  unfoldable pub answered :
      Connecting → Daemon F → Cnf F → ℕ → SockAddr → Adding → ℕ → Option (Daemon F)
  unfolding new_conn pool_add_conn
  answered Connecting.too_many s cnf sock client adding now = some (record s { closed = sock ∷ [] })
  answered Connecting.host_down s cnf sock client adding now =
      some (record s { closed = sock ∷ [] })
  answered (Connecting.connected i) s cnf sock client adding now = none
  answered (Connecting.in_progress i) s cnf sock client no_memory now = none
  answered (Connecting.in_progress i) s cnf sock client (taken started) now =
      elim (get_elem? s.router.dst i) [
        | none ↦ none
        | some d ↦ pool_add_conn s cnf (new_conn sock client none d.dst.addr false) started now
      ]

  -- One accepted connection.
  unfoldable pub accept : Daemon F → Cnf F → ℕ → SockAddr → World → Adding → ℕ → Option (Daemon F)
  unfolding connect answered
  accept s cnf sock client w adding now =
      let (answer, router) = connect s.router cnf client w in
      answered answer (record s { router = router }) cnf sock client adding now
