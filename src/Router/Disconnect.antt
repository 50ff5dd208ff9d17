-- ===== src/Router/Disconnect.antt =====
-- src/glb_router.c: failed destinations and closed connections, under the lock, as
-- built with assertions. A call that fails one ends the process: `none`.
use glb.Common.{
  ℕ, suc, ◌-◌, Bool, true, false, Option, none, some, List, [], ◌∷◌, get_elem?, ◌==◌, if◌then◌else◌,
}
use glb.Double.{Double}
use glb.SockAddr.{SockAddr, sockaddr_is_equal}
use glb.Cnf.{Cnf, uses_map}
use glb.Router.State.{RouterDst, Router, n_dst, router_retry_interval, dst_is_good, dst_usage}
use glb.Router.Top.{router_redo_top}
use glb.Router.Map.{router_redo_map}
use glb.Router.Choose.{World, Choice, set_dst, choose_dst}

abbrev pub is_index : Option ℕ → ℕ → Bool
is_index none i = false
is_index (some j) i = j == i

module _ {F : Type 0} where
  unfoldable pub find_addr : SockAddr → ℕ → List (RouterDst F) → Option ℕ
  find_addr addr i [] = none
  find_addr addr i (d ∷ ds) =
      let rest = find_addr addr (suc i) ds in
      if sockaddr_is_equal d.dst.addr addr then some i else rest

module _ {F : Type 0} ⦃fp : Double F⦄ where
  open fp use {eps}

  -- The top destination, if it is the one that failed, is chosen anew.
  unfoldable pub fail_top : Router F → ℕ → Router F
  unfolding router_redo_top
  fail_top router i =
      if is_index router.top_dst i
      then record (router_redo_top
          (record router { ctx = record router.ctx { min_weight = eps } })) {
            top_failed = router.ctx.now;
          }
      else router

  unfoldable pub fail_map : Router F → Cnf F → Router F
  unfolding router_redo_map uses_map
  fail_map router cnf =
      if uses_map cnf.policy
      then record (router_redo_map router) { map_failed = router.ctx.now }
      else router

  -- `now` is what `time (NULL)` returns.
  unfoldable pub dst_failed : Router F → Cnf F → ℕ → ℕ → RouterDst F → Router F
  unfolding router_retry_interval dst_is_good fail_top fail_map set_dst
  dst_failed router cnf now i d =
      let timed = record router {
        ctx = record router.ctx { now = now; retry = router_retry_interval cnf };
      } in
      let marked = set_dst timed i (record d { failed = now }) in
      if dst_is_good d timed.ctx.min_weight now timed.ctx.retry
      then fail_map (fail_top marked i) cnf
      else marked

  -- One connection less on the destination at index `i`.
  unfoldable pub drop_conn : Router F → ℕ → RouterDst F → Option (RouterDst F × Router F)
  unfolding dst_usage set_dst
  drop_conn router i d =
      let d' = record d { conns = d.conns - 1 } in
      let d'' = record d' { usage = dst_usage d' } in
      if d.conns == 0
      then none
      else some (d'', record (set_dst router i d'') { conns = router.conns - 1 })

  -- Returns the index of the destination, `n_dst` if there is none.
  unfoldable pub disconnect : Router F → Cnf F → SockAddr → Bool → ℕ → Option (ℕ × Router F)
  unfolding find_addr drop_conn dst_failed
  disconnect router cnf addr failed now = elim (find_addr addr 0 router.dst) [
    | none ↦ some (n_dst router, router)
    | some i ↦ elim (get_elem? router.dst i) [
      | none ↦ some (n_dst router, router)
      | some d ↦ elim (drop_conn router i d) [
        | none ↦ none
        | some (d', router') ↦ some (i, if failed then dst_failed router' cnf now i d' else router')
      ]
    ]
  ]

  -- `none` also where the address is not that of a destination, and where the number of connections
  -- is not what it was, as the two other assertions have it.
  unfoldable pub choose_dst_again : Router F → ℕ → SockAddr → Cnf F → ℕ → World → Option (Choice F)
  unfolding disconnect choose_dst
  choose_dst_again router hint addr cnf now w = elim (disconnect router cnf addr true now) [
    | none ↦ none
    | some (i, router') ↦
        let again = choose_dst router' hint cnf w in
        if i == n_dst router'
        then none
        else if again.1.conns == router.conns
        then some again
        else none
  ]
