-- ===== src/Listener/Balance.antt =====
-- The router counts the connections that the pool threads have.
use glb.Common.{
  ℕ, zero, suc, ◌+◌, ◌≡◌, refl, sym, ap, ◌∙◌, subst, ◌⊎◌, inl, inr, Bool, true, false, Option, none,
  some, List, [], ◌∷◌, get_elem?, set, arith, OnSome, OnSome-some, Bool-cases, option_split,
  option_at_some, if_at_true, if_at_false, if_intro, if◌then◌else◌,
}
use glb.Double.{Double}
use glb.SockAddr.{SockAddr, sockaddr_is_equal, sockaddr_is_equal_iff}
use glb.Cnf.{Cnf}
use glb.Router.State.{Router, RouterDst}
use glb.Router.Choose.{World}
use glb.Router.Disconnect.{find_addr, drop_conn, dst_failed, disconnect}
use glb.Router.Connect.{
  Connecting, connect, Requested, connect-Requested, connect-IsSound, Known, connect-Known,
}
use glb.Router.Sound.{IsSound}
use glb.Router.Policy.{dst_failed-Kept}
use glb.Router.Again.{drop_conn-Left}
use glb.Pool.Conns.{Pool, Done, new_conn, handle_add_conn, register, fds_add}
use glb.Pool.Threads.{get_pool}
use glb.Pool.Balance.{get_pool-IsLeast}
use glb.Listener.{
  Daemon, pools, Adding, no_memory, taken, put_pool, notify_router, pool_add_conn, answered, accept,
}

abbrev pub total : List Pool → ℕ
total [] = 0
total (p ∷ ps) = p.n_conns + total ps

-- As many connections in the router as in the pool threads.
abbrev pub Balanced : {F : Type 0} → Daemon F → Type 0
Balanced s = s.router.conns ≡ total (pools s)

total-set :
    (ps : List Pool) (k : ℕ) (p q : Pool)
    → get_elem? ps k ≡ some p
    → total (set ps k q) + p.n_conns ≡ total ps + q.n_conns
total-set [] k p q h = cc
total-set (x ∷ ps) zero p q h =
    let e : x.n_conns ≡ p.n_conns =
      ap (λ (o : Option Pool). elim o as (λ _. ℕ) [ none ↦ 0 | some y ↦ y.n_conns ]) h in
    omega (arith, e)
total-set (x ∷ ps) (suc k) p q h = omega (arith, total-set ps k p q h)

pools-put :
    {F : Type 0} (s : Daemon F) (k : ℕ) (p : Pool)
    → (pools (put_pool s k p) ≡ set (pools s) k p) × ((put_pool s k p).router ≡ s.router)
unfolding put_pool
pools-put s zero p = (refl, refl)
pools-put s (suc k) p = (refl, refl)

-- The thread has one connection more, or the router is told of the one that failed.
Added : SockAddr → Pool → Done → Type 0
Added addr p d =
    ((d.disconnected ≡ []) × (d.pool.n_conns ≡ p.n_conns + 1))
    ⊎ ((d.disconnected ≡ (addr, true) ∷ []) × (d.pool.n_conns ≡ p.n_conns))

handle_add_conn-Added :
    (p : Pool) (sock : ℕ) (client server : SockAddr) (started : Option ℕ)
    → Added server p (handle_add_conn p (new_conn sock client none server false) started)
unfolding Added handle_add_conn new_conn register fds_add
handle_add_conn-Added p sock client server none = inr (refl, refl)
handle_add_conn-Added p sock client server (some s) = inl (refl, refl)

module _ {F : Type 0} where
  -- The index that an address has in the list, from `k` on.
  abbrev HasIndex : ℕ → List (RouterDst F) → Option ℕ → Type 0
  HasIndex k ds none = Unit
  HasIndex k ds (some i) = (j : ℕ) × (d : RouterDst F) × (i ≡ k + j) × (get_elem? ds j ≡ some d)

  find_addr-HasIndex :
      (a : SockAddr) (k : ℕ) (ds : List (RouterDst F)) → HasIndex k ds (find_addr a k ds)
  unfolding find_addr
  find_addr-HasIndex a k [] = tt
  find_addr-HasIndex a k (d ∷ ds) =
      if_intro (HasIndex k (d ∷ ds)) (sockaddr_is_equal d.dst.addr a) _ _ (0, d, omega arith, refl)
        (later (find_addr a (suc k) ds) (find_addr-HasIndex a (suc k) ds))
    where
      later : (o : Option ℕ) → HasIndex (suc k) ds o → HasIndex k (d ∷ ds) o
      later none h = tt
      later (some i) (j, e, p, g) = (suc j, e, omega (arith, p), g)

  -- The address of an entry is found.
  find_addr-present :
      (ds : List (RouterDst F)) (k i : ℕ) (d : RouterDst F)
      → get_elem? ds i ≡ some d
      → (j : ℕ) × (find_addr d.dst.addr k ds ≡ some j)
  unfolding find_addr
  find_addr-present [] k i d h = cc
  find_addr-present (x ∷ ds) k zero d h =
      let e : x.dst.addr ≡ d.dst.addr =
        ap
          (λ (o : Option (RouterDst F)). elim o as (λ _. SockAddr) [
            | none ↦ d.dst.addr
            | some y ↦ y.dst.addr
          ])
          h in
      (k, if_at_true _ _ ((sockaddr_is_equal_iff x.dst.addr d.dst.addr).1 e))
  find_addr-present (x ∷ ds) k (suc i) d h =
      let (j, e) = find_addr-present ds (suc k) i d h in
      elim (Bool-cases (sockaddr_is_equal x.dst.addr d.dst.addr)) [
        | inl t ↦ (k, if_at_true _ _ t)
        | inr f ↦ (j, if_at_false _ _ f ∙ e)
      ]

module _ {F : Type 0} ⦃fp : Double F⦄ where
  -- Telling the router of a connection to one of its destinations takes the connection off.
  disconnect_known :
      (r : Router F) (cnf : Cnf F) (d : RouterDst F) (i : ℕ) (failed : Bool) (now : ℕ)
      → get_elem? r.dst i ≡ some d
      → IsSound r
      → OnSome
          (λ (p : ℕ × Router F). p.1.conns + 1 ≡ r.conns)
          (disconnect r cnf d.dst.addr failed now)
  unfolding disconnect
  disconnect_known r cnf d i failed now g s =
      let (j, e) = find_addr-present r.dst 0 i d g in
      let (k, x, p, h) = subst (HasIndex 0 r.dst) e (find_addr-HasIndex d.dst.addr 0 r.dst) in
      let same : k ≡ j = omega (arith, p) in
      let h' : get_elem? r.dst j ≡ some x = ap (get_elem? r.dst) (sym same) ∙ h in
      rw (e, disconnect, h')
        (taken_off j (drop_conn r j x) (drop_conn-Left r cnf failed now j x h' s))
    where
      taken_off :
          (i : ℕ) (o : Option (RouterDst F × Router F))
          → OnSome
              (λ (p : RouterDst F × Router F).
                (p.1.conns + 1 ≡ r.conns) × (get_elem? p.1.dst i ≡ some p.0))
              o
          → OnSome
              (λ (p : ℕ × Router F). p.1.conns + 1 ≡ r.conns)
              (elim o as (λ _. Option (ℕ × Router F)) [
                | none ↦ none
                | some (d', r') ↦ some (i, if failed then dst_failed r' cnf now i d' else r')
              ])
      taken_off i none h = tt
      taken_off i (some (d', r')) h =
          if_intro (λ (q : Router F). q.conns + 1 ≡ r.conns) failed _ _
            (ap (λ n. n + 1) (dst_failed-Kept r' cnf now i d' h.1).conns_kept ∙ h.0) h.0

  notify-conns :
      (r : Router F) (cnf : Cnf F) (d : RouterDst F) (i now : ℕ) (p : Pool) (done : Done)
      → get_elem? r.dst i ≡ some d
      → IsSound r
      → Added d.dst.addr p done
      → OnSome
          (λ (r' : Router F). r'.conns + p.n_conns + 1 ≡ r.conns + done.pool.n_conns)
          (notify_router r cnf done.disconnected now)
  unfolding Added notify_router
  notify-conns r cnf d i now p done g s (inl (e, n)) = rw e (omega (arith, n))
  notify-conns r cnf d i now p done g s (inr (e, n)) =
      let P = λ (r' : Router F). r'.conns + p.n_conns + 1 ≡ r.conns + done.pool.n_conns in
      rw e (
        option_split (OnSome P) (disconnect r cnf d.dst.addr true now) _ _ (λ _. tt)
          (λ q f.
            let c : q.1.conns + 1 ≡ r.conns =
              OnSome-some (λ (p : ℕ × Router F). p.1.conns + 1 ≡ r.conns)
                (disconnect_known r cnf d i true now g s) f in
            omega (arith, c, n)))

  add_conn-Balanced :
      (s : Daemon F) (cnf : Cnf F) (d : RouterDst F) (i sock : ℕ) (client : SockAddr)
      (started : Option ℕ) (now : ℕ)
      → get_elem? s.router.dst i ≡ some d
      → IsSound s.router
      → s.router.conns ≡ total (pools s) + 1
      → OnSome
          (λ (s' : Daemon F). Balanced s')
          (pool_add_conn s cnf (new_conn sock client none d.dst.addr false) started now)
  unfolding pool_add_conn
  add_conn-Balanced s cnf d i sock client started now g sound n =
      let k : ℕ = get_pool s.first s.others in
      let OnDaemon = OnSome (λ (s' : Daemon F). Balanced s') in
      option_split OnDaemon (get_elem? (pools s) k) _ _ (λ _. tt)
        (λ p e.
          let done : Done =
            handle_add_conn p (new_conn sock client none d.dst.addr false) started in
          option_split OnDaemon (notify_router s.router cnf done.disconnected now) _ _ (λ _. tt)
            (λ r f.
              let c : r.conns + p.n_conns + 1 ≡ s.router.conns + done.pool.n_conns =
                OnSome-some
                  (λ (r' : Router F). r'.conns + p.n_conns + 1 ≡ s.router.conns + done.pool.n_conns)
                  (notify-conns s.router cnf d i now p done g sound
                    (handle_add_conn-Added p sock client d.dst.addr started))
                  f in
              let put : total (pools (put_pool s k done.pool)) ≡ total (set (pools s) k done.pool) =
                ap total (pools-put s k done.pool).0 in
              omega (arith, c, n, put, total-set (pools s) k p done.pool e)))

  answered-Balanced :
      (answer : Connecting) (r : Router F) (s : Daemon F) (cnf : Cnf F) (sock : ℕ)
      (client : SockAddr) (adding : Adding) (now : ℕ)
      → IsSound s.router
      → Requested r (answer, s.router)
      → r.conns ≡ total (pools s)
      → OnSome (λ (s' : Daemon F). Balanced s') (answered answer s cnf sock client adding now)
  unfolding answered
  answered-Balanced Connecting.too_many r s cnf sock client adding now sound q b = q ∙ b
  answered-Balanced Connecting.host_down r s cnf sock client adding now sound q b = q ∙ b
  answered-Balanced (Connecting.connected i) r s cnf sock client adding now sound q b = tt
  answered-Balanced (Connecting.in_progress i) r s cnf sock client no_memory now sound q b = tt
  answered-Balanced (Connecting.in_progress i) r s cnf sock client (taken started) now sound q b =
      option_split (OnSome (λ (s' : Daemon F). Balanced s')) (get_elem? s.router.dst i) _ _
        (λ _. tt)
        (λ d g. add_conn-Balanced s cnf d i sock client started now g sound (omega (arith, q, b)))

  accept-Balanced :
      (s : Daemon F) (cnf : Cnf F) (sock : ℕ) (client : SockAddr) (w : World) (adding : Adding)
      (now : ℕ)
      → IsSound s.router
      → Balanced s
      → OnSome (λ (s' : Daemon F). Balanced s') (accept s cnf sock client w adding now)
  unfolding accept
  accept-Balanced s cnf sock client w adding now sound b =
      let r : Router F = (connect s.router cnf client w).1 in
      answered-Balanced (connect s.router cnf client w).0 s.router (record s { router = r }) cnf
        sock client adding now (connect-IsSound s.router cnf client w sound)
        (connect-Requested s.router cnf client w sound) b

  answered_returns :
      (answer : Connecting) (r : Router F) (s : Daemon F) (cnf : Cnf F) (sock : ℕ)
      (client : SockAddr) (fd now : ℕ)
      → Requested r (answer, s.router)
      → Known (answer, s.router)
      → (s' : Daemon F) × (answered answer s cnf sock client (taken (some fd)) now ≡ some s')
  unfolding answered pool_add_conn handle_add_conn new_conn notify_router
  answered_returns Connecting.too_many r s cnf sock client fd now q k = (_, refl)
  answered_returns Connecting.host_down r s cnf sock client fd now q k = (_, refl)
  answered_returns (Connecting.connected i) r s cnf sock client fd now q k = absurd q
  answered_returns (Connecting.in_progress i) r s cnf sock client fd now q (d, g) =
      let (p, e, least) = get_pool-IsLeast s.first s.others in
      (_, option_at_some _ _ g ∙ option_at_some _ _ e)

  accept_returns :
      (s : Daemon F) (cnf : Cnf F) (sock : ℕ) (client : SockAddr) (w : World) (fd now : ℕ)
      → IsSound s.router
      → (s' : Daemon F) × (accept s cnf sock client w (taken (some fd)) now ≡ some s')
  unfolding accept
  accept_returns s cnf sock client w fd now sound =
      let r : Router F = (connect s.router cnf client w).1 in
      answered_returns (connect s.router cnf client w).0 s.router (record s { router = r }) cnf sock
        client fd now (connect-Requested s.router cnf client w sound)
        (connect-Known s.router cnf client w sound)

  -- Accepting a connection keeps the router's count the sum of the counts of the pool threads, for a
  -- sound router: on every outcome where the call comes back, be it the limit, no destination, a
  -- connection begun, or one that fails at once; and it comes back where there is memory and the pool
  -- thread can begin to connect, whatever the router answers.
  pub accept_keeps :
      (s : Daemon F) (cnf : Cnf F) (sock : ℕ) (client : SockAddr) (w : World) (now : ℕ)
      → IsSound s.router
      → Balanced s
      → ((adding : Adding)
          → OnSome (λ (s' : Daemon F). Balanced s') (accept s cnf sock client w adding now))
        × ((fd : ℕ)
            → (s' : Daemon F) × (accept s cnf sock client w (taken (some fd)) now ≡ some s'))
  accept_keeps s cnf sock client w now sound b = (
    λ adding. accept-Balanced s cnf sock client w adding now sound b,
    λ fd. accept_returns s cnf sock client w fd now sound,
  )
