-- ===== src/Router/Connect.antt =====
-- src/glb_router.c: `glb_router_connect`, and the loop of a synchronous connection, `router_connect_dst`.
use glb.Common.{
  ℕ, ◌+◌, ◌≤◌, ◌<◌, ◌≡◌, ◌⊎◌, refl, inl, inr, Bool, true, false, Option, none, some, List, [], ◌∷◌,
  get_elem?, leb, arith, if_split, if_intro, if◌then◌else◌,
}
use glb.Double.{Double}
use glb.SockAddr.{SockAddr, sockaddr_hash}
use glb.Cnf.{Cnf, Policy}
use glb.Router.State.{RouterDst, Router}
use glb.Router.Choose.{World, choose_dst}
use glb.Router.Disconnect.{drop_conn, dst_failed}
use glb.Router.Sound.{IsSound}
use glb.Router.Invariant.{choose_dst-IsSound}
use glb.Router.Again.{Present, choose_dst-Counted, choose_dst-Present}

-- The outcome of a request: the limit is reached, no destination is available, the connection is to
-- be made by the pool, or it is made (or in progress) on the socket.
pub data Connecting : Type 0 where
  too_many : Connecting
  host_down : Connecting
  in_progress : ℕ → Connecting
  connected : ℕ → Connecting

-- One attempt to connect: the world while a destination is chosen, whether `connect` succeeds (or is
-- in progress), and the time after it.
pub record Attempt : Type 0 where
  pub world : World
  pub connects : Bool
  pub later : ℕ

module _ {F : Type 0} where
  -- The source of a request counts for the policy `source` only.
  unfoldable pub hint_of : Cnf F → SockAddr → ℕ
  hint_of cnf src = elim cnf.policy [ Policy.source ↦ sockaddr_hash src | _ ↦ 0 ]

module _ {F : Type 0} ⦃fp : Double F⦄ where
  -- The attempt on the chosen destination failed: the connection is not counted any more, and the
  -- destination has failed.
  unfoldable pub connect_failed : Router F → Cnf F → ℕ → ℕ → Option (Router F)
  unfolding drop_conn dst_failed
  connect_failed router cnf now i = elim (get_elem? router.dst i) [
    | none ↦ none
    | some d ↦ elim (drop_conn router i d) [
      | none ↦ none
      | some (d', router') ↦ some (dst_failed router' cnf now i d')
    ]
  ]

  -- Attempts are made until one succeeds or no destination is left: `none` where the attempts of the
  -- list do not decide it, or where an assertion fails.
  unfoldable pub connect_dst : List Attempt → Router F → Cnf F → ℕ → Option (Connecting × Router F)
  unfolding choose_dst connect_failed
  connect_dst [] router cnf hint = none
  connect_dst (a ∷ rest) router cnf hint =
      let (chosen, router') = choose_dst router hint cnf a.world in
      elim chosen [
        | none ↦ some (Connecting.host_down, router')
        | some i ↦ elim a.connects [
          | true ↦ some (Connecting.connected i, router')
          | false ↦ elim (connect_failed router' cnf a.later i) [
            | none ↦ none
            | some router'' ↦ connect_dst rest router'' cnf hint
          ]
        ]
      ]

  -- A destination is only chosen: the pool connects to it.
  unfoldable pub connect_async : Router F → Cnf F → ℕ → World → Connecting × Router F
  unfolding choose_dst
  connect_async router cnf hint w =
      let (chosen, router') = choose_dst router hint cnf w in
      (elim chosen [ none ↦ Connecting.host_down | some i ↦ Connecting.in_progress i ], router')

  -- `glb_router_connect` where `synchronous` is not set.
  unfoldable pub connect : Router F → Cnf F → SockAddr → World → Connecting × Router F
  unfolding connect_async hint_of
  connect router cnf src w =
      if leb cnf.max_conn router.conns
      then (Connecting.too_many, router)
      else connect_async router cnf (hint_of cnf src) w

  connect_async-bound :
      (r : Router F) (cnf : Cnf F) (hint : ℕ) (w : World)
      → IsSound r
      → r.conns < cnf.max_conn
      → (connect_async r cnf hint w).1.conns ≤ cnf.max_conn
  unfolding connect_async
  connect_async-bound r cnf hint w s h = elim (choose_dst-Counted r hint cnf w s) [
    | inl (e, n) ↦ omega arith
    | inr (i, (e, n)) ↦ omega arith
  ]

  -- A request that is not synchronous keeps the invariant of the router, and the connections do
  -- not exceed `max_conn` after it if they did not before.
  pub connect-bound :
      (r : Router F) (cnf : Cnf F) (src : SockAddr) (w : World)
      → IsSound r
      → r.conns ≤ cnf.max_conn
      → IsSound (connect r cnf src w).1 × ((connect r cnf src w).1.conns ≤ cnf.max_conn)
  unfolding connect connect_async
  connect-bound r cnf src w s h =
      if_split (λ (c : Connecting × Router F). IsSound c.1 × (c.1.conns ≤ cnf.max_conn))
        (leb cnf.max_conn r.conns) _ _ (λ _. (s, h))
        (λ e. (
          choose_dst-IsSound r (hint_of cnf src) cnf w s,
          connect_async-bound r cnf (hint_of cnf src) w s (ground arith),
        ))

  -- What a request that is not synchronous leaves: one connection more if a destination is chosen, and
  -- none if not.
  abbrev pub Requested : Router F → Connecting × Router F → Type 0
  Requested r (Connecting.too_many, r') = r'.conns ≡ r.conns
  Requested r (Connecting.host_down, r') = r'.conns ≡ r.conns
  Requested r (Connecting.in_progress i, r') = r'.conns ≡ r.conns + 1
  Requested r (Connecting.connected i, r') = ⊥

  pub connect-Requested :
      (r : Router F) (cnf : Cnf F) (src : SockAddr) (w : World)
      → IsSound r
      → Requested r (connect r cnf src w)
  unfolding connect connect_async
  connect-Requested r cnf src w s = if_intro (Requested r) (leb cnf.max_conn r.conns) _ _ refl (
      counted (choose_dst r (hint_of cnf src) cnf w)
        (choose_dst-Counted r (hint_of cnf src) cnf w s))
    where
      counted :
          (c : Option ℕ × Router F)
          → ((c.0 ≡ none) × (c.1.conns ≡ r.conns))
            ⊎ ((i : ℕ) × ((c.0 ≡ some i) × (c.1.conns ≡ r.conns + 1)))
          → Requested r (
            elim c.0 as (λ _. Connecting) [
              | none ↦ Connecting.host_down
              | some i ↦ Connecting.in_progress i
            ],
            c.1,
          )
      counted (none, r') (inl (e, n)) = n
      counted (none, r') (inr (i, (e, n))) = cc
      counted (some j, r') (inl (e, n)) = cc
      counted (some j, r') (inr (i, (e, n))) = n

  pub connect-IsSound :
      (r : Router F) (cnf : Cnf F) (src : SockAddr) (w : World)
      → IsSound r
      → IsSound (connect r cnf src w).1
  unfolding connect connect_async
  connect-IsSound r cnf src w s =
      if_intro (λ (c : Connecting × Router F). IsSound c.1) (leb cnf.max_conn r.conns) _ _ s
        (choose_dst-IsSound r (hint_of cnf src) cnf w s)

  -- A destination that the pool is to connect to is one of the router's.
  abbrev pub Known : Connecting × Router F → Type 0
  Known (Connecting.in_progress i, r) = (d : RouterDst F) × (get_elem? r.dst i ≡ some d)
  Known (c, r) = Unit

  pub connect-Known :
      (r : Router F) (cnf : Cnf F) (src : SockAddr) (w : World)
      → IsSound r
      → Known (connect r cnf src w)
  unfolding connect connect_async
  connect-Known r cnf src w s = if_intro Known (leb cnf.max_conn r.conns) _ _ tt (
      known (choose_dst r (hint_of cnf src) cnf w) (choose_dst-Present r (hint_of cnf src) cnf w s))
    where
      known :
          (c : Option ℕ × Router F)
          → Present c
          → Known (
            elim c.0 as (λ _. Connecting) [
              | none ↦ Connecting.host_down
              | some i ↦ Connecting.in_progress i
            ],
            c.1,
          )
      known (none, r') p = tt
      known (some i, r') p = p
