-- ===== src/Router/Choose.antt =====
-- src/glb_router.c: the policies, and `router_choose_dst`.
use Prim.Native.Nat.{bit_xor}
use glb.Common.{
  ℕ, zero, suc, ◌+◌, ◌*◌, ◌%◌, ◌^◌, Bool, false, not, ◌&&◌, Option, none, some, List, [], ◌∷◌,
  get_elem?, set, ltb, ◌==◌, if◌then◌else◌,
}
use glb.Double.{Double}
use glb.Cnf.{Cnf, Policy, uses_map}
use glb.Router.State.{
  RouterDst, RouterCtx, Router, n_dst, dst_is_good, top_dst_is_good, router_update_ctx, dst_usage,
}
use glb.Router.Check.{Answer, dst_check}
use glb.Router.Top.{router_redo_top}
use glb.Router.Map.{router_redo_map}

-- What the outside world does during one call: the result of `time (NULL)`, the answers if the
-- destination at an index is checked (a call checks each at most once), and `rand_r`, which returns
-- a number and the new seed.
pub record World : Type 0 where
  pub now : ℕ
  pub asked : ℕ → Answer
  pub rand_r : ℕ → ℕ × ℕ

-- The chosen index, and the router after the call.
abbrev pub Choice : Type 0 → Type 0
Choice F = Option ℕ × Router F

module _ {F : Type 0} where
  unfoldable pub set_dst : Router F → ℕ → RouterDst F → Router F
  set_dst router i d = record router { dst = set router.dst i d }

  -- Checks the destination `d` at index `i`, and returns its index if it passes.
  unfoldable pub check_at : Router F → Cnf F → World → ℕ → RouterDst F → Bool × Router F
  unfolding dst_check set_dst
  check_at router cnf w i d =
      let (passed, d') = dst_check d cnf.extra (w.asked i) in (passed, set_dst router i d')

  unfoldable pub map_due : Router F → Cnf F → Bool
  unfolding uses_map
  map_due router cnf =
      uses_map cnf.policy
      && (not (router.map_failed == 0) && ltb (router.map_failed + router.ctx.retry) router.ctx.now)

  unfoldable pub top_due : Router F → Cnf F → Bool
  top_due router cnf =
      cnf.top
      && (not (router.top_failed == 0) && ltb (router.top_failed + router.ctx.retry) router.ctx.now)

module _ {F : Type 0} ⦃fp : Double F⦄ where
  open fp use {nought, of_ℕ, sub, div, div_prot, lt}

  -- The loop of the policy `least`, with the best destination and the maximal usage so far.
  unfoldable pub least_loop : RouterCtx F → ℕ → List (RouterDst F) → Option ℕ → F → Option ℕ
  unfolding dst_is_good
  least_loop ctx i [] ret max_usage = ret
  least_loop ctx i (d ∷ ds) ret max_usage =
      let better = lt max_usage d.usage && dst_is_good d ctx.min_weight ctx.now ctx.retry in
      least_loop ctx (suc i) ds (if better then some i else ret)
        (if better then d.usage else max_usage)

  unfoldable pub choose_dst_least : Router F → Cnf F → World → Choice F
  unfolding least_loop check_at
  choose_dst_least router cnf w = elim (least_loop router.ctx 0 router.dst none nought) [
    | none ↦ (none, router)
    | some i ↦ elim (get_elem? router.dst i) [
      | none ↦ (none, router)
      | some d ↦
          let (passed, router') = check_at router cnf w i d in
          (if passed then some i else none, router')
    ]
  ]

  -- Tries the destination under the round-robin cursor, and moves the cursor.
  unfoldable pub round_step : Router F → Cnf F → World → RouterDst F → Bool × Router F
  unfolding dst_is_good check_at
  round_step router cnf w d =
      let next = record router { rrb_next = (router.rrb_next + 1) % n_dst router } in
      let ctx = router.ctx in
      if dst_is_good d ctx.min_weight ctx.now ctx.retry
      then check_at next cnf w router.rrb_next d
      else (false, next)

  -- The rounds that are left. The index is in range where the cursor is; a read out of range, which
  -- ends the loop here, does not happen then.
  unfoldable pub round_loop : ℕ → Router F → Cnf F → World → Choice F
  unfolding round_step
  round_loop zero router cnf w = (none, router)
  round_loop (suc k) router cnf w = elim (get_elem? router.dst router.rrb_next) [
    | none ↦ (none, router)
    | some d ↦
        let (passed, router') = round_step router cnf w d in
        let rest = round_loop k router' cnf w in
        if passed then (some router.rrb_next, router') else rest
  ]

  unfoldable pub choose_dst_round : Router F → Cnf F → World → Choice F
  unfolding round_loop
  choose_dst_round router cnf w = round_loop (n_dst router) router cnf w

  unfoldable choose_dst_single : Router F → Choice F
  unfolding top_dst_is_good
  choose_dst_single router = (if top_dst_is_good router then router.top_dst else none, router)

  -- The hint as a number below 1.0.
  unfoldable pub hint_point : ℕ → F
  hint_point hint = sub (div (of_ℕ hint) (of_ℕ 0xffff_ffff)) div_prot

  -- The loop over the map from index `i` on.
  unfoldable pub hint_loop : F → ℕ → List (RouterDst F) → Router F → Cnf F → World → Choice F
  unfolding check_at
  hint_loop m i [] router cnf w = (none, router)
  hint_loop m i (d ∷ ds) router cnf w =
      let (passed, router') = check_at router cnf w i d in
      let rest = hint_loop m (suc i) ds (if lt m d.map then router' else router) cnf w in
      if lt m d.map && passed then (some i, router') else rest

  -- The map is made anew when a failed destination may be back.
  unfoldable pub refresh_map : Router F → Cnf F → Router F
  unfolding router_redo_map map_due
  refresh_map router cnf =
      if map_due router cnf then record (router_redo_map router) { map_failed = 0 } else router

  unfoldable pub choose_dst_hint : Router F → ℕ → Cnf F → World → Choice F
  unfolding refresh_map hint_loop hint_point
  choose_dst_hint router hint cnf w =
      let router' = refresh_map router cnf in
      let found = hint_loop (hint_point hint) 0 router'.dst router' cnf w in
      if n_dst router == 0 then (none, router) else found

  -- The returned number has 31 bits: `ret ^ (ret << 1)`.
  unfoldable pub random_hint : Router F → World → ℕ × Router F
  random_hint router w =
      let (ret, seed) = w.rand_r router.seed in
      (bit_xor ret (ret * 2 % 2 ^ 32), record router { seed = seed })

  unfoldable pub refresh_top : Router F → Cnf F → Router F
  unfolding router_redo_top top_due
  refresh_top router cnf =
      if top_due router cnf then record (router_redo_top router) { top_failed = 0 } else router

  -- One more connection on the chosen destination.
  unfoldable pub count_conn : Choice F → Choice F
  unfolding dst_usage set_dst
  count_conn (none, router) = (none, router)
  count_conn (some i, router) = elim (get_elem? router.dst i) [
    | none ↦ (some i, router)
    | some d ↦
        let d' = record d { conns = d.conns + 1 } in
        (
          some i,
          record (set_dst router i (record d' { usage = dst_usage d' })) {
            conns = router.conns + 1;
          },
        )
  ]

  unfoldable pub choose_by_policy : Policy → Router F → ℕ → Cnf F → World → Choice F
  unfolding choose_dst_least choose_dst_round choose_dst_single choose_dst_hint random_hint
  choose_by_policy Policy.least router hint cnf w = choose_dst_least router cnf w
  choose_by_policy Policy.round router hint cnf w = choose_dst_round router cnf w
  choose_by_policy Policy.single router hint cnf w = choose_dst_single router
  choose_by_policy Policy.random router hint cnf w =
      let (hint', router') = random_hint router w in choose_dst_hint router' hint' cnf w
  choose_by_policy Policy.source router hint cnf w = choose_dst_hint router hint cnf w

  unfoldable pub choose_dst : Router F → ℕ → Cnf F → World → Choice F
  unfolding router_update_ctx refresh_top choose_by_policy count_conn
  choose_dst router hint cnf w =
      let ready = refresh_top (router_update_ctx router cnf w.now) cnf in
      count_conn (choose_by_policy cnf.policy ready hint cnf w)
