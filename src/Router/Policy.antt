-- ===== src/Router/Policy.antt =====
-- What the choice of a destination by any policy, and the handling of a failed one, keep.
use glb.Common.{ℕ, ◌==◌, ◌≡◌, refl, ap, some, length, get_elem?, arith, if_intro}
use glb.Double.{Double}
use glb.Cnf.{Cnf, Policy, uses_map}
use glb.Router.State.{
  RouterDst, Router, router_retry_interval, top_dst_is_good, router_update_ctx, dst_is_good,
}
use glb.Router.Choose.{
  World, set_dst, choose_dst_hint, hint_point, random_hint, refresh_map, refresh_top,
  choose_by_policy, choose_dst_round, hint_loop,
}
use glb.Router.Disconnect.{is_index, fail_top, fail_map, dst_failed}
use glb.Router.Sound.{HasTop, InRange, Kept, Kept-refl, Kept-trans, Kept-of_cores}
use glb.Router.Keeps.{
  set_dst-Kept, update_ctx-Kept, redo_top-Kept, redo_map-Kept, refresh_map-Kept, refresh_top-Kept,
}
use glb.Router.Chosen.{
  IsChosen, IsChosen-none, IsChosen-trans, choose_least-IsChosen, round_loop-IsChosen,
  hint_loop-IsChosen,
}

module _ {F : Type 0} ⦃fp : Double F⦄ where
  open fp use {eps}

  -- The loop of a hint policy starts with all the router's entries.
  hint_start-IsChosen :
      (m : F) (r : Router F) (cnf : Cnf F) (w : World) → IsChosen r (hint_loop m 0 r.dst r cnf w)
  hint_start-IsChosen m r cnf w =
      hint_loop-IsChosen m 0 r.dst r cnf w (λ j. ap (get_elem? r.dst) (omega arith))

  choose_hint-IsChosen :
      (r : Router F) (hint : ℕ) (cnf : Cnf F) (w : World)
      → IsChosen r (choose_dst_hint r hint cnf w)
  unfolding choose_dst_hint
  choose_hint-IsChosen r hint cnf w =
      if_intro (IsChosen r) (length r.dst == 0) _ _ (IsChosen-none r) (
        IsChosen-trans (refresh_map-Kept r cnf)
          (hint_start-IsChosen (hint_point hint) (refresh_map r cnf) cnf w))

  -- Every policy keeps the router, and returns an index of it or none.
  pub choose_by_policy-IsChosen :
      (p : Policy) (r : Router F) (hint : ℕ) (cnf : Cnf F) (w : World)
      → HasTop r
      → IsChosen r (choose_by_policy p r hint cnf w)
  unfolding choose_by_policy
  choose_by_policy-IsChosen Policy.least r hint cnf w t = choose_least-IsChosen r cnf w
  choose_by_policy-IsChosen Policy.round r hint cnf w t =
      unfold choose_dst_round in round_loop-IsChosen (length r.dst) r cnf w
  choose_by_policy-IsChosen Policy.single r hint cnf w t = record {
    kept = Kept-refl r;
    range = if_intro (λ o. InRange o (length r.dst)) (top_dst_is_good r) _ _ t tt;
  }
  choose_by_policy-IsChosen Policy.random r hint cnf w t =
      IsChosen-trans (Kept-of_cores refl refl refl refl)
        (choose_hint-IsChosen (random_hint r w).1 (random_hint r w).0 cnf w)
  choose_by_policy-IsChosen Policy.source r hint cnf w t = choose_hint-IsChosen r hint cnf w

  -- The context, the top destination and the map are brought up to date first.
  pub refresh-Kept :
      (r : Router F) (cnf : Cnf F) (now : ℕ)
      → Kept r (refresh_top (router_update_ctx r cnf now) cnf)
  refresh-Kept r cnf now =
      Kept-trans (update_ctx-Kept r cnf now) (refresh_top-Kept (router_update_ctx r cnf now) cnf)

  fail_top-Kept : (r : Router F) (i : ℕ) → Kept r (fail_top r i)
  unfolding fail_top
  fail_top-Kept r i =
      let k = redo_top-Kept (record r { ctx = record r.ctx { min_weight = eps } }) in
      if_intro (Kept r) (is_index r.top_dst i) _ _
        (record {
          cores_kept = k.cores_kept;
          conns_kept = k.conns_kept;
          cursor_kept = k.cursor_kept;
          top_kept = k.top_kept;
        })
        (Kept-refl r)

  fail_map-Kept : (r : Router F) (cnf : Cnf F) → Kept r (fail_map r cnf)
  unfolding fail_map
  fail_map-Kept r cnf =
      let k = redo_map-Kept r in
      if_intro (Kept r) (uses_map cnf.policy) _ _ (Kept-of_cores k.cores_kept refl refl refl)
        (Kept-refl r)

  -- A failed destination keeps its connections, and stays in the list.
  pub dst_failed-Kept :
      (r : Router F) (cnf : Cnf F) (now i : ℕ) (d : RouterDst F)
      → get_elem? r.dst i ≡ some d
      → Kept r (dst_failed r cnf now i d)
  unfolding dst_failed
  dst_failed-Kept r cnf now i d h =
      let timed = record r {
        ctx = record r.ctx { now = now; retry = router_retry_interval cnf };
      } in
      let marked = set_dst timed i (record d { failed = now }) in
      let k : Kept r marked =
        Kept-trans (Kept-of_cores {r' = timed} refl refl refl refl)
          (set_dst-Kept timed i d (record d { failed = now }) h refl) in
      if_intro (Kept r) (dst_is_good d timed.ctx.min_weight now timed.ctx.retry) _ _
        (Kept-trans k (Kept-trans (fail_top-Kept marked i) (fail_map-Kept (fail_top marked i) cnf)))
        k
