-- ===== src/Router/Top.antt =====
-- src/glb_router.c: the destination with the top weight, `router_redo_top`.
use glb.Common.{ℕ, suc, Option, some, List, [], ◌∷◌, if◌then◌else◌}
use glb.Double.{Double}
use glb.Router.State.{RouterDst, RouterCtx, Router, dst_is_good}

module _ {F : Type 0} ⦃fp : Double F⦄ where
  open fp use {one, eps, add, mul}

  abbrev pub factor : F
  factor = add one eps

  -- The loop from index `i` on, with the top destination and the minimal weight so far.
  unfoldable pub redo_top_loop : RouterCtx F → ℕ → List (RouterDst F) → Option ℕ → F → Option ℕ × F
  unfolding dst_is_good
  redo_top_loop ctx i [] top min_weight = (top, min_weight)
  redo_top_loop ctx i (d ∷ ds) top min_weight =
      let good = dst_is_good d (mul min_weight factor) ctx.now ctx.retry in
      redo_top_loop ctx (suc i) ds (if good then some i else top)
        (if good then d.dst.weight else min_weight)

  unfoldable pub router_redo_top : Router F → Router F
  unfolding redo_top_loop
  router_redo_top router =
      let (top, min_weight) =
        redo_top_loop router.ctx 0 router.dst router.top_dst router.ctx.min_weight in
      record router { top_dst = top; ctx = record router.ctx { min_weight = min_weight } }
