-- ===== src/Router/Map.antt =====
-- src/glb_router.c: the map of hints to destinations, `router_redo_map`.
use glb.Common.{List, [], ◌∷◌, if◌then◌else◌}
use glb.Double.{Double}
use glb.Router.State.{RouterDst, RouterCtx, Router, dst_is_good}

module _ {F : Type 0} ⦃fp : Double F⦄ where
  open fp use {nought, add, div, eq}

  -- Pass 1: the total weight of the available destinations, from `total` on.
  unfoldable pub map_total : RouterCtx F → List (RouterDst F) → F → F
  unfolding dst_is_good
  map_total ctx [] total = total
  map_total ctx (d ∷ ds) total =
      map_total ctx ds
        (if dst_is_good d ctx.min_weight ctx.now ctx.retry then add total d.dst.weight else total)

  -- Pass 1: the weights in the map.
  unfoldable pub map_weights : RouterCtx F → List (RouterDst F) → List (RouterDst F)
  unfolding dst_is_good
  map_weights ctx [] = []
  map_weights ctx (d ∷ ds) =
      record d {
        map = if dst_is_good d ctx.min_weight ctx.now ctx.retry then d.dst.weight else nought;
      }
      ∷ map_weights ctx ds

  -- Pass 2: normalised running sums, from `m` on.
  unfoldable pub map_sums : F → F → List (RouterDst F) → List (RouterDst F)
  map_sums total m [] = []
  map_sums total m (d ∷ ds) =
      let sum = add (div d.map total) m in record d { map = sum } ∷ map_sums total sum ds

  unfoldable pub router_redo_map : Router F → Router F
  unfolding map_total map_weights map_sums
  router_redo_map router =
      let total = map_total router.ctx router.dst nought in
      let weights = map_weights router.ctx router.dst in
      record router { dst = if eq nought total then weights else map_sums total nought weights }
