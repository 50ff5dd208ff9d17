-- ===== src/Router/State.antt =====
-- src/glb_router.c: the state of the router, and the tests on its destinations.
use glb.Common.{
  ℕ, ◌+◌, Bool, false, ◌&&◌, Option, none, some, List, length, get_elem?, ltb, if◌then◌else◌,
}
use glb.Double.{Double}
use glb.Time.{time_approx_seconds}
use glb.Dst.{Dst}
use glb.Cnf.{Cnf}

-- The decision context.
pub record RouterCtx (F : Type 0) : Type 0 where
  pub min_weight : F
  pub retry : ℕ
  pub now : ℕ

-- `probe_ctx` is the backend thread that can be asked about the destination, NULL without watchdog.
pub record RouterDst (F : Type 0) : Type 0 where
  pub dst : Dst F
  pub probe_ctx : Option ℕ
  pub usage : F
  pub map : F
  pub checked : ℕ
  pub failed : ℕ
  pub conns : ℕ

-- `n_dst` is the length of `dst`, and `top_dst` is an index of it.
pub record Router (F : Type 0) : Type 0 where
  pub ctx : RouterCtx F
  pub conns : ℕ
  pub seed : ℕ
  pub rrb_next : ℕ
  pub map_failed : ℕ
  pub top_failed : ℕ
  pub top_dst : Option ℕ
  pub dst : List (RouterDst F)

module _ {F : Type 0} where
  abbrev pub n_dst : Router F → ℕ
  n_dst router = length router.dst

  unfoldable pub router_retry_interval : Cnf F → ℕ
  router_retry_interval cnf = time_approx_seconds cnf.interval + 1

  -- `difftime (now, d->failed) > retry`
  unfoldable pub dst_is_good_base : RouterDst F → ℕ → ℕ → Bool
  dst_is_good_base d now retry = ltb (d.failed + retry) now

module _ {F : Type 0} ⦃fp : Double F⦄ where
  open fp use {nought, one, eps, of_ℕ, add, div, le}

  unfoldable pub dst_is_good : RouterDst F → F → ℕ → ℕ → Bool
  unfolding dst_is_good_base
  dst_is_good d min_weight now retry = le min_weight d.dst.weight && dst_is_good_base d now retry

  -- GLB_DBL_EPSILON as a weight: what is below takes no connections
  unfoldable pub top_dst_is_good : Router F → Bool
  unfolding dst_is_good_base
  top_dst_is_good router = elim router.top_dst [
    | none ↦ false
    | some i ↦ elim (get_elem? router.dst i) [
      | none ↦ false
      | some d ↦ le eps d.dst.weight && dst_is_good_base d router.ctx.now router.ctx.retry
    ]
  ]

  unfoldable router_min_weight : Router F → F
  unfolding top_dst_is_good
  router_min_weight router = elim router.top_dst [
    | none ↦ eps
    | some i ↦ elim (get_elem? router.dst i) [
      | none ↦ eps
      | some d ↦ if top_dst_is_good router then d.dst.weight else eps
    ]
  ]

  -- `now` is what `time (NULL)` returns.
  unfoldable pub router_update_ctx : Router F → Cnf F → ℕ → Router F
  unfolding router_retry_interval router_min_weight
  router_update_ctx router cnf now =
      let timed = record router {
        ctx = record router.ctx { now = now; retry = router_retry_interval cnf };
      } in
      record timed { ctx = record timed.ctx { min_weight = router_min_weight timed } }

  -- what the usage of the destination would be with one more connection
  unfoldable pub dst_usage : RouterDst F → F
  dst_usage d = div d.dst.weight (of_ℕ (d.conns + 1))
