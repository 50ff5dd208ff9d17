-- ===== src/Wdog/Collect.antt =====
-- src/glb_wdog.c: one round of the watchdog, `wdog_collect_results`, up to the membership changes.
use glb.Common.{
  ℕ, zero, suc, ◌+◌, ◌-◌, Bool, not, ◌&&◌, ◌||◌, Option, none, some, List, [], ◌∷◌, ◌++◌, length,
  get_elem?, set, take, ltb, if◌then◌else◌,
}
use glb.Double.{Double}
use glb.SockAddr.{SockAddr}
use glb.Cnf.{Cnf}
use glb.Router.State.{Router}
use glb.Router.Check.{DstState, is_none}
use glb.Router.Change.{Alloc, ok, err, change_dst}
use glb.Wdog.State.{WdogDst}
use glb.Wdog.Copy.{copy_results, is_ready}
use glb.Wdog.Change.{minus_one}

-- The state of the loop: the destinations, the router, the results so far, the index of the
-- destination that the membership is taken from (none for -1), and the addresses that the pool was
-- told to drop.
pub record Round (F : Type 0) : Type 0 where
  pub dst : List (WdogDst F)
  pub router : Router F
  pub results : ℕ
  pub memb_source : Option ℕ
  pub dropped : List SockAddr

-- The state lowered to a limit.
abbrev at_most : DstState → DstState → DstState
at_most DstState.avoid DstState.ready = DstState.avoid
at_most DstState.not_ready DstState.ready = DstState.not_ready
at_most DstState.not_ready DstState.avoid = DstState.not_ready
at_most _ s = s

module _ {F : Type 0} where
  -- The thread is joined: the last entry is copied over entry `i`, and the list is one shorter.
  unfoldable pub cleanup_at : List (WdogDst F) → ℕ → List (WdogDst F)
  cleanup_at ds i =
      let n_dst = length ds - 1 in
      take n_dst
        (if ltb i n_dst then elim (get_elem? ds n_dst) [ none ↦ ds | some d ↦ set ds i d ] else ds)

  -- The first entry with a ready result, from the end of the list, is the source.
  unfoldable pub find_source : Cnf F → Option ℕ → ℕ → WdogDst F → Option ℕ
  find_source cnf memb_source i d =
      if cnf.discover
        && (is_none memb_source && (is_ready d.result.state && not (is_none d.result.others)))
      then some i
      else memb_source

module _ {F : Type 0} ⦃fp : Double F⦄ where
  open fp use {nought, one, of_ℕ, add, sub, mul, div, lt, le, eq}

  -- The weight of a fresh result, adjusted by the latency.
  unfoldable pub result_weight : WdogDst F → F → Bool → F
  result_weight d max_lat use_latency = elim d.result.state [
    | DstState.not_found ↦ minus_one
    | DstState.not_ready ↦ minus_one
    | DstState.avoid ↦ nought
    | DstState.ready ↦
        if lt nought max_lat && use_latency
        then div (mul d.dst.weight max_lat) d.result.latency
        else d.dst.weight
  ]

  -- Without a fresh result the destination is put on hold: its new weight, and its state.
  unfoldable pub hold : WdogDst F → F × WdogDst F
  hold d =
      let known = le nought d.weight in
      let limit = (if known then DstState.avoid else DstState.not_ready) in
      (
        if known then nought else d.weight,
        record d { result = record d.result { state = at_most limit d.result.state } },
      )

  -- 10%
  abbrev weight_tolerance : F
  weight_tolerance = div one (of_ℕ 10)

  -- The change is one to tell the router of: not small.
  unfoldable pub is_change : F → F → Bool
  is_change weight new_weight =
      let off = sub (div weight new_weight) one in
      not (eq new_weight weight)
      && (le new_weight nought || (lt weight_tolerance off || lt weight_tolerance (sub nought off)))

  -- The router is told of the new weight, and the pool of a destination that is gone from it.
  unfoldable pub tell_router : Round F → Cnf F → Bool → Alloc F → ℕ → WdogDst F → F → Round F
  unfolding change_dst
  tell_router s cnf has_pool a i d new_weight =
      let (ret, router') =
        change_dst s.router cnf (record d.dst { weight = new_weight }) (some d.ctx.id) a in
      elim ret [
        | err e ↦ record s { router = router'; dst = set s.dst i d }
        | ok j ↦ record s {
          router = router';
          dst = set s.dst i (record d { weight = new_weight });
          dropped =
              if lt new_weight nought && has_pool then s.dropped ++ d.dst.addr ∷ [] else s.dropped;
        }
      ]

  unfoldable pub apply_weight : Round F → Cnf F → Bool → Alloc F → ℕ → WdogDst F → F → Round F
  unfolding is_change tell_router
  apply_weight s cnf has_pool a i d new_weight =
      if is_change d.weight new_weight
      then tell_router s cnf has_pool a i d new_weight
      else record s { dst = set s.dst i d }

  -- One entry whose thread goes on.
  unfoldable pub judge : Round F → Cnf F → Bool → F → Alloc F → ℕ → WdogDst F → Round F
  unfolding result_weight hold find_source apply_weight
  judge s cnf has_pool max_lat a i d =
      let (held, d') = hold d in
      if d.result.ready
      then apply_weight
          (record s { results = s.results + 1; memb_source = find_source cnf s.memb_source i d })
          cnf has_pool a i d (result_weight d max_lat (ltb 0 cnf.lat_factor))
      else apply_weight s cnf has_pool a i d' held

  unfoldable pub collect_step : Round F → Cnf F → Bool → F → Alloc F → ℕ → Round F
  unfolding cleanup_at judge
  collect_step s cnf has_pool max_lat a i = elim (get_elem? s.dst i) [
    | none ↦ s
    | some d ↦
        if d.ctx.join
        then record s { dst = cleanup_at s.dst i }
        else judge s cnf has_pool max_lat a i d
  ]

  -- The indices below `n`, from the last to the first; `a` gives what each change gets from outside.
  unfoldable pub collect_loop : ℕ → Round F → Cnf F → Bool → F → (ℕ → Alloc F) → Round F
  unfolding collect_step
  collect_loop zero s cnf has_pool max_lat a = s
  collect_loop (suc i) s cnf has_pool max_lat a =
      collect_loop i (collect_step s cnf has_pool max_lat (a i) i) cnf has_pool max_lat a

  -- `realloc` tells whether the buffers for the strings of others can grow.
  unfoldable pub collect_results :
      List (WdogDst F) → Router F → Cnf F → Bool → Bool → (ℕ → Alloc F) → Round F
  unfolding copy_results collect_loop
  collect_results ds router cnf has_pool realloc a =
      let (copied, max_lat) = copy_results ds nought cnf.lat_factor realloc in
      collect_loop (length copied)
        (record { dst = copied; router = router; results = 0; memb_source = none; dropped = [] })
        cnf has_pool max_lat a
