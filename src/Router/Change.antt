-- ===== src/Router/Change.antt =====
-- src/glb_router.c: `glb_router_change_dst`, with the lock held and nobody connecting.
use glb.Common.{
  ℕ, suc, ◌+◌, ◌-◌, ◌%◌, Bool, ◌||◌, Option, none, some, List, [], ◌∷◌, ◌++◌, length, get_elem?,
  set, take, ltb, ◌==◌, if◌then◌else◌,
}
use glb.Double.{Double}
use glb.Dst.{Dst, dst_is_equal}
use glb.Cnf.{Cnf, uses_map}
use glb.Router.State.{RouterDst, Router, n_dst, router_update_ctx, dst_usage}
use glb.Router.Top.{router_redo_top}
use glb.Router.Map.{router_redo_map}
use glb.Router.Choose.{set_dst}

pub data Error : Type 0 where
  enonet enomem : Error

pub data Result (A : Type 0) : Type 0 where
  ok : A → Result A
  err : Error → Result A

-- What a call that adds a destination gets from outside: whether `realloc` succeeds, the contents
-- of the new memory (`map` is left as found there), and the results of `glb_time_now` and `time`.
pub record Alloc (F : Type 0) : Type 0 where
  pub realloc : Bool
  pub found_map : F
  pub now_ns : ℕ
  pub now : ℕ

module _ {F : Type 0} where
  unfoldable pub find_dst : Dst F → ℕ → List (RouterDst F) → Option ℕ
  find_dst dst i [] = none
  find_dst dst i (d ∷ ds) =
      let rest = find_dst dst (suc i) ds in if dst_is_equal d.dst dst then some i else rest

  -- The last entry is copied over entry `i`, and the array is one shorter.
  unfoldable pub remove_at : List (RouterDst F) → ℕ → List (RouterDst F)
  remove_at ds i =
      let last = length ds - 1 in
      take last (
        if ltb (i + 1) (length ds)
        then elim (get_elem? ds last) [ none ↦ ds | some d ↦ set ds i d ]
        else ds)

  -- The connections of the destination leave with it.
  unfoldable pub remove_dst : Router F → ℕ → RouterDst F → Router F
  remove_dst router i d =
      let ds = remove_at router.dst i in
      record router {
        top_dst = none;
        conns = router.conns - d.conns;
        dst = ds;
        rrb_next = if length ds == 0 then 0 else router.rrb_next % length ds;
      }

module _ {F : Type 0} ⦃fp : Double F⦄ where
  open fp use {nought, lt, eq}

  -- The new entry, with its `usage` as for no connections.
  unfoldable pub new_dst : Dst F → Option ℕ → Alloc F → RouterDst F
  unfolding dst_usage
  new_dst dst probe_ctx a =
      let d : RouterDst F = record {
        dst = dst;
        probe_ctx = probe_ctx;
        usage = nought;
        map = a.found_map;
        checked = a.now_ns;
        failed = 0;
        conns = 0;
      } in
      record d { usage = dst_usage d }

  unfoldable pub add_dst : Router F → Dst F → Option ℕ → Alloc F → Router F
  unfolding new_dst
  add_dst router dst probe_ctx a = record router {
    top_dst = none;
    dst = router.dst ++ new_dst dst probe_ctx a ∷ [];
  }

  unfoldable pub update_weight : Router F → ℕ → RouterDst F → F → Router F
  unfolding dst_usage set_dst
  update_weight router i d weight =
      let d' = record d { dst = record d.dst { weight = weight } } in
      set_dst router i (record d' { usage = dst_usage d' })

  -- The context, the top destination and the map after an effective change.
  unfoldable pub settle : Router F → Cnf F → ℕ → Router F
  unfolding router_update_ctx router_redo_top router_redo_map uses_map
  settle router cnf now =
      let fresh = router_update_ctx router cnf now in
      let topped = if cnf.top then router_redo_top fresh else fresh in
      if uses_map cnf.policy then router_redo_map topped else topped

  -- The change of a destination that is at index `i`.
  unfoldable pub change_known :
      Router F → Cnf F → Dst F → Alloc F → ℕ → RouterDst F → Result ℕ × Router F
  unfolding remove_dst update_weight settle
  change_known router cnf dst a i d =
      if lt dst.weight nought
      then (
        if a.realloc || length router.dst == 1 then ok i else err enomem,
        settle (remove_dst router i d) cnf a.now,
      )
      else if eq d.dst.weight dst.weight
      then (ok i, router)
      else (ok i, settle (update_weight router i d dst.weight) cnf a.now)

  unfoldable pub change_unknown :
      Router F → Cnf F → Dst F → Option ℕ → Alloc F → Result ℕ × Router F
  unfolding add_dst settle
  change_unknown router cnf dst probe_ctx a =
      if lt dst.weight nought
      then (err enonet, router)
      else if a.realloc
      then (ok (n_dst router), settle (add_dst router dst probe_ctx a) cnf a.now)
      else (err enomem, settle router cnf a.now)

  unfoldable pub change_dst : Router F → Cnf F → Dst F → Option ℕ → Alloc F → Result ℕ × Router F
  unfolding find_dst remove_at change_known change_unknown
  change_dst router cnf dst probe_ctx a = elim (find_dst dst 0 router.dst) [
    | none ↦ change_unknown router cnf dst probe_ctx a
    | some i ↦ elim (get_elem? router.dst i) [
      | none ↦ (ok i, router)
      | some d ↦ change_known router cnf dst a i d
    ]
  ]
