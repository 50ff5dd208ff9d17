-- ===== src/Wdog/Keeps.antt =====
-- What a round of the watchdog keeps of the router and of its own list.
use glb.Common.{
  ℕ, zero, suc, inl, inr, Bool, none, some, List, [], ◌∷◌, length, get_elem?, set, Option-cases,
  if_intro, if◌then◌else◌, ◌&&◌, ◌++◌,
}
use glb.Double.{Double}
use glb.Cnf.{Cnf}
use glb.Router.State.{Router}
use glb.Router.Change.{Alloc, Result, ok, err, change_dst}
use glb.Router.Sound.{IsSound}
use glb.Router.ChangeInvariant.{change_dst-IsSound}
use glb.Wdog.State.{WdogDst}
use glb.Wdog.Copy.{copy_results}
use glb.Wdog.Collect.{
  Round, tell_router, apply_weight, is_change, judge, hold, collect_step, collect_loop,
  collect_results,
}

module _ {F : Type 0} ⦃fp : Double F⦄ where
  open fp use {nought}

  abbrev SoundRouter : Round F → Type 0
  SoundRouter s = IsSound s.router

  tell_router-IsSound :
      (s : Round F) (cnf : Cnf F) (p : Bool) (a : Alloc F) (i : ℕ) (d : WdogDst F) (w : F)
      → SoundRouter s
      → SoundRouter (tell_router s cnf p a i d w)
  unfolding tell_router
  tell_router-IsSound s cnf p a i d w h =
      let dst = record d.dst { weight = w } in
      let sound = change_dst-IsSound s.router cnf dst (some d.ctx.id) a h in
      both (change_dst s.router cnf dst (some d.ctx.id) a) sound
    where
      both :
          (o : Result ℕ × Router F)
          → IsSound o.1
          → SoundRouter (elim o.0 [
            | err e ↦ record s { router = o.1; dst = set s.dst i d }
            | ok j ↦ record s {
              router = o.1;
              dst = set s.dst i (record d { weight = w });
              dropped = if fp.lt w nought && p then s.dropped ++ d.dst.addr ∷ [] else s.dropped;
            }
          ])
      both (err e, r) h = h
      both (ok j, r) h = h

  apply_weight-IsSound :
      (s : Round F) (cnf : Cnf F) (p : Bool) (a : Alloc F) (i : ℕ) (d : WdogDst F) (w : F)
      → SoundRouter s
      → SoundRouter (apply_weight s cnf p a i d w)
  unfolding apply_weight
  apply_weight-IsSound s cnf p a i d w h =
      if_intro SoundRouter (is_change d.weight w) _ _ (tell_router-IsSound s cnf p a i d w h) h

  collect_step-IsSound :
      (s : Round F) (cnf : Cnf F) (p : Bool) (lat : F) (a : Alloc F) (i : ℕ)
      → SoundRouter s
      → SoundRouter (collect_step s cnf p lat a i)
  unfolding collect_step judge
  collect_step-IsSound s cnf p lat a i h = elim (Option-cases (get_elem? s.dst i)) [
    | inl e ↦ rw (e, collect_step) h
    | inr (d, e) ↦
        rw (e, collect_step)
          (if_intro SoundRouter d.ctx.join _ _ h (
            if_intro SoundRouter d.result.ready _ _ (apply_weight-IsSound _ cnf p a i d _ h)
              (apply_weight-IsSound s cnf p a i (hold d).1 (hold d).0 h)))
  ]

  collect_loop-IsSound :
      (n : ℕ) (s : Round F) (cnf : Cnf F) (p : Bool) (lat : F) (a : ℕ → Alloc F)
      → SoundRouter s
      → SoundRouter (collect_loop n s cnf p lat a)
  unfolding collect_loop
  collect_loop-IsSound zero s cnf p lat a h = h
  collect_loop-IsSound (suc i) s cnf p lat a h =
      collect_loop-IsSound i (collect_step s cnf p lat (a i) i) cnf p lat a
        (collect_step-IsSound s cnf p lat (a i) i h)

  -- A round of the watchdog, whatever the backend threads report, keeps the router's invariant.
  pub collect_results-IsSound :
      (ds : List (WdogDst F)) (r : Router F) (cnf : Cnf F) (p realloc : Bool) (a : ℕ → Alloc F)
      → IsSound r
      → IsSound (collect_results ds r cnf p realloc a).router
  unfolding collect_results
  collect_results-IsSound ds r cnf p realloc a h =
      let (copied, lat) = copy_results ds nought cnf.lat_factor realloc in
      collect_loop-IsSound (length copied)
        (record { dst = copied; router = r; results = 0; memb_source = none; dropped = [] }) cnf p
        lat a h
