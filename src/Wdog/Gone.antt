-- ===== src/Wdog/Gone.antt =====
-- Destinations whose backend thread has ended: what the round that joins the thread does.
use glb.Common.{
  ℕ, ◌+◌, ◌≡◌, refl, ap, ◌∙◌, Bool, true, false, ◌&&◌, none, some, List, [], ◌∷◌, length, ◌++◌, set,
  if_intro, ltb, if◌then◌else◌,
}
use glb.Double.{Double}
use glb.Cnf.{Cnf}
use glb.Router.State.{Router}
use glb.Router.Check.{DstState}
use glb.Router.Change.{Alloc, Result, ok, err, change_dst}
use glb.Wdog.State.{WdogDst}
use glb.Wdog.Collect.{
  Round, cleanup_at, find_source, apply_weight, tell_router, is_change, result_weight, hold, judge,
  collect_step, collect_loop,
}

module _ {F : Type 0} ⦃fp : Double F⦄ where
  -- Telling the router replaces the entry at most.
  abbrev Replaces : Round F → ℕ → Round F → Type 0
  Replaces s i s' = (d : WdogDst F) × (s'.dst ≡ set s.dst i d) × (s'.memb_source ≡ s.memb_source)

  apply_weight-Replaces :
      (s : Round F) (cnf : Cnf F) (p : Bool) (a : Alloc F) (i : ℕ) (d : WdogDst F) (w : F)
      → Replaces s i (apply_weight s cnf p a i d w)
  unfolding apply_weight tell_router
  apply_weight-Replaces s cnf p a i d w =
      if_intro (Replaces s i) (is_change d.weight w) _ _
        (told (change_dst s.router cnf (record d.dst { weight = w }) (some d.ctx.id) a))
        (d, refl, refl)
    where
      told :
          (o : Result ℕ × Router F)
          → Replaces s i (elim o.0 [
            | err e ↦ record s { router = o.1; dst = set s.dst i d }
            | ok j ↦ record s {
              router = o.1;
              dst = set s.dst i (record d { weight = w });
              dropped = if fp.lt w fp.nought && p then s.dropped ++ d.dst.addr ∷ [] else s.dropped;
            }
          ])
      told (err e, r) = (d, refl, refl)
      told (ok j, r) = (record d { weight = w }, refl, refl)

  -- The loop at its start.
  abbrev pub round_of : List (WdogDst F) → Router F → Round F
  round_of ds r = record { dst = ds; router = r; results = 0; memb_source = none; dropped = [] }

  joined_first :
      (x y d : WdogDst F) (s : Round F) (cnf : Cnf F) (p : Bool) (lat : F) (a : Alloc F)
      → s.dst ≡ x ∷ d ∷ []
      → s.memb_source ≡ some 1
      → x.ctx.join ≡ true
      → let s' = collect_step s cnf p lat a 0 in (s'.memb_source ≡ some 1) × (length s'.dst ≡ 1)
  unfolding collect_step cleanup_at
  joined_first x y d s cnf p lat a e m jx = rw (e, jx) (m, refl)

  judge_source :
      (x y : WdogDst F) (r : Router F) (cnf : Cnf F) (p : Bool) (lat : F) (a : Alloc F)
      (others : List ℕ)
      → cnf.discover ≡ true
      → y.ctx.join ≡ false
      → y.result.ready ≡ true
      → y.result.state ≡ DstState.ready
      → y.result.others ≡ some others
      → let s = collect_step (round_of (x ∷ y ∷ []) r) cnf p lat a 1 in
        (d : WdogDst F) × (s.dst ≡ x ∷ d ∷ []) × (s.memb_source ≡ some 1)
  unfolding collect_step judge find_source
  judge_source x y r cnf p lat a others c jy ry sy oy =
      let found : find_source cnf none 1 y ≡ some 1 = rw (c, sy, oy) refl in
      let s = round_of (x ∷ y ∷ []) r in
      let counted = record s { results = 0 + 1; memb_source = find_source cnf none 1 y } in
      let w = result_weight y lat (ltb 0 cnf.lat_factor) in
      let fresh = apply_weight counted cnf p a 1 y w in
      let stale = apply_weight s cnf p a 1 (hold y).1 (hold y).0 in
      let joined = record s { dst = cleanup_at s.dst 1 } in
      let runs : collect_step s cnf p lat a 1 ≡ fresh =
        ap (λ b. if b then joined else if y.result.ready then fresh else stale) jy
        ∙ ap (λ b. if b then fresh else stale) ry in
      let (d, e, m) = apply_weight-Replaces counted cnf p a 1 y w in
      (
        d,
        ap (λ (q : Round F). q.dst) runs ∙ e,
        ap (λ (q : Round F). q.memb_source) runs ∙ (m ∙ found),
      )

  -- Of two destinations, the thread of the first has ended, and the second goes on and has a fresh
  -- report that it is ready, with members: where members are discovered, the loop takes the index
  -- of the second for the source of the membership, and leaves a list that is too short for it.
  pub memb_source_stale :
      (x y : WdogDst F) (r : Router F) (cnf : Cnf F) (p : Bool) (lat : F) (a : ℕ → Alloc F)
      (others : List ℕ)
      → cnf.discover ≡ true
      → x.ctx.join ≡ true
      → y.ctx.join ≡ false
      → y.result.ready ≡ true
      → y.result.state ≡ DstState.ready
      → y.result.others ≡ some others
      → let s = collect_loop 2 (round_of (x ∷ y ∷ []) r) cnf p lat a in
        (s.memb_source ≡ some 1) × (length s.dst ≡ 1)
  unfolding collect_loop
  memb_source_stale x y r cnf p lat a others c jx jy ry sy oy =
      let (d, e, m) = judge_source x y r cnf p lat (a 1) others c jy ry sy oy in
      joined_first x y d (collect_step (round_of (x ∷ y ∷ []) r) cnf p lat (a 1) 1) cnf p lat (a 0)
        e m jx
