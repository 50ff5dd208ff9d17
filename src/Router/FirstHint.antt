-- ===== src/Router/FirstHint.antt =====
-- The hints whose point is below 0.0 (those up to 4, with the constants of the code), which are sent
-- to the first destination.
use glb.Common.{
  ℕ, ◌<◌, ◌≡◌, ap, ◌∙◌, inl, inr, true, false, Option, some, List, ◌∷◌, length, arith, Bool-cases,
}
use glb.Double.{Double}
use glb.Cnf.{Cnf}
use glb.Router.State.{RouterDst, RouterCtx, Router}
use glb.Router.Map.{map_total, map_weights, map_sums, router_redo_map}
use glb.Router.Choose.{World, hint_point, hint_loop, choose_dst_hint}
use glb.Router.Hints.{good, total_pos, choose_hint-fresh}

module _ {F : Type 0} ⦃fp : Double F⦄ where
  open fp use {nought, add, div, lt, eq, nought-div, lt-nought-add}

  weights-head :
      (ctx : RouterCtx F) (d : RouterDst F) (ds : List (RouterDst F))
      → good ctx d ≡ false
      → map_weights ctx (d ∷ ds) ≡ record d { map = nought } ∷ map_weights ctx ds
  unfolding map_weights
  weights-head ctx d ds g = rw g

  -- A point below 0.0 is below the map of the first destination, good or not.
  redo_map-head :
      (r : Router F) (d : RouterDst F) (ds : List (RouterDst F)) (h : F)
      → r.dst ≡ d ∷ ds
      → good r.ctx d ≡ false
      → lt nought r.ctx.min_weight ≡ true
      → lt h nought ≡ true
      → (d' : RouterDst F) × (ds' : List (RouterDst F)) × ((router_redo_map r).dst ≡ d' ∷ ds')
        × (lt h d'.map ≡ true)
  unfolding router_redo_map map_sums
  redo_map-head r d ds h e g p l =
      let total = map_total r.ctx r.dst nought in
      let w = ap (map_weights r.ctx) e ∙ weights-head r.ctx d ds g in
      elim (Bool-cases (eq nought total)) [
        | inl z ↦ (record d { map = nought }, map_weights r.ctx ds, rw z w, l)
        | inr z ↦ (
          record d { map = add (div nought total) nought },
          map_sums total (add (div nought total) nought) (map_weights r.ctx ds),
          rw z (ap (map_sums total nought) w),
          ap (λ y. lt h (add y nought)) (nought-div total (total_pos r.ctx r.dst p z))
              ∙ lt-nought-add h nought
              ∙ l,
        )
      ]

  hint_loop-head :
      (m : F) (d : RouterDst F) (ds : List (RouterDst F)) (r : Router F) (cnf : Cnf F) (w : World)
      → cnf.extra ≡ 0
      → lt m d.map ≡ true
      → (hint_loop m 0 (d ∷ ds) r cnf w).0 ≡ some 0
  unfolding hint_loop
  hint_loop-head m d ds r cnf w x l = rw (l, x)

  -- A hint whose point is below 0.0 is sent to the first destination also when that one is not
  -- good and the map is just made, where the minimal weight is positive and no extra checks are
  -- made.
  pub hint_to_failed :
      (r : Router F) (hint : ℕ) (cnf : Cnf F) (w : World) (d : RouterDst F)
      (ds : List (RouterDst F))
      → cnf.extra ≡ 0
      → r.map_failed ≡ 0
      → lt nought r.ctx.min_weight ≡ true
      → lt (hint_point hint) nought ≡ true
      → r.dst ≡ d ∷ ds
      → good r.ctx d ≡ false
      → (choose_dst_hint (router_redo_map r) hint cnf w).0 ≡ some 0
  hint_to_failed r hint cnf w d ds x f p l e g =
      let fresh = router_redo_map r in
      let (d', ds', e', m) = redo_map-head r d ds (hint_point hint) e g p l in
      let n : 0 < length fresh.dst = omega (arith, ap length e') in
      ap (λ (c : Option ℕ × Router F). c.0)
        (choose_hint-fresh fresh hint cnf w (unfold router_redo_map in f) n)
      ∙ ap (λ xs. (hint_loop (hint_point hint) 0 xs fresh cnf w).0) e'
      ∙ hint_loop-head (hint_point hint) d' ds' fresh cnf w x m
