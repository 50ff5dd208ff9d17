-- ===== src/Router/Hints.antt =====
-- The map of hints to destinations: what a hint is sent to.
use glb.Common.{
  ℕ, suc, ◌+◌, ◌≡◌, refl, ap, ◌∙◌, ◌⊎◌, inl, inr, Bool, true, false, Option, none, some, List, [],
  ◌∷◌, length, get_elem?, arith, Bool-cases, OnSome, if◌then◌else◌, ◌<◌, ◌==◌,
}
use glb.Double.{Double}
use glb.Cnf.{Cnf}
use glb.Router.State.{RouterDst, RouterCtx, Router, dst_is_good}
use glb.Router.Map.{map_total, map_weights, map_sums, router_redo_map}
use glb.Router.Sound.{length-Kept}
use glb.Router.Keeps.{redo_map-Kept}
use native.Mathlib.Decide.{dec_lt}
use glb.Router.Choose.{World, hint_point, hint_loop, map_due, refresh_map, choose_dst_hint}

module _ {F : Type 0} ⦃fp : Double F⦄ where
  open fp use {
    nought, add, div, lt, le, eq, le_of_lt, lt_le_trans, nought-div, lt-nought-add, add_pos,
    nought_refl, eq_refl_nought,
  }

  module _ (ctx : RouterCtx F) where
    abbrev pub good : RouterDst F → Bool
    good d = dst_is_good d ctx.min_weight ctx.now ctx.retry

    good-weight_pos :
        (d : RouterDst F)
        → lt nought ctx.min_weight ≡ true
        → good d ≡ true
        → lt nought d.dst.weight ≡ true
    unfolding dst_is_good
    good-weight_pos d h g = lt_le_trans nought ctx.min_weight d.dst.weight h (ground arith)

    -- The total is what it started with, or positive.
    map_total_pos :
        (ds : List (RouterDst F)) (t : F)
        → lt nought ctx.min_weight ≡ true
        → le nought t ≡ true
        → (map_total ctx ds t ≡ t) ⊎ (lt nought (map_total ctx ds t) ≡ true)
    unfolding map_total
    map_total_pos [] t h l = inl refl
    map_total_pos (d ∷ ds) t h l = elim (Bool-cases (good d)) [
      | inr g ↦ rw g (map_total_pos ds t h l)
      | inl g ↦
          let p = add_pos t d.dst.weight l (good-weight_pos d h g) in
          rw g (elim (map_total_pos ds (add t d.dst.weight) h (le_of_lt nought _ p)) [
            | inl e ↦ inr (rw e p)
            | inr q ↦ inr q
          ])
    ]

    -- Where the total is not 0.0, it is positive.
    pub total_pos :
        (ds : List (RouterDst F))
        → lt nought ctx.min_weight ≡ true
        → eq nought (map_total ctx ds nought) ≡ false
        → lt nought (map_total ctx ds nought) ≡ true
    total_pos ds h e = elim (map_total_pos ds nought h nought_refl) [
      | inl z ↦ cc (eq_refl_nought, e, ap (eq nought) z)
      | inr p ↦ p
    ]

    -- An index whose destination is good.
    abbrev pub GoodAt : ℕ → List (RouterDst F) → Option ℕ → Type 0
    GoodAt i ds =
        OnSome λ j.
          (k : ℕ) × (d : RouterDst F) × (j ≡ i + k) × (get_elem? ds k ≡ some d) × (good d ≡ true)

    GoodAt-cons :
        (i : ℕ) (d : RouterDst F) (ds : List (RouterDst F)) (o : Option ℕ)
        → GoodAt (suc i) ds o
        → GoodAt i (d ∷ ds) o
    GoodAt-cons i d ds none h = tt
    GoodAt-cons i d ds (some j) (k, x, e, g, b) = (suc k, x, omega arith, g, b)

    module _ (h : F) (cnf : Cnf F) (w : World) where
      -- The hint passes over the destinations of weight 0.0 in the map.
      sums_hit :
          (ds : List (RouterDst F)) (t m : F) (i : ℕ) (r : Router F)
          → cnf.extra ≡ 0
          → lt nought t ≡ true
          → lt h m ≡ false
          → GoodAt i ds (hint_loop h i (map_sums t m (map_weights ctx ds)) r cnf w).0
      unfolding map_weights map_sums hint_loop
      sums_hit [] t m i r x p l = tt
      sums_hit (d ∷ ds) t m i r x p l = elim (Bool-cases (good d)) [
        | inr g ↦
            let skip : lt h (add (div nought t) m) ≡ false =
              ap (λ y. lt h (add y m)) (nought-div t p) ∙ lt-nought-add h m ∙ l in
            rw (g, skip) (GoodAt-cons i d ds _ (sums_hit ds t _ (suc i) r x p skip))
        | inl g ↦ elim (Bool-cases (lt h (add (div d.dst.weight t) m))) [
          | inl hit ↦ rw (g, hit, x) (0, d, omega arith, refl, g)
          | inr miss ↦ rw (g, miss) (GoodAt-cons i d ds _ (sums_hit ds t _ (suc i) r x p miss))
        ]
      ]

      -- Where the total is 0.0 the weights are not normalised, and a hit is good too.
      weights_hit :
          (ds : List (RouterDst F)) (i : ℕ) (r : Router F)
          → cnf.extra ≡ 0
          → lt h nought ≡ false
          → GoodAt i ds (hint_loop h i (map_weights ctx ds) r cnf w).0
      unfolding map_weights hint_loop
      weights_hit [] i r x l = tt
      weights_hit (d ∷ ds) i r x l = elim (Bool-cases (good d)) [
        | inr g ↦ rw (g, l) (GoodAt-cons i d ds _ (weights_hit ds (suc i) r x l))
        | inl g ↦ elim (Bool-cases (lt h d.dst.weight)) [
          | inl hit ↦ rw (g, hit, x) (0, d, omega arith, refl, g)
          | inr miss ↦ rw (g, miss) (GoodAt-cons i d ds _ (weights_hit ds (suc i) r x l))
        ]
      ]

  map_due-none : (r : Router F) (cnf : Cnf F) → r.map_failed ≡ 0 → map_due r cnf ≡ false
  unfolding map_due
  map_due-none r cnf h = rw h (ground arith)

  refresh_map-none : (r : Router F) (cnf : Cnf F) → r.map_failed ≡ 0 → refresh_map r cnf ≡ r
  unfolding refresh_map
  refresh_map-none r cnf h =
      ap (λ b. if b then record (router_redo_map r) { map_failed = 0 } else r)
        (map_due-none r cnf h)

  -- With no failure noted, the map is used as it is.
  pub choose_hint-fresh :
      (r : Router F) (hint : ℕ) (cnf : Cnf F) (w : World)
      → r.map_failed ≡ 0
      → 0 < length r.dst
      → choose_dst_hint r hint cnf w ≡ hint_loop (hint_point hint) 0 r.dst r cnf w
  unfolding choose_dst_hint
  choose_hint-fresh r hint cnf w h n =
      let t : (length r.dst == 0) ≡ false = ground arith in
      ap
        (λ b.
          if b
          then (none, r)
          else hint_loop (hint_point hint) 0 (refresh_map r cnf).dst (refresh_map r cnf) cnf w)
        t
      ∙ ap (λ r'. hint_loop (hint_point hint) 0 r'.dst r' cnf w) (refresh_map-none r cnf h)

  choose_hint-empty :
      (r : Router F) (hint : ℕ) (cnf : Cnf F) (w : World)
      → length r.dst ≡ 0
      → choose_dst_hint r hint cnf w ≡ (none, r)
  unfolding choose_dst_hint
  choose_hint-empty r hint cnf w h =
      ap
        (λ b.
          if b
          then (none, r)
          else hint_loop (hint_point hint) 0 (refresh_map r cnf).dst (refresh_map r cnf) cnf w)
        (ap (λ (n : ℕ). n == 0) h)

  length-redo_map : (r : Router F) → length (router_redo_map r).dst ≡ length r.dst
  length-redo_map r = length-Kept (redo_map-Kept r)

  redo_map-GoodAt :
      (r : Router F) (h : F) (cnf : Cnf F) (w : World) (r' : Router F)
      → cnf.extra ≡ 0
      → lt nought r.ctx.min_weight ≡ true
      → lt h nought ≡ false
      → GoodAt r.ctx 0 r.dst (hint_loop h 0 (router_redo_map r).dst r' cnf w).0
  unfolding router_redo_map
  redo_map-GoodAt r h cnf w r' x p l =
      elim (Bool-cases (eq nought (map_total r.ctx r.dst nought))) [
        | inl z ↦ rw z (weights_hit r.ctx h cnf w r.dst 0 r' x l)
        | inr z ↦ rw z (sums_hit r.ctx h cnf w r.dst _ nought 0 r' x (total_pos r.ctx r.dst p z) l)
      ]

  -- On a map just made, where the minimal weight is positive and no extra checks are made, a hint
  -- whose point is not below 0.0 is sent to a destination that was good when the map was made, or
  -- to none.
  pub hint_to_good :
      (r : Router F) (hint : ℕ) (cnf : Cnf F) (w : World)
      → cnf.extra ≡ 0
      → r.map_failed ≡ 0
      → lt nought r.ctx.min_weight ≡ true
      → lt (hint_point hint) nought ≡ false
      → GoodAt r.ctx 0 r.dst (choose_dst_hint (router_redo_map r) hint cnf w).0
  hint_to_good r hint cnf w x f p l = elim (dec_lt 0 (length r.dst)) [
    | yes n ↦
        rw
          (choose_hint-fresh (router_redo_map r) hint cnf w (unfold router_redo_map in f)
            (rw (length-redo_map r) n))
          (redo_map-GoodAt r (hint_point hint) cnf w (router_redo_map r) x p l)
    | no n ↦
        rw (choose_hint-empty (router_redo_map r) hint cnf w (rw (length-redo_map r) (omega arith)))
          tt
  ]
