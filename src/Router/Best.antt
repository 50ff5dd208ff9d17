-- ===== src/Router/Best.antt =====
-- The choices that maximise: the top destination, and the policy `least`.
use glb.Common.{
  ℕ, zero, suc, ◌+◌, ◌≡◌, refl, sym, ap, subst, ◌∙◌, ◌⊎◌, inl, inr, true, false, Option, some, List,
  [], ◌∷◌, get_elem?, arith, Bool-cases, false_of, if◌then◌else◌,
}
use mathlib.Core.Option.{some-injective}
use glb.Double.{Double}
use glb.Router.State.{RouterDst, RouterCtx, Router, dst_is_good, dst_is_good_base}
use glb.Router.Top.{factor, redo_top_loop, router_redo_top}

module _ {F : Type 0} ⦃fp : Double F⦄ where
  open fp use {nought, eps, mul, lt, le, lt_irrefl, le_trans, le_lt_trans, lt_trans, le_of_lt, grow}

  good-weight :
      (d : RouterDst F) (m : F) (now retry : ℕ)
      → dst_is_good d m now retry ≡ true
      → le m d.dst.weight ≡ true
  unfolding dst_is_good
  good-weight d m now retry h = ground arith

  good-base :
      (d : RouterDst F) (m : F) (now retry : ℕ)
      → dst_is_good d m now retry ≡ true
      → dst_is_good_base d now retry ≡ true
  unfolding dst_is_good
  good-base d m now retry h = ground arith

  bad-weight :
      (d : RouterDst F) (m : F) (now retry : ℕ)
      → dst_is_good d m now retry ≡ false
      → dst_is_good_base d now retry ≡ true
      → le m d.dst.weight ≡ false
  unfolding dst_is_good
  bad-weight d m now retry h g = ground arith

  -- The weight that another one has to reach to replace `m`.
  abbrev bar : F → F
  bar m = mul m factor

  -- From `m` to `m'` the minimal weight stays, or reaches the bar of `m`.
  abbrev Rises : F → F → Type 0
  Rises m m' = (m' ≡ m) ⊎ (le (bar m) m' ≡ true)

  Rises-nonneg : (m m' : F) → le nought m ≡ true → Rises m m' → le nought m' ≡ true
  Rises-nonneg m m' h (inl e) = rw e h
  Rises-nonneg m m' h (inr b) =
      le_trans nought (bar m) m' (le_trans nought m (bar m) h (grow m h)) b

  -- What does not pass the bar of `m` does not pass that of `m'`.
  Rises-bar :
      (m m' x : F) → le nought m ≡ true → Rises m m' → lt (bar m) x ≡ false → lt (bar m') x ≡ false
  Rises-bar m m' x h (inl e) k = rw e k
  Rises-bar m m' x h (inr b) k = false_of _ λ p.
      let up = le_trans (bar m) m' (bar m') b (grow m' (Rises-nonneg m m' h (inr b))) in
      cc (k, le_lt_trans (bar m) (bar m') x up p)

  not_above_self : (w : F) → le nought w ≡ true → lt (bar w) w ≡ false
  not_above_self w h = false_of _ λ p. cc (lt_irrefl w, le_lt_trans w (bar w) w (grow w h) p)

  Rises-trans : (a b c : F) → le nought a ≡ true → Rises a b → Rises b c → Rises a c
  Rises-trans a b c h (inl e) k = subst (λ x. Rises x c) e k
  Rises-trans a b c h (inr p) (inl e) = inr (rw e p)
  Rises-trans a b c h (inr p) (inr q) = inr (
      le_trans (bar a) (bar b) c
        (le_trans (bar a) b (bar b) p (grow b (Rises-nonneg a b h (inr p)))) q)

  module _ (ctx : RouterCtx F) where
    -- One round of the loop.
    abbrev next_min : RouterDst F → F → F
    next_min d m = if dst_is_good d (bar m) ctx.now ctx.retry then d.dst.weight else m

    next_min-Rises : (d : RouterDst F) (m : F) → Rises m (next_min d m)
    next_min-Rises d m = elim (Bool-cases (dst_is_good d (bar m) ctx.now ctx.retry)) [
      | inl e ↦ rw e (inr (good-weight d (bar m) ctx.now ctx.retry e))
      | inr e ↦ rw e (inl refl)
    ]

    -- Just after the round in which a destination is looked at, it does not pass the bar.
    first :
        (d : RouterDst F) (m : F)
        → le nought m ≡ true
        → dst_is_good_base d ctx.now ctx.retry ≡ true
        → lt (bar (next_min d m)) d.dst.weight ≡ false
    first d m h g = elim (Bool-cases (dst_is_good d (bar m) ctx.now ctx.retry)) [
      | inl e ↦ rw e (
          not_above_self d.dst.weight (
            le_trans nought (bar m) d.dst.weight (le_trans nought m (bar m) h (grow m h))
              (good-weight d (bar m) ctx.now ctx.retry e)))
      | inr e ↦ rw e (
          false_of _
            λ p. cc (bad-weight d (bar m) ctx.now ctx.retry e g, le_of_lt (bar m) d.dst.weight p))
    ]

    abbrev min_of : ℕ → List (RouterDst F) → Option ℕ → F → F
    min_of i ds top m = (redo_top_loop ctx i ds top m).1

    loop-Rises :
        (ds : List (RouterDst F)) (i : ℕ) (top : Option ℕ) (m : F)
        → le nought m ≡ true
        → Rises m (min_of i ds top m)
    unfolding redo_top_loop
    loop-Rises [] i top m h = inl refl
    loop-Rises (d ∷ ds) i top m h =
        let r = next_min-Rises d m in
        Rises-trans m (next_min d m) _ h r
          (loop-Rises ds (suc i) _ (next_min d m) (Rises-nonneg m _ h r))

    -- An available destination does not pass the bar of what the loop ends with.
    loop_bound :
        (ds : List (RouterDst F)) (i j : ℕ) (top : Option ℕ) (m : F) (d : RouterDst F)
        → le nought m ≡ true
        → get_elem? ds j ≡ some d
        → dst_is_good_base d ctx.now ctx.retry ≡ true
        → lt (bar (min_of i ds top m)) d.dst.weight ≡ false
    unfolding redo_top_loop
    loop_bound [] i j top m d h e g = absurd (ground arith)
    loop_bound (x ∷ ds) i zero top m d h e g =
        let r = next_min-Rises x m in
        let n = Rises-nonneg m _ h r in
        Rises-bar (next_min x m) _ d.dst.weight n (loop-Rises ds (suc i) _ (next_min x m) n) (
          subst (λ y. lt (bar (next_min x m)) y.dst.weight ≡ false) (some-injective x d e)
            (first x m h (
              subst (λ y. dst_is_good_base y ctx.now ctx.retry ≡ true) (sym (some-injective x d e))
                g)))
    loop_bound (x ∷ ds) i (suc j) top m d h e g =
        loop_bound ds (suc i) j _ (next_min x m) d (Rises-nonneg m _ h (next_min-Rises x m)) e g

    -- A top destination and its weight: those of before, or an available destination of `ds`, whose
    -- first index is `i`, and its weight.
    abbrev pub Source : ℕ → List (RouterDst F) → Option ℕ → F → Option ℕ × F → Type 0
    Source i ds top m (top', m') =
        ((top' ≡ top) × (m' ≡ m))
        ⊎ ((k : ℕ) × (d : RouterDst F) × (top' ≡ some (i + k))
            × (get_elem? ds k ≡ some d)
            × (dst_is_good_base d ctx.now ctx.retry ≡ true)
            × (m' ≡ d.dst.weight))

    Source-cons :
        (d : RouterDst F) (ds : List (RouterDst F)) (i : ℕ) (top : Option ℕ) (m : F)
        (out : Option ℕ × F)
        → let good = dst_is_good d (bar m) ctx.now ctx.retry in
          Source (suc i) ds (if good then some i else top) (if good then d.dst.weight else m) out
          → Source i (d ∷ ds) top m out
    Source-cons d ds i top m (top', m') (inr (k, x, t, g, b, w)) =
        inr (suc k, x, t ∙ ap some (omega arith), g, b, w)
    Source-cons d ds i top m (top', m') (inl (t, w)) =
        elim (Bool-cases (dst_is_good d (bar m) ctx.now ctx.retry)) [
          | inl e ↦
              let b = good-base d (bar m) ctx.now ctx.retry e in
              let t' : top' ≡ some i = t ∙ ap (λ c. if c then some i else top) e in
              let w' : m' ≡ d.dst.weight = w ∙ ap (λ c. if c then d.dst.weight else m) e in
              inr (0, d, t' ∙ ap some (omega arith), refl, b, w')
          | inr e ↦ inl (
            t ∙ ap (λ c. if c then some i else top) e,
            w ∙ ap (λ c. if c then d.dst.weight else m) e,
          )
        ]

    loop-Source :
        (ds : List (RouterDst F)) (i : ℕ) (top : Option ℕ) (m : F)
        → Source i ds top m (redo_top_loop ctx i ds top m)
    unfolding redo_top_loop
    loop-Source [] i top m = inl (refl, refl)
    loop-Source (d ∷ ds) i top m = Source-cons d ds i top m _ (loop-Source ds (suc i) _ _)

  -- After `router_redo_top`, from a minimal weight that is not negative, the top destination and the
  -- minimal weight are those of before, or they are an available destination and its weight; and no
  -- available destination exceeds this weight times the tolerance factor.
  pub redo_top_best :
      (r : Router F) (i : ℕ) (d : RouterDst F)
      → le nought r.ctx.min_weight ≡ true
      → get_elem? r.dst i ≡ some d
      → dst_is_good_base d r.ctx.now r.ctx.retry ≡ true
      → Source r.ctx 0 r.dst r.top_dst r.ctx.min_weight
          ((router_redo_top r).top_dst, (router_redo_top r).ctx.min_weight)
        × (lt (mul (router_redo_top r).ctx.min_weight factor) d.dst.weight ≡ false)
  unfolding router_redo_top
  redo_top_best r i d h e g = (
    loop-Source r.ctx r.dst 0 r.top_dst r.ctx.min_weight,
    loop_bound r.ctx r.dst 0 i r.top_dst r.ctx.min_weight d h e g,
  )
