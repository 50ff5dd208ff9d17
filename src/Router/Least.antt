-- ===== src/Router/Least.antt =====
-- The policy `least`: the available destination with the maximal usage.
use glb.Common.{
  ℕ, suc, ◌+◌, ◌≡◌, refl, ap, subst, ◌∙◌, ◌⊎◌, inl, inr, Bool, true, false, ◌&&◌, Option, none,
  some, List, [], ◌∷◌, get_elem?, All, arith, Bool-cases, false_of,
}
use glb.Double.{Double}
use glb.Cnf.{Cnf}
use glb.Router.State.{RouterDst, RouterCtx, Router, dst_is_good}
use glb.Router.Check.{dst_check}
use glb.Router.Choose.{World, check_at, least_loop, choose_dst_least}

module _ {F : Type 0} ⦃fp : Double F⦄ (ctx : RouterCtx F) where
  open fp use {nought, lt, lt_irrefl, lt_trans}

  abbrev pub good : RouterDst F → Bool
  good d = dst_is_good d ctx.min_weight ctx.now ctx.retry

  abbrev better : RouterDst F → F → Bool
  better d m = lt m d.usage && good d

  -- The choice `ret'` with the usage `m'`, among the entries from index `i` on and the choice `ret`
  -- with the usage `m` from before, is the best: it is the one from before, or a good entry with
  -- more usage, and no good entry has more usage than `m'`.
  abbrev Taken : ℕ → List (RouterDst F) → F → Option ℕ → F → Type 0
  Taken i ds m ret' m' =
      (k : ℕ) × (d : RouterDst F) × (ret' ≡ some (i + k))
      × (get_elem? ds k ≡ some d)
      × (good d ≡ true)
      × (m' ≡ d.usage)
      × (lt m m' ≡ true)

  abbrev Best : ℕ → List (RouterDst F) → Option ℕ → F → Option ℕ → F → Type 0
  Best i ds ret m ret' m' = (((ret' ≡ ret) × (m' ≡ m)) ⊎ Taken i ds m ret' m')

  -- No good entry has more usage than `m`.
  abbrev Tops : F → List (RouterDst F) → Type 0
  Tops m = All λ d. (good d && lt m d.usage) ≡ false

  Best-le :
      (i : ℕ) (ds : List (RouterDst F)) (ret ret' : Option ℕ) (m m' x : F)
      → Best i ds ret m ret' m'
      → lt m x ≡ false
      → lt m' x ≡ false
  Best-le i ds ret ret' m m' x (inl (_, e)) h = rw e h
  Best-le i ds ret ret' m m' x (inr (_, _, _, _, _, _, l)) h =
      false_of _ λ p. cc (h, lt_trans m m' x l p)

  -- The first entry is taken.
  Best-take :
      (x : RouterDst F) (ds : List (RouterDst F)) (i : ℕ) (ret ret' : Option ℕ) (m m' : F)
      → good x ≡ true
      → lt m x.usage ≡ true
      → Best (suc i) ds (some i) x.usage ret' m'
      → Best i (x ∷ ds) ret m ret' m'
  Best-take x ds i ret ret' m m' g l (inl (r, e)) =
      inr (0, x, r ∙ ap some (omega arith), refl, g, e, rw e l)
  Best-take x ds i ret ret' m m' g l (inr (k, d, r, e, gd, u, l')) =
      inr (suc k, d, r ∙ ap some (omega arith), e, gd, u, lt_trans m x.usage m' l l')

  -- The first entry is passed over.
  Best-pass :
      (x : RouterDst F) (ds : List (RouterDst F)) (i : ℕ) (ret ret' : Option ℕ) (m m' : F)
      → Best (suc i) ds ret m ret' m'
      → Best i (x ∷ ds) ret m ret' m'
  Best-pass x ds i ret ret' m m' (inl p) = inl p
  Best-pass x ds i ret ret' m m' (inr (k, d, r, e, gd, u, l)) =
      inr (suc k, d, r ∙ ap some (omega arith), e, gd, u, l)

  and_false : (b c : Bool) → c ≡ false → (b && c) ≡ false
  and_false b c h = ground arith

  worse :
      (x : RouterDst F) (m m' : F)
      → better x m ≡ false
      → (lt m x.usage ≡ false → lt m' x.usage ≡ false)
      → (good x && lt m' x.usage) ≡ false
  worse x m m' e h = elim (Bool-cases (good x)) [
    | inl g ↦
        rw g (h (elim (Bool-cases (lt m x.usage)) [ inl l ↦ cc (rw (l, g) at e) | inr l ↦ l ]))
    | inr g ↦ rw g
  ]

  loop-Best :
      (ds : List (RouterDst F)) (i : ℕ) (ret : Option ℕ) (m : F)
      → (m' : F) × Best i ds ret m (least_loop ctx i ds ret m) m' × Tops m' ds
  unfolding least_loop
  loop-Best [] i ret m = (m, inl (refl, refl), tt)
  loop-Best (x ∷ ds) i ret m = elim (Bool-cases (better x m)) [
    | inl e ↦
        let (m', b, t) = loop-Best ds (suc i) (some i) x.usage in
        rw e (
          m',
          Best-take x ds i ret _ m m' (ground arith) (ground arith) b,
          (
            and_false (good x) _
                (Best-le (suc i) ds (some i) _ x.usage m' x.usage b (lt_irrefl x.usage)),
            t,
          ),
        )
    | inr e ↦
        let (m', b, t) = loop-Best ds (suc i) ret m in
        rw e (
          m',
          Best-pass x ds i ret _ m m' b,
          (worse x m m' e (Best-le (suc i) ds ret _ m m' x.usage b), t),
        )
  ]

  loop-Best_start :
      (ds : List (RouterDst F))
      → let ret = least_loop ctx 0 ds none nought in
        ((ret ≡ none) × Tops nought ds)
        ⊎ ((k : ℕ) × (d : RouterDst F) × (ret ≡ some k)
            × (get_elem? ds k ≡ some d)
            × (good d ≡ true)
            × (lt nought d.usage ≡ true)
            × Tops d.usage ds)
  loop-Best_start ds =
      let (m', b, t) = loop-Best ds 0 none nought in
      elim b [
        | inl (r, e) ↦ inl (r, subst (λ y. Tops y ds) e t)
        | inr (k, d, r, e, g, u, l) ↦ inr (
          k,
          d,
          r ∙ ap some (omega arith),
          e,
          g,
          subst (λ y. lt nought y ≡ true) u l,
          subst (λ y. Tops y ds) u t,
        )
      ]

check_at-unchecked :
    {F : Type 0} (r : Router F) (cnf : Cnf F) (w : World) (i : ℕ) (d : RouterDst F)
    → cnf.extra ≡ 0
    → (check_at r cnf w i d).0 ≡ true
unfolding check_at dst_check
check_at-unchecked r cnf w i d h = rw h

module _ {F : Type 0} ⦃fp : Double F⦄ where
  open fp use {nought, lt}

  -- A good destination with a positive usage that no good destination exceeds, or none where no
  -- good destination has a positive usage.
  abbrev pub LeastBest : Router F → Option ℕ → Type 0
  LeastBest r ret =
      ((ret ≡ none) × Tops r.ctx nought r.dst)
      ⊎ ((k : ℕ) × (d : RouterDst F) × (ret ≡ some k)
          × (get_elem? r.dst k ≡ some d)
          × (good r.ctx d ≡ true)
          × (lt nought d.usage ≡ true)
          × Tops r.ctx d.usage r.dst)

  -- The policy `least`, where no extra checks are made, chooses a good destination with a positive
  -- usage that no good destination exceeds, or none where no good destination has a positive usage.
  pub choose_dst_least_best :
      (r : Router F) (cnf : Cnf F) (w : World)
      → cnf.extra ≡ 0
      → LeastBest r (choose_dst_least r cnf w).0
  unfolding choose_dst_least
  choose_dst_least_best r cnf w h = elim (loop-Best_start r.ctx r.dst) [
    | inl (e, t) ↦ inl (rw (e, choose_dst_least), t)
    | inr (k, d, e, g, b, u, t) ↦
        inr (k, d, rw (e, choose_dst_least, g, check_at-unchecked r cnf w k d h), g, b, u, t)
  ]
