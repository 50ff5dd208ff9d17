-- ===== src/Router/Chosen.antt =====
-- What every policy keeps, and the range of the index that it returns.
use glb.Common.{
  ℕ, zero, suc, ◌+◌, ◌%◌, ◌≤◌, ◌≡◌, refl, sym, ap, ◌∙◌, Bool, ◌&&◌, Option, none, some, List, [],
  ◌∷◌, length, get_elem?, get_elem?-lt, get_elem?-set_ne, arith, inl, inr, if◌then◌else◌,
  Option-cases, if_intro,
}
use glb.Double.{Double}
use glb.Cnf.{Cnf}
use glb.Router.State.{RouterDst, RouterCtx, Router, dst_is_good}
use glb.Router.Choose.{
  World, Choice, check_at, least_loop, choose_dst_least, round_step, round_loop, hint_loop,
}
use glb.Router.Sound.{InRange, Kept, Kept-refl, Kept-trans, length-Kept}
use glb.Router.Keeps.{check_at-Kept}

module _ {F : Type 0} where
  -- The call kept the router, and its index is one of the router's.
  pub record IsChosen (r : Router F) (c : Choice F) : Type 0 where
    pub kept : Kept r c.1
    pub range : InRange c.0 (length r.dst)

  pub IsChosen-none : (r : Router F) → IsChosen r (none, r)
  IsChosen-none r = record { kept = Kept-refl r; range = tt }

  pub IsChosen-trans : {r s : Router F} {c : Choice F} → Kept r s → IsChosen s c → IsChosen r c
  IsChosen-trans {r} {s} {c} k h = record {
    kept = Kept-trans k h.kept;
    range = rw (← length-Kept k) h.range;
  }

module _ {F : Type 0} ⦃fp : Double F⦄ where
  open fp use {nought, lt}

  least_loop-InRange :
      (ctx : RouterCtx F) (i n : ℕ) (ds : List (RouterDst F)) (ret : Option ℕ) (m : F)
      → i + length ds ≤ n
      → InRange ret n
      → InRange (least_loop ctx i ds ret m) n
  unfolding least_loop
  least_loop-InRange ctx i n [] ret m h t = t
  least_loop-InRange ctx i n (d ∷ ds) ret m h t =
      least_loop-InRange ctx (suc i) n ds _ _ (omega arith) (ground arith)

  pub choose_least-IsChosen :
      (r : Router F) (cnf : Cnf F) (w : World) → IsChosen r (choose_dst_least r cnf w)
  unfolding choose_dst_least
  choose_least-IsChosen r cnf w = elim (Option-cases (least_loop r.ctx 0 r.dst none nought)) [
    | inl e ↦ rw (e, choose_dst_least) (IsChosen-none r)
    | inr (i, e) ↦ elim (Option-cases (get_elem? r.dst i)) [
      | inl f ↦ rw (e, choose_dst_least, f) (IsChosen-none r)
      | inr (d, f) ↦
          rw (e, choose_dst_least, f)
            (record {
              kept = check_at-Kept r cnf w i d f;
              range =
                  if_intro (λ o. InRange o (length r.dst)) (check_at r cnf w i d).0 _ _
                    (get_elem?-lt r.dst i d f) tt;
            })
    ]
  ]

  -- The cursor moves on.
  abbrev next_cursor : Router F → Router F
  next_cursor r = record r { rrb_next = (r.rrb_next + 1) % length r.dst }

  next_cursor-Kept :
      (r : Router F) (d : RouterDst F)
      → get_elem? r.dst r.rrb_next ≡ some d
      → Kept r (next_cursor r)
  next_cursor-Kept r d h = record {
    cores_kept = refl;
    conns_kept = refl;
    cursor_kept = λ _. omega (arith, get_elem?-lt r.dst r.rrb_next d h);
    top_kept = λ t. t;
  }

  round_step-Kept :
      (r : Router F) (cnf : Cnf F) (w : World) (d : RouterDst F)
      → get_elem? r.dst r.rrb_next ≡ some d
      → Kept r (round_step r cnf w d).1
  unfolding round_step
  round_step-Kept r cnf w d h =
      let k = next_cursor-Kept r d h in
      if_intro {A = Bool × Router F} (λ c. Kept r c.1)
        (dst_is_good d r.ctx.min_weight r.ctx.now r.ctx.retry) _ _
        (Kept-trans k (check_at-Kept (next_cursor r) cnf w r.rrb_next d h)) k

  pub round_loop-IsChosen :
      (k : ℕ) (r : Router F) (cnf : Cnf F) (w : World) → IsChosen r (round_loop k r cnf w)
  unfolding round_loop
  round_loop-IsChosen zero r cnf w = IsChosen-none r
  round_loop-IsChosen (suc k) r cnf w = elim (Option-cases (get_elem? r.dst r.rrb_next)) [
    | inl e ↦ rw (e, round_loop) (IsChosen-none r)
    | inr (d, e) ↦
        let kept = round_step-Kept r cnf w d e in
        rw (e, round_loop)
          (if_intro (IsChosen r) (round_step r cnf w d).0 _ _
            (record { kept = kept; range = get_elem?-lt r.dst r.rrb_next d e })
            (IsChosen-trans kept (round_loop-IsChosen k (round_step r cnf w d).1 cnf w)))
  ]

  -- The entries that are left are those of the router from index `i` on.
  abbrev IsRest : List (RouterDst F) → ℕ → Router F → Type 0
  IsRest ds i r = (j : ℕ) → get_elem? ds j ≡ get_elem? r.dst (i + j)

  IsRest-head :
      (d : RouterDst F) (ds : List (RouterDst F)) (i : ℕ) (r : Router F)
      → IsRest (d ∷ ds) i r
      → get_elem? r.dst i ≡ some d
  IsRest-head d ds i r h = ap (get_elem? r.dst) (omega arith) ∙ sym (h 0)

  IsRest-tail :
      (d : RouterDst F) (ds : List (RouterDst F)) (i : ℕ) (r : Router F)
      → IsRest (d ∷ ds) i r
      → IsRest ds (suc i) r
  IsRest-tail d ds i r h j = h (suc j) ∙ ap (get_elem? r.dst) (omega arith)

  IsRest-check :
      (d : RouterDst F) (ds : List (RouterDst F)) (i : ℕ) (r : Router F) (cnf : Cnf F) (w : World)
      → IsRest (d ∷ ds) i r
      → IsRest ds (suc i) (check_at r cnf w i d).1
  unfolding check_at
  IsRest-check d ds i r cnf w h j =
      IsRest-tail d ds i r h j ∙ sym (get_elem?-set_ne r.dst _ (λ e. omega arith))

  pub hint_loop-IsChosen :
      (m : F) (i : ℕ) (ds : List (RouterDst F)) (r : Router F) (cnf : Cnf F) (w : World)
      → IsRest ds i r
      → IsChosen r (hint_loop m i ds r cnf w)
  unfolding hint_loop
  hint_loop-IsChosen m i [] r cnf w h = IsChosen-none r
  hint_loop-IsChosen m i (d ∷ ds) r cnf w h =
      let here = IsRest-head d ds i r h in
      let kept = check_at-Kept r cnf w i d here in
      let next = (if lt m d.map then (check_at r cnf w i d).1 else r) in
      let both =
        if_intro {A = Router F} (λ r'. Kept r r' × IsRest ds (suc i) r') (lt m d.map) _ _
          (kept, IsRest-check d ds i r cnf w h) (Kept-refl r, IsRest-tail d ds i r h) in
      if_intro (IsChosen r) (lt m d.map && (check_at r cnf w i d).0) _ _
        (record { kept = kept; range = get_elem?-lt r.dst i d here })
        (IsChosen-trans both.0 (hint_loop-IsChosen m (suc i) ds next cnf w both.1))
