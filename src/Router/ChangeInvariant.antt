-- ===== src/Router/ChangeInvariant.antt =====
-- `glb_router_change_dst` keeps the representation invariant.
use glb.Common.{
  ℕ, suc, ◌-◌, ◌≡◌, refl, sym, ap, ◌∙◌, false, Option, none, some, List, [], ◌∷◌, ◌++◌, length,
  get_elem?, get_elem?-lt, set, arith, All, All-unsnoc, All-append, subst, length-append, if_intro,
  if◌then◌else◌, Option-cases, inl, inr,
}
use glb.Double.{Double}
use glb.Dst.{Dst, dst_is_equal}
use glb.Cnf.{Cnf, uses_map}
use glb.Router.State.{RouterDst, Router, router_update_ctx}
use glb.Router.Top.{router_redo_top}
use glb.Router.Change.{
  Alloc, Result, find_dst, remove_at, remove_dst, new_dst, add_dst, update_weight, settle,
  change_known, change_unknown, change_dst,
}
use glb.Router.Sound.{
  Core, core, cores, Distinct, HasUsage, IsCounted, IsSound, Kept, Kept-refl, Kept-trans,
  Kept-IsSound,
}
use glb.Router.Keeps.{update_ctx-Kept, redo_top-Kept, redo_map-Kept}
use glb.Router.Invariant.{cores-set_lem, get-cores, All-usage-set, set_dst-IsSound}
use glb.Router.Remove.{
  snoc_view, remove_at-snoc, cores-append, sum_conns-append, Distinct-move, sum_conns-move,
}

module _ {F : Type 0} where
  -- A destination that is not found differs from all.
  pub find_dst-none :
      (dst : Dst F) (i : ℕ) (ds : List (RouterDst F))
      → find_dst dst i ds ≡ none
      → All (λ c. dst_is_equal c.dst dst ≡ false) (cores ds)
  unfolding find_dst
  find_dst-none dst i [] h = tt
  find_dst-none dst i (d ∷ ds) h = (ground arith, find_dst-none dst (suc i) ds (ground arith))

  Distinct-snoc :
      (cs : List (Core F)) (c : Core F)
      → All (λ k. dst_is_equal k.dst c.dst ≡ false) cs
      → Distinct cs
      → Distinct (cs ++ c ∷ [])
  Distinct-snoc [] c h s = (tt, tt)
  Distinct-snoc (k ∷ cs) c h s =
      (All-append _ cs (c ∷ []) s.0 (h.0, tt), Distinct-snoc cs c h.1 s.1)

module _ {F : Type 0} ⦃fp : Double F⦄ where
  open fp use {nought, lt, eq}

  pub settle-Kept : (r : Router F) (cnf : Cnf F) (now : ℕ) → Kept r (settle r cnf now)
  unfolding settle
  settle-Kept r cnf now =
      let fresh = router_update_ctx r cnf now in
      let topped = (if cnf.top then router_redo_top fresh else fresh) in
      let k : Kept r topped =
        Kept-trans (update_ctx-Kept r cnf now)
          (if_intro (Kept fresh) cnf.top _ _ (redo_top-Kept fresh) (Kept-refl fresh)) in
      if_intro (Kept r) (uses_map cnf.policy) _ _ (Kept-trans k (redo_map-Kept topped)) k

  add_dst-IsSound :
      (r : Router F) (dst : Dst F) (ctx : Option ℕ) (a : Alloc F)
      → All (λ c. dst_is_equal c.dst dst ≡ false) (cores r.dst)
      → IsSound r
      → IsSound (add_dst r dst ctx a)
  unfolding add_dst
  add_dst-IsSound r dst ctx a h s = record {
    counted = rw (cores-append r.dst _) (record {
      total = omega (arith, s.counted.total, sum_conns-append (cores r.dst) (core new));
      usages = All-append HasUsage (cores r.dst) _ s.counted.usages (refl, tt);
      distinct = Distinct-snoc (cores r.dst) (core new) h s.counted.distinct;
    });
    cursor = omega (arith, s.cursor, length-append r.dst (new ∷ []));
    top = tt;
  }
    where
      new : RouterDst F
      new = new_dst dst ctx a

  remove-IsCounted :
      (xs : List (RouterDst F)) (l d : RouterDst F) (i n : ℕ)
      → get_elem? (xs ++ l ∷ []) i ≡ some d
      → IsCounted (cores (xs ++ l ∷ [])) n
      → IsCounted (cores (set xs i l)) (n - d.conns)
  remove-IsCounted xs l d i n h s =
      let e = cores-append xs l in
      let s' : IsCounted (cores xs ++ core l ∷ []) n = subst (λ cs. IsCounted cs n) e s in
      let at : get_elem? (cores xs ++ core l ∷ []) i ≡ some (core d) =
        ap (λ cs. get_elem? cs i) (sym e) ∙ get-cores (xs ++ l ∷ []) i d h in
      let (us, u) = All-unsnoc HasUsage (cores xs) (core l) s'.usages in
      rw (cores-set_lem xs i l) (record {
        total = omega (arith, s'.total, sum_conns-move (core l) (core d) (cores xs) i at);
        usages = All-usage-set (cores xs) i (core l) u us;
        distinct = Distinct-move (core l) (cores xs) i s'.distinct;
      })

  remove_dst-IsSound :
      (r : Router F) (i : ℕ) (d : RouterDst F)
      → get_elem? r.dst i ≡ some d
      → IsSound r
      → IsSound (remove_dst r i d)
  unfolding remove_dst
  remove_dst-IsSound r i d h s =
      let bound = get_elem?-lt r.dst i d h in
      let (xs, l, p) = snoc_view r.dst (omega arith) in
      let e : remove_at r.dst i ≡ set xs i l =
        ap (λ ds. remove_at ds i) p
        ∙ remove_at-snoc xs l i (omega (arith, ap length p, length-append xs (l ∷ []))) in
      record {
        counted = rw e (
            remove-IsCounted xs l d i r.conns (ap (λ ds. get_elem? ds i) (sym p) ∙ h)
              (subst (λ ds. IsCounted (cores ds) r.conns) p s.counted));
        cursor = ground arith;
        top = tt;
      }

  pub update_weight-IsSound :
      (r : Router F) (i : ℕ) (d : RouterDst F) (weight : F)
      → get_elem? r.dst i ≡ some d
      → IsSound r
      → IsSound (update_weight r i d weight)
  unfolding update_weight
  update_weight-IsSound r i d weight h s = set_dst-IsSound r i r.conns d _ h refl refl refl s

  settle-IsSound : {r : Router F} (cnf : Cnf F) (now : ℕ) → IsSound r → IsSound (settle r cnf now)
  settle-IsSound {r} cnf now s = Kept-IsSound (settle-Kept r cnf now) s

  change_known-IsSound :
      (r : Router F) (cnf : Cnf F) (dst : Dst F) (a : Alloc F) (i : ℕ) (d : RouterDst F)
      → get_elem? r.dst i ≡ some d
      → IsSound r
      → IsSound (change_known r cnf dst a i d).1
  unfolding change_known
  change_known-IsSound r cnf dst a i d h s =
      if_intro {A = Result ℕ × Router F} (λ p. IsSound p.1) (lt dst.weight nought) _ _
        (settle-IsSound cnf a.now (remove_dst-IsSound r i d h s))
        (if_intro {A = Result ℕ × Router F} (λ p. IsSound p.1) (eq d.dst.weight dst.weight) _ _ s
          (settle-IsSound cnf a.now (update_weight-IsSound r i d dst.weight h s)))

  change_unknown-IsSound :
      (r : Router F) (cnf : Cnf F) (dst : Dst F) (ctx : Option ℕ) (a : Alloc F)
      → All (λ c. dst_is_equal c.dst dst ≡ false) (cores r.dst)
      → IsSound r
      → IsSound (change_unknown r cnf dst ctx a).1
  unfolding change_unknown
  change_unknown-IsSound r cnf dst ctx a h s =
      if_intro {A = Result ℕ × Router F} (λ p. IsSound p.1) (lt dst.weight nought) _ _ s
        (if_intro {A = Result ℕ × Router F} (λ p. IsSound p.1) a.realloc _ _
          (settle-IsSound cnf a.now (add_dst-IsSound r dst ctx a h s)) (settle-IsSound cnf a.now s))

  -- A change of a destination keeps the invariant, whether it adds, removes or updates one, whether
  -- it fails, and whether memory is found: the destinations stay distinct, the connections of a
  -- removed one leave the total, and cursor and top destination stay in range.
  pub change_dst-IsSound :
      (r : Router F) (cnf : Cnf F) (dst : Dst F) (ctx : Option ℕ) (a : Alloc F)
      → IsSound r
      → IsSound (change_dst r cnf dst ctx a).1
  unfolding change_dst
  change_dst-IsSound r cnf dst ctx a s = elim (Option-cases (find_dst dst 0 r.dst)) [
    | inl e ↦
        rw (e, change_dst) (change_unknown-IsSound r cnf dst ctx a (find_dst-none dst 0 r.dst e) s)
    | inr (i, e) ↦ elim (Option-cases (get_elem? r.dst i)) [
      | inl f ↦ rw (e, change_dst, f) s
      | inr (d, f) ↦ rw (e, change_dst, f) (change_known-IsSound r cnf dst a i d f s)
    ]
  ]
