-- ===== src/Router/Keeps.antt =====
-- What the parts of `router_choose_dst` and `router_dst_failed` keep.
use glb.Common.{
  ℕ, suc, ◌+◌, ◌≤◌, ◌≡◌, refl, ap, ◌∙◌, Option, some, List, [], ◌∷◌, length, get_elem?, arith,
  if_intro,
}
use glb.Double.{Double}
use glb.Cnf.{Cnf}
use glb.Router.State.{RouterDst, RouterCtx, Router, router_update_ctx}
use glb.Router.Top.{redo_top_loop, router_redo_top}
use glb.Router.Map.{map_weights, map_sums, router_redo_map}
use glb.Router.Check.{Answer, dst_check}
use glb.Router.Choose.{World, set_dst, check_at, refresh_map, refresh_top, map_due, top_due}
use glb.Router.Sound.{core, cores, InRange, cores-set, Kept, Kept-refl, Kept-of_cores}

module _ {F : Type 0} where
  core-check : (d : RouterDst F) (extra : ℕ) (a : Answer) → core (dst_check d extra a).1 ≡ core d
  unfolding dst_check
  core-check d extra a = ground arith

  -- Writing an entry with the same core keeps all.
  pub set_dst-Kept :
      (r : Router F) (i : ℕ) (d d' : RouterDst F)
      → get_elem? r.dst i ≡ some d
      → core d' ≡ core d
      → Kept r (set_dst r i d')
  unfolding set_dst
  set_dst-Kept r i d d' h e = Kept-of_cores (cores-set r.dst i d d' h e) refl refl refl

  pub check_at-Kept :
      (r : Router F) (cnf : Cnf F) (w : World) (i : ℕ) (d : RouterDst F)
      → get_elem? r.dst i ≡ some d
      → Kept r (check_at r cnf w i d).1
  unfolding check_at
  check_at-Kept r cnf w i d h = set_dst-Kept r i d _ h (core-check d cnf.extra (w.asked i))

module _ {F : Type 0} ⦃fp : Double F⦄ where
  pub update_ctx-Kept :
      (r : Router F) (cnf : Cnf F) (now : ℕ) → Kept r (router_update_ctx r cnf now)
  unfolding router_update_ctx
  update_ctx-Kept r cnf now = Kept-of_cores refl refl refl refl

  redo_top_loop-InRange :
      (ctx : RouterCtx F) (i n : ℕ) (ds : List (RouterDst F)) (top : Option ℕ) (m : F)
      → i + length ds ≤ n
      → InRange top n
      → InRange (redo_top_loop ctx i ds top m).0 n
  unfolding redo_top_loop
  redo_top_loop-InRange ctx i n [] top m h t = t
  redo_top_loop-InRange ctx i n (d ∷ ds) top m h t =
      redo_top_loop-InRange ctx (suc i) n ds _ _ (omega arith) (ground arith)

  pub redo_top-Kept : (r : Router F) → Kept r (router_redo_top r)
  unfolding router_redo_top
  redo_top-Kept r = record {
    cores_kept = refl;
    conns_kept = refl;
    cursor_kept = λ h. h;
    top_kept = λ h.
        redo_top_loop-InRange r.ctx 0 (length r.dst) r.dst r.top_dst r.ctx.min_weight (omega arith)
          h;
  }

  cores-map_weights :
      (ctx : RouterCtx F) (ds : List (RouterDst F)) → cores (map_weights ctx ds) ≡ cores ds
  unfolding map_weights
  cores-map_weights ctx [] = refl
  cores-map_weights ctx (d ∷ ds) = ap (◌∷◌ (core d)) (cores-map_weights ctx ds)

  cores-map_sums : (ds : List (RouterDst F)) (t m : F) → cores (map_sums t m ds) ≡ cores ds
  unfolding map_sums
  cores-map_sums [] t m = refl
  cores-map_sums (d ∷ ds) t m = ap (◌∷◌ (core d)) (cores-map_sums ds t _)

  cores-redo_map : (r : Router F) → cores (router_redo_map r).dst ≡ cores r.dst
  unfolding router_redo_map
  cores-redo_map r =
      let weights = cores-map_weights r.ctx r.dst in
      if_intro (λ ds. cores ds ≡ cores r.dst) _ _ _ weights (cores-map_sums _ _ _ ∙ weights)

  pub redo_map-Kept : (r : Router F) → Kept r (router_redo_map r)
  unfolding router_redo_map
  redo_map-Kept r = Kept-of_cores (cores-redo_map r) refl refl refl

  pub refresh_map-Kept : (r : Router F) (cnf : Cnf F) → Kept r (refresh_map r cnf)
  unfolding refresh_map
  refresh_map-Kept r cnf =
      if_intro (Kept r) (map_due r cnf) _ _ (Kept-of_cores (cores-redo_map r) refl refl refl)
        (Kept-refl r)

  pub refresh_top-Kept : (r : Router F) (cnf : Cnf F) → Kept r (refresh_top r cnf)
  unfolding refresh_top
  refresh_top-Kept r cnf =
      let k = redo_top-Kept r in
      if_intro (Kept r) (top_due r cnf) _ _
        (record {
          cores_kept = k.cores_kept;
          conns_kept = k.conns_kept;
          cursor_kept = k.cursor_kept;
          top_kept = k.top_kept;
        })
        (Kept-refl r)
