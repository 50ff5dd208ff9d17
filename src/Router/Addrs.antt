-- ===== src/Router/Addrs.antt =====
-- src/glb_router.c: which calls leave the addresses of the destinations in their places.
use glb.Common.{
  ℕ, zero, suc, ◌≡◌, refl, ap, ◌∙◌, subst, sym, ◌≤◌, Bool, true, Option, none, some, List, [], ◌∷◌,
  length, get_elem?, set, ◌==◌, Option-cases, inl, inr, OnSome, OnSome-some, arith, if_intro,
  if_split, option_split, if◌then◌else◌,
}
use glb.Double.{Double}
use glb.SockAddr.{SockAddr, sockaddr_is_equal}
use glb.Dst.{Dst, dst_is_equal}
use glb.Cnf.{Cnf}
use glb.Router.State.{RouterDst, Router, n_dst, router_update_ctx}
use glb.Router.Change.{find_dst}
use glb.Router.Choose.{World, set_dst, count_conn, choose_by_policy, choose_dst, refresh_top}
use glb.Router.Disconnect.{find_addr, drop_conn, disconnect, choose_dst_again}
use glb.Router.Connect.{connect_failed}
use glb.Router.Sound.{Core, cores, Kept, Kept-trans, Kept-IsSound, IsSound}
use glb.Router.Chosen.{IsChosen}
use glb.Router.Policy.{choose_by_policy-IsChosen, refresh-Kept, dst_failed-Kept}
use glb.Router.Invariant.{drop_conn-Dropped, disconnect-IsSound}

module _ {F : Type 0} where
  abbrev pub core_addrs : List (Core F) → List SockAddr
  core_addrs [] = []
  core_addrs (c ∷ cs) = c.dst.addr ∷ core_addrs cs

  -- The addresses of the destinations, in their order.
  abbrev pub addrs : Router F → List SockAddr
  addrs r = core_addrs (cores r.dst)

  pub addrs-get :
      (ds : List (RouterDst F)) (i : ℕ) (d : RouterDst F)
      → get_elem? ds i ≡ some d
      → get_elem? (core_addrs (cores ds)) i ≡ some d.dst.addr
  addrs-get [] i d h = absurd (ground arith)
  addrs-get (x ∷ ds) zero d h = ground arith
  addrs-get (x ∷ ds) (suc i) d h = addrs-get ds i d h

  pub addrs-set :
      (ds : List (RouterDst F)) (i : ℕ) (d d' : RouterDst F)
      → get_elem? ds i ≡ some d
      → d'.dst.addr ≡ d.dst.addr
      → core_addrs (cores (set ds i d')) ≡ core_addrs (cores ds)
  addrs-set [] i d d' h e = refl
  addrs-set (x ∷ ds) zero d d' h e = ground arith
  addrs-set (x ∷ ds) (suc i) d d' h e = ap (◌∷◌ x.dst.addr) (addrs-set ds i d d' h e)

  -- Only the addresses count for looking a destination up.
  pub find_dst-addrs :
      (dst : Dst F) (i : ℕ) (ds es : List (RouterDst F))
      → core_addrs (cores es) ≡ core_addrs (cores ds)
      → find_dst dst i es ≡ find_dst dst i ds
  unfolding find_dst dst_is_equal
  find_dst-addrs dst i [] [] e = refl
  find_dst-addrs dst i [] (y ∷ es) e = absurd (cc e)
  find_dst-addrs dst i (x ∷ ds) [] e = absurd (cc e)
  find_dst-addrs dst i (x ∷ ds) (y ∷ es) e =
      let head : y.dst.addr ≡ x.dst.addr =
        ap (λ (l : List SockAddr). elim l [ [] ↦ x.dst.addr | z ∷ zs ↦ z ]) e in
      let tail : core_addrs (cores es) ≡ core_addrs (cores ds) =
        ap (λ (l : List SockAddr). elim l [ [] ↦ [] | z ∷ zs ↦ zs ]) e in
      ap (λ o. if sockaddr_is_equal y.dst.addr dst.addr then some i else o)
        (find_dst-addrs dst (suc i) ds es tail)
      ∙ ap (λ z. if sockaddr_is_equal z dst.addr then some i else find_dst dst (suc i) ds) head

  length-addrs : (ds : List (RouterDst F)) → length (core_addrs (cores ds)) ≡ length ds
  length-addrs [] = refl
  length-addrs (x ∷ ds) = ap suc (length-addrs ds)

  pub n_dst-addrs : (r q : Router F) → addrs q ≡ addrs r → n_dst q ≡ n_dst r
  n_dst-addrs r q e = sym (length-addrs q.dst) ∙ ap length e ∙ length-addrs r.dst

  pub addrs-Kept : {r r' : Router F} → Kept r r' → addrs r' ≡ addrs r
  addrs-Kept k = ap core_addrs k.cores_kept

module _ {F : Type 0} ⦃fp : Double F⦄ where
  count_conn-addrs : (o : Option ℕ) (r : Router F) → addrs (count_conn (o, r)).1 ≡ addrs r
  unfolding count_conn set_dst
  count_conn-addrs none r = refl
  count_conn-addrs (some i) r = elim (Option-cases (get_elem? r.dst i)) [
    | inl e ↦ rw (e, count_conn) refl
    | inr (d, e) ↦ rw (e, count_conn) (addrs-set r.dst i d _ e refl)
  ]

  pub choose_dst-addrs :
      (r : Router F) (hint : ℕ) (cnf : Cnf F) (w : World)
      → IsSound r
      → addrs (choose_dst r hint cnf w).1 ≡ addrs r
  unfolding choose_dst
  choose_dst-addrs r hint cnf w s =
      let ready = refresh_top (router_update_ctx r cnf w.now) cnf in
      let k : Kept r ready = refresh-Kept r cnf w.now in
      let c = choose_by_policy cnf.policy ready hint cnf w in
      let chosen : IsChosen ready c =
        choose_by_policy-IsChosen cnf.policy ready hint cnf w (Kept-IsSound k s).top in
      count_conn-addrs c.0 c.1 ∙ addrs-Kept (Kept-trans k chosen.kept)

  -- The addresses stay, and there are not more connections.
  abbrev pub Quiet : Router F → Router F → Type 0
  Quiet r q = (addrs q ≡ addrs r) × (q.conns ≤ r.conns)

  -- The entry stays in its place too.
  abbrev Stays : Router F → ℕ → RouterDst F × Router F → Type 0
  Stays r i p = Quiet r p.1 × (get_elem? p.1.dst i ≡ some p.0)

  Quiet-Kept : (r : Router F) {r' q : Router F} → Kept r' q → Quiet r r' → Quiet r q
  Quiet-Kept r {r'} {q} k h = (addrs-Kept k ∙ h.0, subst (λ n. n ≤ r.conns) (sym k.conns_kept) h.1)

  drop_conn-Stays :
      (r : Router F) (i : ℕ) (d : RouterDst F)
      → get_elem? r.dst i ≡ some d
      → IsSound r
      → OnSome (Stays r i) (drop_conn r i d)
  unfolding drop_conn set_dst
  drop_conn-Stays r i d h s =
      if_split
        (λ (o : Option (RouterDst F × Router F)).
          OnSome (λ (p : RouterDst F × Router F). IsSound p.1 × (get_elem? p.1.dst i ≡ some p.0)) o
          → OnSome (Stays r i) o)
        (d.conns == 0) _ _ (λ _ _. tt) (λ _ q. ((addrs-set r.dst i d _ h refl, omega arith), q.1))
        (drop_conn-Dropped r i d h s)

  pub disconnect-Quiet :
      (r : Router F) (cnf : Cnf F) (a : SockAddr) (failed : Bool) (now : ℕ)
      → IsSound r
      → OnSome (λ (p : ℕ × Router F). Quiet r p.1) (disconnect r cnf a failed now)
  unfolding disconnect
  disconnect-Quiet r cnf a failed now s = elim (Option-cases (find_addr a 0 r.dst)) [
    | inl e ↦ rw (e, disconnect) (refl, omega arith)
    | inr (i, e) ↦ elim (Option-cases (get_elem? r.dst i)) [
      | inl f ↦ rw (e, disconnect, f) (refl, omega arith)
      | inr (d, f) ↦ elim (Option-cases (drop_conn r i d)) [
        | inl g ↦ rw (e, disconnect, f, g) tt
        | inr ((d', r'), g) ↦
            let kept : Stays r i (d', r') = OnSome-some (Stays r i) (drop_conn-Stays r i d f s) g in
            rw (e, disconnect, f, g)
              (if_intro (Quiet r) failed _ _
                (Quiet-Kept r (dst_failed-Kept r' cnf now i d' kept.1) kept.0) kept.0)
      ]
    ]
  ]

  pub connect_failed-Quiet :
      (r : Router F) (cnf : Cnf F) (now i : ℕ)
      → IsSound r
      → OnSome (Quiet r) (connect_failed r cnf now i)
  unfolding connect_failed
  connect_failed-Quiet r cnf now i s = elim (Option-cases (get_elem? r.dst i)) [
    | inl e ↦ rw (e, connect_failed) tt
    | inr (d, e) ↦ elim (Option-cases (drop_conn r i d)) [
      | inl f ↦ rw (e, f, connect_failed) tt
      | inr ((d', r'), f) ↦
          let kept : Stays r i (d', r') = OnSome-some (Stays r i) (drop_conn-Stays r i d e s) f in
          rw (e, f, connect_failed) (Quiet-Kept r (dst_failed-Kept r' cnf now i d' kept.1) kept.0)
    ]
  ]

  pub choose_dst_again-addrs :
      (r : Router F) (hint : ℕ) (a : SockAddr) (cnf : Cnf F) (now : ℕ) (w : World)
      → IsSound r
      → OnSome
          (λ (c : Option ℕ × Router F). addrs c.1 ≡ addrs r)
          (choose_dst_again r hint a cnf now w)
  unfolding choose_dst_again
  choose_dst_again-addrs r hint a cnf now w s =
      let P = OnSome λ (c : Option ℕ × Router F). addrs c.1 ≡ addrs r in
      option_split P (disconnect r cnf a true now) _ _ (λ _. tt)
        (λ p e.
          let same : addrs p.1 ≡ addrs r =
            (OnSome-some (λ (p : ℕ × Router F). Quiet r p.1) (disconnect-Quiet r cnf a true now s)
              e).0 in
          let again = choose_dst p.1 hint cnf w in
          let s' : IsSound p.1 = disconnect-IsSound r cnf a true now p.0 p.1 s e in
          if_intro P (p.0 == n_dst p.1) none (if again.1.conns == r.conns then some again else none)
            tt
            (if_intro P (again.1.conns == r.conns) (some again) none
              (choose_dst-addrs p.1 hint cnf w s' ∙ same) tt))
