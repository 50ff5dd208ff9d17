-- ===== src/Router/Again.antt =====
-- Choosing a destination after a connection failed.
use glb.Common.{
  ℕ, ◌+◌, ◌≡◌, refl, ap, subst, ◌∙◌, ◌⊎◌, inl, inr, Bool, true, false, Option, none, some, length,
  get_elem?, get_elem?-lt, get_elem?-none, get_elem?-set_self, ◌==◌, arith, Bool-cases,
  Option-cases, OnSome, OnSome-some, if◌then◌else◌, if_intro, if_split,
}
use glb.Double.{Double}
use glb.SockAddr.{SockAddr}
use glb.Cnf.{Cnf}
use glb.Router.State.{RouterDst, Router, n_dst, router_update_ctx}
use glb.Router.Choose.{
  World, Choice, count_conn, choose_by_policy, choose_dst, set_dst, refresh_top,
}
use glb.Router.Disconnect.{find_addr, drop_conn, dst_failed, disconnect, choose_dst_again}
use glb.Router.Sound.{InRange, Kept, Kept-trans, Kept-IsSound, length-Kept, IsSound, core, cores}
use glb.Router.Chosen.{IsChosen}
use glb.Router.Policy.{choose_by_policy-IsChosen, refresh-Kept, dst_failed-Kept}
use glb.Router.Invariant.{choose_dst-IsSound, disconnect-IsSound, conns-le-sum, get-cores}

module _ {F : Type 0} ⦃fp : Double F⦄ where
  -- One connection more where a destination was chosen.
  abbrev pub Counted : Router F → Choice F → Type 0
  Counted r c =
      ((c.0 ≡ none) × (c.1.conns ≡ r.conns))
      ⊎ ((i : ℕ) × ((c.0 ≡ some i) × (c.1.conns ≡ r.conns + 1)))

  count_conn-Counted :
      (o : Option ℕ) (r : Router F) → InRange o (length r.dst) → Counted r (count_conn (o, r))
  unfolding count_conn
  count_conn-Counted none r h = inl (refl, refl)
  count_conn-Counted (some i) r h = elim (Option-cases (get_elem? r.dst i)) [
    | inl e ↦ absurd (omega (arith, get_elem?-none r.dst i e))
    | inr (d, e) ↦ rw (e, count_conn) (inr (i, (refl, refl)))
  ]

  -- A call adds one connection to the router if it chooses a destination, and none if it does not.
  pub choose_dst-Counted :
      (r : Router F) (hint : ℕ) (cnf : Cnf F) (w : World)
      → IsSound r
      → Counted r (choose_dst r hint cnf w)
  unfolding choose_dst
  choose_dst-Counted r hint cnf w s =
      let ready = refresh_top (router_update_ctx r cnf w.now) cnf in
      let k : Kept r ready = refresh-Kept r cnf w.now in
      let c = choose_by_policy cnf.policy ready hint cnf w in
      let chosen : IsChosen ready c =
        choose_by_policy-IsChosen cnf.policy ready hint cnf w (Kept-IsSound k s).top in
      let whole : Kept r c.1 = Kept-trans k chosen.kept in
      subst
        (λ n.
          ((count_conn c).0 ≡ none) × ((count_conn c).1.conns ≡ n)
          ⊎ ((i : ℕ) × (((count_conn c).0 ≡ some i) × ((count_conn c).1.conns ≡ n + 1))))
        whole.conns_kept (count_conn-Counted c.0 c.1 (rw (length-Kept chosen.kept) chosen.range))

  -- A destination that is chosen is one of the router's.
  abbrev pub Present : Choice F → Type 0
  Present (none, r) = Unit
  Present (some i, r) = (d : RouterDst F) × (get_elem? r.dst i ≡ some d)

  count_conn-Present :
      (o : Option ℕ) (r : Router F) → InRange o (length r.dst) → Present (count_conn (o, r))
  unfolding count_conn set_dst
  count_conn-Present none r h = tt
  count_conn-Present (some i) r h = elim (Option-cases (get_elem? r.dst i)) [
    | inl e ↦ absurd (omega (arith, get_elem?-none r.dst i e))
    | inr (d, e) ↦ rw (e, count_conn) (_, get_elem?-set_self r.dst i _ h)
  ]

  pub choose_dst-Present :
      (r : Router F) (hint : ℕ) (cnf : Cnf F) (w : World)
      → IsSound r
      → Present (choose_dst r hint cnf w)
  unfolding choose_dst
  choose_dst-Present r hint cnf w s =
      let ready = refresh_top (router_update_ctx r cnf w.now) cnf in
      let k : Kept r ready = refresh-Kept r cnf w.now in
      let c = choose_by_policy cnf.policy ready hint cnf w in
      let chosen : IsChosen ready c =
        choose_by_policy-IsChosen cnf.policy ready hint cnf w (Kept-IsSound k s).top in
      count_conn-Present c.0 c.1 (rw (length-Kept chosen.kept) chosen.range)

  -- The connection is taken off, or there is no destination with that address.
  abbrev Left : Router F → ℕ × Router F → Type 0
  Left r p = (p.1.conns + 1 ≡ r.conns) ⊎ (p.0 ≡ n_dst p.1)

  pub drop_conn-Left :
      (r : Router F) (cnf : Cnf F) (failed : Bool) (now i : ℕ) (d : RouterDst F)
      → get_elem? r.dst i ≡ some d
      → IsSound r
      → OnSome
          (λ (p : RouterDst F × Router F).
            (p.1.conns + 1 ≡ r.conns) × (get_elem? p.1.dst i ≡ some p.0))
          (drop_conn r i d)
  unfolding drop_conn set_dst
  drop_conn-Left r cnf failed now i d h s = elim (Bool-cases (d.conns == 0)) [
    | inl e ↦ rw e tt
    | inr e ↦
        let le = conns-le-sum (cores r.dst) i (core d) (get-cores r.dst i d h) in
        rw e (
          ground (arith, le, s.counted.total),
          get_elem?-set_self r.dst i _ (get_elem?-lt r.dst i d h),
        )
  ]

  disconnect-Left :
      (r : Router F) (cnf : Cnf F) (a : SockAddr) (failed : Bool) (now : ℕ)
      → IsSound r
      → OnSome (Left r) (disconnect r cnf a failed now)
  unfolding disconnect
  disconnect-Left r cnf a failed now s = elim (Option-cases (find_addr a 0 r.dst)) [
    | inl e ↦ rw (e, disconnect) (inr refl)
    | inr (i, e) ↦ elim (Option-cases (get_elem? r.dst i)) [
      | inl f ↦ rw (e, disconnect, f) (inr refl)
      | inr (d, f) ↦
          rw (e, disconnect, f)
            (after i (drop_conn r i d) (drop_conn-Left r cnf failed now i d f s))
    ]
  ]
    where
      after :
          (i : ℕ) (o : Option (RouterDst F × Router F))
          → OnSome
              (λ (p : RouterDst F × Router F).
                (p.1.conns + 1 ≡ r.conns) × (get_elem? p.1.dst i ≡ some p.0))
              o
          → OnSome (Left r) (elim o [
            | none ↦ none
            | some (d', r') ↦ some (i, if failed then dst_failed r' cnf now i d' else r')
          ])
      after i none h = tt
      after i (some (d', r')) h = inl (
          if_intro (λ (q : Router F). q.conns + 1 ≡ r.conns) failed _ _
            (ap (λ n. n + 1) (dst_failed-Kept r' cnf now i d' h.1).conns_kept ∙ h.0) h.0)

  -- What a call that comes back has done.
  abbrev pub Again : Router F → Choice F → Type 0
  Again r c = IsSound c.1 × ((c.1.conns ≡ r.conns) × ((i : ℕ) × (c.0 ≡ some i)))

  choose_dst_again-OnSome :
      (r : Router F) (hint : ℕ) (a : SockAddr) (cnf : Cnf F) (now : ℕ) (w : World)
      → IsSound r
      → OnSome (Again r) (choose_dst_again r hint a cnf now w)
  unfolding choose_dst_again
  choose_dst_again-OnSome r hint a cnf now w s = elim (Option-cases (disconnect r cnf a true now)) [
    | inl e ↦ rw (e, choose_dst_again) tt
    | inr ((i, r'), e) ↦
        let s' = disconnect-IsSound r cnf a true now i r' s e in
        let left = OnSome-some (Left r) (disconnect-Left r cnf a true now s) e in
        let again = choose_dst r' hint cnf w in
        rw (e, choose_dst_again)
          (if_split (OnSome (Again r)) (i == n_dst r') _ _ (λ _. tt)
            (λ h.
              if_split (OnSome (Again r)) (again.1.conns == r.conns) _ _
                (λ c. (
                  choose_dst-IsSound r' hint cnf w s',
                  (ground arith, chosen r' again h left (choose_dst-Counted r' hint cnf w s') c),
                ))
                (λ _. tt)))
  ]
    where
      chosen :
          (r' : Router F) (c : Choice F) {i : ℕ}
          → (i == n_dst r') ≡ false
          → Left r (i, r')
          → Counted r' c
          → (c.1.conns == r.conns) ≡ true
          → (j : ℕ) × (c.0 ≡ some j)
      chosen r' c h l (inr (j, (e, n))) t = (j, e)
      chosen r' c h (inl m) (inl (e, n)) t = absurd (ground arith)
      chosen r' c h (inr m) (inl (e, n)) t = absurd (ground arith)

  -- As built with assertions, a call that comes back has chosen a destination: it never answers that
  -- there is none. The router that it leaves is sound and has as many connections as before.
  pub choose_dst_again_chosen :
      (r : Router F) (hint : ℕ) (a : SockAddr) (cnf : Cnf F) (now : ℕ) (w : World) (c : Choice F)
      → IsSound r
      → choose_dst_again r hint a cnf now w ≡ some c
      → Again r c
  choose_dst_again_chosen r hint a cnf now w c s e =
      OnSome-some (Again r) (choose_dst_again-OnSome r hint a cnf now w s) e
