-- ===== src/Router/Invariant.antt =====
-- Every operation of the router keeps its representation invariant.
use glb.Common.{
  ℕ, zero, suc, ◌+◌, ◌-◌, ◌≤◌, ◌≡◌, refl, sym, ap, ◌∙◌, Bool, false, Option, none, some, List, [],
  ◌∷◌, length, get_elem?, get_elem?-lt, get_elem?-set_self, length-set, set, arith, if_intro,
  if◌then◌else◌, All, Option-cases, Bool-cases, OnSome, OnSome-some, inl, inr, ◌==◌,
}
use glb.Double.{Double}
use glb.SockAddr.{SockAddr}
use glb.Dst.{Dst, dst_is_equal}
use glb.Cnf.{Cnf}
use glb.Router.State.{RouterDst, Router, router_update_ctx}
use glb.Router.Choose.{World, set_dst, count_conn, choose_by_policy, choose_dst, refresh_top}
use glb.Router.Disconnect.{find_addr, drop_conn, dst_failed, disconnect}
use glb.Router.Sound.{
  Core, core, cores, sum_conns, Distinct, InRange, HasUsage, IsCounted, IsSound, Kept, Kept-IsSound,
  Kept-trans, length-Kept,
}
use glb.Router.Chosen.{IsChosen}
use glb.Router.Policy.{choose_by_policy-IsChosen, refresh-Kept, dst_failed-Kept}

module _ {F : Type 0} where
  pub cores-set_lem :
      (ds : List (RouterDst F)) (i : ℕ) (d : RouterDst F)
      → cores (set ds i d) ≡ set (cores ds) i (core d)
  cores-set_lem [] i d = refl
  cores-set_lem (x ∷ ds) zero d = refl
  cores-set_lem (x ∷ ds) (suc i) d = ap (◌∷◌ (core x)) (cores-set_lem ds i d)

  pub get-cores :
      (ds : List (RouterDst F)) (i : ℕ) (d : RouterDst F)
      → get_elem? ds i ≡ some d
      → get_elem? (cores ds) i ≡ some (core d)
  get-cores [] i d h = absurd (ground arith)
  get-cores (x ∷ ds) zero d h = ground arith
  get-cores (x ∷ ds) (suc i) d h = get-cores ds i d h

  -- Changing the connections of one destination changes the sum by as much.
  sum_conns-set :
      (cs : List (Core F)) (i : ℕ) (c c' : Core F)
      → get_elem? cs i ≡ some c
      → sum_conns (set cs i c') + c.conns ≡ sum_conns cs + c'.conns
  sum_conns-set [] i c c' h = absurd (ground arith)
  sum_conns-set (x ∷ cs) zero c c' h = ground arith
  sum_conns-set (x ∷ cs) (suc i) c c' h = omega (arith, sum_conns-set cs i c c' h)

  All-equal-set :
      (x : Dst F) (cs : List (Core F)) (i : ℕ) (c c' : Core F)
      → get_elem? cs i ≡ some c
      → c'.dst.addr ≡ c.dst.addr
      → All (λ k. dst_is_equal x k.dst ≡ false) cs
      → All (λ k. dst_is_equal x k.dst ≡ false) (set cs i c')
  unfolding dst_is_equal
  All-equal-set x [] i c c' h e a = tt
  All-equal-set x (k ∷ cs) zero c c' h e a = ground arith
  All-equal-set x (k ∷ cs) (suc i) c c' h e a = (a.0, All-equal-set x cs i c c' h e a.1)

  Distinct-set :
      (cs : List (Core F)) (i : ℕ) (c c' : Core F)
      → get_elem? cs i ≡ some c
      → c'.dst.addr ≡ c.dst.addr
      → Distinct cs
      → Distinct (set cs i c')
  unfolding dst_is_equal
  Distinct-set [] i c c' h e s = tt
  Distinct-set (k ∷ cs) zero c c' h e s =
      let same : k.dst.addr ≡ c.dst.addr = ground arith in (rw (e ∙ sym same) s.0, s.1)
  Distinct-set (k ∷ cs) (suc i) c c' h e s =
      (All-equal-set k.dst cs i c c' h e s.0, Distinct-set cs i c c' h e s.1)

module _ {F : Type 0} ⦃fp : Double F⦄ where
  open fp use {of_ℕ, div}

  pub All-usage-set :
      (cs : List (Core F)) (i : ℕ) (c : Core F)
      → HasUsage c
      → All HasUsage cs
      → All HasUsage (set cs i c)
  All-usage-set [] i c u a = tt
  All-usage-set (k ∷ cs) zero c u a = (u, a.1)
  All-usage-set (k ∷ cs) (suc i) c u a = (a.0, All-usage-set cs i c u a.1)

  -- One destination changes its connections, and the total follows.
  set-IsCounted :
      (ds : List (RouterDst F)) (i n n' : ℕ) (d d' : RouterDst F)
      → get_elem? ds i ≡ some d
      → d'.dst.addr ≡ d.dst.addr
      → HasUsage (core d')
      → n' + d.conns ≡ n + d'.conns
      → IsCounted (cores ds) n
      → IsCounted (cores (set ds i d')) n'
  set-IsCounted ds i n n' d d' h e u t s =
      let g = get-cores ds i d h in
      rw (cores-set_lem ds i d') (record {
        total = omega (arith, s.total, t, sum_conns-set (cores ds) i (core d) (core d') g);
        usages = All-usage-set (cores ds) i (core d') u s.usages;
        distinct = Distinct-set (cores ds) i (core d) (core d') g e s.distinct;
      })

  pub set_dst-IsSound :
      (r : Router F) (i n' : ℕ) (d d' : RouterDst F)
      → get_elem? r.dst i ≡ some d
      → d'.dst.addr ≡ d.dst.addr
      → HasUsage (core d')
      → n' + d.conns ≡ r.conns + d'.conns
      → IsSound r
      → IsSound (record (set_dst r i d') { conns = n' })
  unfolding set_dst
  set_dst-IsSound r i n' d d' h e u t s = record {
    counted = set-IsCounted r.dst i r.conns n' d d' h e u t s.counted;
    cursor = rw (length-set r.dst i d') s.cursor;
    top = rw (length-set r.dst i d') s.top;
  }

  count_conn-IsSound :
      (o : Option ℕ) (r : Router F)
      → InRange o (length r.dst)
      → IsSound r
      → IsSound (count_conn (o, r)).1
  unfolding count_conn
  count_conn-IsSound none r h s = s
  count_conn-IsSound (some i) r h s = elim (Option-cases (get_elem? r.dst i)) [
    | inl e ↦ rw (e, count_conn) s
    | inr (d, e) ↦
        rw (e, count_conn) (set_dst-IsSound r i (r.conns + 1) d _ e refl refl (omega arith) s)
  ]

  -- Choosing a destination keeps the invariant, whatever the policy and the outcome: in particular
  -- the connections of the router are the sum of those of its destinations.
  pub choose_dst-IsSound :
      (r : Router F) (hint : ℕ) (cnf : Cnf F) (w : World)
      → IsSound r
      → IsSound (choose_dst r hint cnf w).1
  unfolding choose_dst
  choose_dst-IsSound r hint cnf w s =
      let ready = refresh_top (router_update_ctx r cnf w.now) cnf in
      let k : Kept r ready = refresh-Kept r cnf w.now in
      let c = choose_by_policy cnf.policy ready hint cnf w in
      let chosen : IsChosen ready c =
        choose_by_policy-IsChosen cnf.policy ready hint cnf w (Kept-IsSound k s).top in
      count_conn-IsSound c.0 c.1 (rw (length-Kept chosen.kept) chosen.range)
        (Kept-IsSound (Kept-trans k chosen.kept) s)

  -- A destination has no more connections than the router.
  pub conns-le-sum :
      (cs : List (Core F)) (i : ℕ) (c : Core F) → get_elem? cs i ≡ some c → c.conns ≤ sum_conns cs
  conns-le-sum [] i c h = absurd (ground arith)
  conns-le-sum (x ∷ cs) zero c h = ground arith
  conns-le-sum (x ∷ cs) (suc i) c h = omega (arith, conns-le-sum cs i c h)

  -- What `drop_conn` gives: a sound router, with the new entry in its place.
  abbrev Dropped : ℕ → Option (RouterDst F × Router F) → Type 0
  Dropped i = OnSome λ (p : RouterDst F × Router F). IsSound p.1 × (get_elem? p.1.dst i ≡ some p.0)

  pub drop_conn-Dropped :
      (r : Router F) (i : ℕ) (d : RouterDst F)
      → get_elem? r.dst i ≡ some d
      → IsSound r
      → Dropped i (drop_conn r i d)
  unfolding drop_conn
  drop_conn-Dropped r i d h s = elim (Bool-cases (d.conns == 0)) [
    | inl e ↦ rw e tt
    | inr e ↦
        let le = conns-le-sum (cores r.dst) i (core d) (get-cores r.dst i d h) in
        rw e (
          set_dst-IsSound r i (r.conns - 1) d _ h refl refl (ground (arith, le, s.counted.total)) s,
          get_elem?-set_self r.dst i _ (get_elem?-lt r.dst i d h),
        )
  ]

  -- A property of what follows a case split on an option.
  disconnect-OnSome :
      (r : Router F) (cnf : Cnf F) (a : SockAddr) (failed : Bool) (now : ℕ)
      → IsSound r
      → OnSome (λ (p : ℕ × Router F). IsSound p.1) (disconnect r cnf a failed now)
  unfolding disconnect
  disconnect-OnSome r cnf a failed now s = elim (Option-cases (find_addr a 0 r.dst)) [
    | inl e ↦ rw (e, disconnect) s
    | inr (i, e) ↦ elim (Option-cases (get_elem? r.dst i)) [
      | inl f ↦ rw (e, disconnect, f) s
      | inr (d, f) ↦ rw (e, disconnect, f) (after i (drop_conn r i d) (drop_conn-Dropped r i d f s))
    ]
  ]
    where
      after :
          (i : ℕ) (o : Option (RouterDst F × Router F))
          → Dropped i o
          → OnSome
              (λ (p : ℕ × Router F). IsSound p.1)
              (elim o [
                | none ↦ none
                | some (d', r') ↦ some (i, if failed then dst_failed r' cnf now i d' else r')
              ])
      after i none h = tt
      after i (some (d', r')) h =
          if_intro IsSound failed _ _ (Kept-IsSound (dst_failed-Kept r' cnf now i d' h.1) h.0) h.0

  -- Closing a connection, failed or not, keeps the invariant, unless an assertion stops the process.
  pub disconnect-IsSound :
      (r : Router F) (cnf : Cnf F) (a : SockAddr) (failed : Bool) (now i : ℕ) (r' : Router F)
      → IsSound r
      → disconnect r cnf a failed now ≡ some (i, r')
      → IsSound r'
  disconnect-IsSound r cnf a failed now i r' s e =
      OnSome-some (λ (p : ℕ × Router F). IsSound p.1) (disconnect-OnSome r cnf a failed now s) e
