-- ===== src/Router/Attempts.antt =====
-- The loop of a synchronous connection: the connections that it leaves on the router.
use glb.Common.{
  Option, none, false, if_split, ◌<◌, ◌≢◌, ◌⊎◌, ◌==◌, length, get_elem?-none, get_elem?-lt,
  get_elem?-set_self, ℕ, ◌+◌, ◌≡◌, inl, inr, ap, subst, ◌∙◌, true, some, List, [], ◌∷◌, get_elem?,
  arith, Bool-cases, Option-cases, OnSome, OnSome-some,
}
use glb.Double.{Double}
use glb.Cnf.{Cnf}
use glb.Router.State.{RouterDst, Router, router_update_ctx}
use glb.Router.Choose.{
  World, Choice, set_dst, count_conn, choose_by_policy, refresh_top, choose_dst,
}
use glb.Router.Disconnect.{drop_conn}
use glb.Router.Sound.{InRange, Kept, IsSound, Kept-IsSound, length-Kept}
use glb.Router.Policy.{dst_failed-Kept, choose_by_policy-IsChosen, refresh-Kept}
use glb.Router.Chosen.{IsChosen}
use glb.Router.Invariant.{choose_dst-IsSound, drop_conn-Dropped}
use glb.Router.Again.{choose_dst-Counted, drop_conn-Left}
use glb.Router.Connect.{Connecting, Attempt, connect_failed, connect_dst}

-- One of the attempts succeeds, if it is made.
abbrev Succeeds : List Attempt → Type 0
Succeeds [] = ⊥
Succeeds (a ∷ rest) = (a.connects ≡ true) ⊎ Succeeds rest

module _ {F : Type 0} ⦃fp : Double F⦄ where
  -- A sound router with one connection less.
  abbrev pub Undone : Router F → Router F → Type 0
  Undone r r' = IsSound r' × (r'.conns + 1 ≡ r.conns)

  pub connect_failed-Undone :
      (r : Router F) (cnf : Cnf F) (now i : ℕ)
      → IsSound r
      → OnSome (Undone r) (connect_failed r cnf now i)
  unfolding connect_failed
  connect_failed-Undone r cnf now i s = elim (Option-cases (get_elem? r.dst i)) [
    | inl e ↦ rw (e, connect_failed) tt
    | inr (d, e) ↦ elim (Option-cases (drop_conn r i d)) [
      | inl f ↦ rw (e, f, connect_failed) tt
      | inr ((d', r'), f) ↦
          let dropped =
            OnSome-some
              (λ (p : RouterDst F × Router F). IsSound p.1 × (get_elem? p.1.dst i ≡ some p.0))
              (drop_conn-Dropped r i d e s) f in
          let left =
            OnSome-some
              (λ (p : RouterDst F × Router F).
                (p.1.conns + 1 ≡ r.conns) × (get_elem? p.1.dst i ≡ some p.0))
              (drop_conn-Left r cnf true now i d e s) f in
          let k = dst_failed-Kept r' cnf now i d' dropped.1 in
          rw (e, f, connect_failed)
            (Kept-IsSound k dropped.0, ap (λ n. n + 1) k.conns_kept ∙ left.0)
    ]
  ]

  -- The router is sound, and has one connection more than `n` where one was made.
  abbrev pub Settled : ℕ → Connecting × Router F → Type 0
  Settled n (Connecting.connected i, r) = IsSound r × (r.conns ≡ n + 1)
  Settled n (Connecting.host_down, r) = IsSound r × (r.conns ≡ n)
  Settled n (_, r) = ⊥

  connect_dst-OnSome :
      (attempts : List Attempt) (r : Router F) (cnf : Cnf F) (hint : ℕ)
      → IsSound r
      → OnSome (Settled r.conns) (connect_dst attempts r cnf hint)
  unfolding connect_dst
  connect_dst-OnSome [] r cnf hint s = tt
  connect_dst-OnSome (a ∷ rest) r cnf hint s =
      let r' = (choose_dst r hint cnf a.world).1 in
      let s' = choose_dst-IsSound r hint cnf a.world s in
      elim (choose_dst-Counted r hint cnf a.world s) [
        | inl (e, n) ↦ rw (e, connect_dst) (s', n)
        | inr (i, (e, n)) ↦ elim (Bool-cases a.connects) [
          | inl c ↦ rw (e, c, connect_dst) (s', n)
          | inr c ↦ elim (Option-cases (connect_failed r' cnf a.later i)) [
            | inl f ↦ rw (e, c, f, connect_dst) tt
            | inr (r'', f) ↦
                let undone =
                  OnSome-some (Undone r') (connect_failed-Undone r' cnf a.later i s') f in
                let same : r''.conns ≡ r.conns = omega (arith, undone.1, n) in
                rw (e, c, f, connect_dst)
                  (subst (λ k. OnSome (Settled k) (connect_dst rest r'' cnf hint)) same
                    (connect_dst-OnSome rest r'' cnf hint undone.0))
          ]
        ]
      ]

  -- A synchronous request that comes to an end, after however many failed attempts, leaves a sound
  -- router that has one connection more than before if a connection was made, and as many as before
  -- if no destination was left.
  pub connect_dst-Settled :
      (attempts : List Attempt) (r : Router F) (cnf : Cnf F) (hint : ℕ) (c : Connecting × Router F)
      → IsSound r
      → connect_dst attempts r cnf hint ≡ some c
      → Settled r.conns c
  connect_dst-Settled attempts r cnf hint c s e =
      OnSome-some (Settled r.conns) (connect_dst-OnSome attempts r cnf hint s) e

  -- The chosen destination has a connection.
  abbrev HasConn : Choice F → Type 0
  HasConn c = OnSome (λ i. (d : RouterDst F) × (get_elem? c.1.dst i ≡ some d) × (0 < d.conns)) c.0

  count_conn-HasConn :
      (o : Option ℕ) (r : Router F) → InRange o (length r.dst) → HasConn (count_conn (o, r))
  unfolding count_conn set_dst
  count_conn-HasConn none r h = tt
  count_conn-HasConn (some i) r h = elim (Option-cases (get_elem? r.dst i)) [
    | inl e ↦ absurd (omega (arith, get_elem?-none r.dst i e))
    | inr (d, e) ↦
        rw (e, count_conn) (_, get_elem?-set_self r.dst i _ (get_elem?-lt r.dst i d e), omega arith)
  ]

  choose_dst-HasConn :
      (r : Router F) (hint : ℕ) (cnf : Cnf F) (w : World)
      → IsSound r
      → HasConn (choose_dst r hint cnf w)
  unfolding choose_dst
  choose_dst-HasConn r hint cnf w s =
      let ready = refresh_top (router_update_ctx r cnf w.now) cnf in
      let k : Kept r ready = refresh-Kept r cnf w.now in
      let c = choose_by_policy cnf.policy ready hint cnf w in
      let chosen : IsChosen ready c =
        choose_by_policy-IsChosen cnf.policy ready hint cnf w (Kept-IsSound k s).top in
      count_conn-HasConn c.0 c.1 (rw (length-Kept chosen.kept) chosen.range)

  drop_conn-returns :
      (r : Router F) (i : ℕ) (d : RouterDst F) → 0 < d.conns → drop_conn r i d ≢ none
  unfolding drop_conn
  drop_conn-returns r i d c =
      if_split (λ (o : Option (RouterDst F × Router F)). o ≢ none) (d.conns == 0) _ _
        (λ z. absurd (ground arith)) (λ _ h. ground arith)

  connect_failed-returns :
      (r : Router F) (cnf : Cnf F) (now i : ℕ) (d : RouterDst F)
      → get_elem? r.dst i ≡ some d
      → 0 < d.conns
      → connect_failed r cnf now i ≢ none
  unfolding connect_failed
  connect_failed-returns r cnf now i d e c = elim (Option-cases (drop_conn r i d)) [
    | inl f ↦ absurd (drop_conn-returns r i d c f)
    | inr (p, f) ↦ rw (e, f, connect_failed) (λ h. ground arith)
  ]

  -- On a sound router, the loop of a synchronous request comes to an end, and no assertion fails,
  -- within attempts one of which succeeds.
  pub connect_dst-returns :
      (attempts : List Attempt) (r : Router F) (cnf : Cnf F) (hint : ℕ)
      → IsSound r
      → Succeeds attempts
      → connect_dst attempts r cnf hint ≢ none
  unfolding connect_dst
  connect_dst-returns [] r cnf hint s h = absurd h
  connect_dst-returns (a ∷ rest) r cnf hint s h =
      let c = choose_dst r hint cnf a.world in
      let r' = c.1 in
      let s' = choose_dst-IsSound r hint cnf a.world s in
      elim (Option-cases c.0) [
        | inl e ↦ rw (e, connect_dst) (λ q. ground arith)
        | inr (i, e) ↦ elim (Bool-cases a.connects) [
          | inl t ↦ rw (e, t, connect_dst) (λ q. ground arith)
          | inr t ↦ elim (Option-cases (connect_failed r' cnf a.later i)) [
            | inl f ↦
                let (d, g, n) =
                  OnSome-some
                    (λ j. (d : RouterDst F) × (get_elem? r'.dst j ≡ some d) × (0 < d.conns))
                    (choose_dst-HasConn r hint cnf a.world s) e in
                absurd (connect_failed-returns r' cnf a.later i d g n f)
            | inr (r'', f) ↦
                let undone =
                  OnSome-some (Undone r') (connect_failed-Undone r' cnf a.later i s') f in
                rw (e, t, f, connect_dst)
                  (connect_dst-returns rest r'' cnf hint undone.0 (later t h))
          ]
        ]
      ]
    where
      later : a.connects ≡ false → Succeeds (a ∷ rest) → Succeeds rest
      later t (inl c) = absurd (ground (arith, c, t))
      later t (inr k) = k
