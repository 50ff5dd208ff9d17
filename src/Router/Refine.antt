-- ===== src/Router/Refine.antt =====
-- A change of a destination, seen as a change of the map of addresses to weights.
use mathlib.Core.Option.{some-injective}
use glb.Common.{
  ℕ, suc, ◌+◌, ◌≡◌, ◌⊎◌, inl, inr, refl, sym, ap, subst, ◌∙◌, Bool, true, false, Option, none, some,
  List, [], ◌∷◌, ◌++◌, length, get_elem?, get_elem?-lt, get_elem?-set_self, set, length-append,
  arith, Bool-cases, Option-cases, OnSome, OnSome-some, if_split, if◌then◌else◌,
}
use glb.Double.{Double}
use glb.SockAddr.{SockAddr, sockaddr_is_equal, sockaddr_is_equal_iff}
use glb.Dst.{Dst, dst_is_equal}
use glb.Cnf.{Cnf}
use glb.Router.State.{RouterDst, Router}
use glb.Router.Choose.{set_dst}
use glb.Router.Change.{
  Alloc, Result, find_dst, remove_at, remove_dst, new_dst, add_dst, update_weight, settle,
  change_known, change_unknown, change_dst,
}
use glb.Router.Sound.{core, cores, Distinct, IsSound}
use glb.Router.Invariant.{get-cores, cores-set_lem}
use glb.Router.Remove.{snoc_view, remove_at-snoc, cores-append}
use glb.Router.ChangeInvariant.{find_dst-none, settle-Kept, update_weight-IsSound}
use glb.Router.View.{
  view, Absent, view-Absent, Absent-comm, view-get, view-append, view-append_other, view-set_other,
  Absent-move, view-move_other,
}

module _ {F : Type 0} where
  -- The destination that is found is in its place and has the address.
  abbrev Found : Dst F → ℕ → List (RouterDst F) → ℕ → Type 0
  Found dst i ds j =
      (k : ℕ) × (d : RouterDst F) × (j ≡ i + k)
      × (get_elem? ds k ≡ some d)
      × (dst_is_equal d.dst dst ≡ true)

  find_dst-Found :
      (dst : Dst F) (i : ℕ) (ds : List (RouterDst F)) → OnSome (Found dst i ds) (find_dst dst i ds)
  unfolding find_dst
  find_dst-Found dst i [] = tt
  find_dst-Found dst i (d ∷ ds) =
      if_split (OnSome (Found dst i (d ∷ ds))) (dst_is_equal d.dst dst) _ _
        (λ e. (0, d, omega arith, refl, e))
        (λ e. later (find_dst dst (suc i) ds) (find_dst-Found dst (suc i) ds))
    where
      later : (o : Option ℕ) → OnSome (Found dst (suc i) ds) o → OnSome (Found dst i (d ∷ ds)) o
      later none h = tt
      later (some j) (k, x, e, g, q) = (suc k, x, omega arith, g, q)

  found_addr :
      (dst : Dst F) (ds : List (RouterDst F)) (i : ℕ) (d : RouterDst F)
      → find_dst dst 0 ds ≡ some i
      → get_elem? ds i ≡ some d
      → d.dst.addr ≡ dst.addr
  unfolding dst_is_equal
  found_addr dst ds i d f g =
      let (k, x, e, h, q) = OnSome-some (Found dst 0 ds) (find_dst-Found dst 0 ds) f in
      let at : i ≡ k = omega arith in
      let same : x ≡ d = some-injective x d (sym h ∙ ap (get_elem? ds) (sym at) ∙ g) in
      ap (λ (y : RouterDst F). y.dst.addr) (sym same)
      ∙ (sockaddr_is_equal_iff x.dst.addr dst.addr).0 q

module _ {F : Type 0} ⦃fp : Double F⦄ where
  open fp use {nought, lt, eq}

  -- The weight is there, as given or equal to it as a number.
  abbrev pub SameWeight : F → Option F → Type 0
  SameWeight w none = ⊥
  SameWeight w (some w') = (w' ≡ w) ⊎ (eq w' w ≡ true)

  -- The destination that was changed: it is gone, or has the weight.
  abbrev pub Own : Bool → F → Option F → Type 0
  Own true w v = v ≡ none
  Own false w v = SameWeight w v

  -- What the map after a change holds for an address, which is that of the changed destination or not.
  abbrev pub After : Bool → Dst F → Router F → Router F → SockAddr → Type 0
  After true dst r r' a = Own (lt dst.weight nought) dst.weight (view (cores r'.dst) a)
  After false dst r r' a = view (cores r'.dst) a ≡ view (cores r.dst) a

  record Changed (dst : Dst F) (r r' : Router F) : Type 0 where
    own : Own (lt dst.weight nought) dst.weight (view (cores r'.dst) dst.addr)
    others :
        (a : SockAddr)
        → sockaddr_is_equal a dst.addr ≡ false
        → view (cores r'.dst) a ≡ view (cores r.dst) a

  Changed-After :
      (dst : Dst F) (r r' : Router F) (a : SockAddr)
      → Changed dst r r'
      → After (sockaddr_is_equal a dst.addr) dst r r' a
  Changed-After dst r r' a c = elim (Bool-cases (sockaddr_is_equal a dst.addr)) [
    | inr e ↦ subst (λ b. After b dst r r' a) (sym e) (c.others a e)
    | inl e ↦
        subst (λ b. After b dst r r' a) (sym e)
          (subst (λ x. Own (lt dst.weight nought) dst.weight (view (cores r'.dst) x))
            (sym ((sockaddr_is_equal_iff a dst.addr).0 e)) c.own)
  ]

  settle-Changed :
      (dst : Dst F) (r r' : Router F) (cnf : Cnf F) (now : ℕ)
      → Changed dst r r'
      → Changed dst r (settle r' cnf now)
  settle-Changed dst r r' cnf now c =
      let k = (settle-Kept r' cnf now).cores_kept in
      record {
        own = subst (λ cs. Own (lt dst.weight nought) dst.weight (view cs dst.addr)) (sym k) c.own;
        others = λ a e. ap (λ cs. view cs a) k ∙ c.others a e;
      }

  add-Changed :
      (r : Router F) (dst : Dst F) (ctx : Option ℕ) (a : Alloc F)
      → Absent dst (cores r.dst)
      → lt dst.weight nought ≡ false
      → Changed dst r (add_dst r dst ctx a)
  unfolding add_dst new_dst
  add-Changed r dst ctx a h n =
      let new = new_dst dst ctx a in
      let e = cores-append r.dst new in
      let same : sockaddr_is_equal dst.addr dst.addr ≡ true =
        (sockaddr_is_equal_iff dst.addr dst.addr).1 refl in
      let seen : view (cores (r.dst ++ new ∷ [])) dst.addr ≡ some dst.weight =
        ap (λ cs. view cs dst.addr) e
        ∙ view-append (cores r.dst) (core new) dst.addr (view-Absent dst (cores r.dst) h)
        ∙ ap (λ b. if b then some dst.weight else none) same in
      record {
        own = rw (n, seen) (inl refl);
        others = λ x q. ap (λ cs. view cs x) e ∙ view-append_other (cores r.dst) (core new) x q;
      }

  remove-Changed :
      (r : Router F) (dst : Dst F) (i : ℕ) (d : RouterDst F)
      → get_elem? r.dst i ≡ some d
      → d.dst.addr ≡ dst.addr
      → lt dst.weight nought ≡ true
      → IsSound r
      → Changed dst r (remove_dst r i d)
  unfolding remove_dst
  remove-Changed r dst i d g q n s =
      let bound = get_elem?-lt r.dst i d g in
      let (xs, l, p) = snoc_view r.dst (omega arith) in
      let e : remove_at r.dst i ≡ set xs i l =
        ap (λ ds. remove_at ds i) p
        ∙ remove_at-snoc xs l i (omega (arith, ap length p, length-append xs (l ∷ []))) in
      let after : cores (remove_at r.dst i) ≡ set (cores xs) i (core l) =
        ap cores e ∙ cores-set_lem xs i l in
      let before : cores r.dst ≡ cores xs ++ core l ∷ [] = ap cores p ∙ cores-append xs l in
      let distinct = subst Distinct before s.counted.distinct in
      let at : get_elem? (cores xs ++ core l ∷ []) i ≡ some (core d) =
        ap (λ cs. get_elem? cs i) (sym before) ∙ get-cores r.dst i d g in
      let gone : view (cores (remove_at r.dst i)) dst.addr ≡ none =
        ap (λ cs. view cs dst.addr) after
        ∙ subst (λ x. view (set (cores xs) i (core l)) x ≡ none) q
            (view-Absent d.dst (set (cores xs) i (core l))
              (Absent-move (core l) (core d) (cores xs) i distinct at)) in
      record {
        own = rw n gone;
        others = λ x m.
            ap (λ cs. view cs x) after
            ∙ view-move_other (core l) (core d) (cores xs) i x distinct at
                (ap (sockaddr_is_equal x) q ∙ m)
            ∙ ap (λ cs. view cs x) (sym before);
      }

  seen_at :
      (r : Router F) (i : ℕ) (d : RouterDst F)
      → get_elem? r.dst i ≡ some d
      → IsSound r
      → view (cores r.dst) d.dst.addr ≡ some d.dst.weight
  seen_at r i d g s = view-get (cores r.dst) i (core d) s.counted.distinct (get-cores r.dst i d g)

  update-Changed :
      (r : Router F) (dst : Dst F) (i : ℕ) (d : RouterDst F)
      → get_elem? r.dst i ≡ some d
      → d.dst.addr ≡ dst.addr
      → lt dst.weight nought ≡ false
      → IsSound r
      → Changed dst r (update_weight r i d dst.weight)
  unfolding update_weight set_dst
  update-Changed r dst i d g q n s =
      let r' = update_weight r i d dst.weight in
      let placed = get_elem?-set_self r.dst i _ (get_elem?-lt r.dst i d g) in
      let seen : view (cores r'.dst) d.dst.addr ≡ some dst.weight =
        seen_at r' i _ placed (update_weight-IsSound r i d dst.weight g s) in
      record {
        own =
            rw n
              (subst (λ x. SameWeight dst.weight (view (cores r'.dst) x)) q (rw seen (inl refl)));
        others = λ x m.
            let m' = ap (sockaddr_is_equal x) q ∙ m in
            ap (λ cs. view cs x) (cores-set_lem r.dst i _)
            ∙ view-set_other (cores r.dst) i (core d) _ x (get-cores r.dst i d g) m' m';
      }

  known-Changed :
      (r : Router F) (cnf : Cnf F) (dst : Dst F) (a : Alloc F) (i : ℕ) (d : RouterDst F)
      → get_elem? r.dst i ≡ some d
      → d.dst.addr ≡ dst.addr
      → IsSound r
      → Changed dst r (change_known r cnf dst a i d).1
  unfolding change_known
  known-Changed r cnf dst a i d g q s =
      let P = (λ (o : Result ℕ × Router F). Changed dst r o.1) in
      if_split P (lt dst.weight nought) _ _
        (λ n. settle-Changed dst r (remove_dst r i d) cnf a.now (remove-Changed r dst i d g q n s))
        (λ n.
          if_split P (eq d.dst.weight dst.weight) _ _
            (λ same. record {
              own = rw n (
                  subst (λ x. SameWeight dst.weight (view (cores r.dst) x)) q
                    (rw (seen_at r i d g s) (inr same)));
              others = λ x m. refl;
            })
            (λ _.
              settle-Changed dst r (update_weight r i d dst.weight) cnf a.now
                (update-Changed r dst i d g q n s)))

  unknown-Changed :
      (r : Router F) (cnf : Cnf F) (dst : Dst F) (ctx : Option ℕ) (a : Alloc F)
      → Absent dst (cores r.dst)
      → a.realloc ≡ true
      → Changed dst r (change_unknown r cnf dst ctx a).1
  unfolding change_unknown
  unknown-Changed r cnf dst ctx a h m =
      let P = (λ (o : Result ℕ × Router F). Changed dst r o.1) in
      if_split P (lt dst.weight nought) _ _
        (λ n. record { own = rw n (view-Absent dst (cores r.dst) h); others = λ x q. refl })
        (λ n.
          if_split P a.realloc _ _
            (λ _.
              settle-Changed dst r (add_dst r dst ctx a) cnf a.now (add-Changed r dst ctx a h n))
            (λ f. absurd (ground (arith, f, m))))

  change_dst-Changed :
      (r : Router F) (cnf : Cnf F) (dst : Dst F) (ctx : Option ℕ) (a : Alloc F)
      → IsSound r
      → a.realloc ≡ true
      → Changed dst r (change_dst r cnf dst ctx a).1
  unfolding change_dst
  change_dst-Changed r cnf dst ctx a s m = elim (Option-cases (find_dst dst 0 r.dst)) [
    | inl e ↦
        rw (e, change_dst)
          (unknown-Changed r cnf dst ctx a
            (Absent-comm dst (cores r.dst) (find_dst-none dst 0 r.dst e)) m)
    | inr (i, e) ↦ elim (Option-cases (get_elem? r.dst i)) [
      | inl f ↦
          let (k, x, at, h, q) = OnSome-some (Found dst 0 r.dst) (find_dst-Found dst 0 r.dst) e in
          let at' : i ≡ k = omega arith in
          let there : get_elem? r.dst i ≡ some x = ap (get_elem? r.dst) at' ∙ h in
          absurd (ground (arith, f, there))
      | inr (d, f) ↦
          rw (e, change_dst, f) (known-Changed r cnf dst a i d f (found_addr dst r.dst i d e f) s)
    ]
  ]

  -- Seen as a map of addresses to weights, a sound router implements a change of a destination:
  -- where memory is found, afterwards the address of the destination is not in the map if the
  -- weight is negative, and has the weight (or one equal to it as a number) if not, whether or not
  -- it was in the map before; every other address has what it had.
  pub change_dst-After :
      (r : Router F) (cnf : Cnf F) (dst : Dst F) (ctx : Option ℕ) (a : Alloc F) (addr : SockAddr)
      → IsSound r
      → a.realloc ≡ true
      → After (sockaddr_is_equal addr dst.addr) dst r (change_dst r cnf dst ctx a).1 addr
  change_dst-After r cnf dst ctx a addr s m =
      Changed-After dst r (change_dst r cnf dst ctx a).1 addr
        (change_dst-Changed r cnf dst ctx a s m)
