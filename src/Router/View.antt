-- ===== src/Router/View.antt =====
-- The router as a map of addresses to weights, and what a change of a destination does to it.
use mathlib.Core.Option.{some-injective}
use glb.Common.{
  ℕ, zero, suc, ◌≡◌, inl, inr, refl, sym, ap, subst, ◌∙◌, true, false, Option, none, some, List, [],
  ◌∷◌, ◌++◌, get_elem?, set, All, All-get, All-unsnoc, arith, Bool-cases, if◌then◌else◌,
}
use glb.SockAddr.{SockAddr, sockaddr_is_equal, sockaddr_is_equal_iff}
use glb.Dst.{Dst, dst_is_equal}
use glb.Router.Sound.{Core, Distinct}
use glb.Router.Remove.{dst_is_equal_comm, All-differ-last}

module _ {F : Type 0} where
  -- The weight of the destination with an address.
  abbrev pub view : List (Core F) → SockAddr → Option F
  view [] a = none
  view (c ∷ cs) a =
      let rest = view cs a in if sockaddr_is_equal a c.dst.addr then some c.dst.weight else rest

  -- No destination equals `d`.
  abbrev pub Absent : Dst F → List (Core F) → Type 0
  Absent d = All λ c. dst_is_equal d c.dst ≡ false

  pub view-Absent : (d : Dst F) (cs : List (Core F)) → Absent d cs → view cs d.addr ≡ none
  unfolding dst_is_equal
  view-Absent d [] h = refl
  view-Absent d (c ∷ cs) h = rw h.0 (view-Absent d cs h.1)

  pub Absent-comm :
      (d : Dst F) (cs : List (Core F)) → All (λ c. dst_is_equal c.dst d ≡ false) cs → Absent d cs
  Absent-comm d [] h = tt
  Absent-comm d (c ∷ cs) h = (dst_is_equal_comm d c.dst ∙ h.0, Absent-comm d cs h.1)

  -- The only destination with its address is the one that is seen.
  pub view-get :
      (cs : List (Core F)) (i : ℕ) (c : Core F)
      → Distinct cs
      → get_elem? cs i ≡ some c
      → view cs c.dst.addr ≡ some c.dst.weight
  unfolding dst_is_equal sockaddr_is_equal
  view-get [] i c h e = absurd (ground arith)
  view-get (k ∷ cs) zero c h e =
      let same : sockaddr_is_equal k.dst.addr k.dst.addr ≡ true = ground arith in
      subst (λ (x : Core F). view (k ∷ cs) x.dst.addr ≡ some x.dst.weight) (some-injective k c e)
        (ap (λ b. if b then some k.dst.weight else view cs k.dst.addr) same)
  view-get (k ∷ cs) (suc i) c h e =
      let apart : dst_is_equal k.dst c.dst ≡ false =
        All-get (λ x. dst_is_equal k.dst x.dst ≡ false) cs i c h.0 e in
      let apart' : sockaddr_is_equal c.dst.addr k.dst.addr ≡ false =
        dst_is_equal_comm c.dst k.dst ∙ apart in
      ap (λ b. if b then some k.dst.weight else view cs c.dst.addr) apart' ∙ view-get cs i c h.1 e

  pub view-append :
      (cs : List (Core F)) (c : Core F) (a : SockAddr)
      → view cs a ≡ none
      → view (cs ++ c ∷ []) a ≡ view (c ∷ []) a
  view-append [] c a h = refl
  view-append (k ∷ cs) c a h = elim (Bool-cases (sockaddr_is_equal a k.dst.addr)) [
    | inl e ↦ absurd (ground (arith, e, h))
    | inr e ↦ rw e (view-append cs c a (rw e at h))
  ]

  -- Entries with other addresses do not matter.
  pub view-append_other :
      (cs : List (Core F)) (c : Core F) (a : SockAddr)
      → sockaddr_is_equal a c.dst.addr ≡ false
      → view (cs ++ c ∷ []) a ≡ view cs a
  view-append_other [] c a h = rw h refl
  view-append_other (k ∷ cs) c a h =
      ap (λ v. if sockaddr_is_equal a k.dst.addr then some k.dst.weight else v)
        (view-append_other cs c a h)

  pub view-set_other :
      (cs : List (Core F)) (i : ℕ) (k c : Core F) (a : SockAddr)
      → get_elem? cs i ≡ some k
      → sockaddr_is_equal a k.dst.addr ≡ false
      → sockaddr_is_equal a c.dst.addr ≡ false
      → view (set cs i c) a ≡ view cs a
  view-set_other [] i k c a e n m = refl
  view-set_other (x ∷ cs) zero k c a e n m =
      let n' =
        subst (λ (y : Core F). sockaddr_is_equal a y.dst.addr ≡ false) (sym (some-injective x k e))
          n in
      rw (m, n') refl
  view-set_other (x ∷ cs) (suc i) k c a e n m =
      ap (λ v. if sockaddr_is_equal a x.dst.addr then some x.dst.weight else v)
        (view-set_other cs i k c a e n m)

  -- Moving the last entry over another removes that one.
  pub Absent-move :
      (l d : Core F) (cs : List (Core F)) (i : ℕ)
      → Distinct (cs ++ l ∷ [])
      → get_elem? (cs ++ l ∷ []) i ≡ some d
      → Absent d.dst (set cs i l)
  Absent-move l d [] i h e = tt
  Absent-move l d (k ∷ cs) zero h e =
      let (hs, p) = All-unsnoc (λ c. dst_is_equal k.dst c.dst ≡ false) cs l h.0 in
      subst (λ (x : Core F). Absent x.dst (l ∷ cs)) (some-injective k d e) (p, hs)
  Absent-move l d (k ∷ cs) (suc i) h e =
      let apart = All-get (λ c. dst_is_equal k.dst c.dst ≡ false) (cs ++ l ∷ []) i d h.0 e in
      (dst_is_equal_comm d.dst k.dst ∙ apart, Absent-move l d cs i h.1 e)

  -- The last entry may as well stand first.
  view-rotate :
      (l : Core F) (cs : List (Core F)) (a : SockAddr)
      → Distinct (cs ++ l ∷ [])
      → view (l ∷ cs) a ≡ view (cs ++ l ∷ []) a
  view-rotate l cs a h = elim (Bool-cases (sockaddr_is_equal a l.dst.addr)) [
    | inr e ↦ rw e (sym (view-append_other cs l a e))
    | inl e ↦
        let own : l.dst.addr ≡ a = sym ((sockaddr_is_equal_iff a l.dst.addr).0 e) in
        let absent : view cs a ≡ none =
          subst (λ x. view cs x ≡ none) own (view-Absent l.dst cs (All-differ-last l cs h)) in
        ap (λ b. if b then some l.dst.weight else view cs a) e
        ∙ sym (view-append cs l a absent ∙ ap (λ b. if b then some l.dst.weight else none) e)
  ]

  pub view-move_other :
      (l d : Core F) (cs : List (Core F)) (i : ℕ) (a : SockAddr)
      → Distinct (cs ++ l ∷ [])
      → get_elem? (cs ++ l ∷ []) i ≡ some d
      → sockaddr_is_equal a d.dst.addr ≡ false
      → view (set cs i l) a ≡ view (cs ++ l ∷ []) a
  view-move_other l d [] zero a h e n =
      let n' =
        subst (λ (y : Core F). sockaddr_is_equal a y.dst.addr ≡ false) (sym (some-injective l d e))
          n in
      rw n' refl
  view-move_other l d [] (suc i) a h e n = absurd (ground arith)
  view-move_other l d (k ∷ cs) zero a h e n =
      let n' =
        subst (λ (y : Core F). sockaddr_is_equal a y.dst.addr ≡ false) (sym (some-injective k d e))
          n in
      rw n' (view-rotate l cs a h.1)
  view-move_other l d (k ∷ cs) (suc i) a h e n =
      ap (λ v. if sockaddr_is_equal a k.dst.addr then some k.dst.weight else v)
        (view-move_other l d cs i a h.1 e n)
