-- ===== src/Router/Stale.antt =====
-- src/glb_router.c: a change that had to wait, `glb_router_change_dst` from the end of the wait on. The
-- destination was looked up before the wait, and the assertion tests that it is still unknown.
use glb.Common.{
  ℕ, ◌+◌, ◌==◌, ◌≡◌, ◌∙◌, ap, true, false, Option, none, some, [], ◌∷◌, length-append, arith,
  get_elem?, Option-cases, inl, inr, option_at_none, option_at_some, not, if_at_true, if_at_false,
  if_split, if◌then◌else◌, sym,
}
use mathlib.Core.Option.{some-injective}
use glb.Double.{Double}
use glb.Dst.{Dst}
use glb.Cnf.{Cnf}
use glb.Router.State.{Router, n_dst}
use glb.Router.Change.{
  Alloc, Result, find_dst, change_dst, change_known, change_unknown, new_dst, add_dst, remove_dst,
  settle,
}
use glb.Router.Check.{is_none}
use glb.Router.Sound.{length-Kept}
use glb.Router.ChangeInvariant.{settle-Kept}

module _ {F : Type 0} ⦃fp : Double F⦄ where
  -- An unknown destination is added; `i` is the number of destinations when it was looked up.
  unfoldable pub late_add : Router F → Cnf F → ℕ → Dst F → Option ℕ → Alloc F → Option (Router F)
  unfolding add_dst settle
  late_add router cnf i dst probe_ctx a =
      if i == n_dst router
      then some (settle (if a.realloc then add_dst router dst probe_ctx a else router) cnf a.now)
      else none

  -- A change that was looked up before the wait, with what was found then: the index of the destination,
  -- or none; and how many destinations there were.
  unfoldable pub late_change :
      Router F → Cnf F → Option ℕ → ℕ → Dst F → Option ℕ → Alloc F → Option (Router F)
  unfolding late_add remove_dst settle
  late_change router cnf found n dst probe_ctx a = elim found [
    | none ↦ late_add router cnf n dst probe_ctx a
    | some i ↦ elim (get_elem? router.dst i) [
      | none ↦ none
      | some d ↦ some (settle (remove_dst router i d) cnf a.now)
    ]
  ]

  late_add-length :
      (r : Router F) (cnf : Cnf F) (d : Dst F) (ctx : Option ℕ) (a : Alloc F)
      → n_dst (settle (add_dst r d ctx a) cnf a.now) ≡ n_dst r + 1
  unfolding add_dst
  late_add-length r cnf d ctx a =
      length-Kept (settle-Kept (add_dst r d ctx a) cnf a.now)
      ∙ length-append r.dst (new_dst d ctx a ∷ [])

  -- If nothing came in between, the change is what it would have been without the wait.
  late_add_alone :
      (r : Router F) (cnf : Cnf F) (d : Dst F) (c : Option ℕ) (a : Alloc F)
      → fp.lt d.weight fp.nought ≡ false
      → late_add r cnf (n_dst r) d c a ≡ some (change_unknown r cnf d c a).1
  unfolding late_add change_unknown
  late_add_alone r cnf d c a w =
      let counted : (n_dst r == n_dst r) ≡ true = ground arith in
      if_at_true _ none counted
      ∙ ap some (
          if_split
            (λ (b : Result ℕ × Router F).
              settle (if a.realloc then add_dst r d c a else r) cnf a.now ≡ b.1)
            a.realloc _ _ (λ m. ap (λ q. settle q cnf a.now) (if_at_true (add_dst r d c a) r m))
            (λ m. ap (λ q. settle q cnf a.now) (if_at_false (add_dst r d c a) r m))
          ∙ ap (λ (p : Result ℕ × Router F). p.1) (sym (if_at_false _ _ w)))

  -- The same for what was found before the wait, if it is still there: a destination that is to be added
  -- has no negative weight, and one to be removed has one.
  pub late_change-fresh :
      (r r' : Router F) (cnf : Cnf F) (found : Option ℕ) (d : Dst F) (c : Option ℕ) (a : Alloc F)
      → find_dst d 0 r.dst ≡ found
      → is_none found ≡ not (fp.lt d.weight fp.nought)
      → late_change r cnf found (n_dst r) d c a ≡ some r'
      → (change_dst r cnf d c a).1 ≡ r'
  unfolding late_change change_dst change_known
  late_change-fresh r r' cnf none d c a e w h =
      ap (λ (p : Result ℕ × Router F). p.1) (option_at_none _ _ e)
      ∙ some-injective _ _ (sym (late_add_alone r cnf d c a (ground (arith, w))) ∙ h)
  late_change-fresh r r' cnf (some i) d c a e w h = elim (Option-cases (get_elem? r.dst i)) [
    | inl f ↦ absurd (cc (sym (option_at_none _ _ f) ∙ h))
    | inr (x, f) ↦
        let gone : fp.lt d.weight fp.nought ≡ true = ground (arith, w) in
        ap (λ (p : Result ℕ × Router F). p.1)
          (option_at_some _ _ e ∙ (option_at_some _ _ f ∙ if_at_true _ _ gone))
        ∙ some-injective _ _ (sym (option_at_some _ _ f) ∙ h)
  ]

  -- Two callers that wait to add a destination each, of whatever addresses: if there is memory for the
  -- first, the second one fails its assertion, as the destinations are not those that it counted.
  pub late_add_twice :
      (r r' : Router F) (cnf : Cnf F) (d e : Dst F) (c c' : Option ℕ) (a b : Alloc F)
      → a.realloc ≡ true
      → late_add r cnf (n_dst r) d c a ≡ some r'
      → late_add r' cnf (n_dst r) e c' b ≡ none
  unfolding late_add
  late_add_twice r r' cnf d e c c' a b m h =
      let counted : (n_dst r == n_dst r) ≡ true = ground arith in
      let made : settle (add_dst r d c a) cnf a.now ≡ r' = some-injective _ _ (
        ap (λ q. some (settle q cnf a.now)) (sym (if_at_true (add_dst r d c a) r m))
        ∙ sym (if_at_true _ none counted)
        ∙ h) in
      let one_more : n_dst r' ≡ n_dst r + 1 =
        ap (λ q. n_dst q) (sym made) ∙ late_add-length r cnf d c a in
      let differ : (n_dst r == n_dst r') ≡ false = ground (arith, one_more) in
      if_at_false _ none differ
