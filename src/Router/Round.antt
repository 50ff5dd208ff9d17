-- ===== src/Router/Round.antt =====
-- The policy `round`: every destination is looked at once.
use mathlib.Core.Option.{some-injective}
use native.Mathlib.Nat.{mod-eq_of_lt, mod-add-mod, add-mod_left}
use glb.Common.{
  ℕ, zero, suc, ◌+◌, ◌-◌, ◌%◌, ◌<◌, ◌≡◌, refl, sym, ap, subst, ◌∙◌, ◌⊎◌, inl, inr, Bool, true,
  false, Option, none, some, List, [], ◌∷◌, length, get_elem?, get_elem?-lt, get_elem?-none,
  get_elem?-beyond, set, arith, Bool-cases, Option-cases, if◌then◌else◌, OnSome, OnSome-some, leb,
  leb→le, if_split,
}
use glb.Double.{Double}
use glb.Cnf.{Cnf}
use glb.Router.State.{RouterDst, Router, n_dst, dst_is_good}
use glb.Router.Choose.{World, round_step, round_loop, choose_dst_round}
use glb.Router.Sound.{HasCursor}

module _ {ℓ} {A : Type ℓ} where
  set_same : (xs : List A) (i : ℕ) (a : A) → get_elem? xs i ≡ some a → set xs i a ≡ xs
  set_same [] i a h = refl
  set_same (x ∷ xs) zero a h = ap (λ y. y ∷ xs) (sym (some-injective x a h))
  set_same (x ∷ xs) (suc i) a h = ap (◌∷◌ x) (set_same xs i a h)

-- The index `i` is some number of places after the cursor `c`.
distance : (n c i : ℕ) → c < n → i < n → (t : ℕ) × ((t < n) × ((c + t) % n ≡ i))
distance n c i lc li = elim (Bool-cases (leb c i)) [
  | inl h ↦
      let le = leb→le c i h in
      (i - c, (omega arith, ap (λ k. k % n) (omega arith) ∙ mod-eq_of_lt li))
  | inr h ↦ (
    n - c + i,
    (ground arith, ap (λ k. k % n) (omega arith) ∙ (add-mod_left n i ∙ mod-eq_of_lt li)),
  )
]

module _ {F : Type 0} ⦃fp : Double F⦄ where
  abbrev good : Router F → RouterDst F → Bool
  good r d = dst_is_good d r.ctx.min_weight r.ctx.now r.ctx.retry

  abbrev moved : Router F → Router F
  moved r = record r { rrb_next = (r.rrb_next + 1) % length r.dst }

  -- Without extra checks a step only moves the cursor.
  round_step-unchecked :
      (r : Router F) (cnf : Cnf F) (w : World) (d : RouterDst F)
      → cnf.extra ≡ 0
      → get_elem? r.dst r.rrb_next ≡ some d
      → round_step r cnf w d ≡ (good r d, moved r)
  unfolding round_step
  round_step-unchecked r cnf w d x h = elim (Bool-cases (good r d)) [
    | inl g ↦ rw (g, x) (λ i. (true, record (moved r) { dst = set_same r.dst r.rrb_next d h i }))
    | inr g ↦ rw g
  ]

  -- The destination `t` places after the cursor is not good.
  abbrev Passed : Router F → ℕ → Type 0
  Passed r t = OnSome (λ d. good r d ≡ false) (get_elem? r.dst ((r.rrb_next + t) % length r.dst))

  round_loop-step :
      (k : ℕ) (r : Router F) (cnf : Cnf F) (w : World) (d : RouterDst F)
      → cnf.extra ≡ 0
      → get_elem? r.dst r.rrb_next ≡ some d
      → round_loop (suc k) r cnf w
        ≡ (if good r d then (some r.rrb_next, moved r) else round_loop k (moved r) cnf w)
  unfolding round_loop
  round_loop-step k r cnf w d x h = rw (h, round_loop, round_step-unchecked r cnf w d x h)

  round_loop-beyond :
      (k : ℕ) (r : Router F) (cnf : Cnf F) (w : World)
      → get_elem? r.dst r.rrb_next ≡ none
      → round_loop (suc k) r cnf w ≡ (none, r)
  unfolding round_loop
  round_loop-beyond k r cnf w e = rw (e, round_loop) refl

  moved-HasCursor :
      (r : Router F) (d : RouterDst F) → get_elem? r.dst r.rrb_next ≡ some d → HasCursor (moved r)
  moved-HasCursor r d h = omega (arith, get_elem?-lt r.dst r.rrb_next d h)

  -- An index past all destinations passes none.
  Passed-empty : (r : Router F) (t : ℕ) → length r.dst ≡ 0 → Passed r t
  Passed-empty r t h =
      rw (get_elem?-beyond r.dst ((r.rrb_next + t) % length r.dst) (omega arith)) tt

  Passed-zero :
      (r : Router F) (d : RouterDst F)
      → get_elem? r.dst r.rrb_next ≡ some d
      → good r d ≡ false
      → Passed r 0
  Passed-zero r d h g =
      let n = get_elem?-lt r.dst r.rrb_next d h in
      let here : (r.rrb_next + 0) % length r.dst ≡ r.rrb_next =
        ap (λ k. k % length r.dst) (omega arith) ∙ mod-eq_of_lt n in
      rw (here, h) g

  Passed-suc : (r : Router F) (t : ℕ) → Passed (moved r) t → Passed r (suc t)
  Passed-suc r t p =
      let shift : (r.rrb_next + suc t) % length r.dst
          ≡ ((r.rrb_next + 1) % length r.dst + t) % length r.dst =
        rw mod-add-mod (ap (λ k. k % length r.dst) (omega arith)) in
      rw shift p

  round_loop-none :
      (k : ℕ) (r : Router F) (cnf : Cnf F) (w : World) (t : ℕ)
      → cnf.extra ≡ 0
      → HasCursor r
      → (round_loop k r cnf w).0 ≡ none
      → t < k
      → Passed r t
  round_loop-none zero r cnf w t x c h l = absurd (omega arith)
  round_loop-none (suc k) r cnf w t x c h l = elim (Option-cases (get_elem? r.dst r.rrb_next)) [
    | inl e ↦ Passed-empty r t (omega (arith, get_elem?-none r.dst r.rrb_next e))
    | inr (d, e) ↦
        let step = ap (λ (o : Option ℕ × Router F). o.0) (round_loop-step k r cnf w d x e) in
        elim (Bool-cases (good r d)) [
          | inl g ↦ absurd (cc (h, rw g at step))
          | inr g ↦
              let later = round_loop-none k (moved r) cnf w in
              pass d e g t (λ t' l'. later t' x (moved-HasCursor r d e) (sym (rw g at step) ∙ h) l')
                l
        ]
  ]
    where
      pass :
          (d : RouterDst F)
          → get_elem? r.dst r.rrb_next ≡ some d
          → good r d ≡ false
          → (t : ℕ) → ((t' : ℕ) → t' < k → Passed (moved r) t')
          → t < suc k
          → Passed r t
      pass d e g zero later l = Passed-zero r d e g
      pass d e g (suc t) later l = Passed-suc r t (later t (omega arith))

  abbrev GoodIndex : Router F → ℕ → Type 0
  GoodIndex r i = (d : RouterDst F) × (get_elem? r.dst i ≡ some d) × (good r d ≡ true)

  abbrev FoundGood : Router F → Option ℕ → Type 0
  FoundGood r = OnSome (GoodIndex r)

  round_loop-some :
      (k : ℕ) (r : Router F) (cnf : Cnf F) (w : World)
      → cnf.extra ≡ 0
      → FoundGood r (round_loop k r cnf w).0
  round_loop-some zero r cnf w x = unfold round_loop in tt
  round_loop-some (suc k) r cnf w x = elim (Option-cases (get_elem? r.dst r.rrb_next)) [
    | inl e ↦
        subst (λ (o : Option ℕ × Router F). FoundGood r o.0) (sym (round_loop-beyond k r cnf w e))
          tt
    | inr (d, e) ↦
        subst (λ (o : Option ℕ × Router F). FoundGood r o.0) (sym (round_loop-step k r cnf w d x e))
          (if_split (λ (o : Option ℕ × Router F). FoundGood r o.0) (good r d) _ _ (λ g. (d, e, g))
            (λ g. round_loop-some k (moved r) cnf w x))
  ]

  abbrev IsBad : Router F → ℕ → Type 0
  IsBad r i = OnSome (λ d. good r d ≡ false) (get_elem? r.dst i)

  -- No destination is good and the answer is none, or the answer is a good destination.
  abbrev pub RoundGood : Router F → Option ℕ → Type 0
  RoundGood r ret =
      ((ret ≡ none) × ((i : ℕ) → IsBad r i))
      ⊎ ((i : ℕ) × (d : RouterDst F) × (ret ≡ some i)
          × (get_elem? r.dst i ≡ some d)
          × (good r d ≡ true))

  -- Without extra checks, and with the cursor in range, the policy `round` answers with a good
  -- destination, or it answers with none and no destination is good.
  pub choose_dst_round_good :
      (r : Router F) (cnf : Cnf F) (w : World)
      → cnf.extra ≡ 0
      → HasCursor r
      → RoundGood r (choose_dst_round r cnf w).0
  choose_dst_round_good r cnf w x c =
      let ret = (choose_dst_round r cnf w).0 in
      elim (Option-cases ret) [
        | inl h ↦ inl (h, λ i. none-IsBad i h)
        | inr (i, h) ↦ let (d, e, g) = OnSome-some (GoodIndex r) found h in inr (i, d, h, e, g)
      ]
    where
      found : FoundGood r (choose_dst_round r cnf w).0
      found = unfold choose_dst_round in round_loop-some (n_dst r) r cnf w x

      none-IsBad : (i : ℕ) → (choose_dst_round r cnf w).0 ≡ none → IsBad r i
      none-IsBad i h = elim (Option-cases (get_elem? r.dst i)) [
        | inl e ↦ subst (OnSome (λ d. good r d ≡ false)) (sym e) tt
        | inr (d, e) ↦
            let li = get_elem?-lt r.dst i d e in
            let (t, (lt, reach)) = distance (n_dst r) r.rrb_next i (omega (arith, c)) li in
            subst (IsBad r) reach
              (round_loop-none (n_dst r) r cnf w t x c (unfold choose_dst_round in h) lt)
      ]
