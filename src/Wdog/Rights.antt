-- ===== src/Wdog/Rights.antt =====
-- What reported members and failures may do to a destination that was added explicitly.
use glb.Common.{
  ℕ, zero, suc, ◌+◌, ◌≡◌, inl, inr, refl, sym, ap, subst, ◌∙◌, Bool, true, false, not, ◌&&◌, ◌||◌,
  ◌==◌, Option, some, List, [], ◌∷◌, ◌++◌, get_elem?, get_elem?-lt, get_elem?-set_self,
  get_elem?-set_ne, set, arith, Bool-cases, Option-cases, if_split, if_intro, if◌then◌else◌, ltb,
  leb,
}
use mathlib.Core.Option.{some-injective}
use glb.Double.{Double}
use glb.Dst.{Dst}
use glb.Wdog.State.{Check, ThreadCtx, WdogDst}
use glb.Wdog.Copy.{
  count_failure, copy_others, fit_others, differs_from, take_report, process_report, smooth_latency,
  copy_result, is_found, max_fail_count, is_ready,
}
use glb.Wdog.Change.{
  Start, Result, find_wdog, add_wdog, quit_dst, refer_dst, new_wdog, wdog_change_dst,
  process_members,
}

or_true : (b : Bool) → true ≡ (b || true)
or_true true = refl
or_true false = refl

or_false : (b : Bool) → b ≡ (b || false)
or_false true = refl
or_false false = refl

module _ {F : Type 0} ⦃fp : Double F⦄ where
  open fp use {nought, lt}

  -- An explicit destination with the same address, weight and thread.
  abbrev Stays : WdogDst F → WdogDst F → Type 0
  Stays d d' = (d'.explicit ≡ true) × (d'.dst ≡ d.dst) × (d'.ctx ≡ d.ctx)

  abbrev pub StaysAt : List (WdogDst F) → ℕ → WdogDst F → Type 0
  StaysAt ds i d = (d' : WdogDst F) × (get_elem? ds i ≡ some d') × Stays d d'

  get-append :
      (xs ys : List (WdogDst F)) (i : ℕ) (d : WdogDst F)
      → get_elem? xs i ≡ some d
      → get_elem? (xs ++ ys) i ≡ some d
  get-append [] ys i d h = absurd (ground arith)
  get-append (x ∷ xs) ys zero d h = h
  get-append (x ∷ xs) ys (suc i) d h = get-append xs ys i d h

  add-StaysAt :
      (ds : List (WdogDst F)) (m : Dst F) (start : Start) (i : ℕ) (d : WdogDst F)
      → get_elem? ds i ≡ some d
      → get_elem? (add_wdog ds m false start).1 i ≡ some d
  unfolding add_wdog
  add-StaysAt ds m Start.out_of_memory i d h = h
  add-StaysAt ds m (Start.refused e) i d h = h
  add-StaysAt ds m (Start.started id) i d h = get-append ds (new_wdog m id false ∷ []) i d h

  -- The entry that a member names, with what the report does to it.
  abbrev referred : WdogDst F → Dst F → WdogDst F
  referred d m = if lt m.weight nought then quit_dst d false else refer_dst d m.weight false

  referred-Stays : (d : WdogDst F) (m : Dst F) → d.explicit ≡ true → Stays d (referred d m)
  unfolding quit_dst refer_dst
  referred-Stays d m e =
      if_intro (Stays d) (lt m.weight nought) _ _ (rw e (refl, refl, refl))
        (rw e (refl, refl, refl))

  change-StaysAt :
      (ds : List (WdogDst F)) (m : Dst F) (start : Start) (i : ℕ) (d : WdogDst F)
      → get_elem? ds i ≡ some d
      → d.explicit ≡ true
      → StaysAt (wdog_change_dst ds m false start).1 i d
  unfolding wdog_change_dst
  change-StaysAt ds m start i d h x = elim (Option-cases (find_wdog m 0 ds)) [
    | inl e ↦
        rw (e, wdog_change_dst)
          (if_intro (λ (o : Result ℕ × List (WdogDst F)). StaysAt o.1 i d) (lt m.weight nought) _ _
            (d, h, (x, refl, refl)) (d, add-StaysAt ds m start i d h, (x, refl, refl)))
    | inr (j, e) ↦ elim (Option-cases (get_elem? ds j)) [
      | inl f ↦ rw (e, f, wdog_change_dst) (d, h, (x, refl, refl))
      | inr (d', f) ↦ rw (e, f, wdog_change_dst) (at_index j d' f)
    ]
  ]
    where
      at_index :
          (j : ℕ) (d' : WdogDst F)
          → get_elem? ds j ≡ some d'
          → StaysAt (set ds j (referred d' m)) i d
      at_index j d' f = elim (Bool-cases (i == j)) [
        | inr other ↦ (d, get_elem?-set_ne ds _ (λ q. ground arith) ∙ h, (x, refl, refl))
        | inl same ↦
            let at_j : get_elem? ds j ≡ some d =
              subst (λ k. get_elem? ds k ≡ some d) (ground arith) h in
            let own : d' ≡ d = some-injective d' d (sym f ∙ at_j) in
            let there : get_elem? (set ds j (referred d' m)) i ≡ some (referred d' m) =
              subst (λ k. get_elem? (set ds j (referred d' m)) k ≡ some (referred d' m))
                (ground arith) (get_elem?-set_self ds j (referred d' m) (get_elem?-lt ds j d' f)) in
            (
              referred d' m,
              there,
              subst (λ y. Stays d (referred y m)) (sym own) (referred-Stays d m x),
            )
      ]

  -- Members that a destination reports, whatever their weights, leave every destination that was
  -- added explicitly in its place with its weight, and do not tell its thread to quit.
  pub process_members-StaysAt :
      (ds : List (WdogDst F)) (ms : List (Dst F)) (start : Dst F → Start) (i : ℕ) (d : WdogDst F)
      → get_elem? ds i ≡ some d
      → d.explicit ≡ true
      → StaysAt (process_members ds ms start) i d
  unfolding process_members
  process_members-StaysAt ds [] start i d h x = (d, h, (x, refl, refl))
  process_members-StaysAt ds (m ∷ ms) start i d h x =
      let (d', h', (x', w, c)) = change-StaysAt ds m (start m) i d h x in
      let (d'', h'', (x'', w', c')) =
        process_members-StaysAt (wdog_change_dst ds m false (start m)).1 ms start i d' h' x' in
      (d'', h'', (x'', w' ∙ w, c' ∙ c))

  copy_others-ctx :
      (d : WdogDst F) (res : Check F) (realloc : Bool) → (copy_others d res realloc).ctx ≡ d.ctx
  unfolding copy_others
  copy_others-ctx d res realloc =
      if_intro (λ (x : WdogDst F). x.ctx ≡ d.ctx) (copies (fit_others d res realloc)) _ _ refl refl
    where
      copies : Option (List ℕ) × ℕ × Bool → Bool
      copies (o, len, c) =
          ltb 0 res.others_len && (leb res.others_len len && (c || differs_from o res.others))

  -- Too many failures of a destination that was discovered.
  abbrev pub gives_up : WdogDst F → Bool
  gives_up d = not d.explicit && ltb max_fail_count (d.fail_count + 1)

  count_failure-quit : (d : WdogDst F) → (count_failure d).ctx.quit ≡ (d.ctx.quit || gives_up d)
  unfolding count_failure
  count_failure-quit d =
      if_split (λ (x : WdogDst F). x.ctx.quit ≡ (d.ctx.quit || gives_up d)) (gives_up d) _ _
        (λ e. subst (λ b. true ≡ (d.ctx.quit || b)) (sym e) (or_true d.ctx.quit))
        (λ e. subst (λ b. d.ctx.quit ≡ (d.ctx.quit || b)) (sym e) (or_false d.ctx.quit))

  process_report-quit :
      (d : WdogDst F) (res : Check F) (realloc : Bool)
      → (process_report d res realloc).ctx.quit
        ≡ (d.ctx.quit || (res.ready && (not (is_found res.state) && gives_up d)))
  unfolding process_report
  process_report-quit d res realloc = elim (Bool-cases res.ready) [
    | inr e ↦ rw e (or_false d.ctx.quit)
    | inl e ↦ elim (Bool-cases (is_found res.state)) [
      | inl f ↦
          rw (e, f)
            (ap (λ (c : ThreadCtx F). c.quit) (copy_others-ctx d res realloc) ∙ or_false d.ctx.quit)
      | inr f ↦ rw (e, f) (count_failure-quit d)
    ]
  ]

  smooth_latency-quit :
      (p : WdogDst F) (old max_lat : F) (lf : ℕ)
      → (smooth_latency p old max_lat lf).0.ctx.quit ≡ p.ctx.quit
  unfolding smooth_latency
  smooth_latency-quit p old max_lat lf =
      if_intro (λ (o : WdogDst F × F). o.0.ctx.quit ≡ p.ctx.quit)
        (p.result.ready && is_ready p.result.state) _ _ refl refl

  -- A report tells the thread of a destination to quit just when it is ready and says that the
  -- destination was not found, the destination was discovered, and its fail count, this failure
  -- included, exceeds 8.
  pub copy_result_quit :
      (d : WdogDst F) (max_lat : F) (lf : ℕ) (realloc : Bool)
      → (copy_result d max_lat lf realloc).0.ctx.quit
        ≡ (d.ctx.quit || (d.ctx.result.ready && (not (is_found d.ctx.result.state) && gives_up d)))
  unfolding copy_result take_report
  copy_result_quit d max_lat lf realloc =
      smooth_latency-quit (process_report (take_report d) d.ctx.result realloc) d.result.latency
        max_lat lf
      ∙ process_report-quit (take_report d) d.ctx.result realloc
