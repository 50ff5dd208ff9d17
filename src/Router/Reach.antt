-- ===== src/Router/Reach.antt =====
-- src/glb_router.c: every order of the steps of threads that share a new router, one of which changes
-- destinations, keeps it safe.
use glb.Common.{
  ℕ, ◌≡◌, refl, ap, subst, sym, ◌∙◌, inl, inr, Bool, true, false, not, ◌&&◌, Option, none, some,
  List, [], ◌∷◌, length, get_elem?, ltb, arith, All, OnSome, OnSome-some, if_intro, if_split,
  option_split, Bool-cases,
}
use glb.Double.{Double}
use glb.Dst.{Dst}
use glb.Cnf.{Cnf}
use glb.Router.State.{RouterDst, Router}
use glb.Router.Choose.{set_dst}
use glb.Router.Change.{
  Alloc, Result, ok, find_dst, change_dst, change_known, change_unknown, update_weight,
}
use glb.Router.Check.{is_none}
use glb.Router.Sound.{IsSound}
use glb.Router.Invariant.{disconnect-IsSound}
use glb.Router.ChangeInvariant.{change_dst-IsSound, settle-Kept}
use glb.Router.Again.{Again, choose_dst_again_chosen}
use glb.Router.Addrs.{addrs, addrs-set, addrs-Kept, Quiet, disconnect-Quiet, choose_dst_again-addrs}
use glb.Router.Create.{router_create, router_create-Fresh, change_dst-le, Fresh}
use glb.Router.Stale.{late_change, late_change-fresh}
use glb.Router.Busy.{
  Making, Waiting, Shared, has_to_wait, wait_for, Step, admits, begins, fails, ends, asks, closes,
  moves, changes, waits, resumes, Reach, here, next,
}
use glb.Router.Places.{InPlace, InPlace-addrs, StillFound, Safe, Safe-router}
use glb.Router.Requests.{
  begin_connect-Safe, fail_connect-Safe, end_connect-Safe, admits-Safe, asks-Safe,
}

module _ {F : Type 0} ⦃fp : Double F⦄ where
  open fp use {nought, lt, eq}

  -- A change that does not have to wait although some thread is connecting.
  change_dst-addrs :
      (s : Shared F) (cnf : Cnf F) (dst : Dst F) (ctx : Option ℕ) (a : Alloc F)
      → ltb 0 s.busy_count ≡ true
      → has_to_wait s dst ≡ false
      → addrs (change_dst s.router cnf dst ctx a).1 ≡ addrs s.router
  unfolding has_to_wait change_dst change_known change_unknown update_weight set_dst
  change_dst-addrs s cnf dst ctx a b h =
      changed (find_dst dst 0 s.router.dst)
        (sym (ap (λ c. c && blocked (find_dst dst 0 s.router.dst)) b) ∙ h)
    where
      blocked : Option ℕ → Bool
      blocked o = elim o [ none ↦ not (lt dst.weight nought) | some i ↦ lt dst.weight nought ]

      known :
          (i : ℕ) (d : RouterDst F)
          → get_elem? s.router.dst i ≡ some d
          → lt dst.weight nought ≡ false
          → addrs (change_known s.router cnf dst a i d).1 ≡ addrs s.router
      known i d g l =
          let P : Result ℕ × Router F → Type 0 = λ p. addrs p.1 ≡ addrs s.router in
          let set_weight = update_weight s.router i d dst.weight in
          if_split P (lt dst.weight nought) _ _ (λ e. absurd (ground (arith, e, l)))
            (λ _.
              if_intro P (eq d.dst.weight dst.weight) _ _ refl (
                addrs-Kept (settle-Kept set_weight cnf a.now)
                ∙ addrs-set s.router.dst i d _ g refl))

      changed :
          (o : Option ℕ)
          → blocked o ≡ false
          → addrs
              (elim o as (λ _. Result ℕ × Router F) [
                | none ↦ change_unknown s.router cnf dst ctx a
                | some i ↦ elim (get_elem? s.router.dst i) as (λ _. Result ℕ × Router F) [
                  | none ↦ (ok i, s.router)
                  | some d ↦ change_known s.router cnf dst a i d
                ]
              ]).1
            ≡ addrs s.router
      changed none l =
          if_split (λ (p : Result ℕ × Router F). addrs p.1 ≡ addrs s.router) (lt dst.weight nought)
            _ _ (λ _. refl) (λ e. absurd (ground (arith, e, l)))
      changed (some i) l =
          option_split (λ (p : Result ℕ × Router F). addrs p.1 ≡ addrs s.router)
            (get_elem? s.router.dst i) _ _ (λ _. refl) (λ d g. known i d g l)

  nobody : (r : Router F) (ms : List Making) → length ms ≡ 0 → All (InPlace r) ms
  nobody r [] e = tt
  nobody r (m ∷ ms) e = absurd (omega arith)

  -- Nothing waits.
  nothing : (r : Router F) (o : Option (Waiting F)) → o ≡ none → OnSome (StillFound r) o
  nothing r o e = subst (OnSome (StillFound r)) (sym e) tt

  changes-Safe :
      (n : ℕ) (cnf : Cnf F) (s : Shared F) (dst : Dst F) (ctx : Option ℕ) (a : Alloc F)
      → Safe n cnf s
      → s.waiting ≡ none
      → has_to_wait s dst ≡ false
      → Safe n cnf (record s { router = (change_dst s.router cnf dst ctx a).1 })
  changes-Safe n cnf s dst ctx a h free e =
      let router = (change_dst s.router cnf dst ctx a).1 in
      record {
        sound = change_dst-IsSound s.router cnf dst ctx a h.sound;
        bound = omega (arith, change_dst-le s.router cnf dst ctx a, h.bound);
        callers = h.callers;
        busy = h.busy;
        places = elim (Bool-cases (ltb 0 s.busy_count)) [
          | inl b ↦
              InPlace-addrs s.router router s.connecting (change_dst-addrs s cnf dst ctx a b e)
                h.places
          | inr b ↦ nobody router s.connecting (ground (arith, b, h.busy))
        ];
        still = nothing router s.waiting free;
      }

  waits-Safe :
      (n : ℕ) (cnf : Cnf F) (s : Shared F) (dst : Dst F) (ctx : Option ℕ)
      → Safe n cnf s
      → has_to_wait s dst ≡ true
      → Safe n cnf (record s { waiting = some (wait_for s dst ctx) })
  unfolding has_to_wait wait_for
  waits-Safe n cnf s dst ctx h e = record {
    sound = h.sound;
    bound = h.bound;
    callers = h.callers;
    busy = h.busy;
    places = h.places;
    still = (refl, refl, right (find_dst dst 0 s.router.dst) e);
  }
    where
      right :
          (o : Option ℕ)
          → (ltb 0 s.busy_count && elim o as (λ _. Bool) [
            | none ↦ not (lt dst.weight nought)
            | some i ↦ lt dst.weight nought
          ])
            ≡ true
          → is_none o ≡ not (lt dst.weight nought)
      right none e = ground (arith, e)
      right (some i) e = ground (arith, e)

  -- What was looked up before the wait still holds, so the change is as if it were made at once.
  resumes-Safe :
      (n : ℕ) (cnf : Cnf F) (s : Shared F) (v : Waiting F) (a : Alloc F) (router' : Router F)
      → Safe n cnf s
      → s.waiting ≡ some v
      → s.busy_count ≡ 0
      → late_change s.router cnf v.found v.n_dst v.dst v.probe_ctx a ≡ some router'
      → Safe n cnf (record s { router = router'; waiting = none })
  resumes-Safe n cnf s v a router' h e b l =
      let still : StillFound s.router v = OnSome-some (StillFound s.router) h.still e in
      let at_once : (change_dst s.router cnf v.dst v.probe_ctx a).1 ≡ router' =
        late_change-fresh s.router router' cnf v.found v.dst v.probe_ctx a still.0 still.2 (
          subst (λ m. late_change s.router cnf v.found m v.dst v.probe_ctx a ≡ some router') still.1
            l) in
      record {
        sound = subst IsSound at_once (change_dst-IsSound s.router cnf v.dst v.probe_ctx a h.sound);
        bound = omega (
          arith,
          ap (λ (r : Router F). r.conns) at_once,
          change_dst-le s.router cnf v.dst v.probe_ctx a,
          h.bound,
        );
        callers = h.callers;
        busy = h.busy;
        places = nobody router' s.connecting (sym h.busy ∙ b);
        still = tt;
      }

  step-Safe : (n : ℕ) (cnf : Cnf F) (s t : Shared F) → Step cnf s t → Safe n cnf s → Safe n cnf t
  step-Safe n cnf s t (admits k e f g) h = subst (Safe n cnf) (sym g) (admits-Safe n cnf s k e f h)
  step-Safe n cnf s t (begins k hint w e f) h =
      subst (Safe n cnf) (sym f) (begin_connect-Safe n cnf s k hint w e h)
  step-Safe n cnf s t (fails xs ys m now hint w e f) h =
      fail_connect-Safe n cnf s t xs ys m now hint w h e f
  step-Safe n cnf s t (ends xs ys m e f) h =
      subst (Safe n cnf) (sym f) (end_connect-Safe n cnf s xs ys m h e)
  step-Safe n cnf s t (asks k hint w e f) h =
      subst (Safe n cnf) (sym f) (asks-Safe n cnf s k hint w e h)
  step-Safe n cnf s t (closes a failed now i router' e f) h =
      let q : Quiet s.router router' =
        OnSome-some (λ (p : ℕ × Router F). Quiet s.router p.1)
          (disconnect-Quiet s.router cnf a failed now h.sound) e in
      subst (Safe n cnf) (sym f) (
        Safe-router n cnf s router' h
          (disconnect-IsSound s.router cnf a failed now i router' h.sound e) q.1 q.0)
  step-Safe n cnf s t (moves hint a now w c e f) h =
      let again : Again s.router c =
        choose_dst_again_chosen s.router hint a cnf now w c h.sound e in
      let same : addrs c.1 ≡ addrs s.router =
        OnSome-some (λ (c : Option ℕ × Router F). addrs c.1 ≡ addrs s.router)
          (choose_dst_again-addrs s.router hint a cnf now w h.sound) e in
      subst (Safe n cnf) (sym f) (Safe-router n cnf s c.1 h again.0 (omega (arith, again.1.0)) same)
  step-Safe n cnf s t (changes dst ctx a e f g) h =
      subst (Safe n cnf) (sym g) (changes-Safe n cnf s dst ctx a h e f)
  step-Safe n cnf s t (waits dst ctx e f g) h =
      subst (Safe n cnf) (sym g) (waits-Safe n cnf s dst ctx h f)
  step-Safe n cnf s t (resumes v a router' e b f g) h =
      subst (Safe n cnf) (sym g) (resumes-Safe n cnf s v a router' h e b f)

  -- A new router, and `n` threads that make requests, which are idle.
  abbrev pub unused : ℕ → Router F → Shared F
  unused n router = record {
    router = router;
    busy_count = 0;
    idle = n;
    admitted = 0;
    connecting = [];
    waiting = none;
  }

  reach_from-Safe :
      (n : ℕ) (cnf : Cnf F) (s t : Shared F) → Reach cnf s t → Safe n cnf s → Safe n cnf t
  reach_from-Safe n cnf s _ here h = h
  reach_from-Safe n cnf s t (next {t = u} r step) h =
      step-Safe n cnf u t step (reach_from-Safe n cnf s u r h)

  -- On a new router, `n` threads make requests, one thread changes destinations and any number close
  -- connections. However their steps follow one another, with the test of max_conn outside the lock and
  -- the lock let go of while a thread connects: the router stays consistent; together with the requests
  -- that have passed the test it exceeds max_conn by at most n - 1 connections, so with one such thread
  -- not at all; busy_count is the number of threads that are connecting, and the destination that each of
  -- them points to stays in its place; and what a change that waits has looked up before still holds.
  pub reach-Safe :
      (n : ℕ) (cnf : Cnf F) (seed : ℕ) (a : Dst F → Alloc F) (router : Router F) (t : Shared F)
      → router_create cnf seed a ≡ some router
      → Reach cnf (unused n router) t
      → Safe n cnf t
  reach-Safe n cnf seed a router t e r =
      let fresh : Fresh router = OnSome-some Fresh (router_create-Fresh cnf seed a) e in
      reach_from-Safe n cnf (unused n router) t r (record {
        sound = fresh.0;
        bound = omega (arith, fresh.1);
        callers = omega arith;
        busy = refl;
        places = tt;
        still = tt;
      })
