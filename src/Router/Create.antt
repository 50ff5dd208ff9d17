-- ===== src/Router/Create.antt =====
-- src/glb_router.c: `glb_router_create`, as built for the daemon.
use glb.Common.{
  ℕ, ◌≤◌, refl, Option, none, some, List, [], ◌∷◌, arith, if◌then◌else◌, OnSome, if_intro,
  option_split, subst, sym, get_elem?,
}
use glb.Double.{Double}
use glb.Dst.{Dst}
use glb.Cnf.{Cnf}
use glb.Router.State.{Router}
use glb.Router.Change.{
  Alloc, Result, ok, err, change_dst, find_dst, change_known, change_unknown, remove_dst, add_dst,
  update_weight, settle,
}
use glb.Router.Choose.{set_dst}
use glb.Router.Sound.{IsSound}
use glb.Router.ChangeInvariant.{change_dst-IsSound, settle-Kept}

module _ {F : Type 0} ⦃fp : Double F⦄ where
  open fp use {nought, lt, eq}

  -- `calloc` and the first assignments; `seed` is what `router_generate_seed` returns.
  unfoldable pub new_router : ℕ → Router F
  new_router seed = record {
    ctx = record { min_weight = nought; retry = 0; now = 0 };
    conns = 0;
    seed = seed;
    rrb_next = 0;
    map_failed = 0;
    top_failed = 0;
    top_dst = none;
    dst = [];
  }

  -- The destinations of the configuration, one by one, up to one that is refused.
  unfoldable pub add_dsts : List (Dst F) → Router F → Cnf F → (Dst F → Alloc F) → Option (Router F)
  unfolding change_dst
  add_dsts [] router cnf a = some router
  add_dsts (d ∷ ds) router cnf a =
      let (ret, router') = change_dst router cnf d none (a d) in
      let later = add_dsts ds router' cnf a in elim ret [ err e ↦ none | ok i ↦ later ]

  -- With a watchdog it is the watchdog that adds the destinations.
  unfoldable pub router_create : Cnf F → ℕ → (Dst F → Alloc F) → Option (Router F)
  unfolding new_router add_dsts
  router_create cnf seed a =
      if cnf.watchdog then some (new_router seed) else add_dsts cnf.dst (new_router seed) cnf a

  -- What follows from one change that is not refused.
  after :
      (P : Router F → Type 0) (p : Result ℕ × Router F) (later : Option (Router F))
      → OnSome P later
      → OnSome P (elim p.0 as (λ _. Option (Router F)) [ err e ↦ none | ok i ↦ later ])
  after P (err e, r) later h = tt
  after P (ok i, r) later h = h

  -- No change makes a connection.
  pub change_dst-le :
      (r : Router F) (cnf : Cnf F) (dst : Dst F) (ctx : Option ℕ) (a : Alloc F)
      → (change_dst r cnf dst ctx a).1.conns ≤ r.conns
  unfolding change_dst change_known change_unknown remove_dst add_dst update_weight set_dst
  change_dst-le r cnf dst ctx a =
      let Q : Result ℕ × Router F → Type 0 = λ p. p.1.conns ≤ r.conns in
      option_split Q (find_dst dst 0 r.dst) _ _
        (λ _. if_intro Q (lt dst.weight nought) _ _ (omega arith) (
          if_intro Q a.realloc _ _ (settled (add_dst r dst ctx a) (omega arith))
            (settled r (omega arith))))
        (λ i _.
          option_split Q (get_elem? r.dst i) _ _ (λ _. omega arith)
            (λ d _.
              if_intro Q (lt dst.weight nought) _ _ (settled (remove_dst r i d) (omega arith)) (
                if_intro Q (eq d.dst.weight dst.weight) _ _ (omega arith)
                  (settled (update_weight r i d dst.weight) (omega arith)))))
    where
      settled : (r' : Router F) → r'.conns ≤ r.conns → (settle r' cnf a.now).conns ≤ r.conns
      settled r' h = subst (λ n. n ≤ r.conns) (sym (settle-Kept r' cnf a.now).conns_kept) h

  -- Sound, and without connections.
  abbrev pub Fresh : Router F → Type 0
  Fresh r = IsSound r × (r.conns ≤ 0)

  new_router-Fresh : (seed : ℕ) → Fresh (new_router seed)
  unfolding new_router
  new_router-Fresh seed = (
    record {
      counted = record { total = refl; usages = tt; distinct = tt };
      cursor = omega arith;
      top = tt;
    },
    omega arith,
  )

  add_dsts-Fresh :
      (ds : List (Dst F)) (r : Router F) (cnf : Cnf F) (a : Dst F → Alloc F)
      → Fresh r
      → OnSome Fresh (add_dsts ds r cnf a)
  unfolding add_dsts
  add_dsts-Fresh [] r cnf a s = s
  add_dsts-Fresh (d ∷ ds) r cnf a s =
      let p = change_dst r cnf d none (a d) in
      after Fresh p (add_dsts ds p.1 cnf a) (
        add_dsts-Fresh ds p.1 cnf a (
          change_dst-IsSound r cnf d none (a d) s.0,
          omega (arith, change_dst-le r cnf d none (a d), s.1),
        ))

  pub router_create-Fresh :
      (cnf : Cnf F) (seed : ℕ) (a : Dst F → Alloc F) → OnSome Fresh (router_create cnf seed a)
  unfolding router_create
  router_create-Fresh cnf seed a =
      if_intro (OnSome Fresh) cnf.watchdog _ _ (new_router-Fresh seed)
        (add_dsts-Fresh cnf.dst (new_router seed) cnf a (new_router-Fresh seed))
