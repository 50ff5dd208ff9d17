-- ===== src/Pool/Balance.antt =====
-- A new connection goes to a pool thread with the fewest connections.
use glb.Common.{
  ℕ, suc, ◌+◌, ◌≤◌, ◌<◌, ◌≡◌, ◌⊎◌, inl, inr, refl, ◌∙◌, some, List, [], ◌∷◌, get_elem?, All, ltb,
  arith, Bool-cases,
}
use glb.Pool.Conns.{Pool}
use glb.Pool.Threads.{get_loop, get_pool}

-- No pool has fewer than `m` connections.
abbrev AtLeast : ℕ → List Pool → Type 0
AtLeast m = All λ p. m ≤ p.n_conns

AtLeast-trans : (m n : ℕ) (ps : List Pool) → m ≤ n → AtLeast n ps → AtLeast m ps
AtLeast-trans m n [] h a = tt
AtLeast-trans m n (p ∷ ps) h a = (omega (arith, a.0), AtLeast-trans m n ps h a.1)

-- The pool of before, or one of the list with fewer connections, and the fewest of the list.
abbrev Least : ℕ → List Pool → ℕ → ℕ → ℕ → Type 0
Least i ps ret m ret' =
    ((ret' ≡ ret) × AtLeast m ps)
    ⊎ ((j : ℕ) × (q : Pool) × (ret' ≡ i + j)
        × (get_elem? ps j ≡ some q)
        × (q.n_conns < m)
        × AtLeast q.n_conns ps)

get_loop-Least : (i : ℕ) (ps : List Pool) (ret m : ℕ) → Least i ps ret m (get_loop i ps ret m)
unfolding get_loop
get_loop-Least i [] ret m = inl (refl, tt)
get_loop-Least i (p ∷ ps) ret m = elim (Bool-cases (ltb p.n_conns m)) [
  | inl e ↦ rw e (elim (get_loop-Least (suc i) ps i p.n_conns) [
    | inl (r, a) ↦ inr (0, p, r ∙ omega arith, refl, ground (arith, e), (omega arith, a))
    | inr (j, q, r, g, l, a) ↦
        inr (suc j, q, r ∙ omega arith, g, ground (arith, e, l), (omega (arith, l), a))
  ])
  | inr e ↦ rw e (elim (get_loop-Least (suc i) ps ret m) [
    | inl (r, a) ↦ inl (r, (ground (arith, e), a))
    | inr (j, q, r, g, l, a) ↦ inr (suc j, q, r ∙ omega arith, g, l, (ground (arith, e, l), a))
  ])
]

-- A pool of the list that has the fewest connections.
abbrev pub IsLeast : List Pool → ℕ → Type 0
IsLeast ps k = (q : Pool) × (get_elem? ps k ≡ some q) × AtLeast q.n_conns ps

-- The pool that takes a connection is one of the pools, and none has fewer connections.
pub get_pool-IsLeast : (p : Pool) (ps : List Pool) → IsLeast (p ∷ ps) (get_pool p ps)
unfolding get_pool
get_pool-IsLeast p ps = elim (get_loop-Least 1 ps 0 p.n_conns) [
  | inl (r, a) ↦ rw r (p, refl, (omega arith, a))
  | inr (j, q, r, g, l, a) ↦
      let shift : 1 + j ≡ suc j = omega arith in rw (r, shift) (q, g, (omega (arith, l), a))
]
