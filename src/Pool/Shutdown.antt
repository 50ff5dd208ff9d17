-- ===== src/Pool/Shutdown.antt =====
-- Shutting a pool thread down: the loop over the descriptors comes back, with no connection left.
use glb.Common.{
  ℕ, zero, suc, ◌+◌, ◌-◌, ◌*◌, ◌≤◌, ◌<◌, ◌≡◌, refl, sym, ap, ◌∙◌, subst, inl, inr, Bool, true,
  false, not, ◌||◌, Option, none, some, List, [], ◌∷◌, length, All, ◌==◌, arith, Bool-cases,
  Option-cases, OnSome-some, if_at_true, option_at_some, if_split,
}
use glb.Pool.State.{End, Conn, has_sock, is_incomplete}
use glb.Pool.Conns.{
  Pool, Done, nothing_done, after, join, find_conn, remove_index, remove_found, remove_conn,
  shutdown_loop, handle_shutdown, pool_max_fd,
}
use glb.Pool.Counts.{IsPool, find_conn-lt, length-remove_index}
use glb.Pool.Drop.{here}

-- The end has a descriptor, from `lo` on and below `hi`.
abbrev Within : ℕ → ℕ → End → Type 0
Within lo hi end = (s : ℕ) × (end.sock ≡ some s) × (lo ≤ s) × (s < hi)

abbrev pub Between : ℕ → ℕ → List Conn → Type 0
Between lo hi = All λ c. Within lo hi c.inc × Within lo hi c.dst

Within-next :
    (lo hi : ℕ) (end : End) → has_sock end lo ≡ false → Within lo hi end → Within (suc lo) hi end
Within-next lo hi end h (s, e, l, u) =
    let ne : (s == lo) ≡ false =
      sym (ap (λ (o : Option ℕ). elim o as (λ _. Bool) [ none ↦ false | some s ↦ s == lo ]) e)
      ∙ h in
    (s, e, ground (arith, ne, l), u)

-- Where no end has the descriptor `lo`, all have later ones.
Between-next :
    (lo hi : ℕ) (cs : List Conn) → here lo cs ≡ 0 → Between lo hi cs → Between (suc lo) hi cs
Between-next lo hi [] h b = tt
Between-next lo hi (c ∷ cs) h b =
    let inc : has_sock c.inc lo ≡ false = ground (arith, h) in
    let dst : has_sock c.dst lo ≡ false = ground (arith, h) in
    (
      (Within-next lo hi c.inc inc b.0.0, Within-next lo hi c.dst dst b.0.1),
      Between-next lo hi cs (omega (arith, h)) b.1,
    )

Between-remove :
    (lo hi i : ℕ) (cs : List Conn) → Between lo hi cs → Between lo hi (remove_index i cs)
unfolding remove_index
Between-remove lo hi i [] b = tt
Between-remove lo hi zero (c ∷ cs) b = b.1
Between-remove lo hi (suc i) (c ∷ cs) b = (b.0, Between-remove lo hi i cs b.1)

here-remove : (k i : ℕ) (cs : List Conn) → here k (remove_index i cs) ≤ here k cs
unfolding remove_index
here-remove k i [] = omega arith
here-remove k zero (c ∷ cs) = omega arith
here-remove k (suc i) (c ∷ cs) = omega (arith, here-remove k i cs)

-- Without the block that is found there is an end less with the descriptor.
abbrev Drops : ℕ → ℕ → List Conn → Option (ℕ × Conn × Bool) → Type 0
Drops fd i cs none = here fd cs ≡ 0
Drops fd i cs (some f) = (k : ℕ) × (f.0 ≡ i + k) × (here fd (remove_index k cs) + 1 ≤ here fd cs)

find_conn-Drops : (fd i : ℕ) (cs : List Conn) → Drops fd i cs (find_conn fd i cs)
unfolding find_conn remove_index
find_conn-Drops fd i [] = refl
find_conn-Drops fd i (c ∷ cs) =
    if_split (Drops fd i (c ∷ cs)) (has_sock c.inc fd) _ _
      (λ e. (0, omega arith, rw e (omega arith)))
      (λ e.
        if_split (Drops fd i (c ∷ cs)) (has_sock c.dst fd) _ _
          (λ f. (0, omega arith, rw f (omega arith)))
          (λ f. later e f (find_conn fd (suc i) cs) (find_conn-Drops fd (suc i) cs)))
  where
    later :
        has_sock c.inc fd ≡ false
        → has_sock c.dst fd ≡ false
        → (o : Option (ℕ × Conn × Bool)) → Drops fd (suc i) cs o
        → Drops fd i (c ∷ cs) o
    later e f none h = rw (e, f) (omega (arith, h))
    later e f (some x) (k, p, h) = (suc k, omega (arith, p), omega (arith, h))

Between-none : (n : ℕ) (cs : List Conn) → Between n n cs → cs ≡ []
Between-none n [] b = refl
Between-none n (c ∷ cs) b = let (s, e, l, u) = b.0.0 in absurd (omega (arith, l, u))

-- The call comes back, with these connections left.
abbrev pub LeavesConns : List Conn → Option Done → Type 0
LeavesConns cs o = (d : Done) × (o ≡ some d) × (d.pool.conns ≡ cs)

remove_found-Leaves :
    (pool : Pool) (i : ℕ) (c : Conn) (full : Bool)
    → LeavesConns (remove_index i pool.conns) (remove_found pool i c full false)
unfolding remove_found
remove_found-Leaves pool i c true = (_, refl, refl)
remove_found-Leaves pool i c false = (_, refl, refl)

after-Leaves :
    (o : Option Done) (next : Pool → Option Done) (d : Done)
    → o ≡ some d
    → LeavesConns [] (next d.pool)
    → LeavesConns [] (after o next)
after-Leaves o next d e (d', f, n) = (join d d', ap (λ x. after x next) e ∙ option_at_some _ _ f, n)

-- The block at index `i` is found and removed: nothing has the descriptor then.
removed :
    (pool : Pool) (fd hi i : ℕ) (c : Conn) (b : Bool)
    → find_conn fd 0 pool.conns ≡ some (i, c, b)
    → ((k : ℕ) → here k pool.conns ≤ 1)
    → Between fd hi pool.conns
    → (here fd (remove_index i pool.conns) ≡ 0)
      × (length (remove_index i pool.conns) + 1 ≡ length pool.conns)
removed pool fd hi i c b f single between =
    let (k, e, h) = subst (Drops fd 0 pool.conns) f (find_conn-Drops fd 0 pool.conns) in
    let same : k ≡ i = omega (arith, e) in
    let lt : i < 0 + length pool.conns =
      OnSome-some (λ (x : ℕ × Conn × Bool). x.0 < 0 + length pool.conns)
        (find_conn-lt fd 0 pool.conns) f in
    let h' : here fd (remove_index i pool.conns) + 1 ≤ here fd pool.conns =
      subst (λ j. here fd (remove_index j pool.conns) + 1 ≤ here fd pool.conns) same h in
    (omega (arith, h', single fd), length-remove_index i pool.conns (omega (arith, lt)))

shutdown_loop-Leaves :
    (left fd hi count : ℕ) (pool : Pool)
    → fd + left ≡ hi
    → count ≡ 2 * length pool.conns
    → ((k : ℕ) → here k pool.conns ≤ 1)
    → Between fd hi pool.conns
    → LeavesConns [] (shutdown_loop left fd count pool)
unfolding shutdown_loop remove_conn
shutdown_loop-Leaves zero fd hi count pool e n single between =
    let same : fd ≡ hi = omega (arith, e) in
    let gone : pool.conns ≡ [] =
      Between-none hi pool.conns (subst (λ f. Between f hi pool.conns) same between) in
    let z : (count == 0) ≡ true = ground (arith, n, ap (λ (l : List Conn). length l) gone) in
    (nothing_done pool, if_at_true _ _ z, gone)
shutdown_loop-Leaves (suc left) fd hi count pool e n single between =
    elim (Bool-cases (count == 0)) [
      | inl z ↦
          rw (z, shutdown_loop) (nothing_done pool, refl, empty pool.conns (ground (arith, n, z)))
      | inr z ↦ elim (Option-cases (find_conn fd 0 pool.conns)) [
        | inl f ↦
            rw (z, f, shutdown_loop)
              (shutdown_loop-Leaves left (suc fd) hi count pool (omega (arith, e)) n single (
                Between-next fd hi pool.conns
                  (subst (Drops fd 0 pool.conns) f (find_conn-Drops fd 0 pool.conns)) between))
        | inr ((i, c, b), f) ↦
            let r = removed pool fd hi i c b f single between in
            let (d, g, l) = remove_found-Leaves pool i c (b || not (is_incomplete c.dst.kind)) in
            rw (z, f, shutdown_loop)
              (after-Leaves (remove_conn pool fd false) (shutdown_loop left (suc fd) (count - 2)) d
                (removes f g)
                (shutdown_loop-Leaves left (suc fd) hi (count - 2) d.pool (omega (arith, e))
                  (rw l (omega (arith, n, r.1)))
                  (λ k. rw l (omega (arith, here-remove k i pool.conns, single k)))
                  (rw l (
                    Between-next fd hi (remove_index i pool.conns) r.0
                      (Between-remove fd hi i pool.conns between)))))
      ]
    ]
  where
    empty : (cs : List Conn) → length cs ≡ 0 → cs ≡ []
    empty [] h = refl
    empty (c ∷ cs) h = absurd (omega (arith, h))

    removes :
        {i : ℕ} {c : Conn} {b : Bool} {d : Done}
        → find_conn fd 0 pool.conns ≡ some (i, c, b)
        → remove_found pool i c (b || not (is_incomplete c.dst.kind)) false ≡ some d
        → remove_conn pool fd false ≡ some d
    removes f g = option_at_some _ _ f ∙ g

-- Shutting a thread down comes back, and leaves it without connections and marked as shut down, where
-- every end has a descriptor below POOL_MAX_FD, no two ends share one, and the counters agree with the
-- connections.
pub handle_shutdown-Leaves :
    (pool : Pool)
    → IsPool pool
    → ((k : ℕ) → here k pool.conns ≤ 1)
    → Between 0 pool_max_fd pool.conns
    → (d : Done) × (handle_shutdown pool ≡ some d) × (d.pool.conns ≡ []) × (d.pool.shutdown ≡ true)
unfolding handle_shutdown
handle_shutdown-Leaves pool p single between =
    let (d, e, l) =
      shutdown_loop-Leaves pool_max_fd 0 pool_max_fd (pool.fd_max - 1) pool (omega arith)
        (omega (arith, p.descriptors)) single between in
    (
      join d (nothing_done (record d.pool { shutdown = true })),
      ap (λ o. after o (λ q. some (nothing_done (record q { shutdown = true })))) e,
      l,
      refl,
    )
