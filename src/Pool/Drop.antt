-- ===== src/Pool/Drop.antt =====
-- Dropping a destination: the loop over the descriptors, and what it compares with.
use glb.Common.{
  ℕ, zero, suc, ◌+◌, ◌-◌, ◌≤◌, ◌≡◌, subst, inl, inr, refl, Bool, true, false, Option, none, some,
  List, [], ◌∷◌, leb, ◌==◌, arith, Bool-cases, Option-cases, if_split, if◌then◌else◌,
}
use glb.SockAddr.{SockAddr, sockaddr_is_equal}
use glb.Pool.State.{End, Conn, has_sock}
use glb.Pool.Conns.{Pool, nothing_done, find_conn, drop_loop, handle_drop_dst, pool_max_fd}

-- Whether the end has the descriptor `fd`, and whether it has one that is not below `fd`.
abbrev at_fd : ℕ → End → ℕ
at_fd fd end = if has_sock end fd then 1 else 0

abbrev from_fd : ℕ → End → ℕ
from_fd fd end = elim end.sock [ none ↦ 0 | some s ↦ if leb fd s then 1 else 0 ]

-- How many ends have the descriptor `fd`, and how many one that is not below it.
abbrev pub here : ℕ → List Conn → ℕ
here fd [] = 0
here fd (c ∷ cs) = at_fd fd c.inc + at_fd fd c.dst + here fd cs

abbrev remaining : ℕ → List Conn → ℕ
remaining fd [] = 0
remaining fd (c ∷ cs) = from_fd fd c.inc + from_fd fd c.dst + remaining fd cs

from_fd-step : (fd : ℕ) (end : End) → from_fd fd end ≡ at_fd fd end + from_fd (suc fd) end
from_fd-step fd end = elim (Option-cases end.sock) [
  | inl e ↦ rw e refl
  | inr (s, e) ↦ rw e (ground arith)
]

remaining-step : (fd : ℕ) (cs : List Conn) → remaining fd cs ≡ here fd cs + remaining (suc fd) cs
remaining-step fd [] = refl
remaining-step fd (c ∷ cs) =
    omega (arith, from_fd-step fd c.inc, from_fd-step fd c.dst, remaining-step fd cs)

-- The block at an index is found, or no end has the descriptor.
abbrev Finds : ℕ → List Conn → Option (ℕ × Conn × Bool) → Type 0
Finds fd cs none = here fd cs ≡ 0
Finds fd cs (some f) = 1 ≤ here fd cs

find_conn-Finds : (fd i : ℕ) (cs : List Conn) → Finds fd cs (find_conn fd i cs)
unfolding find_conn
find_conn-Finds fd i [] = refl
find_conn-Finds fd i (c ∷ cs) =
    if_split (Finds fd (c ∷ cs)) (has_sock c.inc fd) _ _ (λ e. rw e (omega arith))
      (λ e.
        if_split (Finds fd (c ∷ cs)) (has_sock c.dst fd) _ _ (λ f. rw (e, f) (omega arith))
          (λ f. later e f (find_conn fd (suc i) cs) (find_conn-Finds fd (suc i) cs)))
  where
    later :
        has_sock c.inc fd ≡ false
        → has_sock c.dst fd ≡ false
        → (o : Option (ℕ × Conn × Bool)) → Finds fd cs o
        → Finds fd (c ∷ cs) o
    later e f none h = rw (e, f) (omega (arith, h))
    later e f (some x) h = rw (e, f) (omega (arith, h))

-- The loop over the descriptors left, from `fd` on, where every comparison fails.
drop_loop-idle :
    (left fd count : ℕ) (dst : SockAddr) (before : Conn → SockAddr) (pool : Pool)
    → ((c : Conn) → sockaddr_is_equal dst (before c) ≡ false)
    → ((k : ℕ) → here k pool.conns ≤ 1)
    → remaining (fd + left) pool.conns ≡ 0
    → count ≡ remaining fd pool.conns
    → drop_loop left fd count dst before pool ≡ some (nothing_done pool)
unfolding drop_loop
drop_loop-idle zero fd count dst before pool h single all n =
    let same : fd + 0 ≡ fd = omega arith in
    let z : (count == 0) ≡ true = ground (arith, n, rw same at all) in rw z refl
drop_loop-idle (suc left) fd count dst before pool h single all n =
    let step = remaining-step fd pool.conns in
    let shift : fd + suc left ≡ suc fd + left = omega arith in
    elim (Bool-cases (count == 0)) [
      | inl e ↦ rw (e, drop_loop) refl
      | inr e ↦ elim (Option-cases (find_conn fd 0 pool.conns)) [
        | inl f ↦
            let none_here : here fd pool.conns ≡ 0 = found f in
            rw (e, f, drop_loop)
              (drop_loop-idle left (suc fd) count dst before pool h single (rw shift at all)
                (omega (arith, n, step, none_here)))
        | inr ((i, c, b), f) ↦
            let one_here : 1 ≤ here fd pool.conns = found_some f in
            rw (e, f, drop_loop, h c)
              (drop_loop-idle left (suc fd) (count - 1) dst before pool h single (rw shift at all)
                (omega (arith, n, step, one_here, single fd)))
      ]
    ]
  where
    found : find_conn fd 0 pool.conns ≡ none → here fd pool.conns ≡ 0
    found f = subst (Finds fd pool.conns) f (find_conn-Finds fd 0 pool.conns)

    found_some : {x : ℕ × Conn × Bool} → find_conn fd 0 pool.conns ≡ some x → 1 ≤ here fd pool.conns
    found_some f = subst (Finds fd pool.conns) f (find_conn-Finds fd 0 pool.conns)

-- Where the bytes before the blocks do not happen to hold the address of the destination, dropping it
-- does nothing, whatever the destinations of the connections: the call comes back with the pool as it
-- was, no descriptor closed and the router told nothing. The descriptors are below POOL_MAX_FD, no two
-- ends share one, and `fd_max` counts them and the control pipe.
pub handle_drop_dst_idle :
    (pool : Pool) (dst : SockAddr) (before : Conn → SockAddr)
    → ((c : Conn) → sockaddr_is_equal dst (before c) ≡ false)
    → ((k : ℕ) → here k pool.conns ≤ 1)
    → remaining pool_max_fd pool.conns ≡ 0
    → pool.fd_max ≡ remaining 0 pool.conns + 1
    → handle_drop_dst pool dst before ≡ some (nothing_done pool)
unfolding handle_drop_dst
handle_drop_dst_idle pool dst before h single all n =
    drop_loop-idle pool_max_fd 0 (pool.fd_max - 1) dst before pool h single all (omega arith)
