-- ===== src/Pool/Counts.antt =====
-- The counters of a pool thread agree with the connections that it has.
use glb.Common.{
  ◌⊎◌, true, ℕ, zero, suc, ◌+◌, ◌-◌, ◌*◌, ◌≤◌, ◌<◌, ◌≡◌, inl, inr, refl, Bool, false, not, ◌||◌,
  Option, none, some, List, [], ◌∷◌, length, ◌==◌, arith, Bool-cases, Option-cases, OnSome,
  OnSome-some, if_intro,
}
use glb.SockAddr.{SockAddr, sockaddr_is_equal}
use glb.Pool.State.{Conn, has_sock, is_incomplete}
use glb.Pool.Conns.{
  Pool, Done, after, find_conn, remove_index, remove_found, remove_conn, register, handle_add_conn,
  drop_loop, handle_drop_dst, shutdown_loop, handle_shutdown, nothing_done, fds_add, fds_del,
  pool_max_fd,
}

-- Each connection has two descriptors, and the control pipe one; all have an entry in the array.
pub record IsPool (pool : Pool) : Type 0 where
  pub counted : pool.n_conns ≡ length pool.conns
  pub descriptors : pool.fd_max ≡ 2 * length pool.conns + 1
  pub allocated : pool.fd_max ≤ pool.pollfds_len

pub length-remove_index :
    (i : ℕ) (cs : List Conn) → i < length cs → length (remove_index i cs) + 1 ≡ length cs
unfolding remove_index
length-remove_index i [] h = absurd (omega arith)
length-remove_index zero (c ∷ cs) h = omega arith
length-remove_index (suc i) (c ∷ cs) h = omega (arith, length-remove_index i cs (omega arith))

-- The index that is found is one of the list.
pub find_conn-lt :
    (fd i : ℕ) (cs : List Conn)
    → OnSome (λ (f : ℕ × Conn × Bool). f.0 < i + length cs) (find_conn fd i cs)
unfolding find_conn
find_conn-lt fd i [] = tt
find_conn-lt fd i (c ∷ cs) =
    let P = (λ (f : ℕ × Conn × Bool). f.0 < i + length (c ∷ cs)) in
    if_intro (OnSome P) (has_sock c.inc fd) _ _ (omega arith) (
      if_intro (OnSome P) (has_sock c.dst fd) _ _ (omega arith)
        (widen (find_conn fd (suc i) cs) (find_conn-lt fd (suc i) cs)))
  where
    widen :
        (o : Option (ℕ × Conn × Bool))
        → OnSome (λ (f : ℕ × Conn × Bool). f.0 < suc i + length cs) o
        → OnSome (λ (f : ℕ × Conn × Bool). f.0 < i + length (c ∷ cs)) o
    widen none h = tt
    widen (some f) h = omega arith

abbrev pub Kept : Option Done → Type 0
Kept = OnSome λ (d : Done). IsPool d.pool

pub remove_found-IsPool :
    (pool : Pool) (i : ℕ) (c : Conn) (full notify : Bool)
    → i < length pool.conns
    → IsPool pool
    → Kept (remove_found pool i c full notify)
unfolding remove_found fds_del
remove_found-IsPool pool i c full notify h p =
    let l = length-remove_index i pool.conns h in
    let counted : pool.n_conns - 1 ≡ length (remove_index i pool.conns) =
      omega (arith, l, p.counted) in
    let descriptors : pool.fd_max - 1 - 1 ≡ 2 * length (remove_index i pool.conns) + 1 =
      omega (arith, l, p.descriptors) in
    let allocated : pool.fd_max - 1 - 1 ≤ pool.pollfds_len = omega (arith, p.allocated) in
    if_intro Kept full _ _
      (record { counted = counted; descriptors = descriptors; allocated = allocated })
      (if_intro Kept notify _ _ tt
        (record { counted = counted; descriptors = descriptors; allocated = allocated }))

pub remove_conn-OnSome :
    (pool : Pool) (fd : ℕ) (notify : Bool) → IsPool pool → Kept (remove_conn pool fd notify)
unfolding remove_conn
remove_conn-OnSome pool fd notify p = elim (Option-cases (find_conn fd 0 pool.conns)) [
  | inl e ↦ rw (e, remove_conn) tt
  | inr ((i, c, b), e) ↦
      let h =
        OnSome-some (λ (f : ℕ × Conn × Bool). f.0 < 0 + length pool.conns)
          (find_conn-lt fd 0 pool.conns) e in
      rw (e, remove_conn)
        (remove_found-IsPool pool i c (b || not (is_incomplete c.dst.kind)) notify (omega arith) p)
]

register-IsPool : (pool : Pool) (c : Conn) → IsPool pool → IsPool (register pool c)
unfolding register fds_add
register-IsPool pool c p = record {
  counted = omega (arith, p.counted);
  descriptors = omega (arith, p.descriptors);
  allocated = ground (arith, p.allocated);
}

-- Adding a connection, made or to be made, keeps the counters, also where its making fails at once.
pub handle_add_conn-IsPool :
    (pool : Pool) (c : Conn) (started : Option ℕ)
    → IsPool pool
    → IsPool (handle_add_conn pool c started).pool
unfolding handle_add_conn
handle_add_conn-IsPool pool c started p = elim (Option-cases c.dst.sock) [
  | inr (s, e) ↦ rw (e, handle_add_conn) (register-IsPool pool c p)
  | inl e ↦ elim (Option-cases started) [
    | inl f ↦ rw (e, f, handle_add_conn) p
    | inr (s, f) ↦
        rw (e, f, handle_add_conn)
          (register-IsPool pool (record c { dst = record c.dst { sock = some s } }) p)
  ]
]

pub after-Kept :
    (o : Option Done) (next : Pool → Option Done)
    → Kept o
    → ((p : Pool) → IsPool p → Kept (next p))
    → Kept (after o next)
after-Kept none next h k = tt
after-Kept (some d) next h k = elim (Option-cases (next d.pool)) [
  | inl e ↦ rw (e, after) tt
  | inr (d', e) ↦ rw (e, after) (OnSome-some (λ (x : Done). IsPool x.pool) (k d.pool h) e)
]

pub drop_loop-Kept :
    (left fd count : ℕ) (dst : SockAddr) (before : Conn → SockAddr) (pool : Pool)
    → IsPool pool
    → Kept (drop_loop left fd count dst before pool)
unfolding drop_loop
drop_loop-Kept zero fd count dst before pool p = if_intro Kept (count == 0) _ _ p tt
drop_loop-Kept (suc left) fd count dst before pool p = elim (Bool-cases (count == 0)) [
  | inl e ↦ rw (e, drop_loop) p
  | inr e ↦ elim (Option-cases (find_conn fd 0 pool.conns)) [
    | inl f ↦ rw (e, f, drop_loop) (drop_loop-Kept left (suc fd) count dst before pool p)
    | inr ((i, c, b), f) ↦ elim (Bool-cases (sockaddr_is_equal dst (before c))) [
      | inr g ↦ rw (e, f, g, drop_loop) (drop_loop-Kept left (suc fd) (count - 1) dst before pool p)
      | inl g ↦
          rw (e, f, g, drop_loop)
            (after-Kept (remove_conn pool fd false)
              (drop_loop left (suc fd) (count - 1 - 1) dst before)
              (remove_conn-OnSome pool fd false p)
              (λ q. drop_loop-Kept left (suc fd) (count - 1 - 1) dst before q))
    ]
  ]
]

pub shutdown_loop-Kept :
    (left fd count : ℕ) (pool : Pool) → IsPool pool → Kept (shutdown_loop left fd count pool)
unfolding shutdown_loop
shutdown_loop-Kept zero fd count pool p = if_intro Kept (count == 0) _ _ p tt
shutdown_loop-Kept (suc left) fd count pool p = elim (Bool-cases (count == 0)) [
  | inl e ↦ rw (e, shutdown_loop) p
  | inr e ↦ elim (Option-cases (find_conn fd 0 pool.conns)) [
    | inl f ↦ rw (e, f, shutdown_loop) (shutdown_loop-Kept left (suc fd) count pool p)
    | inr (c, f) ↦
        rw (e, f, shutdown_loop)
          (after-Kept (remove_conn pool fd false) (shutdown_loop left (suc fd) (count - 2))
            (remove_conn-OnSome pool fd false p)
            (λ q. shutdown_loop-Kept left (suc fd) (count - 2) q))
  ]
]

-- What comes back is some result with the counters kept and one connection less.
abbrev pub RemovesOne : Pool → Option Done → Type 0
RemovesOne pool o =
    (d : Done) × (o ≡ some d) × IsPool d.pool × (length d.pool.conns + 1 ≡ length pool.conns)

remove_full :
    (pool : Pool) (i : ℕ) (c : Conn) (full notify : Bool)
    → i < length pool.conns
    → IsPool pool
    → (full ≡ true) ⊎ (notify ≡ false)
    → RemovesOne pool (remove_found pool i c full notify)
unfolding remove_found fds_del
remove_full pool i c full notify h p ok =
    let l = length-remove_index i pool.conns h in
    let kept = remove_found-IsPool pool i c full notify h p in
    elim (Bool-cases full) [
      | inl e ↦ rw e (_, refl, rw e at kept, l)
      | inr e ↦ elim ok [
        | inl t ↦ absurd (ground (arith, e, t))
        | inr n ↦ rw (e, n) (_, refl, rw (e, n) at kept, l)
      ]
    ]

-- The connection of a descriptor in the pool is removed: the call comes back, with the counters kept
-- and one connection less, where the cleanup is a full one or the router is not to be told.
pub remove_conn-IsPool :
    (pool : Pool) (fd i : ℕ) (c : Conn) (from_client notify : Bool)
    → IsPool pool
    → find_conn fd 0 pool.conns ≡ some (i, c, from_client)
    → ((from_client || not (is_incomplete c.dst.kind)) ≡ true) ⊎ (notify ≡ false)
    → RemovesOne pool (remove_conn pool fd notify)
unfolding remove_conn
remove_conn-IsPool pool fd i c from_client notify p e ok =
    let h =
      OnSome-some (λ (f : ℕ × Conn × Bool). f.0 < 0 + length pool.conns)
        (find_conn-lt fd 0 pool.conns) e in
    rw (e, remove_conn)
      (remove_full pool i c (from_client || not (is_incomplete c.dst.kind)) notify (omega arith) p
        ok)

-- Dropping a destination keeps the counters, where the call comes back.
pub handle_drop_dst-IsPool :
    (pool : Pool) (dst : SockAddr) (before : Conn → SockAddr) (d : Done)
    → IsPool pool
    → handle_drop_dst pool dst before ≡ some d
    → IsPool d.pool
unfolding handle_drop_dst
handle_drop_dst-IsPool pool dst before d p e =
    OnSome-some (λ (x : Done). IsPool x.pool)
      (drop_loop-Kept pool_max_fd 0 (pool.fd_max - 1) dst before pool p) e

pub handle_drop_dst-Kept :
    (pool : Pool) (dst : SockAddr) (before : Conn → SockAddr)
    → IsPool pool
    → Kept (handle_drop_dst pool dst before)
unfolding handle_drop_dst
handle_drop_dst-Kept pool dst before p =
    drop_loop-Kept pool_max_fd 0 (pool.fd_max - 1) dst before pool p

pub handle_shutdown-Kept : (pool : Pool) → IsPool pool → Kept (handle_shutdown pool)
unfolding handle_shutdown
handle_shutdown-Kept pool p =
    after-Kept (shutdown_loop pool_max_fd 0 (pool.fd_max - 1) pool)
      (λ q. some (nothing_done (record q { shutdown = true })))
      (shutdown_loop-Kept pool_max_fd 0 (pool.fd_max - 1) pool p)
      (λ q k. record { counted = k.counted; descriptors = k.descriptors; allocated = k.allocated })
