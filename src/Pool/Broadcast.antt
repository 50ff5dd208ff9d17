-- ===== src/Pool/Broadcast.antt =====
-- src/glb_pool.c: all pool threads: making them, `glb_pool_create`, sending a command to each and
-- waiting for its confirmation, `pool_bcast_ctl`, and ending them, `glb_pool_destroy`. A command is
-- written whole, and each thread answers before the next is told.
use glb.Common.{
  ℕ, zero, suc, ◌≤◌, ◌≡◌, refl, ap, ◌∙◌, true, false, Option, none, some, List, [], ◌∷◌, All,
  length, arith, option_at_some,
}
use glb.Pool.State.{Stats, zero_stats}
use glb.Pool.Conns.{Pool, Done, fds_add, handle_stats}
use glb.Pool.Counts.{IsPool}
use glb.Pool.Drop.{here}
use glb.Pool.Events.{Ctl, shutdown, handle_ctl, uncount_poll}
use glb.Pool.Conns.{pool_max_fd}
use glb.Pool.Shutdown.{Between, handle_shutdown-Leaves}

-- `pool_init`: no connections, and the control pipe as the only descriptor.
unfoldable pub pool_init : Pool
unfolding fds_add
pool_init = fds_add (record {
  conns = [];
  n_conns = 0;
  fd_max = 0;
  pollfds_len = 0;
  stats = zero_stats;
  shutdown = false;
})

unfoldable pub pool_create : ℕ → List Pool
unfolding pool_init
pool_create zero = []
pool_create (suc n_threads) = pool_init ∷ pool_create n_threads

-- What each thread does on the command; none where one of them ends the process.
unfoldable pub bcast_ctl : List Pool → Ctl → Option (List Done)
unfolding handle_ctl
bcast_ctl [] c = some []
bcast_ctl (p ∷ ps) c =
    let rest = bcast_ctl ps c in
    elim (handle_ctl p c) [
      | none ↦ none
      | some d ↦ elim rest [ none ↦ none | some ds ↦ some (d ∷ ds) ]
    ]

-- The statistics of all threads, which each adds to what it gets.
unfoldable pub gather_stats : List Pool → Stats → Stats
unfolding handle_stats
gather_stats [] s = s
gather_stats (p ∷ ps) s = gather_stats ps (handle_stats p s).0

unfoldable pub pool_destroy : List Pool → Option (List Done)
unfolding bcast_ctl
pool_destroy ps = bcast_ctl ps shutdown

pool_create-IsPool : (n : ℕ) → All IsPool (pool_create n)
unfolding pool_create pool_init fds_add
pool_create-IsPool zero = tt
pool_create-IsPool (suc n) =
    (record { counted = refl; descriptors = refl; allocated = omega arith }, pool_create-IsPool n)

-- The counters agree with the connections, and the descriptors are distinct and below POOL_MAX_FD.
pub record CanEnd (pool : Pool) : Type 0 where
  pub counts : IsPool pool
  pub single : (k : ℕ) → here k pool.conns ≤ 1
  pub between : Between 0 pool_max_fd pool.conns

-- There is no connection, and the thread ends.
abbrev pub HasEnded : Done → Type 0
HasEnded d = (d.pool.conns ≡ []) × (d.pool.shutdown ≡ true)

uncount-CanEnd : (pool : Pool) → CanEnd pool → CanEnd (uncount_poll pool)
uncount-CanEnd pool c = record {
  counts = record {
    counted = c.counts.counted;
    descriptors = c.counts.descriptors;
    allocated = c.counts.allocated;
  };
  single = c.single;
  between = c.between;
}

-- Destroying the pool comes back, with every thread without connections and about to end, where in
-- each the counters agree with the connections and the descriptors are distinct and below POOL_MAX_FD.
pub pool_destroy-HasEnded :
    (ps : List Pool)
    → All CanEnd ps
    → (ds : List Done) × (pool_destroy ps ≡ some ds) × (length ds ≡ length ps) × All HasEnded ds
unfolding pool_destroy bcast_ctl handle_ctl
pool_destroy-HasEnded [] h = ([], refl, refl, tt)
pool_destroy-HasEnded (p ∷ ps) h =
    let c = uncount-CanEnd p h.0 in
    let (d, e, l, s) = handle_shutdown-Leaves (uncount_poll p) c.counts c.single c.between in
    let (ds, f, n, all) = pool_destroy-HasEnded ps h.1 in
    (d ∷ ds, option_at_some _ _ e ∙ option_at_some _ _ f, ap suc n, ((l, s), all))
