-- ===== src/Config/CmdSound.antt =====
-- What holds of a configuration that the command line gives.
use glb.Common.{
  ℕ, ◌+◌, ◌*◌, ◌^◌, ◌≤◌, ◌<◌, ◌≡◌, subst, sym, Bool, true, false, ◌&&◌, length, ltb, leb, arith,
  if_split, if_intro,
}
use glb.Common.Int.{ℤ, pos, pos_part, leb_ℤ}
use glb.Double.{Double}
use glb.Dst.{Dst}
use glb.Limits.{
  Rlimit, reserved, nofiles, get_conn_limit, set_conn_limit, set_conn_limit_enough,
  int_as_u64-small,
}
use glb.Config.{Clib, to_int, GlbCnf}
use glb.Config.Options.{Opt}
use glb.Config.Sound.{IsConfig}
use glb.Config.Cmd.{Found, option, Outcome, exits, continues, limit_conns, cmd_conn_limit}

-- What holds if the program goes on.
abbrev pub OnGoing {ℓ κ} : {A : Type ℓ} → (A → Type κ) → Outcome A → Type κ
OnGoing P (exits status) = Unit
OnGoing P (continues a) = P a

-- The latency count is not negative either, nor the number of threads.
abbrev pub IsCounted : {F : Type 0} → GlbCnf F → Type 0
IsCounted cnf =
    IsConfig cnf × (leb_ℤ (pos 0) cnf.lat_factor ≡ true) × (leb_ℤ (pos 0) cnf.n_threads ≡ true)

-- The option does not ask for a negative number of threads, which the code accepts.
abbrev pub AsksThreads : {F : Type 0} → Clib F → Found → Type 0
AsksThreads lib (option Opt.n_threads arg) = leb_ℤ (pos 0) (to_int (lib.strtol arg).0) ≡ true
AsksThreads lib _ = Unit

-- There is at least one thread, and a daemon is not verbose.
abbrev pub IsReady : {F : Type 0} → ℕ → GlbCnf F → Type 0
IsReady n cnf =
    IsCounted cnf
    × (leb_ℤ (pos 1) cnf.n_threads ≡ true)
    × ((cnf.daemonize && cnf.verbose) ≡ false)
    × (length cnf.dst ≡ n)

-- Some connections are left where two descriptors are.
set_conn_limit_pos :
    (rlp : Rlimit) (m : ℕ) (allowed : Bool)
    → 0 < m
    → reserved + 2 ≤ rlp.rlim_max
    → rlp.rlim_max < 2 ^ 31
    → 0 < (set_conn_limit rlp m allowed).1
unfolding set_conn_limit get_conn_limit
set_conn_limit_pos rlp m allowed h b d =
    let kept = int_as_u64-small rlp.rlim_max d in
    if_intro (λ (o : Rlimit × ℕ). 0 < o.1) (leb (nofiles m) rlp.rlim_cur) _ _ h
      (if_intro (λ (o : Rlimit × ℕ). 0 < o.1) allowed _ _ h (omega (arith, b, kept)))

module _ {F : Type 0} where
  -- The connections that are allowed in the end fit the limit on open files that the process is left
  -- with, whether raising it is allowed or not: for a number of connections that is not negative, where
  -- the limits and the descriptors that are asked for are below 2^31, the hard one leaves two descriptors besides those that are reserved, and
  -- the soft one is between what is reserved and the hard one.
  pub cmd_conn_limit_fits :
      (rlp : Rlimit) (allowed : Bool) (cnf : GlbCnf F) (m : ℕ)
      → cnf.max_conn ≡ pos m
      → reserved ≤ rlp.rlim_cur
      → reserved + 2 ≤ rlp.rlim_max
      → rlp.rlim_cur ≤ rlp.rlim_max
      → rlp.rlim_max < 2 ^ 31
      → m * 2 + reserved < 2 ^ 31
      → let (rlp', cnf') = cmd_conn_limit rlp allowed cnf in
        pos_part cnf'.max_conn ≤ get_conn_limit rlp'
  unfolding cmd_conn_limit limit_conns
  cmd_conn_limit_fits rlp allowed cnf m e a b c d n =
      let enough = set_conn_limit_enough rlp m allowed (omega (arith, b)) c d n in
      let res : ℕ = (set_conn_limit rlp m allowed).1 in
      let fits = λ (r : Rlimit × GlbCnf F). pos_part r.1.max_conn ≤ get_conn_limit r.0 in
      subst (λ z. fits (limit_conns rlp allowed cnf z)) (sym e)
        (if_split fits (ltb (get_conn_limit rlp) m) _ _
          (λ h.
            let some_left : 0 < res =
              set_conn_limit_pos rlp m allowed (ground arith) (omega (arith, b)) d in
            if_split (λ (z : ℤ). pos_part z ≤ get_conn_limit (set_conn_limit rlp m allowed).0)
              (ltb 0 res) _ _ (λ _. enough.1) (λ q. absurd (ground arith)))
          (λ h. rw e (ground arith)))
