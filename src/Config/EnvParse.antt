-- ===== src/Config/EnvParse.antt =====
-- What `glb_env_parse` returns: a configuration that can be used, or how it fails.
use glb.Common.{
  ℕ, ◌==◌, ◌≡◌, refl, ap, ◌∙◌, Bool, true, false, Option, none, some, List, [], ◌∷◌, ◌++◌, length,
  arith, OnSome, OnSome-some, option_split, option_at_some, option_at_none, if_at_false, if_split,
}
use glb.Common.Int.{pos}
use glb.Double.{Double}
use glb.SockAddr.{SockAddr, sockaddr_get_port}
use glb.Dst.{Dst}
use glb.Parse.Tokens.{parse_token_string}
use glb.Parse.Dst.{Libc, dst_parse}
use glb.Config.{Clib, GlbCnf, cnf_init, parse_addr, dst_loop, parse_dst_list}
use glb.Config.Options.{Opt, options, option_is}
use glb.Config.EnvOptions.{
  local_host, env_step, next_of, env_loop, env_bind, env_dst, env_args, env_parse_options,
}
use glb.Config.Env.{
  Environment, Parsed, parsed, failed, text, env_addr_empty, env_parse_policy, env_parse_control,
  env_parse_watchdog, env_parse_bind, env_parse_targets, env_finish, env_bound, env_parse,
}
use glb.Config.Sound.{IsConfig, cnf_init-IsConfig}
use glb.Config.EnvSound.{options-IsConfig}

-- What holds of the configuration, where there is one.
abbrev pub OnParsed : {F : Type 0} → (GlbCnf F → Type 0) → Parsed F → Type 0
OnParsed P (parsed cnf) = P cnf
OnParsed P (failed n) = Unit

-- There is a destination, and an address to bind.
abbrev pub IsUsable : {F : Type 0} → GlbCnf F → Type 0
IsUsable cnf = IsConfig cnf × (length cnf.dst == 0 ≡ false) × (env_addr_empty cnf.inc_addr ≡ false)

-- Options that take an argument and have no case in `env_parse_options`.
abbrev pub is_ignored : Opt → Bool
is_ignored Opt.fifo = true
is_ignored Opt.max_conn = true
is_ignored Opt.n_threads = true
is_ignored Opt.watchdog = true
is_ignored _ = false

module _ {F : Type 0} where
  policy-IsUsable :
      (cnf : GlbCnf F) (p : Option (List ℕ)) → IsUsable cnf → IsUsable (env_parse_policy cnf p)
  unfolding env_parse_policy
  policy-IsUsable cnf none u = u
  policy-IsUsable cnf (some p) u = ground arith

  control-IsUsable :
      (lib : Clib F) (cnf : GlbCnf F) (p : Option (List ℕ))
      → IsUsable cnf
      → IsUsable (env_parse_control lib cnf p)
  unfolding env_parse_control
  control-IsUsable lib cnf none u = u
  control-IsUsable lib cnf (some p) u =
      option_split (λ (r : GlbCnf F). IsUsable r) (parse_addr lib.libc p local_host) _ _ (λ _. u)
        (λ addr _. u)

  watchdog-IsUsable :
      (cnf : GlbCnf F) (p : Option (List ℕ)) → IsUsable cnf → IsUsable (env_parse_watchdog cnf p)
  unfolding env_parse_watchdog
  watchdog-IsUsable cnf none u = u
  watchdog-IsUsable cnf (some p) u = u

  bind-IsConfig :
      (lib : Clib F) (cnf : GlbCnf F) (s : List ℕ)
      → IsConfig cnf
      → OnSome IsConfig (env_parse_bind lib cnf s)
  unfolding env_parse_bind
  bind-IsConfig lib cnf [] c = c
  bind-IsConfig lib cnf (x ∷ s) c =
      option_split (OnSome (λ (r : GlbCnf F). IsConfig r)) (parse_addr lib.libc (x ∷ s) local_host)
        _ _ (λ _. tt) (λ addr _. c)

module _ {F : Type 0} ⦃fp : Double F⦄ where
  -- Reading destinations changes nothing but the destinations.
  abbrev Bound : SockAddr → GlbCnf F → Type 0
  Bound addr cnf = IsConfig cnf × (cnf.inc_addr ≡ addr)

  targets-Bound :
      (lib : Clib F) (cnf : GlbCnf F) (s : List ℕ)
      → IsConfig cnf
      → OnSome (Bound cnf.inc_addr) (env_parse_targets lib cnf s)
  unfolding env_parse_targets parse_dst_list
  targets-Bound lib cnf [] c = (c, refl)
  targets-Bound lib cnf (x ∷ s) c =
      option_split (OnSome (Bound cnf.inc_addr)) (parse_token_string (x ∷ s) b',') _ _ (λ _. tt)
        (λ (p : List (List ℕ) × ℕ) _.
          option_split (OnSome (Bound cnf.inc_addr))
            (dst_loop lib.libc (sockaddr_get_port cnf.inc_addr) p.0) _ _ (λ _. tt)
            (λ ds _. (c, refl)))

  finish-IsUsable :
      (lib : Clib F) (env : Environment) (cnf : GlbCnf F)
      → IsConfig cnf
      → env_addr_empty cnf.inc_addr ≡ false
      → OnParsed IsUsable (env_finish lib env cnf)
  unfolding env_finish
  finish-IsUsable lib env cnf c a =
      option_split (OnParsed (λ (r : GlbCnf F). IsUsable r))
        (env_parse_targets lib cnf (text env.glb_targets)) _ _ (λ _. tt)
        (λ (cnf1 : GlbCnf F) e.
          let b : Bound cnf.inc_addr cnf1 =
            OnSome-some (Bound cnf.inc_addr) (targets-Bound lib cnf (text env.glb_targets) c) e in
          if_split (OnParsed (λ (r : GlbCnf F). IsUsable r)) (length cnf1.dst == 0) _ _ (λ _. tt)
            (λ some_dst.
              let cnf2 : GlbCnf F = env_parse_policy cnf1 env.glb_policy in
              let cnf3 : GlbCnf F = env_parse_control lib cnf2 env.glb_control in
              watchdog-IsUsable cnf3 env.glb_watchdog (
                control-IsUsable lib cnf2 env.glb_control (
                  policy-IsUsable cnf1 env.glb_policy (b.0, some_dst, ap env_addr_empty b.1 ∙ a)))))

  -- A configuration that is returned, whatever the variables hold, has a destination and an address to
  -- bind that is not all zeros, uses only destinations with the top weight if its policy is a single
  -- destination, checks at a positive interval, and has no negative time for extra checks.
  pub env_parse-IsUsable :
      (lib : Clib F) (env : Environment) → OnParsed IsUsable (env_parse lib env)
  unfolding env_parse env_bound
  env_parse-IsUsable lib env =
      option_split (OnParsed (λ (r : GlbCnf F). IsUsable r))
        (env_parse_options lib (cnf_init false (pos 0)) env.glb_options) _ _ (λ _. tt)
        (λ (cnf : GlbCnf F) e.
          option_split (OnParsed (λ (r : GlbCnf F). IsUsable r))
            (env_parse_bind lib cnf (text env.glb_bind)) _ _ (λ _. tt)
            (λ (cnf1 : GlbCnf F) f.
              if_split (OnParsed (λ (r : GlbCnf F). IsUsable r)) (env_addr_empty cnf1.inc_addr) _ _
                (λ _. tt) (λ a. finish-IsUsable lib env cnf1 (bound cnf cnf1 e f) a)))
    where
      bound :
          (cnf cnf1 : GlbCnf F)
          → env_parse_options lib (cnf_init false (pos 0)) env.glb_options ≡ some cnf
          → env_parse_bind lib cnf (text env.glb_bind) ≡ some cnf1
          → IsConfig cnf1
      bound cnf cnf1 e f =
          OnSome-some (λ (r : GlbCnf F). IsConfig r)
            (bind-IsConfig lib cnf (text env.glb_bind) (
              OnSome-some (λ (r : GlbCnf F). IsConfig r)
                (options-IsConfig lib (cnf_init false (pos 0)) env.glb_options
                  (cnf_init-IsConfig F false (pos 0)))
                e))
            f

  dst_loop_bad :
      (libc : Libc F) (port : ℕ) (before : List (List ℕ)) (s : List ℕ) (after : List (List ℕ))
      → dst_parse libc s port ≡ none
      → dst_loop libc port (before ++ s ∷ after) ≡ none
  unfolding dst_loop
  dst_loop_bad libc port [] s after h = option_at_none _ _ h
  dst_loop_bad libc port (x ∷ before) s after h =
      option_split (λ (r : Option (List (Dst F))). r ≡ none) (dst_parse libc x port) _ _ (λ _. refl)
        (λ p _. option_at_none _ _ (dst_loop_bad libc port before s after h))

  -- Where GLB_OPTIONS is not set and GLB_BIND is an address that is not all zeros, a destination in
  -- GLB_TARGETS that cannot be read makes the configuration be freed twice.
  pub env_parse_freed_twice :
      (lib : Clib F) (env : Environment) (b c : ℕ) (bind targets : List ℕ) (addr : SockAddr)
      (before after : List (List ℕ)) (s : List ℕ) (n : ℕ)
      → env.glb_options ≡ none
      → env.glb_bind ≡ some (b ∷ bind)
      → parse_addr lib.libc (b ∷ bind) local_host ≡ some addr
      → env_addr_empty addr ≡ false
      → env.glb_targets ≡ some (c ∷ targets)
      → parse_token_string (c ∷ targets) b',' ≡ some (before ++ s ∷ after, n)
      → dst_parse lib.libc s (sockaddr_get_port addr) ≡ none
      → env_parse lib env ≡ failed 2
  unfolding env_parse env_bound env_parse_options env_parse_bind env_finish env_parse_targets text
      parse_dst_list
  env_parse_freed_twice lib env b c bind targets addr before after s n o e a z t p d =
      let cnf : GlbCnf F = cnf_init false (pos 0) in
      let port : ℕ = sockaddr_get_port addr in
      let step1 : env_parse_options lib cnf env.glb_options ≡ some cnf =
        ap (env_parse_options lib cnf) o in
      let step2 : env_parse_bind lib cnf (text env.glb_bind)
          ≡ some (record cnf { inc_addr = addr }) =
        ap (λ t. env_parse_bind lib cnf (text t)) e ∙ option_at_some _ _ a in
      let step3 : env_parse_targets lib (record cnf { inc_addr = addr }) (text env.glb_targets)
          ≡ none =
        ap (λ t. env_parse_targets lib (record cnf { inc_addr = addr }) (text t)) t
        ∙ option_at_some _ _ p
        ∙ option_at_none _ _ (dst_loop_bad lib.libc port before s after d) in
      option_at_some _ _ step1
      ∙ option_at_some _ _ step2
      ∙ if_at_false _ _ z
      ∙ option_at_none _ _ step3

  ignored-step :
      (lib : Clib F) (o : Opt) (i : ℕ) (cnf : GlbCnf F) (next : Option (List ℕ))
      → is_ignored o ≡ true
      → env_step lib o i cnf next ≡ (cnf, false)
  unfolding env_step
  ignored-step lib o i cnf next h = ground arith

  -- The argument of an option that the environment does not support, but the command line does, ends
  -- the options, where it does not look like one, and is taken as the address to bind, where it can be
  -- read as one; what is left are the destinations.
  pub env_args_ignored :
      (lib : Clib F) (cnf : GlbCnf F) (o : Opt) (a arg : List ℕ) (args : List (List ℕ))
      (addr : SockAddr)
      → option_is a options ≡ some o
      → is_ignored o ≡ true
      → option_is arg options ≡ none
      → parse_addr lib.libc arg local_host ≡ some addr
      → env_args lib cnf (a ∷ arg ∷ args) ≡ env_dst lib (record cnf { inc_addr = addr }) args
  unfolding env_args env_loop env_bind
  env_args_ignored lib cnf o a arg args addr h i n p =
      let stops : env_loop lib 1 false cnf (arg ∷ args) ≡ (cnf, arg ∷ args) =
        option_at_none _ _ n in
      let goes : env_loop lib 0 false cnf (a ∷ arg ∷ args) ≡ (cnf, arg ∷ args) =
        option_at_some _ _ h
        ∙ ap (λ (r : GlbCnf F × Bool). env_loop lib 1 r.1 r.0 (arg ∷ args))
            (ignored-step lib o 0 cnf (next_of (arg ∷ args)) i)
        ∙ stops in
      let binds : env_bind lib cnf (arg ∷ args) ≡ (record cnf { inc_addr = addr }, args) =
        option_at_some _ _ p in
      ap
        (λ (r : GlbCnf F × List (List ℕ)).
          let b : GlbCnf F × List (List ℕ) = env_bind lib r.0 r.1 in env_dst lib b.0 b.1)
        goes
      ∙ ap (λ (r : GlbCnf F × List (List ℕ)). env_dst lib r.0 r.1) binds
