-- ===== src/Config/EnvSound.antt =====
-- Reading the environment keeps what holds of every configuration, and fails as the code fails.
use glb.Common.{
  ℕ, ◌+◌, Bool, true, false, Option, none, some, List, [], ◌∷◌, arith, OnSome, OnSome-some,
  option_split,
}
use glb.Double.{Double}
use glb.Parse.Tokens.{parse_token_string}
use glb.Config.{Clib, GlbCnf, parse_addr, dst_loop, parse_dst_list}
use glb.Config.Options.{Opt, options, option_is}
use glb.Config.EnvOptions.{
  local_host, with_arg, env_control, env_interval, env_latency, env_extra, env_step, next_of,
  env_loop, env_bind, env_dst, env_args, env_parse_options,
}
use glb.Config.Sound.{IsConfig}

with_arg-Keeps {ℓ κ} :
    {A : Type ℓ} (P : A → Type κ) (a : A) (next : Option (List ℕ)) (read : List ℕ → Option A)
    → P a
    → ((s : List ℕ) → OnSome P (read s))
    → P (with_arg a next read).0
unfolding with_arg
with_arg-Keeps P a none read p k = p
with_arg-Keeps {A = A} P a (some s) read p k =
    option_split (λ (r : A × Bool). P r.0) (read s) _ _ (λ _. p) (λ b e. OnSome-some P (k s) e)

module _ {F : Type 0} ⦃fp : Double F⦄ where
  dst_list-IsConfig :
      (lib : Clib F) (args : List (List ℕ)) (port : ℕ) (cnf : GlbCnf F)
      → IsConfig cnf
      → OnSome IsConfig (parse_dst_list lib.libc args port cnf)
  unfolding parse_dst_list
  dst_list-IsConfig lib args port cnf c =
      option_split (OnSome (λ (r : GlbCnf F). IsConfig r)) (dst_loop lib.libc port args) _ _
        (λ _. tt) (λ ds _. c)

  control-IsConfig :
      (lib : Clib F) (cnf : GlbCnf F)
      → IsConfig cnf
      → (s : List ℕ) → OnSome IsConfig (env_control lib cnf s)
  unfolding env_control
  control-IsConfig lib cnf c s =
      option_split (OnSome (λ (r : GlbCnf F). IsConfig r)) (parse_addr lib.libc s local_host) _ _
        (λ _. tt) (λ a _. c)

  interval-IsConfig :
      (lib : Clib F) (i : ℕ) (cnf : GlbCnf F)
      → IsConfig cnf
      → (s : List ℕ) → OnSome IsConfig (env_interval lib i cnf s)
  unfolding env_interval
  interval-IsConfig lib i cnf c s = ground arith

  latency-IsConfig :
      (lib : Clib F) (i : ℕ) (cnf : GlbCnf F)
      → IsConfig cnf
      → (s : List ℕ) → OnSome IsConfig (env_latency lib i cnf s)
  unfolding env_latency
  latency-IsConfig lib i cnf c s = ground arith

  extra-IsConfig :
      (lib : Clib F) (i : ℕ) (cnf : GlbCnf F)
      → IsConfig cnf
      → (s : List ℕ) → OnSome IsConfig (env_extra lib i cnf s)
  unfolding env_extra
  extra-IsConfig lib i cnf c s = ground arith

  step-IsConfig :
      (lib : Clib F) (o : Opt) (i : ℕ) (cnf : GlbCnf F) (next : Option (List ℕ))
      → IsConfig cnf
      → IsConfig (env_step lib o i cnf next).0
  unfolding env_step
  step-IsConfig lib Opt.interval i cnf next c =
      with_arg-Keeps (λ (r : GlbCnf F). IsConfig r) cnf next _ c
        (interval-IsConfig lib (i + 1) cnf c)
  step-IsConfig lib Opt.control i cnf next c =
      with_arg-Keeps (λ (r : GlbCnf F). IsConfig r) cnf next _ c (control-IsConfig lib cnf c)
  step-IsConfig lib Opt.latency_count i cnf next c =
      with_arg-Keeps (λ (r : GlbCnf F). IsConfig r) cnf next _ c
        (latency-IsConfig lib (i + 1) cnf c)
  step-IsConfig lib Opt.extra_polls i cnf next c =
      with_arg-Keeps (λ (r : GlbCnf F). IsConfig r) cnf next _ c (extra-IsConfig lib (i + 1) cnf c)
  step-IsConfig lib _ i cnf next c = ground arith

  loop-IsConfig :
      (lib : Clib F) (i : ℕ) (skip : Bool) (cnf : GlbCnf F) (args : List (List ℕ))
      → IsConfig cnf
      → IsConfig (env_loop lib i skip cnf args).0
  unfolding env_loop
  loop-IsConfig lib i skip cnf [] c = c
  loop-IsConfig lib i true cnf (a ∷ args) c = loop-IsConfig lib (i + 1) false cnf args c
  loop-IsConfig lib i false cnf (a ∷ args) c =
      option_split (λ (r : GlbCnf F × List (List ℕ)). IsConfig r.0) (option_is a options) _ _
        (λ _. c)
        (λ o _.
          loop-IsConfig lib (i + 1) (env_step lib o i cnf (next_of args)).1
            (env_step lib o i cnf (next_of args)).0 args
            (step-IsConfig lib o i cnf (next_of args) c))

  env_bind-IsConfig :
      (lib : Clib F) (cnf : GlbCnf F) (args : List (List ℕ))
      → IsConfig cnf
      → IsConfig (env_bind lib cnf args).0
  unfolding env_bind
  env_bind-IsConfig lib cnf [] c = c
  env_bind-IsConfig lib cnf (a ∷ args) c =
      option_split (λ (r : GlbCnf F × List (List ℕ)). IsConfig r.0)
        (parse_addr lib.libc a local_host) _ _ (λ _. c) (λ addr _. c)

  env_dst-IsConfig :
      (lib : Clib F) (cnf : GlbCnf F) (args : List (List ℕ))
      → IsConfig cnf
      → OnSome IsConfig (env_dst lib cnf args)
  unfolding env_dst
  env_dst-IsConfig lib cnf [] c = c
  env_dst-IsConfig lib cnf (a ∷ args) c = dst_list-IsConfig lib (a ∷ args) _ cnf c

  pub options-IsConfig :
      (lib : Clib F) (cnf : GlbCnf F) (opts : Option (List ℕ))
      → IsConfig cnf
      → OnSome IsConfig (env_parse_options lib cnf opts)
  unfolding env_parse_options env_args
  options-IsConfig lib cnf none c = c
  options-IsConfig lib cnf (some opts) c =
      option_split (OnSome (λ (r : GlbCnf F). IsConfig r)) (parse_token_string opts 0) _ _ (λ _. c)
        (λ (p : List (List ℕ) × ℕ) _.
          let l : GlbCnf F × List (List ℕ) = env_loop lib 0 false cnf p.0 in
          let b : GlbCnf F × List (List ℕ) = env_bind lib l.0 l.1 in
          env_dst-IsConfig lib b.0 b.1
            (env_bind-IsConfig lib l.0 l.1 (loop-IsConfig lib 0 false cnf p.0 c)))
