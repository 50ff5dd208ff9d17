-- ===== src/Config/EnvOptions.antt =====
-- src/glb_env.c, `env_parse_options`: the options in GLB_OPTIONS, then an address to bind and a list of
-- destinations.
use glb.Common.{
  ℕ, ◌+◌, ◌==◌, Bool, true, false, ◌&&◌, Option, none, some, List, [], ◌∷◌, if◌then◌else◌,
}
use glb.Common.Int.{pos, ltb_ℤ, leb_ℤ}
use glb.Double.{Double}
use glb.SockAddr.{sockaddr_get_port}
use glb.Cnf.{Policy}
use glb.Parse.Tokens.{parse_token_string}
use glb.Config.{Clib, GlbCnf, codes, ends, to_int, parse_addr, time_from_double, parse_dst_list}
use glb.Config.Options.{Opt, options, option_is}

-- Both defaults of the environment, for the address to bind and for that of the control.
abbrev pub local_host : List ℕ
local_host = codes "127.0.0.1"

-- The next argument is taken by an option where it can be read.
unfoldable pub with_arg {ℓ} : {A : Type ℓ} → A → Option (List ℕ) → (List ℕ → Option A) → A × Bool
with_arg a none read = (a, false)
with_arg a (some s) read = elim (read s) [ none ↦ (a, false) | some b ↦ (b, true) ]

unfoldable pub next_of : List (List ℕ) → Option (List ℕ)
next_of [] = none
next_of (a ∷ rest) = some a

module _ {F : Type 0} ⦃fp : Double F⦄ where
  unfoldable pub env_control : Clib F → GlbCnf F → List ℕ → Option (GlbCnf F)
  env_control lib cnf s = elim (parse_addr lib.libc s local_host) [
    | none ↦ none
    | some addr ↦ some (record cnf { ctrl_addr = addr; ctrl_set = true })
  ]

  unfoldable pub env_interval : Clib F → ℕ → GlbCnf F → List ℕ → Option (GlbCnf F)
  env_interval lib i cnf s =
      let (sec, end) = lib.libc.strtod s in
      let intvl = time_from_double lib sec in
      if ends end && (lib.errno_at i == 0 && ltb_ℤ (pos 0) intvl)
      then some (record cnf { interval = intvl })
      else none

  unfoldable pub env_latency : Clib F → ℕ → GlbCnf F → List ℕ → Option (GlbCnf F)
  env_latency lib i cnf s =
      let (lf, end) = lib.strtol s in
      if ends end && (lib.errno_at i == 0 && leb_ℤ (pos 0) lf)
      then some (record cnf { lat_factor = to_int lf })
      else none

  unfoldable pub env_extra : Clib F → ℕ → GlbCnf F → List ℕ → Option (GlbCnf F)
  env_extra lib i cnf s =
      let (sec, end) = lib.libc.strtod s in
      let ext = time_from_double lib sec in
      if ends end && (lib.errno_at i == 0 && leb_ℤ (pos 0) ext)
      then some (record cnf { extra = ext })
      else none

  -- The switch on an option at position `i`, with the argument after it: the configuration, and whether
  -- that argument is taken. An option without a case is ignored.
  unfoldable pub env_step : Clib F → Opt → ℕ → GlbCnf F → Option (List ℕ) → GlbCnf F × Bool
  unfolding with_arg env_control env_interval env_latency env_extra
  env_step lib Opt.discover i cnf next = (record cnf { discover = true }, false)
  env_step lib Opt.single i cnf next = (record cnf { policy = Policy.single; top = true }, false)
  env_step lib Opt.top i cnf next = (record cnf { top = true }, false)
  env_step lib Opt.round_robin i cnf next = (record cnf { policy = Policy.round }, false)
  env_step lib Opt.control i cnf next = with_arg cnf next (env_control lib cnf)
  env_step lib Opt.interval i cnf next = with_arg cnf next (env_interval lib (i + 1) cnf)
  env_step lib Opt.latency_count i cnf next = with_arg cnf next (env_latency lib (i + 1) cnf)
  env_step lib Opt.random i cnf next = (record cnf { policy = Policy.random }, false)
  env_step lib Opt.src_tracking i cnf next = (record cnf { policy = Policy.source }, false)
  env_step lib Opt.verbose i cnf next = (record cnf { verbose = true }, false)
  env_step lib Opt.extra_polls i cnf next = with_arg cnf next (env_extra lib (i + 1) cnf)
  env_step lib _ i cnf next = (cnf, false)

  -- The loop over the arguments, from position `i` on, where `skip` says that the first of them was
  -- taken by the option before it: the configuration, and the arguments after the options.
  unfoldable pub env_loop : Clib F → ℕ → Bool → GlbCnf F → List (List ℕ) → GlbCnf F × List (List ℕ)
  unfolding env_step next_of
  env_loop lib i skip cnf [] = (cnf, [])
  env_loop lib i true cnf (a ∷ args) = env_loop lib (i + 1) false cnf args
  env_loop lib i false cnf (a ∷ args) = elim (option_is a options) [
    | none ↦ (cnf, a ∷ args)
    | some o ↦
        let (cnf', skip) = env_step lib o i cnf (next_of args) in
        env_loop lib (i + 1) skip cnf' args
  ]

  -- The address to bind, where the first argument is one.
  unfoldable pub env_bind : Clib F → GlbCnf F → List (List ℕ) → GlbCnf F × List (List ℕ)
  env_bind lib cnf [] = (cnf, [])
  env_bind lib cnf (a ∷ args) = elim (parse_addr lib.libc a local_host) [
    | none ↦ (cnf, a ∷ args)
    | some addr ↦ (record cnf { inc_addr = addr }, args)
  ]

  unfoldable pub env_dst : Clib F → GlbCnf F → List (List ℕ) → Option (GlbCnf F)
  env_dst lib cnf [] = some cnf
  env_dst lib cnf (a ∷ args) =
      parse_dst_list lib.libc (a ∷ args) (sockaddr_get_port cnf.inc_addr) cnf

  unfoldable pub env_args : Clib F → GlbCnf F → List (List ℕ) → Option (GlbCnf F)
  unfolding env_loop env_bind env_dst
  env_args lib cnf args =
      let (cnf1, args1) = env_loop lib 0 false cnf args in
      let (cnf2, args2) = env_bind lib cnf1 args1 in env_dst lib cnf2 args2

  -- None where a destination cannot be read; the configuration is freed then.
  unfoldable pub env_parse_options : Clib F → GlbCnf F → Option (List ℕ) → Option (GlbCnf F)
  unfolding env_args
  env_parse_options lib cnf none = some cnf
  env_parse_options lib cnf (some opts) = elim (parse_token_string opts 0) [
    | none ↦ some cnf
    | some (argv, argc) ↦ env_args lib cnf argv
  ]
