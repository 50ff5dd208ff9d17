-- ===== src/Config/Env.antt =====
-- src/glb_env.c: the configuration of the preloaded library from environment variables,
-- `glb_env_parse`.
use glb.Common.{
  ℕ, ◌==◌, Bool, true, false, Option, none, some, List, [], ◌∷◌, length, if◌then◌else◌,
}
use glb.Common.Int.{pos}
use glb.Double.{Double}
use glb.SockAddr.{SockAddr, sockaddr_is_equal, sockaddr_get_port}
use glb.Cnf.{Policy}
use glb.Parse.Tokens.{parse_token_string}
use glb.Config.{Clib, GlbCnf, codes, same, no_addr, cnf_init, parse_addr, parse_dst_list}
use glb.Config.EnvOptions.{local_host, env_parse_options}

-- What `getenv` gives for each variable.
pub record Environment : Type 0 where
  pub glb_options : Option (List ℕ)
  pub glb_bind : Option (List ℕ)
  pub glb_policy : Option (List ℕ)
  pub glb_control : Option (List ℕ)
  pub glb_targets : Option (List ℕ)
  pub glb_watchdog : Option (List ℕ)

-- The configuration, or NULL: then how many times the structure has been freed.
pub data Parsed (F : Type 0) : Type 0 where
  parsed : GlbCnf F → Parsed F
  failed : ℕ → Parsed F

-- A variable that is not set counts as empty.
unfoldable pub text : Option (List ℕ) → List ℕ
text none = []
text (some s) = s

unfoldable pub env_addr_empty : SockAddr → Bool
env_addr_empty addr = sockaddr_is_equal addr no_addr

module _ {F : Type 0} where
  unfoldable pub env_parse_policy : GlbCnf F → Option (List ℕ) → GlbCnf F
  env_parse_policy cnf none = cnf
  env_parse_policy cnf (some p) =
      if same p (codes "single")
      then record cnf { policy = Policy.single; top = true }
      else if same p (codes "random")
      then record cnf { policy = Policy.random }
      else if same p (codes "source")
      then record cnf { policy = Policy.source }
      else cnf

  unfoldable pub env_parse_control : Clib F → GlbCnf F → Option (List ℕ) → GlbCnf F
  env_parse_control lib cnf none = record cnf { ctrl_set = false }
  env_parse_control lib cnf (some p) = elim (parse_addr lib.libc p local_host) [
    | none ↦ record cnf { ctrl_set = false }
    | some addr ↦ record cnf { ctrl_addr = addr; ctrl_set = true }
  ]

  unfoldable pub env_parse_watchdog : GlbCnf F → Option (List ℕ) → GlbCnf F
  env_parse_watchdog cnf none = cnf
  env_parse_watchdog cnf (some p) = record cnf { watchdog = some p }

  -- The address of GLB_BIND, if that is not empty; none is an error.
  unfoldable pub env_parse_bind : Clib F → GlbCnf F → List ℕ → Option (GlbCnf F)
  env_parse_bind lib cnf [] = some cnf
  env_parse_bind lib cnf (c ∷ s) = elim (parse_addr lib.libc (c ∷ s) local_host) [
    | none ↦ none
    | some addr ↦ some (record cnf { inc_addr = addr })
  ]

module _ {F : Type 0} ⦃fp : Double F⦄ where
  -- The destinations of GLB_TARGETS, if that is not empty. None where one cannot be read, and the
  -- configuration is freed then.
  unfoldable pub env_parse_targets : Clib F → GlbCnf F → List ℕ → Option (GlbCnf F)
  env_parse_targets lib cnf [] = some cnf
  env_parse_targets lib cnf (c ∷ s) = elim (parse_token_string (c ∷ s) b',') [
    | none ↦ none
    | some (dst_list, n) ↦ parse_dst_list lib.libc dst_list (sockaddr_get_port cnf.inc_addr) cnf
  ]

  -- From the targets on. A list that cannot be read has freed the configuration, and `failure` frees it
  -- again.
  unfoldable pub env_finish : Clib F → Environment → GlbCnf F → Parsed F
  unfolding text env_parse_targets env_parse_policy env_parse_control env_parse_watchdog
  env_finish lib env cnf = elim (env_parse_targets lib cnf (text env.glb_targets)) [
    | none ↦ failed 2
    | some cnf1 ↦
        if length cnf1.dst == 0
        then failed 1
        else let cnf2 = env_parse_policy cnf1 env.glb_policy in
          let cnf3 = env_parse_control lib cnf2 env.glb_control in
          parsed (env_parse_watchdog cnf3 env.glb_watchdog)
  ]

  -- From the address to bind on.
  unfoldable pub env_bound : Clib F → Environment → GlbCnf F → Parsed F
  unfolding text env_addr_empty env_parse_bind env_finish
  env_bound lib env cnf = elim (env_parse_bind lib cnf (text env.glb_bind)) [
    | none ↦ failed 1
    | some cnf1 ↦ if env_addr_empty cnf1.inc_addr then failed 1 else env_finish lib env cnf1
  ]

  unfoldable pub env_parse : Clib F → Environment → Parsed F
  unfolding env_bound
  env_parse lib env = elim (env_parse_options lib (cnf_init false (pos 0)) env.glb_options) [
    | none ↦ failed 2
    | some cnf ↦ env_bound lib env cnf
  ]
