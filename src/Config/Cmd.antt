-- ===== src/Config/Cmd.antt =====
-- src/glb_cmd.c: the configuration of the daemon from the command line, `cmd_parse_options` and
-- `glb_cmd_parse`. `getopt_long` is a parameter: what it returns, and the arguments it leaves.
use glb.Common.{
  ℕ, ◌+◌, ◌==◌, ltb, Bool, true, false, not, ◌||◌, Option, none, some, List, [], ◌∷◌, if◌then◌else◌,
}
use glb.Common.Int.{ℤ, pos, negsuc, ltb_ℤ, leb_ℤ, eqb_ℤ}
use glb.Double.{Double}
use glb.SockAddr.{sockaddr_get_port}
use glb.Cnf.{Policy}
use glb.Limits.{Rlimit, get_conn_limit, set_conn_limit}
use glb.Config.{
  Clib, GlbCnf, codes, ends, to_int, cnf_init, parse_addr, time_from_double, parse_dst_list,
}
use glb.Config.Options.{Opt}

-- What one call of `getopt_long` returns: an option with its argument, which is empty where the option
-- has none, or '?'.
pub data Found : Type 0 where
  option : Opt → List ℕ → Found
  unrecognised : Found

-- The program ends with a status, or goes on.
pub data Outcome {ℓ} (A : Type ℓ) : Type ℓ where
  exits : ℕ → Outcome A
  continues : A → Outcome A

infixl 5 ◌>>=◌
abbrev pub ◌>>=◌ {ℓ κ} : {A : Type ℓ} {B : Type κ} → Outcome A → (A → Outcome B) → Outcome B
exits status >>= f = exits status
continues a >>= f = f a

abbrev pub exit_failure : ℕ
exit_failure = 1

-- What an option argument is refused for: more text than a number, `errno`, or the value.
unfoldable pub bad : List ℕ → ℕ → Bool → Bool
bad end errno out = not (ends end) || (not (errno == 0) || out)

-- The value is stored, and the program ends if the argument is refused.
unfoldable pub keep_or_exit {ℓ} : {A : Type ℓ} → Bool → A → Outcome A
keep_or_exit refused a = if refused then exits exit_failure else continues a

module _ {F : Type 0} ⦃fp : Double F⦄ where
  unfoldable pub cmd_control : Clib F → GlbCnf F → List ℕ → Outcome (GlbCnf F)
  cmd_control lib cnf optarg = elim (parse_addr lib.libc optarg (codes "127.0.0.1")) [
    | none ↦ exits exit_failure
    | some addr ↦ continues (record cnf { ctrl_addr = addr; ctrl_set = true })
  ]

  unfoldable pub cmd_latency : Clib F → ℕ → GlbCnf F → List ℕ → Outcome (GlbCnf F)
  unfolding bad keep_or_exit
  cmd_latency lib i cnf optarg =
      let (n, end) = lib.strtol optarg in
      keep_or_exit (bad end (lib.errno_at i) (ltb_ℤ (to_int n) (pos 0)))
        (record cnf { lat_factor = to_int n })

  unfoldable pub cmd_interval : Clib F → ℕ → GlbCnf F → List ℕ → Outcome (GlbCnf F)
  unfolding bad keep_or_exit
  cmd_interval lib i cnf optarg =
      let (sec, end) = lib.libc.strtod optarg in
      let intvl = time_from_double lib sec in
      keep_or_exit (bad end (lib.errno_at i) (leb_ℤ intvl (pos 0)))
        (record cnf { interval = intvl })

  unfoldable pub cmd_max_conn : Clib F → ℕ → GlbCnf F → List ℕ → Outcome (GlbCnf F)
  unfolding bad keep_or_exit
  cmd_max_conn lib i cnf optarg =
      let (n, end) = lib.strtol optarg in
      keep_or_exit (bad end (lib.errno_at i) false) (record cnf { max_conn = to_int n })

  unfoldable pub cmd_threads : Clib F → ℕ → GlbCnf F → List ℕ → Outcome (GlbCnf F)
  unfolding bad keep_or_exit
  cmd_threads lib i cnf optarg =
      let (n, end) = lib.strtol optarg in
      keep_or_exit (bad end (lib.errno_at i) false) (record cnf { n_threads = to_int n })

  unfoldable pub cmd_extra : Clib F → ℕ → GlbCnf F → List ℕ → Outcome (GlbCnf F)
  unfolding bad keep_or_exit
  cmd_extra lib i cnf optarg =
      let (sec, end) = lib.libc.strtod optarg in
      let extra = time_from_double lib sec in
      keep_or_exit (bad end (lib.errno_at i) (ltb_ℤ extra (pos 0))) (record cnf { extra = extra })

  -- The switch on the option that is the `i`-th to be read, of a command line of `argc` words.
  unfoldable pub cmd_step : Clib F → ℕ → ℕ → GlbCnf F → Found → Outcome (GlbCnf F)
  unfolding cmd_control cmd_latency cmd_interval cmd_max_conn cmd_threads cmd_extra
  cmd_step lib argc i cnf unrecognised = exits exit_failure
  cmd_step lib argc i cnf (option Opt.discover arg) = continues (record cnf { discover = true })
  cmd_step lib argc i cnf (option Opt.keepalive arg) = continues (record cnf { keepalive = false })
  cmd_step lib argc i cnf (option Opt.latency_count arg) = cmd_latency lib i cnf arg
  cmd_step lib argc i cnf (option Opt.single arg) =
      continues (record cnf { policy = Policy.single; top = true })
  cmd_step lib argc i cnf (option Opt.top arg) = continues (record cnf { top = true })
  cmd_step lib argc i cnf (option Opt.version arg) = if argc == 2 then exits 0 else continues cnf
  cmd_step lib argc i cnf (option Opt.synchronous arg) =
      continues (record cnf { synchronous = true })
  cmd_step lib argc i cnf (option Opt.defer_accept arg) =
      continues (record cnf { defer_accept = true })
  cmd_step lib argc i cnf (option Opt.round_robin arg) =
      continues (record cnf { policy = Policy.round })
  cmd_step lib argc i cnf (option Opt.control arg) = cmd_control lib cnf arg
  cmd_step lib argc i cnf (option Opt.daemon arg) = continues (record cnf { daemonize = true })
  cmd_step lib argc i cnf (option Opt.fifo arg) = continues (record cnf { fifo_name = arg })
  cmd_step lib argc i cnf (option Opt.help arg) = exits exit_failure
  cmd_step lib argc i cnf (option Opt.interval arg) = cmd_interval lib i cnf arg
  cmd_step lib argc i cnf (option Opt.linger arg) = continues (record cnf { linger = true })
  cmd_step lib argc i cnf (option Opt.max_conn arg) = cmd_max_conn lib i cnf arg
  cmd_step lib argc i cnf (option Opt.nodelay arg) = continues (record cnf { nodelay = false })
  cmd_step lib argc i cnf (option Opt.n_threads arg) = cmd_threads lib i cnf arg
  cmd_step lib argc i cnf (option Opt.random arg) =
      continues (record cnf { policy = Policy.random })
  cmd_step lib argc i cnf (option Opt.src_tracking arg) =
      continues (record cnf { policy = Policy.source })
  cmd_step lib argc i cnf (option Opt.verbose arg) = continues (record cnf { verbose = true })
  cmd_step lib argc i cnf (option Opt.watchdog arg) = continues (record cnf { watchdog = some arg })
  cmd_step lib argc i cnf (option Opt.extra_polls arg) = cmd_extra lib i cnf arg

  unfoldable pub cmd_parse_options : Clib F → ℕ → ℕ → GlbCnf F → List Found → Outcome (GlbCnf F)
  unfolding cmd_step
  cmd_parse_options lib argc i cnf [] = continues cnf
  cmd_parse_options lib argc i cnf (f ∷ found) = do
    cnf' ← cmd_step lib argc i cnf f
    cmd_parse_options lib argc (i + 1) cnf' found

module _ {F : Type 0} where
  -- One thread, where none were asked for.
  unfoldable pub cmd_some_threads : GlbCnf F → GlbCnf F
  cmd_some_threads cnf = record cnf {
    n_threads = if eqb_ℤ cnf.n_threads (pos 0) then pos 1 else cnf.n_threads;
  }

  -- The limits of the process, and the configuration with the connections `max_conn` that they are
  -- raised or cut to. The limit is not negative, as `glb.Limits` has it.
  unfoldable pub limit_conns : Rlimit → Bool → GlbCnf F → ℤ → Rlimit × GlbCnf F
  limit_conns rlp allowed cnf (negsuc m) = (rlp, cnf)
  limit_conns rlp allowed cnf (pos m) =
      let (rlp', res) = set_conn_limit rlp m allowed in
      if ltb (get_conn_limit rlp) m
      then (rlp', record cnf { max_conn = if ltb 0 res then pos res else pos m })
      else (rlp, cnf)

  unfoldable pub cmd_conn_limit : Rlimit → Bool → GlbCnf F → Rlimit × GlbCnf F
  unfolding limit_conns
  cmd_conn_limit rlp allowed cnf = limit_conns rlp allowed cnf cnf.max_conn

  unfoldable pub cmd_quiet : GlbCnf F → GlbCnf F
  cmd_quiet cnf = record cnf { verbose = if cnf.daemonize then false else cnf.verbose }

module _ {F : Type 0} ⦃fp : Double F⦄ where
  -- The arguments that are not options: the address to listen at, and the destinations. The
  -- configuration is NULL where a destination cannot be read.
  unfoldable pub cmd_args :
      Clib F → Rlimit → Bool → GlbCnf F → List (List ℕ) → Outcome (Rlimit × Option (GlbCnf F))
  unfolding cmd_some_threads cmd_conn_limit cmd_quiet
  cmd_args lib rlp allowed cnf [] = exits exit_failure
  cmd_args lib rlp allowed cnf (listen ∷ dst_list) =
      elim (parse_addr lib.libc listen (codes "0.0.0.0")) [
        | none ↦ exits exit_failure
        | some addr ↦
            let (rlp', cnf') =
              cmd_conn_limit rlp allowed (cmd_some_threads (record cnf { inc_addr = addr })) in
            continues
              (rlp', parse_dst_list lib.libc dst_list (sockaddr_get_port addr) (cmd_quiet cnf'))
      ]

  -- The command line has `argc` words, of which `getopt_long` makes `found`, and leaves `args`.
  unfoldable pub cmd_parse :
      Clib F → Rlimit → Bool → ℕ → List Found → List (List ℕ) → Outcome (Rlimit × Option (GlbCnf F))
  unfolding cmd_parse_options cmd_args
  cmd_parse lib rlp allowed argc found args = do
    cnf ← cmd_parse_options lib argc 0 (cnf_init true (pos (get_conn_limit rlp))) found
    cmd_args lib rlp allowed cnf args
