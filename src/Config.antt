-- ===== src/Config.antt =====
-- src/glb_cnf.h and src/glb_cnf.c: the whole configuration as it is filled in, `glb_cnf_init`,
-- `glb_parse_addr` and `glb_parse_dst_list`. The environment and the command line are child modules.
pub mod Options
pub mod EnvOptions
pub mod Env
pub mod Cmd
pub mod Sound
pub mod EnvSound
pub mod EnvParse
pub mod CmdSound
mod Tests
use Prim.Native.Char.{code}
use Prim.Native.String.{String}
use glb.Common.{
  ℕ, ◌+◌, ◌-◌, ◌%◌, ◌^◌, ◌==◌, Bool, true, false, Option, none, some, List, [], ◌∷◌, length, ltb,
  if◌then◌else◌,
}
use glb.Common.Int.{ℤ, pos, negsuc, pos_part}
use glb.Double.{Double}
use glb.SockAddr.{SockAddr, sockaddr_of_host}
use glb.Dst.{Dst}
use glb.Time.{second}
use glb.Cnf.{Policy, least, round, Cnf}
use glb.Parse.Dst.{Libc, split_host, dst_parse}
use glb.Parse.Tokens.{isspace}

-- The bytes of a text in ASCII.
abbrev pub codes : String → List ℕ
codes String.[] = []
codes (String.◌∷◌ c s) = code c ∷ codes s

-- `strcmp (a, b) == 0`
unfoldable pub same : List ℕ → List ℕ → Bool
same [] [] = true
same [] (y ∷ ys) = false
same (x ∷ xs) [] = false
same (x ∷ xs) (y ∷ ys) = let rest = same xs ys in if x == y then rest else false

-- The functions of the C library that reading a configuration calls besides those of `Libc`: the
-- number at the start of a text, the conversion of a `double` to a `long long`, and the value that
-- `errno` is found with after the argument at a position has been read.
pub record Clib (F : Type 0) : Type 0 where
  pub libc : Libc F
  pub strtol : List ℕ → ℤ × List ℕ
  pub truncate : F → ℤ
  pub errno_at : ℕ → ℕ

-- `*endptr == '\0' || isspace (*endptr)`
unfoldable pub ends : List ℕ → Bool
unfolding isspace
ends [] = true
ends (c ∷ cs) = isspace c

-- An `int` from a `long`: the low 32 bits, with sign.
unfoldable pub to_int : ℤ → ℤ
to_int (pos n) =
    let low = n % 2 ^ 32 in if ltb low (2 ^ 31) then pos low else negsuc (2 ^ 32 - 1 - low)
to_int (negsuc n) =
    let low = n % 2 ^ 32 in if ltb low (2 ^ 31) then negsuc low else pos (2 ^ 32 - 1 - low)

-- The configuration. Texts are lists of bytes, a pointer that may be NULL is an option, and `int` and
-- `glb_time_t` are integers.
pub record GlbCnf (F : Type 0) : Type 0 where
  pub inc_addr : SockAddr
  pub ctrl_addr : SockAddr
  pub watchdog : Option (List ℕ)
  pub interval : ℤ
  pub extra : ℤ
  pub fifo_name : List ℕ
  pub n_threads : ℤ
  pub max_conn : ℤ
  pub nodelay : Bool
  pub keepalive : Bool
  pub linger : Bool
  pub defer_accept : Bool
  pub daemonize : Bool
  pub synchronous : Bool
  pub verbose : Bool
  pub discover : Bool
  pub top : Bool
  pub ctrl_set : Bool
  pub lat_factor : ℤ
  pub policy : Policy
  pub dst : List (Dst F)

-- What `memset` makes of an address.
abbrev pub no_addr : SockAddr
no_addr = record { sin_family = 0; sin_port = 0; sin_addr = 0; sin_zero = 0 }

module _ {F : Type 0} where
  -- The defaults of the daemon, with the limit on connections, or those of the library, which has none
  -- of the fields of the daemon.
  unfoldable pub cnf_init : Bool → ℤ → GlbCnf F
  cnf_init glbd limit = record {
    inc_addr = no_addr;
    ctrl_addr = no_addr;
    watchdog = none;
    interval = pos second;
    extra = pos 0;
    fifo_name = if glbd then codes "/tmp/glbd.fifo" else [];
    n_threads = if glbd then pos 1 else pos 0;
    max_conn = if glbd then limit else pos 0;
    nodelay = glbd;
    keepalive = glbd;
    linger = false;
    defer_accept = false;
    daemonize = false;
    synchronous = false;
    verbose = false;
    discover = false;
    top = false;
    ctrl_set = false;
    lat_factor = pos 0;
    policy = if glbd then least else round;
    dst = [];
  }

  -- The fields that the router, the pool, the watchdog and the control read, as `glb.Cnf` has them. A
  -- limit on connections below 0 refuses every connection, as 0 does.
  unfoldable pub runtime : GlbCnf F → Cnf F
  runtime cnf = record {
    inc_addr = cnf.inc_addr;
    watchdog = elim cnf.watchdog [ none ↦ false | some spec ↦ true ];
    interval = pos_part cnf.interval;
    extra = pos_part cnf.extra;
    max_conn = pos_part cnf.max_conn;
    synchronous = cnf.synchronous;
    discover = cnf.discover;
    top = cnf.top;
    lat_factor = pos_part cnf.lat_factor;
    policy = cnf.policy;
    dst = cnf.dst;
  }

  -- The address, if the host is known.
  unfoldable pub init_addr : Libc F → List ℕ → ℕ → Option SockAddr
  init_addr libc host port = elim (libc.gethostbyname host) [
    | none ↦ none
    | some h ↦ some (sockaddr_of_host h port)
  ]

  unfoldable pub addr_port : Libc F → List ℕ → List ℕ → Option SockAddr
  unfolding init_addr
  addr_port libc host text =
      let (port, end) = libc.strtoul text in
      if length end == 0 then (if ltb 65535 port then none else init_addr libc host port) else none

  -- `[addr:]port`; none is an error, which leaves the address as it was.
  unfoldable pub parse_addr : Libc F → List ℕ → List ℕ → Option SockAddr
  unfolding split_host addr_port
  parse_addr libc s default_addr =
      let (host, rest) = split_host s in
      elim rest [
        | none ↦ addr_port libc default_addr s
        | some text ↦ if ltb 256 (length host) then none else addr_port libc host text
      ]

module _ {F : Type 0} ⦃fp : Double F⦄ where
  -- Seconds as nanoseconds.
  unfoldable pub time_from_double : Clib F → F → ℤ
  time_from_double lib sec = lib.truncate (fp.mul sec (fp.of_ℕ second))

  unfoldable pub dst_loop : Libc F → ℕ → List (List ℕ) → Option (List (Dst F))
  dst_loop libc default_port [] = some []
  dst_loop libc default_port (s ∷ rest) =
      let later = dst_loop libc default_port rest in
      elim (dst_parse libc s default_port) [
        | none ↦ none
        | some (fields, d) ↦ elim later [ none ↦ none | some ds ↦ some (d ∷ ds) ]
      ]

  -- The destinations replace those of the configuration; none where one of them cannot be read, and the
  -- configuration is freed.
  unfoldable pub parse_dst_list : Libc F → List (List ℕ) → ℕ → GlbCnf F → Option (GlbCnf F)
  unfolding dst_loop
  parse_dst_list libc dst_list default_port cnf = elim (dst_loop libc default_port dst_list) [
    | none ↦ none
    | some ds ↦ some (record cnf { dst = ds })
  ]
