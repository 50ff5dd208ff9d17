-- ===== src/Config/Options.antt =====
-- src/glb_opt.h: the options and the table of their names, and src/glb_env.c, `env_option_is`.
use Prim.Native.String.{String}
use glb.Common.{ℕ, ◌==◌, Option, none, some, List, [], ◌∷◌, if◌then◌else◌}
use glb.Config.{codes, same}

-- `glb_opt_t`; GLB_OPT_NOOPT is `none` of the option type.
pub data Opt : Type 0 where
  discover keepalive latency_count single top version synchronous defer_accept : Opt
  round_robin control daemon fifo help interval linger max_conn nodelay random : Opt
  src_tracking n_threads verbose watchdog extra_polls : Opt

-- The value of an option, a character.
unfoldable pub val : Opt → ℕ
val discover = b'D'
val keepalive = b'K'
val latency_count = b'L'
val single = b'S'
val top = b'T'
val version = b'V'
val synchronous = b'Y'
val defer_accept = b'a'
val round_robin = b'b'
val control = b'c'
val daemon = b'd'
val fifo = b'f'
val help = b'h'
val interval = b'i'
val linger = b'l'
val max_conn = b'm'
val nodelay = b'n'
val random = b'r'
val src_tracking = b's'
val n_threads = b't'
val verbose = b'v'
val watchdog = b'w'
val extra_polls = b'x'

-- The long names, in their order; `synchronous` has none.
abbrev pub options : List (String × Opt)
options =
    ("discover", discover)
    ∷ ("keepalive", keepalive)
    ∷ ("latency", latency_count)
    ∷ ("single", single)
    ∷ ("top", top)
    ∷ ("version", version)
    ∷ ("defer-accept", defer_accept)
    ∷ ("round", round_robin)
    ∷ ("round-robin", round_robin)
    ∷ ("rrb", round_robin)
    ∷ ("control", control)
    ∷ ("daemon", daemon)
    ∷ ("fifo", fifo)
    ∷ ("help", help)
    ∷ ("interval", interval)
    ∷ ("linger", linger)
    ∷ ("max_conn", max_conn)
    ∷ ("connections", max_conn)
    ∷ ("nodelay", nodelay)
    ∷ ("random", random)
    ∷ ("source", src_tracking)
    ∷ ("src_tracking", src_tracking)
    ∷ ("source_tracking", src_tracking)
    ∷ ("threads", n_threads)
    ∷ ("verbose", verbose)
    ∷ ("watchdog", watchdog)
    ∷ ("extra", extra_polls)
    ∷ []

unfoldable find_long : List ℕ → List (String × Opt) → Option Opt
unfolding same
find_long name [] = none
find_long name ((n, o) ∷ opts) = if same name (codes n) then some o else find_long name opts

unfoldable find_short : ℕ → List (String × Opt) → Option Opt
unfolding val
find_short c [] = none
find_short c ((n, o) ∷ opts) = if c == val o then some o else find_short c opts

-- What follows '-': a name after another '-', or a single character that counts, whatever is after it.
unfoldable after_dash : List ℕ → List (String × Opt) → Option Opt
unfolding find_long find_short
after_dash [] opts = none
after_dash (c ∷ rest) opts = if c == b'-' then find_long rest opts else find_short c opts

unfoldable pub option_is : List ℕ → List (String × Opt) → Option Opt
unfolding after_dash
option_is [] opts = none
option_is (c ∷ rest) opts = if c == b'-' then after_dash rest opts else none
