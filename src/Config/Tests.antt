-- ===== src/Config/Tests.antt =====
-- The theorems on configurations at concrete variables and command lines.
use glb.Common.{◌/◌, ◌≤◌, ◌≡◌, refl, true, false, none, some, List, [], ◌∷◌, arith, map}
use glb.Common.Int.{ℤ, pos, pos_part}
use glb.Double.Fixed.{fixed, scale}
use glb.Cnf.{Policy}
use glb.Dst.{Dst}
use glb.SockAddr.{sockaddr_of_host, sockaddr_get_port, sockaddr_is_equal}
use glb.Limits.{Rlimit, get_conn_limit}
use glb.Parse.Sample.{decimal, libc}
use glb.Parse.Tokens.{parse_token_string}
use glb.Parse.Dst.{dst_parse}
use glb.Config.{Clib, GlbCnf, codes, cnf_init, ends, time_from_double, parse_addr, parse_dst_list}
use glb.Config.Options.{Opt, option_is}
use glb.Config.EnvOptions.{env_parse_options}
use glb.Config.Env.{Environment, env_parse}
use glb.Config.EnvParse.{OnParsed, IsUsable, env_parse-IsUsable}
use glb.Config.Cmd.{Found, option, cmd_conn_limit}
use glb.Config.CmdSound.{cmd_conn_limit_fits}

-- Numbers are decimal, `errno` is 0, and seconds become nanoseconds.
abbrev lib : Clib ℤ
lib = record {
  libc = libc;
  strtol = λ s. let (n, rest) = decimal 0 s in (pos n, rest);
  truncate = λ x. pos (pos_part x / scale);
  errno_at = λ i. 0;
}

abbrev env : Environment
env = record {
  glb_options = some (codes "-S --interval 2 -x 1 80 h1:81:2 h2");
  glb_bind = none;
  glb_policy = some (codes "source");
  glb_control = some (codes "4444");
  glb_targets = none;
  glb_watchdog = some (codes "exec:probe");
}

env_parse-IsUsable_example : OnParsed IsUsable (env_parse lib env)
env_parse-IsUsable_example = env_parse-IsUsable lib env

abbrev wrong : Environment
wrong = record env {
  glb_options = none;
  glb_bind = some (codes "80");
  glb_targets = some (codes "h1,h2:99999,h3");
}

abbrev limits : Rlimit
limits = record { rlim_cur = 1024; rlim_max = 4096 }

abbrev asked : GlbCnf ℤ
asked = record (cnf_init true (pos 493)) { max_conn = pos 5000 }

cmd_conn_limit_fits_example :
    pos_part (cmd_conn_limit limits false asked).1.max_conn
    ≤ get_conn_limit (cmd_conn_limit limits false asked).0
cmd_conn_limit_fits_example =
    cmd_conn_limit_fits limits false asked 5000 refl (omega arith) (omega arith) (omega arith)
      (omega arith) (omega arith)

abbrev found : List Found
found =
    option Opt.n_threads (codes "4")
    ∷ option Opt.single []
    ∷ option Opt.daemon []
    ∷ option Opt.max_conn (codes "5000")
    ∷ []

-- The first environment gives a configuration, with its two destinations.
env_parses :
    OnParsed
      (λ (cnf : GlbCnf ℤ).
        (cnf.policy ≡ Policy.source)
        × (cnf.interval ≡ pos 2_000_000_000)
        × (map (λ (d : Dst ℤ). sockaddr_get_port d.addr) cnf.dst ≡ 81 ∷ 80 ∷ []))
      (env_parse lib env)
unfolding env_parse env_parse_options parse_token_string option_is ends time_from_double parse_addr
    parse_dst_list dst_parse sockaddr_is_equal sockaddr_of_host sockaddr_get_port
env_parses = (refl, refl, refl)
