-- ===== src/Wdog/Tests.antt =====
-- The theorems on the watchdog at concrete destinations, with decimal fractions for the weights.
use glb.Common.{ℕ, ◌≡◌, refl, true, false, none, some, List, [], ◌∷◌, arith, OnSome}
use glb.Common.Int.{ℤ, pos, negsuc}
use glb.Double.Fixed.{fixed, millionths}
use glb.SockAddr.{SockAddr, sockaddr_is_equal, sockaddr_of_host, sockaddr_get_port}
use glb.Dst.{Dst, dst_is_equal}
use glb.Cnf.{Cnf, Policy}
use glb.Router.State.{Router}
use glb.Router.Check.{DstState}
use glb.Router.Change.{Alloc}
use glb.Router.Sound.{IsSound}
use glb.Wdog.State.{Check, WdogDst}
use glb.Wdog.Change.{Start, minus_one, no_check}
use glb.Wdog.Rights.{StaysAt}
use glb.Wdog.Members.{process_membership_change, membership_change-StaysAt}
use glb.Wdog.Main.{Watchdog, Turn, Wake, main_loop}
use glb.Parse.Sample.{libc}
use glb.Parse.Tokens.{parse_token_string}
use glb.Parse.Dst.{dst_parse}
use glb.Config.{codes}
use glb.Backend.Factory.{Backend}

abbrev addr_of : ℕ → SockAddr
addr_of n = record { sin_family = 2; sin_port = 15_360; sin_addr = n; sin_zero = 0 }

abbrev one_dst : Dst ℤ
one_dst = record { addr = addr_of 1; weight = millionths 1_000_000 }

abbrev ready_check : Check ℤ
ready_check = record {
  state = DstState.ready;
  timestamp = 5;
  latency = millionths 1000;
  others = some (97 ∷ []);
  others_len = 2;
  ready = true;
}

abbrev watched : WdogDst ℤ
watched = record {
  result = no_check;
  dst = one_dst;
  weight = minus_one;
  ctx = record { id = 1; result = ready_check; quit = false; join = false };
  fail_count = 0;
  memb_changed = false;
  explicit = true;
}

abbrev joined : WdogDst ℤ
joined = record watched {
  weight = millionths 1_000_000;
  ctx = record { id = 1; result = no_check; quit = true; join = true };
}

abbrev empty_router : Router ℤ
empty_router = record {
  ctx = record { min_weight = pos 1; retry = 2; now = 100 };
  conns = 0;
  seed = 7;
  rrb_next = 0;
  map_failed = 0;
  top_failed = 0;
  top_dst = none;
  dst = [];
}

empty_router-IsSound : IsSound empty_router
empty_router-IsSound = record {
  counted = record { total = refl; usages = tt; distinct = tt };
  cursor = omega arith;
  top = tt;
}

abbrev cnf : Cnf ℤ
cnf = record {
  inc_addr = addr_of 9;
  watchdog = true;
  interval = 1_000_000_000;
  extra = 0;
  max_conn = 10;
  synchronous = false;
  discover = true;
  top = true;
  lat_factor = 4;
  policy = Policy.source;
  dst = [];
}

abbrev alloc : ℕ → Alloc ℤ
alloc i = record { realloc = true; found_map = pos 0; now_ns = 9; now = 100 }

-- A member that another destination reports with another weight.
abbrev member : Dst ℤ
member = record { addr = addr_of 1; weight = negsuc 0 }

-- The same member, first of two that are reported.
membership_change-StaysAt_example :
    StaysAt
      (process_membership_change libc 8080
        (λ m. Start.started 2)
        (watched ∷ [])
        (codes "h:80:0,g:81"))
      0
      watched
membership_change-StaysAt_example =
    membership_change-StaysAt libc 8080 (λ m. Start.started 2) (watched ∷ []) (codes "h:80:0,g:81")
      0 watched refl refl

-- A discovered destination that was not found eight times.
abbrev failing : WdogDst ℤ
failing = record watched {
  explicit = false;
  fail_count = 8;
  ctx = record { id = 1; result = record no_check { ready = true }; quit = false; join = false };
}

abbrev source : WdogDst ℤ
source = record watched { result = ready_check }

abbrev watchdog : Watchdog ℤ
watchdog = record { dst = watched ∷ []; router = empty_router; dropped = []; join = false }

-- The thread of the destination reports that it is ready, and where its members are.
abbrev turn : Turn ℤ
turn = record {
  reported = λ i ctx. record ctx { result = ready_check };
  realloc = true;
  alloc = alloc;
  start = λ d. Start.started 2;
}

abbrev wakes : List (Wake ℤ)
wakes = Wake.timed_out turn ∷ Wake.signalled ∷ Wake.timed_out turn ∷ Wake.quit ∷ []

-- The loop does come to its end here.
main_loop_ends :
    OnSome (λ (w : Watchdog ℤ). w.join ≡ true) (main_loop libc cnf true (λ i. turn) wakes watchdog)
unfolding main_loop parse_token_string dst_parse dst_is_equal sockaddr_is_equal sockaddr_of_host
    sockaddr_get_port
main_loop_ends = refl

-- The same without following the members.
abbrev undiscovering : Cnf ℤ
undiscovering = record cnf { discover = false }

abbrev two_dsts : List (Dst ℤ)
two_dsts = one_dst ∷ record { addr = addr_of 2; weight = millionths 2_000_000 } ∷ []

abbrev two_cnf : Cnf ℤ
two_cnf = record cnf { dst = two_dsts }
