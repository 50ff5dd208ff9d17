-- ===== src/Listener/Tests.antt =====
-- The theorem on accepted connections at a concrete daemon.
use glb.Common.{ℕ, ◌+◌, ◌≡◌, refl, true, false, none, some, [], ◌∷◌, OnSome, arith}
use glb.Common.Int.{ℤ, pos}
use glb.Double.Fixed.{fixed, millionths}
use glb.SockAddr.{SockAddr, sockaddr_is_equal}
use glb.Dst.{dst_is_equal}
use glb.Cnf.{Cnf, Policy}
use glb.Router.State.{RouterDst, Router}
use glb.Router.Check.{DstState}
use glb.Router.Choose.{World}
use glb.Router.Sound.{IsSound}
use glb.Pool.Broadcast.{pool_init}
use glb.Listener.{Daemon, Adding, taken, accept}
use glb.Listener.Balance.{Balanced, accept_keeps}

abbrev addr_of : ℕ → SockAddr
addr_of n = record { sin_family = 2; sin_port = 15_360; sin_addr = n; sin_zero = 0 }

-- Two destinations of weight 1.
abbrev dst_of : ℕ → RouterDst ℤ
dst_of n = record {
  dst = record { addr = addr_of n; weight = millionths 1_000_000 };
  probe_ctx = none;
  usage = millionths 1_000_000;
  map = pos 0;
  checked = 0;
  failed = 0;
  conns = 0;
}

abbrev two : Router ℤ
two = record {
  ctx = record { min_weight = pos 1; retry = 2; now = 100 };
  conns = 0;
  seed = 7;
  rrb_next = 1;
  map_failed = 0;
  top_failed = 0;
  top_dst = some 0;
  dst = dst_of 1 ∷ dst_of 2 ∷ [];
}

two-IsSound : IsSound two
unfolding dst_is_equal sockaddr_is_equal
two-IsSound = record {
  counted = record { total = refl; usages = (refl, (refl, tt)); distinct = ((refl, tt), (tt, tt)) };
  cursor = omega arith;
  top = omega arith;
}

abbrev cnf : Cnf ℤ
cnf = record {
  inc_addr = addr_of 9;
  watchdog = false;
  interval = 1_000_000_000;
  extra = 0;
  max_conn = 10;
  synchronous = false;
  discover = false;
  top = true;
  lat_factor = 4;
  policy = Policy.least;
  dst = [];
}

abbrev world : World
world = record {
  now = 100;
  asked = λ i. record { now = 0; state = DstState.ready; timestamp = 5; after = 100 };
  rand_r = λ s. (s, s + 1);
}

abbrev daemon : Daemon ℤ
daemon = record { router = two; first = pool_init; others = pool_init ∷ []; closed = [] }

accept_keeps_example :
    ((adding : Adding)
      → OnSome (λ (s : Daemon ℤ). Balanced s) (accept daemon cnf 7 (addr_of 5) world adding 100))
    × ((fd : ℕ)
        → (s : Daemon ℤ) × (accept daemon cnf 7 (addr_of 5) world (taken (some fd)) 100 ≡ some s))
unfolding pool_init
accept_keeps_example = accept_keeps daemon cnf 7 (addr_of 5) world 100 two-IsSound refl
