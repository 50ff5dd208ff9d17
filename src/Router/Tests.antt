-- ===== src/Router/Tests.antt =====
-- The theorems on the router at concrete destinations, with decimal fractions for the weights.
use glb.Common.{
  List, inl, inr, ◌≢◌, ℕ, ◌≡◌, refl, true, false, Option, none, some, ◌*◌, ◌/◌, [], ◌∷◌, ◌+◌, arith,
}
use glb.Common.Int.{ℤ, pos, negsuc}
use glb.Double.Fixed.{fixed, millionths}
use glb.Time.{time_approx_seconds}
use glb.SockAddr.{SockAddr, sockaddr_is_equal}
use glb.Dst.{Dst, dst_is_equal}
use glb.Cnf.{Cnf, Policy}
use glb.Router.State.{RouterDst, Router, dst_is_good, dst_is_good_base}
use glb.Router.Check.{DstState}
use glb.Router.Top.{factor, router_redo_top}
use glb.Router.Map.{router_redo_map}
use glb.Router.Choose.{
  World, Choice, choose_dst, choose_dst_round, choose_dst_hint, choose_dst_least, hint_point,
}
use glb.Router.Change.{Alloc, change_dst}
use glb.Router.Disconnect.{disconnect, choose_dst_again}
use glb.Router.Sound.{IsSound}
use glb.Router.Connect.{Connecting, Attempt, connect_async, connect_dst}
use glb.Router.Refine.{After, change_dst-After}
use glb.Router.Attempts.{Settled, connect_dst-Settled, connect_dst-returns}
use glb.Router.Invariant.{choose_dst-IsSound}
use glb.Router.ChangeInvariant.{change_dst-IsSound}
use glb.Router.Best.{Source, redo_top_best}
use glb.Router.Least.{choose_dst_least_best, LeastBest}
use glb.Router.Hints.{hint_to_good, GoodAt}
use glb.Router.FirstHint.{hint_to_failed}
use glb.Router.Round.{choose_dst_round_good, RoundGood}
use glb.Router.Again.{choose_dst_again_chosen, Again}
use glb.Router.Create.{router_create}
use glb.Router.Busy.{
  Making, Shared, is_full, begin_connect, end_connect, try_dst, has_to_wait, wait_for, Step, Reach,
}
use glb.Router.Places.{Safe}
use glb.Router.Stale.{late_add, late_add_twice, late_change}
use glb.Router.Reach.{unused, reach-Safe}

abbrev addr_of : ℕ → SockAddr
addr_of n = record { sin_family = 2; sin_port = 15_360; sin_addr = n; sin_zero = 0 }

-- One connection on a destination of weight `w`.
abbrev dst_of : ℕ → ℕ → ℕ → RouterDst ℤ
dst_of n w conns = record {
  dst = record { addr = addr_of n; weight = millionths (w * 2_000_000) };
  probe_ctx = none;
  usage = millionths (w * 2_000_000 / (conns + 1));
  map = pos 0;
  checked = 0;
  failed = 0;
  conns = conns;
}

abbrev two : Router ℤ
two = record {
  ctx = record { min_weight = pos 1; retry = 2; now = 100 };
  conns = 1;
  seed = 7;
  rrb_next = 1;
  map_failed = 0;
  top_failed = 0;
  top_dst = some 0;
  dst = dst_of 1 1 1 ∷ dst_of 2 1 0 ∷ [];
}

abbrev cnf_of : Policy → Cnf ℤ
cnf_of p = record {
  inc_addr = addr_of 9;
  watchdog = false;
  interval = 1_000_000_000;
  extra = 0;
  max_conn = 10;
  synchronous = false;
  discover = false;
  top = true;
  lat_factor = 4;
  policy = p;
  dst = [];
}

abbrev world : World
world = record {
  now = 100;
  asked = λ i. record { now = 0; state = DstState.ready; timestamp = 5; after = 100 };
  rand_r = λ s. (s, s + 1);
}

abbrev alloc : Alloc ℤ
alloc = record { realloc = true; found_map = pos 0; now_ns = 9; now = 100 }

two-IsSound : IsSound two
unfolding dst_is_equal sockaddr_is_equal
two-IsSound = record {
  counted = record { total = refl; usages = (refl, (refl, tt)); distinct = ((refl, tt), (tt, tt)) };
  cursor = omega arith;
  top = omega arith;
}

choose_dst-IsSound_example : IsSound (choose_dst two 5 (cnf_of Policy.least) world).1
choose_dst-IsSound_example = choose_dst-IsSound two 5 (cnf_of Policy.least) world two-IsSound

-- The result of a call that comes back.
abbrev returned : {A : Type 0} → Option A → A → A
returned none a = a
returned (some b) a = b

abbrev disconnected : ℕ × Router ℤ
disconnected = returned (disconnect two (cnf_of Policy.single) (addr_of 1) true 100) (0, two)

abbrev removal : Dst ℤ
removal = record { addr = addr_of 2; weight = negsuc 0 }

change_dst-IsSound_example : IsSound (change_dst two (cnf_of Policy.source) removal none alloc).1
change_dst-IsSound_example =
    change_dst-IsSound two (cnf_of Policy.source) removal none alloc two-IsSound

redo_top_best_example :
    Source two.ctx 0 two.dst two.top_dst two.ctx.min_weight
      ((router_redo_top two).top_dst, (router_redo_top two).ctx.min_weight)
    × (fixed.lt (fixed.mul (router_redo_top two).ctx.min_weight factor) (millionths 2_000_000)
        ≡ false)
unfolding dst_is_good_base
redo_top_best_example = redo_top_best two 1 (dst_of 2 1 0) refl refl refl

choose_dst_least_best_example : LeastBest two (choose_dst_least two (cnf_of Policy.least) world).0
choose_dst_least_best_example = choose_dst_least_best two (cnf_of Policy.least) world refl

hint_to_good_example :
    GoodAt two.ctx 0 two.dst
      (choose_dst_hint (router_redo_map two) 0x9000_0000 (cnf_of Policy.source) world).0
unfolding hint_point
hint_to_good_example = hint_to_good two 0x9000_0000 (cnf_of Policy.source) world refl refl refl refl

-- The first destination failed a moment ago.
abbrev failing : Router ℤ
failing = record two { dst = record (dst_of 1 1 1) { failed = 99 } ∷ dst_of 2 1 0 ∷ [] }

hint_to_failed_example :
    (choose_dst_hint (router_redo_map failing) 0 (cnf_of Policy.source) world).0 ≡ some 0
unfolding hint_point dst_is_good
hint_to_failed_example =
    hint_to_failed failing 0 (cnf_of Policy.source) world (record (dst_of 1 1 1) { failed = 99 })
      (dst_of 2 1 0 ∷ []) refl refl refl refl refl refl

choose_dst_round_good_example : RoundGood two (choose_dst_round two (cnf_of Policy.round) world).0
choose_dst_round_good_example =
    choose_dst_round_good two (cnf_of Policy.round) world refl two-IsSound.cursor

abbrev moved : Choice ℤ
moved = returned (choose_dst_again two 5 (addr_of 1) (cnf_of Policy.least) 100 world) (none, two)

choose_dst_again_chosen_example : Again two moved
unfolding choose_dst_again sockaddr_is_equal time_approx_seconds
choose_dst_again_chosen_example =
    choose_dst_again_chosen two 5 (addr_of 1) (cnf_of Policy.least) 100 world moved two-IsSound refl

-- A router with two destinations.
abbrev two_cnf : Cnf ℤ
two_cnf = record (cnf_of Policy.least) {
  dst =
      record { addr = addr_of 1; weight = millionths 2_000_000 }
      ∷ record { addr = addr_of 2; weight = millionths 2_000_000 }
      ∷ [];
}

abbrev memory : Dst ℤ → Alloc ℤ
memory d = record { realloc = true; found_map = pos 0; now_ns = 9; now = 100 }

abbrev the_router : Option (Router ℤ) → Router ℤ
the_router none = two
the_router (some r) = r

abbrev new_two : Router ℤ
new_two = the_router (router_create two_cnf 7 memory)

-- Of two threads that make requests one connects to the first destination, which nobody can remove
-- meanwhile, so that the change waits; another one gets the second destination; then the first thread
-- is done, and the destination is removed.
abbrev admitted : Shared ℤ
admitted = record (unused 2 new_two) { idle = 1; admitted = 1 }

abbrev begun : Shared ℤ
begun = begin_connect (record admitted { admitted = 0 }) two_cnf 0 world

abbrev both : Shared ℤ
both = record begun { idle = 0; admitted = begun.admitted + 1 }

abbrev first_gone : Dst ℤ
first_gone = record { addr = addr_of 1; weight = negsuc 0 }

abbrev waiting : Shared ℤ
waiting = record both { waiting = some (wait_for both first_gone none) }

abbrev first_made : Making
first_made = record { index = 0; addr = addr_of 1 }

abbrev asked : Shared ℤ
asked = record waiting {
  router = (connect_async waiting.router two_cnf 0 world).1;
  admitted = 0;
  idle = 1;
}

abbrev ended : Shared ℤ
ended = end_connect asked []

abbrev resumed : Shared ℤ
resumed = record ended {
  router = the_router (late_change ended.router two_cnf (some 0) 2 first_gone none alloc);
  waiting = none;
}

up_to_asked : Reach two_cnf (unused 2 new_two) asked
unfolding begin_connect try_dst choose_dst router_create dst_is_equal sockaddr_is_equal
    time_approx_seconds is_full has_to_wait connect_async
up_to_asked =
    Reach.next
      (Reach.next
        (Reach.next
          (Reach.next (Reach.next Reach.here (Step.admits 1 refl refl refl))
            (Step.begins 0 0 world refl refl))
          (Step.admits 0 refl refl refl))
        (Step.waits first_gone none refl refl refl))
      (Step.asks 0 0 world refl refl)

steps : Reach two_cnf (unused 2 new_two) resumed
unfolding begin_connect try_dst choose_dst router_create dst_is_equal sockaddr_is_equal
    time_approx_seconds connect_async late_change wait_for end_connect
steps =
    Reach.next (Reach.next up_to_asked (Step.ends [] [] first_made refl refl))
      (Step.resumes (wait_for both first_gone none) alloc resumed.router refl refl refl refl)

reach-Safe_example : Safe 2 two_cnf resumed
unfolding router_create dst_is_equal sockaddr_is_equal
reach-Safe_example = reach-Safe 2 two_cnf 7 memory new_two resumed refl steps

one_left : resumed.router.conns ≡ 1
unfolding begin_connect router_create dst_is_equal sockaddr_is_equal time_approx_seconds
    connect_async late_change end_connect
one_left = refl

-- Two other destinations are to be added; the second caller looked up before the first one was done.
abbrev third : Dst ℤ
third = record { addr = addr_of 3; weight = millionths 1_000_000 }

abbrev fourth : Dst ℤ
fourth = record { addr = addr_of 4; weight = millionths 1_000_000 }

abbrev three : Router ℤ
three = the_router (late_add new_two two_cnf 2 third none (memory third))

late_add_twice_example : late_add three two_cnf 2 fourth none (memory fourth) ≡ none
unfolding late_add router_create dst_is_equal sockaddr_is_equal
late_add_twice_example =
    late_add_twice new_two three two_cnf third fourth none none (memory third) (memory fourth) refl
      refl

-- The first attempt fails and the second one succeeds.
abbrev attempts : List Attempt
attempts =
    record { world = world; connects = false; later = 100 }
    ∷ record { world = world; connects = true; later = 100 }
    ∷ []

connect_dst-returns_example : connect_dst attempts two (cnf_of Policy.least) 0 ≢ none
connect_dst-returns_example =
    connect_dst-returns attempts two (cnf_of Policy.least) 0 two-IsSound (inr (inl refl))

abbrev made : Connecting × Router ℤ
made = returned (connect_dst attempts two (cnf_of Policy.least) 0) (Connecting.host_down, two)

connect_dst-Settled_example : Settled two.conns made
unfolding connect_dst time_approx_seconds
connect_dst-Settled_example =
    connect_dst-Settled attempts two (cnf_of Policy.least) 0 made two-IsSound refl

change_dst-After_example :
    After
      (sockaddr_is_equal (addr_of 1) removal.addr)
      removal
      two
      (change_dst two (cnf_of Policy.source) removal none alloc).1
      (addr_of 1)
change_dst-After_example =
    change_dst-After two (cnf_of Policy.source) removal none alloc (addr_of 1) two-IsSound refl
