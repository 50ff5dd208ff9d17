-- ===== src/Control/Tests.antt =====
-- The theorems on the control interface at concrete requests.
use glb.Common.{
  if◌then◌else◌, length, ◌≡◌, ◌==◌, Option, OnSome, ℕ, zero, suc, refl, true, false, none, some,
  List, [], ◌∷◌,
}
use glb.Common.Int.{ℤ, pos}
use glb.Double.Fixed.{fixed, millionths}
use glb.SockAddr.{SockAddr}
use glb.Cnf.{Cnf, Policy}
use glb.Router.Change.{Alloc}
use glb.Wdog.Change.{Start}
use glb.Parse.Dst.{Libc}
use glb.Control.Clients.{PollFd, Ctrl, no_fd}
use glb.Control.Request.{Control}
use glb.Control.Serve.{Read, Visit, Wakeup, Server, ctrl_create, ctrl_thread}
use glb.Control.Listening.{Listens}
use glb.Control.Keeps.{ctrl_thread-Listens}
use glb.Control.Quiet.{Returns}
use glb.Control.Returns.{ctrl_thread-Returns}

abbrev unused : ℕ → List PollFd
unused zero = []
unused (suc n) = no_fd ∷ unused n

abbrev addr_of : ℕ → SockAddr
addr_of n = record { sin_family = 2; sin_port = 15_360; sin_addr = n; sin_zero = 0 }

abbrev control : Control ℤ
control = record {
  router = record {
    ctx = record { min_weight = pos 1; retry = 2; now = 100 };
    conns = 0;
    seed = 7;
    rrb_next = 0;
    map_failed = 0;
    top_failed = 0;
    top_dst = none;
    dst = [];
  };
  wdog = none;
  has_pool = true;
  dropped = [];
}

abbrev cnf : Cnf ℤ
cnf = record {
  inc_addr = addr_of 9;
  watchdog = false;
  interval = 1_000_000_000;
  extra = 0;
  max_conn = 10;
  synchronous = false;
  discover = false;
  top = true;
  lat_factor = 4;
  policy = Policy.least;
  dst = [];
}

abbrev alloc : Alloc ℤ
alloc = record { realloc = true; found_map = pos 0; now_ns = 9; now = 100 }

-- Every text starts with the port 80 and the weight 1, and every host has the address 1.
abbrev libc : Libc ℤ
libc = record {
  strtoul = λ s. (80, []);
  strtod = λ s. (millionths 1_000_000, []);
  gethostbyname = λ s. some 1;
}

-- The FIFO and the listening socket.
abbrev fresh_table : Ctrl
fresh_table = record {
  inet_fd = some 1;
  fd_max = 2;
  fds =
      record { fd = 4; pollin = true; revents = false }
      ∷ record { fd = 5; pollin = true; revents = false }
      ∷ unused 30;
}

abbrev visit_with : Read → ℕ → Visit ℤ
visit_with read i = record {
  read = if i == 0 then Read.text [] else read;
  past = no_fd;
  alloc = alloc;
  start = Start.out_of_memory;
}

-- A client comes, asks for "h:80", and leaves.
abbrev events : List (Wakeup ℤ)
events =
    Wakeup.ready (λ i. i == 1) (some 6) (visit_with Read.closed)
    ∷ Wakeup.nothing
    ∷ Wakeup.ready (λ i. i == 2) none (visit_with (Read.text (104 ∷ 58 ∷ 56 ∷ 48 ∷ [])))
    ∷ Wakeup.ready (λ i. i == 2) none (visit_with Read.closed)
    ∷ []

abbrev served : Option (Server ℤ)
served = ctrl_thread events (record { table = fresh_table; control = control }) cnf libc 3306

ctrl_thread-Listens_example : OnSome (λ (s : Server ℤ). (i : ℕ) × Listens 5 i s.table) served
unfolding ctrl_create
ctrl_thread-Listens_example =
    ctrl_thread-Listens (some 4) 5 fresh_table control events cnf libc 3306 (λ e. cc e) (λ e. cc e)
      ((λ e. cc e, λ fd e. cc e), (tt, ((tt, λ fd e. cc e), ((tt, λ fd e. cc e), tt)))) refl

ctrl_thread-Returns_example : Returns (λ (s : Server ℤ). (i : ℕ) × Listens 5 i s.table) served
unfolding ctrl_create
ctrl_thread-Returns_example =
    ctrl_thread-Returns (some 4) 5 fresh_table control events cnf libc 3306 (λ e. cc e) (λ e. cc e)
      ((λ e. cc e, λ fd e. cc e), (tt, ((tt, λ fd e. cc e), ((tt, λ fd e. cc e), tt))))
      ((refl, λ fd. refl), (tt, ((refl, λ fd. refl), ((refl, λ fd. refl), tt)))) refl

-- Afterwards there is no client any more, and there is one destination.
served_lem :
    OnSome (λ (s : Server ℤ). (s.table.fd_max ≡ 2) × (length s.control.router.dst ≡ 1)) served
unfolding ctrl_thread
served_lem = (refl, refl)
