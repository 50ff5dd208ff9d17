-- ===== src/Router/Busy.antt =====
-- src/glb_router.c: the calls of several threads on one router. Some threads make requests
-- (`glb_router_connect`, in the daemon one thread), one thread changes destinations (the watchdog's, or
-- the control thread where there is no watchdog), and any number close connections. The test of the
-- limit stands outside the lock, `router_connect_dst` lets go of the lock while it connects, and a
-- change that has to wait keeps what it has looked up.
use glb.Common.{
  ℕ, suc, length, ◌+◌, ◌-◌, ◌≡◌, Bool, true, false, not, ◌&&◌, Option, none, some, List, ◌∷◌, ◌++◌,
  get_elem?, leb, ltb,
}
use glb.Double.{Double}
use glb.SockAddr.{SockAddr}
use glb.Dst.{Dst}
use glb.Cnf.{Cnf}
use glb.Router.State.{Router}
use glb.Router.Choose.{World, choose_dst}
use glb.Router.Change.{Alloc, find_dst, change_dst}
use glb.Router.Disconnect.{disconnect, choose_dst_again}
use glb.Router.Connect.{connect_async, connect_failed}
use glb.Router.Stale.{late_change}

-- A thread that is connecting: the index of the destination that it has a pointer to, and the address.
pub record Making : Type 0 where
  pub index : ℕ
  pub addr : SockAddr

-- The thread that waits to change a destination: what it has found before, the index of the destination
-- or none, and how many destinations there were.
pub record Waiting (F : Type 0) : Type 0 where
  pub found : Option ℕ
  pub n_dst : ℕ
  pub dst : Dst F
  pub probe_ctx : Option ℕ

-- The threads that make requests are idle, have passed the test of the limit, or are connecting.
pub record Shared (F : Type 0) : Type 0 where
  pub router : Router F
  pub busy_count : ℕ
  pub idle : ℕ
  pub admitted : ℕ
  pub connecting : List Making
  pub waiting : Option (Waiting F)

module _ {F : Type 0} ⦃fp : Double F⦄ where
  open fp use {nought, lt}

  -- The thread that is connecting goes on to the next destination, or ends if there is none.
  unfoldable pub try_dst : Shared F → Cnf F → ℕ → World → Shared F
  unfolding choose_dst
  try_dst s cnf hint w =
      let (chosen, router') = choose_dst s.router hint cnf w in
      let ended = record s { router = router'; busy_count = s.busy_count - 1; idle = s.idle + 1 } in
      elim chosen [
        | none ↦ ended
        | some i ↦ elim (get_elem? router'.dst i) [
          | none ↦ ended
          | some d ↦ record s {
            router = router';
            connecting = record { index = i; addr = d.dst.addr } ∷ s.connecting;
          }
        ]
      ]

  -- The test of the limit, without the lock.
  unfoldable pub is_full : Router F → Cnf F → Bool
  is_full router cnf = leb cnf.max_conn router.conns

  -- A synchronous request, of a thread that is not among `admitted` any more.
  unfoldable pub begin_connect : Shared F → Cnf F → ℕ → World → Shared F
  unfolding try_dst
  begin_connect s cnf hint w = try_dst (record s { busy_count = s.busy_count + 1 }) cnf hint w

  -- The attempt failed, of a thread that is not among `connecting` any more.
  unfoldable pub fail_connect : Shared F → Cnf F → ℕ → ℕ → ℕ → World → Option (Shared F)
  unfolding connect_failed try_dst
  fail_connect s cnf now i hint w = elim (connect_failed s.router cnf now i) [
    | none ↦ none
    | some router' ↦ some (try_dst (record s { router = router' }) cnf hint w)
  ]

  -- The attempt succeeded.
  unfoldable pub end_connect : Shared F → List Making → Shared F
  end_connect s connecting = record s {
    busy_count = s.busy_count - 1;
    idle = s.idle + 1;
    connecting = connecting;
  }

  -- A destination cannot be added or removed while some thread is connecting.
  unfoldable pub has_to_wait : Shared F → Dst F → Bool
  unfolding find_dst
  has_to_wait s dst = ltb 0 s.busy_count && elim (find_dst dst 0 s.router.dst) [
    | none ↦ not (lt dst.weight nought)
    | some i ↦ lt dst.weight nought
  ]

  -- What is looked up before the wait.
  unfoldable pub wait_for : Shared F → Dst F → Option ℕ → Waiting F
  unfolding find_dst
  wait_for s dst probe_ctx = record {
    found = find_dst dst 0 s.router.dst;
    n_dst = length s.router.dst;
    dst = dst;
    probe_ctx = probe_ctx;
  }

-- One step of the threads that share a router.
pub data Step {F : Type 0} ⦃fp : Double F⦄ (cnf : Cnf F) (s t : Shared F) : Type 0 where
  admits :
      (k : ℕ)
      → s.idle ≡ suc k
      → is_full s.router cnf ≡ false
      → t ≡ record s { idle = k; admitted = s.admitted + 1 }
      → Step cnf s t
  begins :
      (k hint : ℕ) (w : World)
      → s.admitted ≡ suc k
      → t ≡ begin_connect (record s { admitted = k }) cnf hint w
      → Step cnf s t
  fails :
      (xs ys : List Making) (m : Making) (now hint : ℕ) (w : World)
      → s.connecting ≡ xs ++ m ∷ ys
      → fail_connect (record s { connecting = xs ++ ys }) cnf now m.index hint w ≡ some t
      → Step cnf s t
  ends :
      (xs ys : List Making) (m : Making)
      → s.connecting ≡ xs ++ m ∷ ys
      → t ≡ end_connect s (xs ++ ys)
      → Step cnf s t
  asks :
      (k hint : ℕ) (w : World)
      → s.admitted ≡ suc k
      → t ≡ record s {
        router = (connect_async s.router cnf hint w).1;
        admitted = k;
        idle = s.idle + 1;
      }
      → Step cnf s t
  closes :
      (a : SockAddr) (failed : Bool) (now i : ℕ) (router' : Router F)
      → disconnect s.router cnf a failed now ≡ some (i, router')
      → t ≡ record s { router = router' }
      → Step cnf s t
  moves :
      (hint : ℕ) (a : SockAddr) (now : ℕ) (w : World) (c : Option ℕ × Router F)
      → choose_dst_again s.router hint a cnf now w ≡ some c
      → t ≡ record s { router = c.1 }
      → Step cnf s t
  changes :
      (dst : Dst F) (ctx : Option ℕ) (a : Alloc F)
      → s.waiting ≡ none
      → has_to_wait s dst ≡ false
      → t ≡ record s { router = (change_dst s.router cnf dst ctx a).1 }
      → Step cnf s t
  waits :
      (dst : Dst F) (ctx : Option ℕ)
      → s.waiting ≡ none
      → has_to_wait s dst ≡ true
      → t ≡ record s { waiting = some (wait_for s dst ctx) }
      → Step cnf s t
  resumes :
      (v : Waiting F) (a : Alloc F) (router' : Router F)
      → s.waiting ≡ some v
      → s.busy_count ≡ 0
      → late_change s.router cnf v.found v.n_dst v.dst v.probe_ctx a ≡ some router'
      → t ≡ record s { router = router'; waiting = none }
      → Step cnf s t

pub data Reach {F : Type 0} ⦃fp : Double F⦄ (cnf : Cnf F) (s : Shared F) : Shared F → Type 0 where
  here : Reach cnf s s
  next : {t u : Shared F} → Reach cnf s t → Step cnf t u → Reach cnf s u
