-- ===== src/Wdog/Create.antt =====
-- src/glb_wdog.c: making the watchdog, `glb_wdog_create`, and the end of its destinations,
-- `wdog_dst_cleanup`.
use glb.Common.{
  ℕ, ◌≡◌, Bool, true, false, Option, none, some, List, [], ◌∷◌, length, All, ◌==◌, if◌then◌else◌,
}
use glb.Double.{Double}
use glb.SockAddr.{SockAddr}
use glb.Dst.{Dst, dst_is_equal}
use glb.Wdog.State.{WdogDst}
use glb.Wdog.Change.{Start, ok, err, wdog_change_dst}
use glb.Cnf.{Cnf}
use glb.Parse.Dst.{Libc}
use glb.Router.State.{Router}
use glb.Wdog.Main.{Watchdog, Turn, first_rounds, first_tries}
use glb.Backend.Factory.{Backend, Made, made, backend_factory}

-- NULL, a failed assertion, or a watchdog.
pub data Created (F : Type 0) : Type 0 where
  refused aborted : Created F
  created : Watchdog F → Created F

module _ {F : Type 0} ⦃fp : Double F⦄ where
  -- The destinations of the configuration are added one by one; none where one of them is refused.
  unfoldable pub create_loop :
      List (Dst F) → (Dst F → Start) → List (WdogDst F) → Option (List (WdogDst F))
  unfolding wdog_change_dst
  create_loop [] start ds = some ds
  create_loop (d ∷ rest) start ds =
      let (ret, ds') = wdog_change_dst ds d true (start d) in
      let later = create_loop rest start ds' in elim ret [ err e ↦ none | ok i ↦ later ]

  -- What the first rounds of the thread make, which the caller waits for.
  abbrev pub begun : Option (Watchdog F) → Created F
  begun none = aborted
  begun (some w) = created w

  -- The thread of the watchdog starts where every destination was added.
  unfoldable pub start_thread :
      Libc F → Cnf F → Bool → (ℕ → Turn F) → Router F → List (WdogDst F) → Created F
  unfolding first_rounds
  start_thread libc cnf has_pool first router ds =
      let w : Watchdog F = record { dst = ds; router = router; dropped = []; join = false } in
      if length ds == length cnf.dst
      then begun (first_rounds (first_tries ds) libc cnf has_pool first w)
      else aborted

  -- The backend is made from its specification, then the destinations get their threads, and the thread
  -- of the watchdog makes its first rounds.
  unfoldable pub wdog_create :
      Libc F
      → Bool
      → List (List ℕ)
      → List ℕ
      → Cnf F
      → Bool
      → (Dst F → Start)
      → (ℕ → Turn F)
      → Router F
      → Created F
  unfolding backend_factory create_loop start_thread
  wdog_create libc glbd env watchdog cnf has_pool start first router =
      elim (backend_factory glbd env watchdog) [
        | Made.made b ↦ elim (create_loop cnf.dst start []) [
          | none ↦ refused
          | some ds ↦ start_thread libc cnf has_pool first router ds
        ]
        | Made.einval ↦ refused
        | Made.enosys ↦ refused
      ]

  -- Every thread is told to quit.
  unfoldable pub quit_all : List (WdogDst F) → List (WdogDst F)
  quit_all [] = []
  quit_all (d ∷ ds) = record d { ctx = record d.ctx { quit = true } } ∷ quit_all ds

  -- When they are joined, the pool is told to drop those that the router still has.
  unfoldable pub drop_all : List (WdogDst F) → List SockAddr
  drop_all [] = []
  drop_all (d ∷ ds) =
      let rest = drop_all ds in if fp.le fp.nought d.weight then d.dst.addr ∷ rest else rest

  unfoldable pub wdog_dst_cleanup : List (WdogDst F) → List SockAddr
  unfolding quit_all drop_all
  wdog_dst_cleanup ds = drop_all (quit_all ds)

  -- No entry of the list is the destination.
  abbrev pub IsNew : Dst F → List (WdogDst F) → Type 0
  IsNew d = All λ w. dst_is_equal w.dst d ≡ false

  -- No destination of the list comes twice, none is negative, and each gets a thread with an identity.
  abbrev pub CanStart : List (Dst F) → (Dst F → ℕ) → Type 0
  CanStart [] id = Unit
  CanStart (d ∷ rest) id =
      (fp.lt d.weight fp.nought ≡ false)
      × All (λ e. dst_is_equal d e ≡ false) rest
      × CanStart rest id

  abbrev AllNew : List (Dst F) → List (WdogDst F) → Type 0
  AllNew rest ds = All (λ e. IsNew e ds) rest
