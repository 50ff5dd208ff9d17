-- ===== src/Wdog/Main.antt =====
-- src/glb_wdog.c: the thread of the watchdog, `wdog_main_loop`, with the end of
-- `wdog_collect_results`, where the membership is followed. `none` is an assertion that fails, or an
-- index past the end of the list.
use glb.Common.{
  ℕ, zero, suc, ◌==◌, Bool, true, false, Option, none, some, List, [], ◌∷◌, ◌++◌, get_elem?, set,
}
use glb.Double.{Double}
use glb.Dst.{Dst}
use glb.SockAddr.{SockAddr, sockaddr_get_port}
use glb.Cnf.{Cnf}
use glb.Parse.Dst.{Libc}
use glb.Router.State.{Router}
use glb.Router.Change.{Alloc}
use glb.Wdog.State.{ThreadCtx, WdogDst}
use glb.Wdog.Change.{Start}
use glb.Wdog.Collect.{Round, collect_results}
use glb.Wdog.Members.{process_membership_change}

-- The watchdog between two rounds; `dropped` are the addresses that the pool was told to drop so far,
-- and `join` is set at the end.
pub record Watchdog (F : Type 0) : Type 0 where
  pub dst : List (WdogDst F)
  pub router : Router F
  pub dropped : List SockAddr
  pub join : Bool

-- What a round gets from outside: what the thread of each entry has put into its context, memory, and
-- the threads that start.
pub record Turn (F : Type 0) : Type 0 where
  pub reported : ℕ → ThreadCtx F → ThreadCtx F
  pub realloc : Bool
  pub alloc : ℕ → Alloc F
  pub start : Dst F → Start

-- Why the wait for the next round ends: its time has come, a signal, or a signal to quit.
pub data Wake (F : Type 0) : Type 0 where
  timed_out : Turn F → Wake F
  signalled : Wake F
  quit : Wake F

module _ {F : Type 0} where
  unfoldable pub with_reports :
      (ℕ → ThreadCtx F → ThreadCtx F) → ℕ → List (WdogDst F) → List (WdogDst F)
  with_reports reported i [] = []
  with_reports reported i (d ∷ ds) =
      record d { ctx = reported i d.ctx } ∷ with_reports reported (suc i) ds

module _ {F : Type 0} ⦃fp : Double F⦄ where
  -- The membership that the source reports, if there is a source.
  unfoldable pub follow_members :
      Libc F → Cnf F → (Dst F → Start) → Round F → Option (List (WdogDst F))
  unfolding process_membership_change
  follow_members libc cnf start r = elim r.memb_source [
    | none ↦ some r.dst
    | some i ↦ elim (get_elem? r.dst i) [
      | none ↦ none
      | some d ↦ elim d.result.others [
        | none ↦ none
        | some others ↦ some (
            process_membership_change libc (sockaddr_get_port cnf.inc_addr) start
              (set r.dst i (record d { memb_changed = false })) others)
      ]
    ]
  ]

  -- One whole round: the number of results, and the watchdog after it.
  unfoldable pub round : Libc F → Cnf F → Bool → Turn F → Watchdog F → Option (ℕ × Watchdog F)
  unfolding with_reports collect_results follow_members
  round libc cnf has_pool t w =
      let r =
        collect_results (with_reports t.reported 0 w.dst) w.router cnf has_pool t.realloc t.alloc in
      elim (follow_members libc cnf t.start r) [
        | none ↦ none
        | some ds ↦
            some (
              r.results,
              record w { dst = ds; router = r.router; dropped = w.dropped ++ r.dropped },
            )
      ]

  -- Rounds until there is a result, at most so many.
  unfoldable pub first_rounds :
      ℕ → Libc F → Cnf F → Bool → (ℕ → Turn F) → Watchdog F → Option (Watchdog F)
  unfolding round
  first_rounds zero libc cnf has_pool t w = some w
  first_rounds (suc left) libc cnf has_pool t w = elim (round libc cnf has_pool (t left) w) [
    | none ↦ none
    | some (n, w') ↦ elim (n == 0) [
      | true ↦ first_rounds left libc cnf has_pool t w'
      | false ↦ some w'
    ]
  ]

  -- The loop over the times that the thread wakes up, up to the signal to quit.
  unfoldable pub wake_loop :
      Libc F → Cnf F → Bool → List (Wake F) → Watchdog F → Option (Watchdog F)
  unfolding round
  wake_loop libc cnf has_pool [] w = some w
  wake_loop libc cnf has_pool (quit ∷ wakes) w = some (record w { join = true })
  wake_loop libc cnf has_pool (signalled ∷ wakes) w = wake_loop libc cnf has_pool wakes w
  wake_loop libc cnf has_pool (timed_out t ∷ wakes) w = elim (round libc cnf has_pool t w) [
    | none ↦ none
    | some (n, w') ↦ wake_loop libc cnf has_pool wakes w'
  ]

  -- Eleven rounds at most come first, if there are destinations.
  abbrev pub first_tries : List (WdogDst F) → ℕ
  first_tries [] = 0
  first_tries (d ∷ ds) = 11

  unfoldable pub main_loop :
      Libc F → Cnf F → Bool → (ℕ → Turn F) → List (Wake F) → Watchdog F → Option (Watchdog F)
  unfolding first_rounds wake_loop
  main_loop libc cnf has_pool first wakes w =
      elim (first_rounds (first_tries w.dst) libc cnf has_pool first w) [
        | none ↦ none
        | some w' ↦ wake_loop libc cnf has_pool wakes w'
      ]
