-- ===== src/Backend/Steps.antt =====
-- src/glb_wdog_exec.c: the steps of an exec thread and of those who share its context: the watchdog, which takes results
-- and tells the thread to quit (src/glb_wdog.c), and probes.
use glb.Common.{ℕ, ◌≡◌, Bool, false, none, some, List}
use glb.Common.Int.{ℤ}
use glb.Double.{Double}
use glb.Time.{Timespec}
use glb.Backend.Context.{BackendCtx, probe_begin}
use glb.Backend.Reply.{Poll}
use glb.Backend.Thread.{
  Phase, Thread, quit_ctx, with_result, exec_begin, exec_wake, exec_test, exec_poll,
}

module _ {F : Type 0} where
  -- The watchdog takes the result: it is not fresh any more.
  unfoldable pub take_result : BackendCtx F → BackendCtx F
  take_result c = with_result c (record c.result { ready = false })

  -- The string of others of the last result stands in the buffer that the next line is read into, without
  -- the lock: `fgets` puts other bytes there, all of the line or a part of it.
  unfoldable pub overwrite_others : BackendCtx F → List ℕ → BackendCtx F
  overwrite_others c bytes =
      with_result c
        (record c.result { others = elim c.result.others [ none ↦ none | some s ↦ some bytes ] })

-- A step, by the thread in its phase or by another, whatever comes from outside.
pub data Step {F : Type 0} ⦃fp : Double F⦄ (strtol : List ℕ → ℤ × List ℕ) (t u : Thread F)
    : Type 0 where
  begin :
      (errn : ℕ) (now : Timespec)
      → t.phase ≡ Phase.starting
      → u ≡ exec_begin t errn now
      → Step strtol t u
  test : t.phase ≡ Phase.testing → u ≡ exec_test t → Step strtol t u
  poll :
      (terminate : Bool) (p : Poll F)
      → t.phase ≡ Phase.polling
      → u ≡ (exec_poll strtol terminate t p).0
      → Step strtol t u
  overwrite :
      (bytes : List ℕ)
      → t.phase ≡ Phase.polling
      → u ≡ record t { ctx = overwrite_others t.ctx bytes }
      → Step strtol t u
  wake :
      (timed_out : Bool) (now : Timespec)
      → t.phase ≡ Phase.waiting
      → u ≡ exec_wake t timed_out now
      → Step strtol t u
  take : u ≡ record t { ctx = take_result t.ctx } → Step strtol t u
  quit : u ≡ record t { ctx = quit_ctx t.ctx } → Step strtol t u
  probe : u ≡ record t { ctx = (probe_begin t.ctx).1 } → Step strtol t u

pub data Reach {F : Type 0} ⦃fp : Double F⦄ (strtol : List ℕ → ℤ × List ℕ) (s : Thread F)
    : Thread F → Type 0 where
  here : Reach strtol s s
  next : {t u : Thread F} → Reach strtol s t → Step strtol t u → Reach strtol s u
