-- ===== src/Backend/Context.antt =====
-- src/glb_wdog_backend.h and src/glb_wdog_backend.c: the context that a backend thread shares with the
-- watchdog and with probes, and `glb_backend_probe`.
use glb.Common.{ℕ, ◌+◌, Bool, true, false, not, ◌&&◌, Option, none, some, List, if◌then◌else◌}
use glb.Double.{Double}
use glb.Wdog.State.{Check, ThreadCtx}
use glb.Wdog.Change.{no_check}

-- `glb_backend_thread_ctx_t`: what the watchdog reads of it, and the rest.
pub record BackendCtx (F : Type 0) : Type 0 where
  pub thread : ThreadCtx F
  pub open thread use *
  pub host : List ℕ
  pub port : ℕ
  pub interval : ℕ
  pub waiting : ℕ
  pub errn : ℕ

module _ {F : Type 0} where
  -- A probe asks for a result, unless the thread is to end or has ended: it is counted, and waits.
  unfoldable pub probe_begin : BackendCtx F → Bool × BackendCtx F
  probe_begin c =
      if not c.quit && not c.join then (true, record c { waiting = c.waiting + 1 }) else (false, c)

module _ {F : Type 0} ⦃fp : Double F⦄ where
  -- What a probe returns: the result that is there when it is woken, or that nothing was found, if it
  -- did not wait, or did so for too long.
  unfoldable pub probe_end : Bool → Option (BackendCtx F) → Check F
  probe_end false woken = no_check
  probe_end true none = no_check
  probe_end true (some c) = c.result
