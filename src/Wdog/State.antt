-- ===== src/Wdog/State.antt =====
-- src/glb_wdog_backend.h and src/glb_wdog.c: reports, backend threads, and watched destinations.
use glb.Common.{ℕ, Bool, Option, List}
use glb.Dst.{Dst}
use glb.Router.Check.{DstState}

-- `glb_wdog_check_t`. `others` is a string, or NULL; `others_len` is the length of its buffer.
pub record Check (F : Type 0) : Type 0 where
  pub state : DstState
  pub timestamp : ℕ
  pub latency : F
  pub others : Option (List ℕ)
  pub others_len : ℕ
  pub ready : Bool

-- The context of a backend thread, which `id` tells from others.
pub record ThreadCtx (F : Type 0) : Type 0 where
  pub id : ℕ
  pub result : Check F
  pub quit : Bool
  pub join : Bool

-- `weight` is what the router was told last, negative where the destination is not in its list.
pub record WdogDst (F : Type 0) : Type 0 where
  pub result : Check F
  pub dst : Dst F
  pub weight : F
  pub ctx : ThreadCtx F
  pub fail_count : ℕ
  pub memb_changed : Bool
  pub explicit : Bool
