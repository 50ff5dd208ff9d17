-- ===== src/Cnf.antt =====
-- src/glb_cnf.h: the configuration, with the fields that the modelled code reads.
use glb.Common.{ℕ, Bool, true, false, List}
use glb.Dst.{Dst}
use glb.SockAddr.{SockAddr}

pub data Policy : Type 0 where
  least round single random source : Policy

pub record Cnf (F : Type 0) : Type 0 where
  pub inc_addr : SockAddr
  -- is a watchdog specified?
  pub watchdog : Bool
  -- nanoseconds between health checks, and between extra checks (0: no extra checks)
  pub interval : ℕ
  pub extra : ℕ
  pub max_conn : ℕ
  pub synchronous : Bool
  pub discover : Bool
  pub top : Bool
  pub lat_factor : ℕ
  pub policy : Policy
  pub dst : List (Dst F)

-- `policy >= GLB_POLICY_RANDOM`
unfoldable pub uses_map : Policy → Bool
uses_map random = true
uses_map source = true
uses_map _ = false
