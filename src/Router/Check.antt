-- ===== src/Router/Check.antt =====
-- src/glb_router.c: the extra check of a destination before a connection is sent to it.
use glb.Common.{ℕ, ◌+◌, Bool, true, false, ◌||◌, Option, none, some, ltb, ◌==◌, if◌then◌else◌}
use glb.Router.State.{RouterDst}

-- `glb_dst_state_t`
pub data DstState : Type 0 where
  not_found not_ready avoid ready : DstState

-- What the outside world answers when one destination is checked: the time in nanoseconds, the
-- state and the timestamp that the backend reports for the probe, and the time in seconds after it.
pub record Answer : Type 0 where
  pub now : ℕ
  pub state : DstState
  pub timestamp : ℕ
  pub after : ℕ

abbrev pub is_ready : DstState → Bool
is_ready ready = true
is_ready _ = false

abbrev pub is_none {ℓ} : {A : Type ℓ} → Option A → Bool
is_none none = true
is_none (some a) = false

module _ {F : Type 0} where
  -- Returns whether the destination is ready, and the destination with the time of the check.
  unfoldable dst_probe : RouterDst F → Answer → Bool × RouterDst F
  dst_probe d answer = elim answer.state [
    | ready ↦ (true, record d { checked = answer.timestamp })
    | _ ↦ (false, record d { failed = answer.after })
  ]

  unfoldable pub dst_check : RouterDst F → ℕ → Answer → Bool × RouterDst F
  unfolding dst_probe
  dst_check d uncheckd_intvl answer =
      if uncheckd_intvl == 0 || (is_none d.probe_ctx || ltb answer.now (d.checked + uncheckd_intvl))
      then (true, d)
      else dst_probe d answer
