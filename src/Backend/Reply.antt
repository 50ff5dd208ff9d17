-- ===== src/Backend/Reply.antt =====
-- src/glb_wdog_exec.c: the result of one poll from the line that the process answers with.
use glb.Common.{ℕ, ◌==◌, Bool, true, Option, none, some, List, [], ◌∷◌, length, if◌then◌else◌}
use glb.Common.Int.{ℤ, pos, negsuc}
use glb.Double.{Double}
use glb.Router.Check.{DstState}
use glb.Wdog.State.{Check}
use glb.Wdog.Change.{no_check}
use glb.Config.{ends}

-- The number of a state, from GLB_DST_NOTFOUND to GLB_DST_READY.
unfoldable pub state_of : ℤ → Option DstState
state_of (negsuc n) = none
state_of (pos n) =
    if n == 0
    then some DstState.not_found
    else if n == 1
    then some DstState.not_ready
    else if n == 2
    then some DstState.avoid
    else if n == 3
    then some DstState.ready
    else none

-- The first line of a text with its newline, as `fgets` reads it, is `line`: a number, and after a
-- blank the other members of the cluster.
unfoldable pub others_of : List ℕ → Option (List ℕ)
others_of [] = none
others_of (c ∷ []) = none
others_of (c ∷ o ∷ others) = some (o ∷ others)

unfoldable pub text_length : Option (List ℕ) → ℕ
text_length none = 0
text_length (some s) = length s

-- What polling the process gives: the command could not be sent, nothing could be read (with what
-- `errno` was), or a line with the time it took in seconds.
pub data Poll (F : Type 0) : Type 0 where
  not_sent : ℕ → Poll F
  not_read : ℕ → Poll F
  line : List ℕ → ℕ → F → Poll F

abbrev pub eproto : ℕ
eproto = 71

module _ {F : Type 0} ⦃fp : Double F⦄ where
  -- A line is a result if its number is that of a state: the error, and the result.
  unfoldable pub read_line : (List ℕ → ℤ × List ℕ) → List ℕ → ℕ → F → ℕ × Check F
  unfolding state_of others_of text_length
  read_line strtol text now latency =
      let (st, end) = strtol text in
      let unread = record no_check { timestamp = now; latency = latency } in
      if ends end
      then elim (state_of st) [
        | none ↦ (eproto, unread)
        | some state ↦ (
          0,
          record {
            state = state;
            timestamp = now;
            latency = latency;
            others = others_of end;
            others_len = text_length (others_of end);
            ready = true;
          },
        )
      ]
      else (eproto, unread)

  -- The error and the result of one poll; `terminate` tells that the program is to end.
  unfoldable pub poll_result : (List ℕ → ℤ × List ℕ) → Bool → Poll F → ℕ × Check F
  unfolding read_line
  poll_result strtol terminate (not_sent e) = (e, no_check)
  poll_result strtol terminate (not_read e) = (if terminate then 0 else e, no_check)
  poll_result strtol terminate (line text now latency) = read_line strtol text now latency

-- Nodes that are there are checked at every interval, others at every tenth.
unfoldable pub interval_mod : DstState → ℕ
interval_mod DstState.not_found = 10
interval_mod _ = 1
