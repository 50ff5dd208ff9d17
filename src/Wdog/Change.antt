-- ===== src/Wdog/Change.antt =====
-- src/glb_wdog.c: adding, removing and changing watched destinations, `wdog_change_dst`.
use glb.Common.{
  ℕ, suc, Bool, true, false, not, ◌||◌, Option, none, some, List, [], ◌∷◌, ◌++◌, length, get_elem?,
  set, if◌then◌else◌,
}
use glb.Double.{Double}
use glb.Dst.{Dst, dst_is_equal}
use glb.Router.Check.{DstState}
use glb.Wdog.State.{Check, WdogDst}

pub data Error : Type 0 where
  eaddrnotavail enomem : Error
  errno : ℕ → Error

pub data Result (A : Type 0) : Type 0 where
  ok : A → Result A
  err : Error → Result A

-- What becomes of the thread for a new destination: memory runs out, the thread does not start and
-- gives its error, or it starts with the identity `id`.
pub data Start : Type 0 where
  out_of_memory : Start
  refused : ℕ → Start
  started : ℕ → Start

module _ {F : Type 0} where
  unfoldable pub find_wdog : Dst F → ℕ → List (WdogDst F) → Option ℕ
  find_wdog dst i [] = none
  find_wdog dst i (d ∷ ds) =
      let rest = find_wdog dst (suc i) ds in if dst_is_equal d.dst dst then some i else rest

  -- An explicit command ends the thread; a discovered one only for a discovered destination.
  unfoldable pub quit_dst : WdogDst F → Bool → WdogDst F
  quit_dst d explicit =
      if explicit || not d.explicit then record d { ctx = record d.ctx { quit = true } } else d

  -- A destination that is referred to is kept. Its weight is the explicit one, if there is one.
  unfoldable pub refer_dst : WdogDst F → F → Bool → WdogDst F
  refer_dst d weight explicit =
      let kept = record d { fail_count = 0 } in
      if explicit
      then record kept { explicit = true; dst = record d.dst { weight = weight } }
      else if d.explicit
      then kept
      else record kept { dst = record d.dst { weight = weight } }

module _ {F : Type 0} ⦃fp : Double F⦄ where
  open fp use {nought, one, sub, lt}

  abbrev pub minus_one : F
  minus_one = sub nought one

  abbrev pub no_check : Check F
  no_check = record {
    state = DstState.not_found;
    timestamp = 0;
    latency = nought;
    others = none;
    others_len = 0;
    ready = false;
  }

  -- `memset`, and the fields that are set after it.
  unfoldable pub new_wdog : Dst F → ℕ → Bool → WdogDst F
  new_wdog dst id explicit = record {
    result = no_check;
    dst = dst;
    weight = minus_one;
    ctx = record { id = id; result = no_check; quit = false; join = false };
    fail_count = 0;
    memb_changed = false;
    explicit = explicit;
  }

  unfoldable pub add_wdog : List (WdogDst F) → Dst F → Bool → Start → Result ℕ × List (WdogDst F)
  unfolding new_wdog
  add_wdog ds dst explicit Start.out_of_memory = (err Error.enomem, ds)
  add_wdog ds dst explicit (Start.refused e) = (err (Error.errno e), ds)
  add_wdog ds dst explicit (Start.started id) =
      (ok (length ds), ds ++ new_wdog dst id explicit ∷ [])

  unfoldable pub wdog_change_dst :
      List (WdogDst F) → Dst F → Bool → Start → Result ℕ × List (WdogDst F)
  unfolding find_wdog add_wdog quit_dst refer_dst
  wdog_change_dst ds dst explicit start = elim (find_wdog dst 0 ds) [
    | none ↦
        if lt dst.weight nought
        then (err Error.eaddrnotavail, ds)
        else add_wdog ds dst explicit start
    | some i ↦ elim (get_elem? ds i) [
      | none ↦ (ok i, ds)
      | some d ↦ (
        ok i,
        set ds i
            (if lt dst.weight nought then quit_dst d explicit else refer_dst d dst.weight explicit),
      )
    ]
  ]

  -- The changes for the members that a destination reports, after their addresses are parsed: those
  -- that could not be parsed are skipped, and errors are only logged.
  unfoldable pub process_members :
      List (WdogDst F) → List (Dst F) → (Dst F → Start) → List (WdogDst F)
  unfolding wdog_change_dst
  process_members ds [] start = ds
  process_members ds (m ∷ ms) start =
      process_members (wdog_change_dst ds m false (start m)).1 ms start
