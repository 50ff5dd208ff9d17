-- ===== src/Wdog/Copy.antt =====
-- src/glb_wdog.c: taking over the report of a backend thread, `wdog_copy_result`.
use glb.Common.{
  ℕ, ◌+◌, ◌*◌, Bool, true, false, not, ◌&&◌, ◌||◌, Option, none, some, List, [], ◌∷◌, ltb, leb,
  ◌==◌, if◌then◌else◌,
}
use glb.Double.{Double}
use glb.Router.Check.{DstState}
use glb.Wdog.State.{Check, WdogDst}

abbrev pub max_fail_count : ℕ
max_fail_count = 8

abbrev pub is_found : DstState → Bool
is_found DstState.not_found = false
is_found _ = true

abbrev pub is_ready : DstState → Bool
is_ready DstState.ready = true
is_ready _ = false

-- `strcmp` of two strings is not 0.
abbrev pub differs : List ℕ → List ℕ → Bool
differs [] [] = false
differs (x ∷ xs) (y ∷ ys) = not (x == y) || differs xs ys
differs _ _ = true

abbrev pub differs_from : Option (List ℕ) → Option (List ℕ) → Bool
differs_from (some xs) (some ys) = differs xs ys
differs_from _ _ = true

abbrev too_different : ℕ → ℕ → Bool
too_different others_len len = ltb others_len len || ltb (len * 2) others_len

module _ {F : Type 0} where
  -- A destination that is not found counts as failed. A discovered one that fails too often has its
  -- thread told to quit.
  unfoldable pub count_failure : WdogDst F → WdogDst F
  count_failure d =
      let d' = record d { fail_count = d.fail_count + 1 } in
      if not d.explicit && ltb max_fail_count (d.fail_count + 1)
      then record d' { ctx = record d'.ctx { quit = true } }
      else d'

  -- The buffer of `d` for the string of others, made as long as that of the report where it is too
  -- different: the buffer, its length, and whether that changed. What `realloc` keeps is left out, as
  -- a changed buffer of positive length is written over at once.
  unfoldable pub fit_others : WdogDst F → Check F → Bool → Option (List ℕ) × ℕ × Bool
  fit_others d res realloc =
      if too_different d.result.others_len res.others_len
      then if res.others_len == 0
        then (none, 0, true)
        else if realloc
        then (some [], res.others_len, true)
        else (none, 0, false)
      else (d.result.others, d.result.others_len, false)

  -- The string of others is copied where it is new.
  unfoldable pub copy_others : WdogDst F → Check F → Bool → WdogDst F
  unfolding fit_others
  copy_others d res realloc =
      let (others, len, changed_length) = fit_others d res realloc in
      if ltb 0 res.others_len
        && (leb res.others_len len && (changed_length || differs_from others res.others))
      then record d {
        memb_changed = true;
        result = record d.result { others = res.others; others_len = len };
      }
      else record d { result = record d.result { others = others; others_len = len } }

  -- The report is taken, and marked as taken; the buffer for others stays the destination's own.
  unfoldable pub take_report : WdogDst F → WdogDst F
  take_report d = record d {
    result = record d.ctx.result { others = d.result.others; others_len = d.result.others_len };
    ctx = record d.ctx { result = record d.ctx.result { ready = false } };
  }

  unfoldable pub process_report : WdogDst F → Check F → Bool → WdogDst F
  unfolding count_failure copy_others
  process_report d res realloc =
      if res.ready
      then if is_found res.state then copy_others d res realloc else count_failure d
      else d

module _ {F : Type 0} ⦃fp : Double F⦄ where
  open fp use {of_ℕ, add, mul, div, lt}

  abbrev smooth : F → F → ℕ → F
  smooth latency old_lat lf = div (add latency (mul old_lat (of_ℕ lf))) (of_ℕ (lf + 1))

  -- The latency is smoothed where the report is that of a ready destination, and kept otherwise.
  unfoldable pub smooth_latency : WdogDst F → F → F → ℕ → WdogDst F × F
  smooth_latency d old_lat max_lat lf =
      let lat = smooth d.result.latency old_lat lf in
      if d.result.ready && is_ready d.result.state
      then (
        record d { result = record d.result { latency = lat } },
        if lt max_lat lat then lat else max_lat,
      )
      else (record d { result = record d.result { latency = old_lat } }, max_lat)

  -- The destination and the maximal latency afterwards.
  unfoldable pub copy_result : WdogDst F → F → ℕ → Bool → WdogDst F × F
  unfolding take_report process_report smooth_latency
  copy_result d max_lat lf realloc =
      smooth_latency (process_report (take_report d) d.ctx.result realloc) d.result.latency max_lat
        lf

  -- All destinations in turn.
  unfoldable pub copy_results : List (WdogDst F) → F → ℕ → Bool → List (WdogDst F) × F
  unfolding copy_result
  copy_results [] max_lat lf realloc = ([], max_lat)
  copy_results (d ∷ ds) max_lat lf realloc =
      let (d', lat) = copy_result d max_lat lf realloc in
      let (ds', lat') = copy_results ds lat lf realloc in (d' ∷ ds', lat')
