-- ===== src/Backend/Fits.antt =====
-- What is written into the buffers that are allocated for commands and for the strings of others.
use glb.Common.{
  ℕ, zero, suc, ◌+◌, ◌*◌, ◌≤◌, ◌<◌, ◌==◌, ◌≡◌, ◌↔◌, refl, subst, ap, ◌∙◌, ltb, Bool, true, false,
  Option, some, List, [], ◌∷◌, ◌++◌, length, length-append, take, drop, arith, if_intro, if_split,
  option_split, if_at_true, if_at_false, sym, leb, ◌||◌, ◌&&◌, if◌then◌else◌,
}
use glb.Common.Int.{ℤ}
use glb.Double.{Double}
use glb.Wdog.State.{Check, WdogDst}
use glb.Wdog.Copy.{
  is_found, is_ready, differs_from, copy_result, fit_others, copy_others, take_report,
  process_report, smooth_latency,
}
use glb.Config.{ends}
use glb.Backend.Reply.{state_of, others_of, text_length, read_line}
use glb.Backend.Command.{port_digits, cmd_offset, host_port, create_cmd, cmd_size}

length-split {ℓ} :
    {A : Type ℓ} (n : ℕ) (xs : List A) → length (take n xs) + length (drop n xs) ≡ length xs
length-split zero xs = omega arith
length-split (suc n) [] = omega arith
length-split (suc n) (x ∷ xs) = omega (arith, length-split n xs)

-- The number of digits.
abbrev width : ℕ → ℕ
width p =
    if ltb p 10
    then 1
    else if ltb p 100
    then 2
    else if ltb p 1000
    then 3
    else if ltb p 10000
    then 4
    else 5

port_digits-width : (p : ℕ) → length (port_digits p) ≡ width p
unfolding port_digits
port_digits-width p = ground arith

length-create_cmd :
    (cmd host : List ℕ) (port : ℕ)
    → length (create_cmd cmd host port) ≡ length cmd + length host + 2 + width port
unfolding create_cmd host_port
length-create_cmd cmd host port =
    let digits : List ℕ = port_digits port in
    let address : List ℕ = b' ' ∷ (host ++ b':' ∷ digits) in
    omega (
      arith,
      length-split (cmd_offset cmd) cmd,
      port_digits-width port,
      length-append (take (cmd_offset cmd) cmd) (address ++ drop (cmd_offset cmd) cmd),
      length-append address (drop (cmd_offset cmd) cmd),
      length-append host (b':' ∷ digits),
    )

-- The new command with its NUL fits the memory allocated for it exactly if the port has at most four
-- digits.
pub create_cmd_fits :
    (cmd host : List ℕ) (port : ℕ)
    → (length (create_cmd cmd host port) + 1 ≤ cmd_size cmd host) ↔ (port < 10000)
unfolding cmd_size
create_cmd_fits cmd host port = let l = length-create_cmd cmd host port in ground (arith, l)

-- What `strcpy` writes: the string and its NUL.
abbrev pub strcpy_size : List ℕ → ℕ
strcpy_size s = length s + 1

others_of-Measured :
    (end s : List ℕ)
    → others_of end ≡ some s
    → (text_length (others_of end) ≡ length s) × (0 < length s)
unfolding others_of text_length
others_of-Measured [] s h = cc
others_of-Measured (c ∷ []) s h = cc
others_of-Measured (c ∷ o ∷ rest) s h =
    let e : o ∷ rest ≡ s = cc h in
    (ap (λ (l : List ℕ). length l) e, subst (λ (l : List ℕ). 0 < length l) e (omega arith))

module _ {F : Type 0} where
  -- A buffer of length 0 is allocated anew, as long as the report says.
  fit_others_new :
      (d : WdogDst F) (res : Check F)
      → d.result.others_len ≡ 0
      → 0 < res.others_len
      → fit_others d res true ≡ (some [], res.others_len, true)
  unfolding fit_others
  fit_others_new d res n p =
      let grows : (ltb d.result.others_len res.others_len
            || ltb (res.others_len * 2) d.result.others_len)
          ≡ true =
        ground arith in
      let some_length : (res.others_len == 0) ≡ false = ground arith in
      if_at_true _ _ grows ∙ if_at_false _ _ some_length

  copy_others_new :
      (d : WdogDst F) (res : Check F)
      → d.result.others_len ≡ 0
      → 0 < res.others_len
      → ((copy_others d res true).result.others ≡ res.others)
        × ((copy_others d res true).result.others_len ≡ res.others_len)
  unfolding copy_others
  copy_others_new d res n p =
      let P = λ (e : WdogDst F).
        (e.result.others ≡ res.others) × (e.result.others_len ≡ res.others_len) in
      subst
        (λ (fit : Option (List ℕ) × ℕ × Bool). P (
          if ltb 0 res.others_len
            && (leb res.others_len fit.1 && (fit.2 || differs_from fit.0 res.others))
          then record d {
            memb_changed = true;
            result = record d.result { others = res.others; others_len = fit.1 };
          }
          else record d { result = record d.result { others = fit.0; others_len = fit.1 } }))
        (sym (fit_others_new d res n p))
        (if_split P (ltb 0 res.others_len && (leb res.others_len res.others_len && true)) _ _
          (λ _. (refl, refl)) (λ q. absurd (ground arith)))

module _ {F : Type 0} ⦃fp : Double F⦄ where
  -- The length that is reported is that of the string, which is not empty.
  abbrev Measured : ℕ × Check F → Type 0
  Measured p =
      (p.0 ≡ 0)
      → (p.1.ready ≡ true)
        × ((s : List ℕ) → p.1.others ≡ some s → (p.1.others_len ≡ length s) × (0 < length s))

  read_line-Measured :
      (strtol : List ℕ → ℤ × List ℕ) (text : List ℕ) (now : ℕ) (latency : F)
      → Measured (read_line strtol text now latency)
  unfolding read_line
  read_line-Measured strtol text now latency =
      let (st, end) = strtol text in
      if_intro Measured (ends end) _ _
        (option_split Measured (state_of st) _ _ (λ _ h. absurd (omega (arith, h)))
          (λ state _ h. (refl, others_of-Measured end)))
        (λ h. absurd (omega (arith, h)))

  -- The first string of others that a watchdog takes from a process is put into a buffer that is one
  -- byte too short for it: where the thread has read it from a line of the process, the destination has
  -- no buffer yet, and memory is there.
  pub first_others_overflow :
      (strtol : List ℕ → ℤ × List ℕ) (text : List ℕ) (now : ℕ) (latency : F) (d : WdogDst F)
      (max_lat : F) (lf : ℕ) (s : List ℕ)
      → read_line strtol text now latency ≡ (0, d.ctx.result)
      → is_found d.ctx.result.state ≡ true
      → d.ctx.result.others ≡ some s
      → d.result.others_len ≡ 0
      → let d' = (copy_result d max_lat lf true).0 in
        (d'.result.others ≡ some s) × (d'.result.others_len + 1 ≡ strcpy_size s)
  unfolding copy_result process_report smooth_latency take_report
  first_others_overflow strtol text now latency d max_lat lf s r f o n =
      let m = subst Measured r (read_line-Measured strtol text now latency) refl in
      let (len, some_text) = m.1 s o in
      let res : Check F = d.ctx.result in
      let P =
        λ (e : WdogDst F). (e.result.others ≡ some s) × (e.result.others_len + 1 ≡ strcpy_size s) in
      let c = copy_others_new (take_report d) res n (omega (arith, len, some_text)) in
      let copied : P (copy_others (take_report d) res true) = (c.0 ∙ o, omega (arith, c.1, len)) in
      let d1 : WdogDst F = process_report (take_report d) res true in
      let processed : P d1 = subst P (sym (if_at_true _ _ m.0 ∙ if_at_true _ _ f)) copied in
      if_intro (λ (q : WdogDst F × F). P q.0) (d1.result.ready && is_ready d1.result.state) _ _
        processed processed
