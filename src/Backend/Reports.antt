-- ===== src/Backend/Reports.antt =====
-- What the watchdog can rely on in the context of an exec thread, at any time.
use glb.Common.{
  ℕ, ◌+◌, ◌-◌, ◌≤◌, not, ◌&&◌, ◌==◌, ◌≡◌, refl, Bool, true, false, Option, List, if_intro,
  option_split, ap, sym, ◌∙◌, subst, arith,
}
use glb.Common.Int.{ℤ}
use glb.Double.{Double}
use glb.Wdog.State.{Check}
use glb.Wdog.Change.{no_check}
use glb.Config.{ends}
use glb.Backend.Context.{BackendCtx, probe_begin}
use glb.Backend.Reply.{Poll, not_sent, not_read, line, read_line, poll_result, state_of}
use glb.Backend.Thread.{
  Phase, Thread, Outside, quit_ctx, exec_begin, exec_wake, exec_finish, exec_publish, exec_test,
  exec_poll, exec_step_in, exec_step,
}
use glb.Backend.Steps.{
  Step, begin, test, poll, overwrite, wake, take, quit, probe, Reach, here, next, take_result,
  overwrite_others,
}

abbrev pub is_ended : Phase → Bool
is_ended Phase.ended = true
is_ended _ = false

abbrev pub is_polling : Phase → Bool
is_polling Phase.polling = true
is_polling _ = false

-- The steps that a thread that is to quit still makes.
abbrev left : Phase → ℕ
left Phase.starting = 2
left Phase.testing = 1
left Phase.polling = 3
left Phase.waiting = 2
left Phase.ended = 0

left_none : (p : Phase) → left p ≡ 0 → p ≡ Phase.ended
left_none Phase.ended h = refl
left_none Phase.starting h = absurd (omega (arith, h))
left_none Phase.testing h = absurd (omega (arith, h))
left_none Phase.polling h = absurd (omega (arith, h))
left_none Phase.waiting h = absurd (omega (arith, h))

left_most : (p : Phase) → left p ≤ 3
left_most Phase.ended = omega arith
left_most Phase.starting = omega arith
left_most Phase.testing = omega arith
left_most Phase.polling = omega arith
left_most Phase.waiting = omega arith

module _ {F : Type 0} ⦃fp : Double F⦄ (strtol : List ℕ → ℤ × List ℕ) where
  -- The result is what a line of the process gave.
  abbrev pub IsRead : Check F → Type 0
  IsRead r =
      (text : List ℕ) × (now : ℕ) × (latency : F) × (read_line strtol text now latency ≡ (0, r))

  -- The same, but for the string of others.
  abbrev pub IsReadBut : Check F → Type 0
  IsReadBut r = (o : Option (List ℕ)) × IsRead (record r { others = o })

  -- A thread can be joined when it has ended; then it holds no result. A result is fresh only if it was
  -- read; its string of others is what was read while the thread is not polling.
  pub record IsThread (t : Thread F) : Type 0 where
    pub joins : t.ctx.join ≡ is_ended t.phase
    pub cleared : t.ctx.join ≡ true → t.ctx.result ≡ no_check
    pub fresh : t.ctx.result.ready ≡ true → IsReadBut t.ctx.result
    pub whole : is_polling t.phase ≡ false → t.ctx.result.ready ≡ true → IsRead t.ctx.result

  finish-IsThread : (t : Thread F) → IsThread (exec_finish t)
  unfolding exec_finish
  finish-IsThread t = record {
    joins = refl;
    cleared = λ j. refl;
    fresh = λ r. cc;
    whole = λ p r. cc;
  }

  read_line_ready :
      (text : List ℕ) (now : ℕ) (latency : F)
      → (read_line strtol text now latency).1.ready ≡ true
      → (read_line strtol text now latency).0 ≡ 0
  unfolding read_line
  read_line_ready text now latency =
      let (st, end) = strtol text in
      if_intro (λ (p : ℕ × Check F). p.1.ready ≡ true → p.0 ≡ 0) (ends end) _ _
        (option_split (λ (p : ℕ × Check F). p.1.ready ≡ true → p.0 ≡ 0) (state_of st) _ _
          (λ _ h. cc) (λ state _ h. refl))
        (λ h. cc)

  poll_result-Read :
      (terminate : Bool) (p : Poll F)
      → (poll_result strtol terminate p).1.ready ≡ true
      → IsRead (poll_result strtol terminate p).1
  unfolding poll_result
  poll_result-Read terminate (not_sent e) h = cc
  poll_result-Read terminate (not_read e) h = cc
  poll_result-Read terminate (line text now latency) h = (
    text,
    now,
    latency,
    ap (λ e. (e, (read_line strtol text now latency).1)) (read_line_ready text now latency h),
  )

  -- Whoever does not touch the result, nor whether the thread has ended.
  same-IsThread :
      (t u : Thread F)
      → u.ctx.join ≡ is_ended u.phase
      → u.ctx.join ≡ t.ctx.join
      → u.ctx.result ≡ t.ctx.result
      → (is_polling u.phase ≡ false → is_polling t.phase ≡ false)
      → IsThread t
      → IsThread u
  same-IsThread t u e j r p h = record {
    joins = e;
    cleared = λ k. r ∙ h.cleared (sym j ∙ k);
    fresh = λ k. subst IsReadBut (sym r) (h.fresh (ap (λ (x : Check F). x.ready) (sym r) ∙ k));
    whole = λ q k. subst IsRead (sym r) (h.whole (p q) (ap (λ (x : Check F). x.ready) (sym r) ∙ k));
  }

  poll-IsThread :
      (terminate : Bool) (t : Thread F) (p : Poll F)
      → t.phase ≡ Phase.polling
      → IsThread t
      → IsThread (exec_poll strtol terminate t p).0
  unfolding exec_poll exec_publish
  poll-IsThread terminate t p e h =
      let not_joined : t.ctx.join ≡ false = h.joins ∙ ap is_ended e in
      let (err, r) = poll_result strtol terminate p in
      if_intro IsThread (err == 0) (exec_publish t err r) (exec_finish (exec_publish t err r))
        (record {
          joins = not_joined;
          cleared = λ k. cc;
          fresh = λ k. (r.others, poll_result-Read terminate p k);
          whole = λ q k. poll_result-Read terminate p k;
        })
        (finish-IsThread (exec_publish t err r))

  take-IsThread : (t : Thread F) → IsThread t → IsThread (record t { ctx = take_result t.ctx })
  unfolding take_result
  take-IsThread t h = record {
    joins = h.joins;
    cleared = λ k. ap (λ (r : Check F). record r { ready = false }) (h.cleared k);
    fresh = λ k. cc;
    whole = λ q k. cc;
  }

  overwrite-IsThread :
      (t : Thread F) (bytes : List ℕ)
      → t.phase ≡ Phase.polling
      → IsThread t
      → IsThread (record t { ctx = overwrite_others t.ctx bytes })
  unfolding overwrite_others
  overwrite-IsThread t bytes p h =
      let not_joined : t.ctx.join ≡ false = h.joins ∙ ap is_ended p in
      let polling : is_polling t.phase ≡ true = ap is_polling p in
      record { joins = h.joins; cleared = λ k. cc; fresh = h.fresh; whole = λ q k. cc }

  step-IsThread : {t u : Thread F} → Step strtol t u → IsThread t → IsThread u
  unfolding exec_begin exec_test exec_wake probe_begin
  step-IsThread {t} {u} (begin e now p q) h = subst IsThread (sym q) (
      same-IsThread t (exec_begin t e now) (h.joins ∙ ap is_ended p) refl refl
        (λ _. ap is_polling p) h)
  step-IsThread {t} {u} (test p q) h = subst IsThread (sym q) (
      if_intro IsThread t.ctx.quit (exec_finish t) (record t { phase = Phase.polling })
        (finish-IsThread t)
        (same-IsThread t (record t { phase = Phase.polling }) (h.joins ∙ ap is_ended p) refl refl
          (λ q. ap is_polling p) h))
  step-IsThread {t} {u} (poll term r p q) h = subst IsThread (sym q) (poll-IsThread term t r p h)
  step-IsThread {t} {u} (wake o now p q) h = subst IsThread (sym q) (
      same-IsThread t (exec_wake t o now) (h.joins ∙ ap is_ended p) refl refl (λ _. ap is_polling p)
        h)
  step-IsThread {t} {u} (take q) h = subst IsThread (sym q) (take-IsThread t h)
  step-IsThread {t} {u} (quit q) h =
      subst IsThread (sym q)
        (same-IsThread t (record t { ctx = quit_ctx t.ctx }) h.joins refl refl (λ q. q) h)
  step-IsThread {t} {u} (probe q) h = subst IsThread (sym q) (
      if_intro (λ (r : Bool × BackendCtx F). IsThread (record t { ctx = r.1 }))
        (not t.ctx.quit && not t.ctx.join) (true, record t.ctx { waiting = t.ctx.waiting + 1 })
        (false, t.ctx)
        (same-IsThread t (record t { ctx = record t.ctx { waiting = t.ctx.waiting + 1 } }) h.joins
          refl refl (λ q. q) h)
        h)
  step-IsThread {t} {u} (overwrite bytes p q) h =
      subst IsThread (sym q) (overwrite-IsThread t bytes p h)

  -- At any time, whatever the process answers and whatever others do with the context, the thread can be
  -- joined exactly if it has ended, no result is left then, and a fresh result is one that a line of the
  -- process gave: with its string of others while the thread is not polling, and but for that string
  -- while it is, as the next line is read over it.
  pub reach-IsThread : {s t : Thread F} → IsThread s → Reach strtol s t → IsThread t
  reach-IsThread h here = h
  reach-IsThread h (next r st) = step-IsThread st (reach-IsThread h r)

  -- A step of a thread that is to quit brings it nearer to its end, and leaves it to quit.
  abbrev Nearer : Phase → Thread F → Type 0
  Nearer p u = (left u.phase ≤ left p - 1) × (u.ctx.quit ≡ true)

  step_in-Nearer :
      (o : Outside F) (p : Phase) (t : Thread F)
      → t.phase ≡ p
      → t.ctx.quit ≡ true
      → Nearer p (exec_step_in strtol o p t)
  unfolding exec_step_in exec_begin exec_test exec_poll exec_publish exec_wake exec_finish
  step_in-Nearer o Phase.starting t e q = ground arith
  step_in-Nearer o Phase.testing t e q = ground arith
  step_in-Nearer o Phase.polling t e q = ground arith
  step_in-Nearer o Phase.waiting t e q = ground arith
  step_in-Nearer o Phase.ended t e q = ground arith

  -- A thread that is told to quit, in whatever phase, ends within three steps of its own, whatever
  -- polling and waiting give.
  pub quit_ends :
      (t : Thread F) (o : ℕ → Outside F)
      → t.ctx.quit ≡ true
      → (exec_step strtol (o 2) (exec_step strtol (o 1) (exec_step strtol (o 0) t))).phase
        ≡ Phase.ended
  unfolding exec_step
  quit_ends t o q =
      let t1 : Thread F = exec_step strtol (o 0) t in
      let t2 : Thread F = exec_step strtol (o 1) t1 in
      let a : Nearer t.phase t1 = step_in-Nearer (o 0) t.phase t refl q in
      let b : Nearer t1.phase t2 = step_in-Nearer (o 1) t1.phase t1 refl a.1 in
      let c : Nearer t2.phase (exec_step strtol (o 2) t2) =
        step_in-Nearer (o 2) t2.phase t2 refl b.1 in
      left_none _ (omega (arith, a.0, b.0, c.0, left_most t.phase))
