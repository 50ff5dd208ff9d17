-- ===== src/Backend/Thread.antt =====
-- src/glb_wdog_exec.c, `exec_thread`, and src/glb_wdog_backend.c, `backend_dummy_thread`: the life of a
-- backend thread, between the points where it holds the lock of its context.
use glb.Common.{ℕ, ◌*◌, ◌==◌, Bool, true, none, List, if◌then◌else◌}
use glb.Common.Int.{ℤ}
use glb.Double.{Double}
use glb.Time.{Timespec, timespec_add}
use glb.Router.Check.{DstState}
use glb.Wdog.State.{Check}
use glb.Wdog.Change.{no_check}
use glb.Backend.Context.{BackendCtx}
use glb.Backend.Reply.{Poll, poll_result, interval_mod}

-- Before the first lock; at the test of the loop; polling without the lock; waiting for the time of the
-- next poll; and after the loop.
pub data Phase : Type 0 where
  starting testing polling waiting ended : Phase

-- `pthread_cond_signal`, `pthread_cond_broadcast`, or neither.
pub data Signal : Type 0 where
  nobody one everybody : Signal

pub record Thread (F : Type 0) : Type 0 where
  pub ctx : BackendCtx F
  pub phase : Phase
  pub next : Timespec

-- What a step of the thread gets from outside.
pub record Outside (F : Type 0) : Type 0 where
  pub errn : ℕ
  pub now : Timespec
  pub terminate : Bool
  pub polled : Poll F
  pub timed_out : Bool

-- Those who wait for a result are woken.
unfoldable pub signal_for : ℕ → Signal
signal_for n = if n == 0 then Signal.nobody else if n == 1 then Signal.one else Signal.everybody

module _ {F : Type 0} where
  abbrev pub quit_ctx : BackendCtx F → BackendCtx F
  quit_ctx c = record c { thread = record c.thread { quit = true } }

  abbrev pub with_result : BackendCtx F → Check F → BackendCtx F
  with_result c r = record c { thread = record c.thread { result = r } }

  -- The process has been started, or not for the reason `errn`: the loop is skipped then.
  unfoldable pub exec_begin : Thread F → ℕ → Timespec → Thread F
  exec_begin t errn now = record t {
    phase = Phase.testing;
    next = now;
    ctx = record t.ctx {
      errn = errn;
      thread = record t.ctx.thread { quit = if errn == 0 then t.ctx.quit else true };
    };
  }

  -- The wait is over, because the time has come or because of a signal.
  unfoldable pub exec_wake : Thread F → Bool → Timespec → Thread F
  exec_wake t timed_out now = record t {
    phase = Phase.testing;
    next = if timed_out then t.next else now;
  }

module _ {F : Type 0} ⦃fp : Double F⦄ where
  -- After the loop: no result is left, and the thread can be joined.
  unfoldable pub exec_finish : Thread F → Thread F
  exec_finish t = record t {
    phase = Phase.ended;
    ctx = record t.ctx { thread = record t.ctx.thread { result = no_check; join = true } };
  }

  unfoldable pub exec_test : Thread F → Thread F
  unfolding exec_finish
  exec_test t = if t.ctx.quit then exec_finish t else record t { phase = Phase.polling }

  -- A result is published, and the time of the next poll is set. The string of others stays in the buffer
  -- that the next line is read into, see `overwrite_others`.
  unfoldable pub exec_publish : Thread F → ℕ → Check F → Thread F
  unfolding interval_mod
  exec_publish t e r = record t {
    ctx = record (with_result t.ctx r) { errn = e; waiting = 0 };
    phase = Phase.waiting;
    next = timespec_add t.next (t.ctx.interval * interval_mod r.state);
  }

  -- One poll, whose result is published. An error ends the loop.
  unfoldable pub exec_poll : (List ℕ → ℤ × List ℕ) → Bool → Thread F → Poll F → Thread F × Signal
  unfolding exec_finish exec_publish poll_result signal_for
  exec_poll strtol terminate t poll =
      let (e, r) = poll_result strtol terminate poll in
      (
        if e == 0 then exec_publish t e r else exec_finish (exec_publish t e r),
        signal_for t.ctx.waiting,
      )

  -- One round of the dummy, which does not let the lock go before it waits.
  unfoldable pub dummy_test : Thread F → Thread F
  dummy_test t =
      if t.ctx.quit
      then record t {
        phase = Phase.ended;
        ctx = record t.ctx { thread = record t.ctx.thread { join = true } };
      }
      else record t {
        phase = Phase.waiting;
        ctx = with_result t.ctx (record t.ctx.result {
          state = DstState.ready;
          latency = fp.one;
          others = none;
          others_len = 0;
          ready = true;
        });
        next = timespec_add t.next t.ctx.interval;
      }

  -- The next step of the thread, from a phase.
  unfoldable pub exec_step_in : (List ℕ → ℤ × List ℕ) → Outside F → Phase → Thread F → Thread F
  unfolding exec_begin exec_test exec_poll exec_wake
  exec_step_in strtol o Phase.starting t = exec_begin t o.errn o.now
  exec_step_in strtol o Phase.testing t = exec_test t
  exec_step_in strtol o Phase.polling t = (exec_poll strtol o.terminate t o.polled).0
  exec_step_in strtol o Phase.waiting t = exec_wake t o.timed_out o.now
  exec_step_in strtol o Phase.ended t = t

  unfoldable pub exec_step : (List ℕ → ℤ × List ℕ) → Outside F → Thread F → Thread F
  unfolding exec_step_in
  exec_step strtol o t = exec_step_in strtol o t.phase t
