-- ===== src/Backend/Tests.antt =====
-- The theorems on backend threads at concrete threads and lines.
use glb.Common.{ℕ, ◌+◌, ◌≤◌, ◌<◌, ◌↔◌, ◌≡◌, refl, true, false, some, List, length}
use glb.Common.Int.{ℤ, pos}
use glb.Double.Fixed.{fixed}
use glb.Router.Check.{DstState}
use glb.Wdog.State.{Check, WdogDst}
use glb.Wdog.Change.{no_check}
use glb.Wdog.Copy.{copy_result}
use glb.Config.{codes, ends}
use glb.Parse.Sample.{decimal}
use glb.Backend.Command.{create_cmd, cmd_size}
use glb.Backend.Reply.{line, state_of, others_of, text_length, read_line}
use glb.Backend.Thread.{Phase, Thread, Outside, quit_ctx, exec_begin, exec_step}
use glb.Backend.Steps.{Reach, here, next, begin, quit}
use glb.Backend.Reports.{IsThread, reach-IsThread, quit_ends}
use glb.Backend.Fits.{create_cmd_fits, strcpy_size, first_others_overflow}

abbrev strtol : List ℕ → ℤ × List ℕ
strtol s = let (n, rest) = decimal 0 s in (pos n, rest)

abbrev fresh : Thread ℤ
fresh = record {
  phase = Phase.starting;
  next = record { tv_sec = 0; tv_nsec = 0 };
  ctx = record {
    thread = record { id = 1; result = no_check; quit = false; join = false };
    host = codes "10.0.0.1";
    port = 3306;
    interval = 1_000_000_000;
    waiting = 0;
    errn = 0;
  };
}

fresh-IsThread : IsThread strtol fresh
fresh-IsThread = record { joins = refl; cleared = λ j. cc; fresh = λ r. cc; whole = λ p r. cc }

abbrev begun : Thread ℤ
begun = record fresh { phase = Phase.testing; next = record { tv_sec = 5; tv_nsec = 0 } }

abbrev told : Thread ℤ
told = record begun { ctx = quit_ctx begun.ctx }

begin_told : Reach strtol fresh told
unfolding exec_begin
begin_told = next (next here (begin 0 (record { tv_sec = 5; tv_nsec = 0 }) refl refl)) (quit refl)

-- The thread begins and is told to quit.
reach-IsThread_example : IsThread strtol told
reach-IsThread_example = reach-IsThread strtol fresh-IsThread begin_told

abbrev outside : ℕ → Outside ℤ
outside n = record {
  errn = 0;
  now = record { tv_sec = 9; tv_nsec = 0 };
  terminate = false;
  polled = line (codes "3 h1 h2") 8 (pos 1);
  timed_out = true;
}

quit_ends_example :
    (exec_step strtol (outside 2) (
      exec_step strtol
        (outside 1)
        (exec_step strtol (outside 0) (record told { phase = Phase.polling })))).phase
    ≡ Phase.ended
quit_ends_example = quit_ends strtol (record told { phase = Phase.polling }) outside refl

create_cmd_fits_example :
    (length (create_cmd (codes "poll -v") (codes "h1") 33060) + 1
      ≤ cmd_size (codes "poll -v") (codes "h1"))
    ↔ (33060 < 10000)
create_cmd_fits_example = create_cmd_fits (codes "poll -v") (codes "h1") 33060

abbrev report : Check ℤ
report = record {
  state = DstState.ready;
  timestamp = 8;
  latency = pos 1;
  others = some (codes "h1 h2");
  others_len = 5;
  ready = true;
}

abbrev watched : WdogDst ℤ
watched = record {
  result = no_check;
  dst = record {
    addr = record { sin_family = 2; sin_port = 0; sin_addr = 1; sin_zero = 0 };
    weight = pos 1;
  };
  weight = pos 0;
  ctx = record { id = 1; result = report; quit = false; join = false };
  fail_count = 0;
  memb_changed = false;
  explicit = true;
}

first_others_overflow_example :
    let d = (copy_result watched (pos 0) 4 true).0 in
    (d.result.others ≡ some (codes "h1 h2"))
    × (d.result.others_len + 1 ≡ strcpy_size (codes "h1 h2"))
unfolding read_line ends state_of others_of text_length
first_others_overflow_example =
    first_others_overflow strtol (codes "3 h1 h2") 8 (pos 1) watched (pos 0) 4 (codes "h1 h2") refl
      refl refl refl
