-- ===== src/Proc/Tests.antt =====
-- The theorems on processes at concrete calls.
use glb.Common.{ℕ, ◌≡◌, refl, true, none, some, OnSome}
use glb.Proc.{Piped, PipeCalls, proc_start}
use glb.Proc.Balance.{IsBalanced, proc_start-IsBalanced}

abbrev pipe_of : ℕ → ℕ → PipeCalls
pipe_of r w = record { addclose = 0; pipe = Piped.piped r w; fdopen = true; adddup2 = 0 }

-- `posix_spawnp` fails with the error 11.
proc_start-IsBalanced_example :
    OnSome (IsBalanced 6) (proc_start 0 (pipe_of 3 4) (pipe_of 5 6) (some (pipe_of 7 8)) 11)
proc_start-IsBalanced_example =
    proc_start-IsBalanced 6 0 (pipe_of 3 4) (pipe_of 5 6) (some (pipe_of 7 8)) 11 refl refl refl

-- Where no stream of stderr is asked for, the process ends.
without_stderr : proc_start 0 (pipe_of 3 4) (pipe_of 5 6) none 11 ≡ none
unfolding proc_start
without_stderr = refl
