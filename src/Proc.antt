-- ===== src/Proc.antt =====
-- src/glb_proc.c: starting a process with pipes, `glb_proc_start`, with the descriptors that are opened
-- and closed, and the end of a process, `glb_proc_end`. What the system calls return is an argument;
-- the callers ask for the streams of stdin and stdout always.
use glb.Common.{
  ℕ, zero, suc, ◌+◌, ◌≡◌, ◌≢◌, refl, ap, ◌∙◌, Bool, true, false, Option, none, some, List, [], ◌∷◌,
  ◌++◌, ◌==◌, arith, OnSome, if_split, if_at_true, if_at_false, sym, subst, inl, inr, Bool-cases,
  if◌then◌else◌,
}
pub mod Balance
mod Tests

pub data Piped : Type 0 where
  failed : ℕ → Piped
  piped : ℕ → ℕ → Piped

-- What the calls for one pipe return; an error of 0 is none.
pub record PipeCalls : Type 0 where
  pub addclose : ℕ
  pub pipe : Piped
  pub fdopen : Bool
  pub adddup2 : ℕ

-- A pipe to the process: the error, the parent's stream by its descriptor, the ends of the parent and
-- of the child, none for -1; and the descriptors that were opened and closed.
pub record Ends : Type 0 where
  pub err : ℕ
  pub stream : Option ℕ
  pub parent : Option ℕ
  pub child : Option ℕ
  pub opened : List ℕ
  pub closed : List ℕ

abbrev no_ends : ℕ → List ℕ → List ℕ → Ends
no_ends err opened closed = record {
  err = err;
  stream = none;
  parent = none;
  child = none;
  opened = opened;
  closed = closed;
}

-- The descriptors 0 and 1 of a pipe are its ends to read from and to write to. Where `fdopen` fails,
-- the error is 0; where `adddup2` fails, the stream is closed after its descriptor.
unfoldable pub proc_pipe_fds : Bool → PipeCalls → Ends
proc_pipe_fds read c =
    let with_pipe : ℕ → ℕ → Ends = λ r w.
      let parent = (if read then r else w) in
      let child = (if read then w else r) in
      if c.fdopen
      then if c.adddup2 == 0
        then record {
          err = 0;
          stream = some parent;
          parent = some parent;
          child = some child;
          opened = r ∷ w ∷ [];
          closed = [];
        }
        else no_ends c.adddup2 (r ∷ w ∷ []) (r ∷ w ∷ parent ∷ [])
      else no_ends 0 (r ∷ w ∷ []) (r ∷ w ∷ []) in
    if c.addclose == 0
    then elim c.pipe [ failed e ↦ no_ends e [] [] | piped r w ↦ with_pipe r w ]
    else no_ends c.addclose [] []

abbrev pub fd_list : Option ℕ → List ℕ
fd_list none = []
fd_list (some fd) = fd ∷ []

-- The stream is closed, or the descriptor if there is no stream.
unfoldable pub close_parent : Ends → List ℕ
close_parent e = elim e.stream [ some fd ↦ fd ∷ [] | none ↦ fd_list e.parent ]

-- The error that is returned, the streams that the caller has then, and the descriptors.
pub record Started : Type 0 where
  pub err : ℕ
  pub streams : List ℕ
  pub opened : List ℕ
  pub closed : List ℕ

abbrev pub not_started : ℕ → Started
not_started err = record { err = err; streams = []; opened = []; closed = [] }

abbrev pub no_stream : Ends
no_stream = no_ends 0 [] []

-- The clean-up after an error, and the ends of the child; `e` is the pipe of stderr.
unfoldable pub cleaned_up : ℕ → Ends → Ends → Ends → Started
unfolding close_parent
cleaned_up err i o e = record {
  err = err;
  streams = [];
  opened = i.opened ++ o.opened ++ e.opened;
  closed =
      i.closed
      ++ o.closed
      ++ e.closed
      ++ close_parent e
      ++ close_parent o
      ++ close_parent i
      ++ fd_list i.child
      ++ fd_list o.child
      ++ fd_list e.child;
}

unfoldable pub spawned : Ends → Ends → Ends → Started
spawned i o e = record {
  err = 0;
  streams = fd_list i.stream ++ fd_list o.stream ++ fd_list e.stream;
  opened = i.opened ++ o.opened ++ e.opened;
  closed =
      i.closed ++ o.closed ++ e.closed ++ fd_list i.child ++ fd_list o.child ++ fd_list e.child;
}

-- From the pipe of stderr on, which is not asked for where there is none. An error of `posix_spawnp`
-- then dereferences NULL: none.
unfoldable pub with_stderr : Ends → Ends → Option PipeCalls → ℕ → Option Started
unfolding proc_pipe_fds cleaned_up spawned
with_stderr i o std_err spawn = elim std_err [
  | none ↦ if spawn == 0 then some (spawned i o no_stream) else none
  | some c ↦
      let e = proc_pipe_fds true c in
      if e.err == 0
      then if spawn == 0 then some (spawned i o e) else some (cleaned_up spawn i o e)
      else some (cleaned_up e.err i o e)
]

-- `init` is the first error of the calls that set up the attributes. Where the pipe of stdout fails,
-- the clean-up reads that of stderr, which was not initialised: none.
unfoldable pub proc_start : ℕ → PipeCalls → PipeCalls → Option PipeCalls → ℕ → Option Started
unfolding proc_pipe_fds with_stderr
proc_start init std_in std_out std_err spawn =
    let i = proc_pipe_fds false std_in in
    let o = proc_pipe_fds true std_out in
    if init == 0
    then if i.err == 0
      then if o.err == 0 then with_stderr i o std_err spawn else none
      else some (record (not_started i.err) { opened = i.opened; closed = i.closed })
    else some (not_started init)

-- What `waitpid` tells: an error, an exit with a status, or an abort with what is in errno.
pub data Waited : Type 0 where
  wait_failed : ℕ → Waited
  exited : ℕ → Waited
  aborted : ℕ → Waited

abbrev esrch : ℕ
esrch = 3

abbrev ecanceled : ℕ
ecanceled = 125

-- 126 and 127 of the shell are EACCES and ENOENT.
unfoldable pub translated : ℕ → ℕ
translated err = if err == 126 then 13 else if err == 127 then 2 else err

unfoldable pub exit_error : Waited → ℕ
unfolding translated
exit_error (wait_failed e) = e
exit_error (exited status) = translated status
exit_error (aborted errno) = translated (if errno == 0 then ecanceled else errno)

unfoldable pub proc_end : ℕ → Waited → ℕ
unfolding exit_error
proc_end pid w = if pid == 0 then esrch else exit_error w

translated-zero : (n : ℕ) → translated n ≡ 0 → n ≡ 0
unfolding translated
translated-zero n h = ground arith

exit_error-zero : (w : Waited) → w ≢ wait_failed 0 → exit_error w ≡ 0 → w ≡ exited 0
unfolding exit_error
exit_error-zero (wait_failed e) m z = absurd (m (ap wait_failed z))
exit_error-zero (exited status) m z = ap exited (translated-zero status z)
exit_error-zero (aborted errno) m z =
    let none_there : (if errno == 0 then ecanceled else errno) ≡ 0 = translated-zero _ z in
    absurd (ground (arith, none_there))

-- The end of a process is reported as 0 only for a process that did run and exited with the status 0,
-- where a failed `waitpid` leaves an error.
proc_end-zero :
    (pid : ℕ) (w : Waited) → w ≢ wait_failed 0 → proc_end pid w ≡ 0 → (pid ≢ 0) × (w ≡ exited 0)
unfolding proc_end
proc_end-zero pid w n h =
    if_split (λ (k : ℕ). k ≡ 0 → (pid ≢ 0) × (w ≡ exited 0)) (pid == 0) esrch (exit_error w)
      (λ e z. absurd (omega arith)) (λ e z. (ground (arith, e), exit_error-zero w n z)) h
