-- ===== src/Proc/Balance.antt =====
-- Every descriptor that `glb_proc_start` opens is closed once or handed over to the caller.
use glb.Common.{
  ℕ, ◌+◌, ◌≡◌, refl, ap, ◌∙◌, Bool, true, false, Option, none, some, List, [], ◌∷◌, ◌++◌, ◌==◌,
  arith, OnSome, if_split, if_intro, option_split, sym, if◌then◌else◌,
}
use glb.Proc.{
  Piped, failed, piped, PipeCalls, Ends, proc_pipe_fds, fd_list, close_parent, Started, cleaned_up,
  spawned, with_stderr, proc_start, no_stream, not_started, no_ends,
}

-- How often a descriptor is in a list.
abbrev pub count : ℕ → List ℕ → ℕ
count fd [] = 0
count fd (x ∷ xs) = (if x == fd then 1 else 0) + count fd xs

count-append : (fd : ℕ) (xs ys : List ℕ) → count fd (xs ++ ys) ≡ count fd xs + count fd ys
count-append fd [] ys = omega arith
count-append fd (x ∷ xs) ys = omega (arith, count-append fd xs ys)

-- What a pipe opened is closed, or one of its ends; the stream is that of the parent's end.
record IsPipe (fd : ℕ) (e : Ends) : Type 0 where
  balance :
      count fd e.opened
      ≡ count fd e.closed + count fd (fd_list e.parent) + count fd (fd_list e.child)
  owned : e.stream ≡ e.parent
  gone : (e.err == 0) ≡ false → count fd e.opened ≡ count fd e.closed

proc_pipe_fds-IsPipe :
    (fd : ℕ) (read : Bool) (c : PipeCalls) → c.adddup2 ≡ 0 → IsPipe fd (proc_pipe_fds read c)
unfolding proc_pipe_fds
proc_pipe_fds-IsPipe fd read c h =
    let P : Ends → Type 0 = IsPipe fd in
    if_intro P (c.addclose == 0) _ (no_ends c.addclose [] []) (made c.pipe)
      (record { balance = omega arith; owned = refl; gone = λ f. refl })
  where
    both :
        (b : Bool) (r w : ℕ)
        → count fd (r ∷ w ∷ [])
          ≡ count fd ((if b then r else w) ∷ []) + count fd ((if b then w else r) ∷ [])
    both true r w = omega arith
    both false r w = omega arith

    made :
        (p : Piped)
        → IsPipe fd (elim p as (λ _. Ends) [
          | failed e ↦ no_ends e [] []
          | piped r w ↦
              let parent = (if read then r else w) in
              let child = (if read then w else r) in
              if c.fdopen
              then if c.adddup2 == 0
                then record {
                  err = 0;
                  stream = some parent;
                  parent = some parent;
                  child = some child;
                  opened = r ∷ w ∷ [];
                  closed = [];
                }
                else no_ends c.adddup2 (r ∷ w ∷ []) (r ∷ w ∷ parent ∷ [])
              else no_ends 0 (r ∷ w ∷ []) (r ∷ w ∷ [])
        ])
    made (failed e) = record { balance = omega arith; owned = refl; gone = λ f. refl }
    made (piped r w) =
        if_intro (IsPipe fd) c.fdopen _ _
          (if_split (IsPipe fd) (c.adddup2 == 0) _ _
            (λ _. record {
              balance = omega (arith, both read r w);
              owned = refl;
              gone = λ f. absurd (ground (arith, f));
            })
            (λ e. absurd (ground (arith, e, h))))
          (record { balance = omega arith; owned = refl; gone = λ f. refl })

-- What is opened is closed once, or is a stream that the caller gets.
abbrev pub IsBalanced : ℕ → Started → Type 0
IsBalanced fd s = count fd s.opened ≡ count fd s.closed + count fd s.streams

count-append3 :
    (fd : ℕ) (a b c : List ℕ) → count fd (a ++ b ++ c) ≡ count fd a + count fd b + count fd c
count-append3 fd a b c = omega (arith, count-append fd (a ++ b) c, count-append fd a b)

count-append6 :
    (fd : ℕ) (a b c d e f : List ℕ)
    → count fd (a ++ b ++ c ++ d ++ e ++ f)
      ≡ count fd a + count fd b + count fd c + count fd d + count fd e + count fd f
count-append6 fd a b c d e f = omega (
  arith,
  count-append fd (a ++ b ++ c ++ d ++ e) f,
  count-append fd (a ++ b ++ c ++ d) e,
  count-append fd (a ++ b ++ c) d,
  count-append3 fd a b c,
)

count-append9 :
    (fd : ℕ) (a b c d e f g h i : List ℕ)
    → count fd (a ++ b ++ c ++ d ++ e ++ f ++ g ++ h ++ i)
      ≡ count fd a
        + count fd b
        + count fd c
        + count fd d
        + count fd e
        + count fd f
        + count fd g
        + count fd h
        + count fd i
count-append9 fd a b c d e f g h i = omega (
  arith,
  count-append fd (a ++ b ++ c ++ d ++ e ++ f ++ g ++ h) i,
  count-append fd (a ++ b ++ c ++ d ++ e ++ f ++ g) h,
  count-append fd (a ++ b ++ c ++ d ++ e ++ f) g,
  count-append6 fd a b c d e f,
)

spawned-IsBalanced :
    (fd : ℕ) (i o e : Ends)
    → IsPipe fd i
    → IsPipe fd o
    → IsPipe fd e
    → IsBalanced fd (spawned i o e)
unfolding spawned
spawned-IsBalanced fd i o e p q r =
    count-append3 fd i.opened o.opened e.opened
    ∙ sum
    ∙ sym (ap (λ n. n + count fd streams) closed ∙ ap (λ n. six + n) given)
  where
    streams : List ℕ
    streams = fd_list i.stream ++ fd_list o.stream ++ fd_list e.stream

    six : ℕ
    six =
        count fd i.closed
        + count fd o.closed
        + count fd e.closed
        + count fd (fd_list i.child)
        + count fd (fd_list o.child)
        + count fd (fd_list e.child)

    closed :
        count fd (
          i.closed ++ o.closed ++ e.closed ++ fd_list i.child ++ fd_list o.child ++ fd_list e.child)
        ≡ six
    closed =
        count-append6 fd i.closed o.closed e.closed (fd_list i.child) (fd_list o.child)
          (fd_list e.child)

    given :
        count fd streams
        ≡ count fd (fd_list i.stream) + count fd (fd_list o.stream) + count fd (fd_list e.stream)
    given = count-append3 fd (fd_list i.stream) (fd_list o.stream) (fd_list e.stream)

    sum :
        count fd i.opened + count fd o.opened + count fd e.opened
        ≡ (count fd i.closed
            + count fd o.closed
            + count fd e.closed
            + count fd (fd_list i.child)
            + count fd (fd_list o.child)
            + count fd (fd_list e.child))
          + (count fd (fd_list i.stream)
              + count fd (fd_list o.stream)
              + count fd (fd_list e.stream))
    sum = omega (
      arith,
      ap (λ s. count fd (fd_list s)) p.owned,
      ap (λ s. count fd (fd_list s)) q.owned,
      ap (λ s. count fd (fd_list s)) r.owned,
      p.balance,
      q.balance,
      r.balance,
    )

close_parent-count :
    (fd : ℕ) (e : Ends) → IsPipe fd e → count fd (close_parent e) ≡ count fd (fd_list e.parent)
unfolding close_parent
close_parent-count fd e p =
    option_split (λ (xs : List ℕ). count fd xs ≡ count fd (fd_list e.parent)) e.stream _ _
      (λ _. refl) (λ s h. ap (λ q. count fd (fd_list q)) (sym h ∙ p.owned))

cleaned_up-IsBalanced :
    (fd err : ℕ) (i o e : Ends)
    → IsPipe fd i
    → IsPipe fd o
    → IsPipe fd e
    → IsBalanced fd (cleaned_up err i o e)
unfolding cleaned_up
cleaned_up-IsBalanced fd err i o e p q r =
    count-append3 fd i.opened o.opened e.opened
    ∙ sum
    ∙ sym (
        ap (λ n. n + 0)
          (count-append9 fd i.closed o.closed e.closed (close_parent e) (close_parent o)
            (close_parent i) (fd_list i.child) (fd_list o.child) (fd_list e.child)))
  where
    sum :
        count fd i.opened + count fd o.opened + count fd e.opened
        ≡ (count fd i.closed
            + count fd o.closed
            + count fd e.closed
            + count fd (close_parent e)
            + count fd (close_parent o)
            + count fd (close_parent i)
            + count fd (fd_list i.child)
            + count fd (fd_list o.child)
            + count fd (fd_list e.child))
          + 0
    sum = omega (
      arith,
      close_parent-count fd i p,
      close_parent-count fd o q,
      close_parent-count fd e r,
      p.balance,
      q.balance,
      r.balance,
    )

with_stderr-IsBalanced :
    (fd : ℕ) (i o : Ends) (std_err : Option PipeCalls) (spawn : ℕ)
    → IsPipe fd i
    → IsPipe fd o
    → OnSome (λ c. c.adddup2 ≡ 0) std_err
    → OnSome (IsBalanced fd) (with_stderr i o std_err spawn)
unfolding with_stderr
with_stderr-IsBalanced fd i o none spawn p q h =
    if_intro (OnSome (IsBalanced fd)) (spawn == 0) (some (spawned i o no_stream)) none
      (spawned-IsBalanced fd i o no_stream p q
        (record { balance = omega arith; owned = refl; gone = λ f. refl }))
      tt
with_stderr-IsBalanced fd i o (some c) spawn p q h =
    let e = proc_pipe_fds true c in
    let r : IsPipe fd e = proc_pipe_fds-IsPipe fd true c h in
    if_intro (OnSome (IsBalanced fd)) (e.err == 0)
      (if spawn == 0 then some (spawned i o e) else some (cleaned_up spawn i o e))
      (some (cleaned_up e.err i o e))
      (if_intro (OnSome (IsBalanced fd)) (spawn == 0) (some (spawned i o e))
        (some (cleaned_up spawn i o e)) (spawned-IsBalanced fd i o e p q r)
        (cleaned_up-IsBalanced fd spawn i o e p q r))
      (cleaned_up-IsBalanced fd e.err i o e p q r)

-- However setting up the pipes or the process ends, a call that comes back has closed every descriptor
-- that it opened exactly once, but for the streams that it hands over, as long as `adddup2` does not
-- fail.
pub proc_start-IsBalanced :
    (fd init : ℕ) (std_in std_out : PipeCalls) (std_err : Option PipeCalls) (spawn : ℕ)
    → std_in.adddup2 ≡ 0
    → std_out.adddup2 ≡ 0
    → OnSome (λ c. c.adddup2 ≡ 0) std_err
    → OnSome (IsBalanced fd) (proc_start init std_in std_out std_err spawn)
unfolding proc_start
proc_start-IsBalanced fd init std_in std_out std_err spawn hi ho he =
    go (proc_pipe_fds false std_in) (proc_pipe_fds true std_out)
      (proc_pipe_fds-IsPipe fd false std_in hi) (proc_pipe_fds-IsPipe fd true std_out ho)
  where
    P : Option Started → Type 0
    P = OnSome (IsBalanced fd)

    go :
        (i o : Ends)
        → IsPipe fd i
        → IsPipe fd o
        → P (
            if init == 0
            then if i.err == 0
              then if o.err == 0 then with_stderr i o std_err spawn else none
              else some (record (not_started i.err) { opened = i.opened; closed = i.closed })
            else some (not_started init))
    go i o p q =
        if_intro P (init == 0) _ (some (not_started init))
          (if_split P (i.err == 0) _ _
            (λ _.
              if_intro P (o.err == 0) (with_stderr i o std_err spawn) none
                (with_stderr-IsBalanced fd i o std_err spawn p q he) tt)
            (λ f. omega (arith, p.gone f)))
          (omega arith)
