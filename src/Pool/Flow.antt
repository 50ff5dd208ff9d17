-- ===== src/Pool/Flow.antt =====
-- The READ and WRITE flags of the two ends of a connection, for the data that go from one to the
-- other: the flow does not stall.
use glb.Common.{
  ℕ, ◌+◌, ◌≤◌, ◌<◌, ◌≡◌, ◌⊎◌, inl, inr, refl, ap, true, false, not, ◌&&◌, Option, none, some, List,
  ◌++◌, length, length-append, ltb, ◌==◌, arith, Bool-cases, if_split, if_intro,
}
use glb.Pool.State.{End, Stats, Errno, buf_size, is_incomplete}
use glb.Pool.Send.{Sent, Sending, send_data, advance, reopen}
use glb.Pool.Receive.{
  Received, Reading, data_in, closed, handle_read, pass_on, stop_reading, complete_end, flush,
  handle_write,
}
use glb.Pool.Stream.{buffered, IsEnd}

-- The source is read unless the buffer is full.
abbrev CanRead : End → End → Type 0
CanRead src dst = (src.read ≡ true) ⊎ (length dst.buf ≡ buf_size)

-- The buffer is empty, or the destination waits to be written to.
abbrev CanWrite : End → Type 0
CanWrite dst = (length dst.buf ≡ 0) ⊎ (dst.write ≡ true)

pub record Flows (src dst : End) : Type 0 where
  pub can_read : CanRead src dst
  pub can_write : CanWrite dst

-- The results of `send` that the code has a case for.
abbrev IsHandled : Sent → Type 0
IsHandled (Sent.failed Errno.econnreset) = ⊥
IsHandled (Sent.failed (Errno.other n)) = ⊥
IsHandled _ = Unit

-- The destination after `send_data`, whether it had been set to be written to or not.
abbrev Waits : Sending → Type 0
Waits s = (s.removes ≡ true) ⊎ CanWrite s.dst

advance-CanWrite : (dst : End) (n : ℕ) → CanWrite (advance dst n)
unfolding advance
advance-CanWrite dst n =
    if_intro CanWrite (dst.sent + n == length dst.buf) _ _ (inl refl) (inr refl)

send_data-Waits :
    (stats : Stats) (dst : End) (src : Option End) (r : Sent)
    → IsHandled r
    → is_incomplete dst.kind ≡ false
    → Waits (send_data stats dst src r)
unfolding send_data
send_data-Waits stats dst src (Sent.bytes n) h k = inr (advance-CanWrite dst n)
send_data-Waits stats dst src (Sent.failed Errno.eintr) h k = inr (inr refl)
send_data-Waits stats dst src (Sent.failed Errno.eagain) h k = inr (inr refl)
send_data-Waits stats dst src (Sent.failed Errno.ebusy) h k = inr (inr refl)
send_data-Waits stats dst src (Sent.failed Errno.enobufs) h k = inr (inr refl)
send_data-Waits stats dst src (Sent.failed Errno.enotconn) h k = inr (inr refl)
send_data-Waits stats dst src (Sent.failed Errno.epipe) h k = inl (ap not k)
send_data-Waits stats dst src (Sent.failed Errno.econnreset) h k = absurd h
send_data-Waits stats dst src (Sent.failed (Errno.other n)) h k = absurd h

advance-bound :
    (dst : End) (n : ℕ) → length dst.buf ≤ buf_size → length (advance dst n).buf ≤ buf_size
unfolding advance
advance-bound dst n h =
    if_intro (λ (e : End). length e.buf ≤ buf_size) (dst.sent + n == length dst.buf) _ _
      (omega arith) h

reopen-CanRead :
    (src dst : End) → length dst.buf ≤ buf_size → CanRead (reopen src (length dst.buf)) dst
unfolding reopen
reopen-CanRead src dst h =
    if_split (λ (s : End). CanRead s dst) (not src.read && ltb (length dst.buf) buf_size) _ _
      (λ _. inl refl)
      (λ e. elim (Bool-cases src.read) [ inl r ↦ inl r | inr r ↦ inr (ground arith) ])

abbrev pub Keeps : Reading → Type 0
Keeps r = (r.removes ≡ true) ⊎ Flows r.src r.dst

stop_reading-CanRead : (src dst : End) → src.read ≡ true → CanRead (stop_reading src dst) dst
unfolding stop_reading
stop_reading-CanRead src dst h =
    if_split (λ (s : End). CanRead s dst) (length dst.buf == buf_size) _ _ (λ e. inr (ground arith))
      (λ e. inl h)

pass_on-Keeps :
    (stats : Stats) (src dst : End) (bs : List ℕ) (sent : Sent)
    → IsHandled sent
    → is_incomplete dst.kind ≡ false
    → src.read ≡ true
    → Keeps (pass_on stats src dst bs sent)
unfolding pass_on
pass_on-Keeps stats src dst bs sent h k rd =
    let s = send_data stats (buffered dst bs) none sent in
    let w : Waits s = send_data-Waits stats (buffered dst bs) none sent h k in
    if_split Keeps s.removes _ _ (λ _. inl refl)
      (λ e. elim w [
        | inl t ↦ absurd (ground arith)
        | inr c ↦ inr (record { can_read = stop_reading-CanRead src s.dst rd; can_write = c })
      ])

-- Where the connection is complete and `send` does what the code has a case for, a read event on a
-- source that is read keeps the flow: afterwards the source is read unless the buffer is full, and
-- the destination waits to be written to unless the buffer is empty, or the connection is removed.
pub handle_read-Flows :
    (stats : Stats) (src dst : End) (received : Received) (sent : Sent)
    → IsHandled sent
    → is_incomplete dst.kind ≡ false
    → src.read ≡ true
    → Flows src dst
    → Keeps (handle_read stats src dst received sent)
unfolding handle_read
handle_read-Flows stats src dst (data_in bs) sent h k rd f =
    if_intro Keeps (ltb (length dst.buf) buf_size) _ _ (pass_on-Keeps stats src dst bs sent h k rd)
      (inr f)
handle_read-Flows stats src dst closed sent h k rd f =
    if_intro Keeps (ltb (length dst.buf) buf_size) _ _ (inl refl) (inr f)
handle_read-Flows stats src dst (Received.failed e) sent h k rd f =
    if_intro Keeps (ltb (length dst.buf) buf_size) _ _ (inr f) (inr f)

-- What a write event leaves: the connection is removed, or the source is an end with which the
-- data flow.
abbrev pub Writes : Sending → Type 0
Writes s = (s.removes ≡ true) ⊎ ((src : End) × (s.src ≡ some src) × Flows src s.dst)

send_data-Flows :
    (stats : Stats) (dst src : End) (r : Sent)
    → length dst.buf ≤ buf_size
    → CanRead src dst
    → CanWrite (send_data stats dst (some src) r).dst
    → (src' : End) × ((send_data stats dst (some src) r).src ≡ some src')
      × Flows src' (send_data stats dst (some src) r).dst
unfolding send_data
send_data-Flows stats dst src (Sent.bytes n) b c w = (
  reopen src (length (advance dst n).buf),
  refl,
  record { can_read = reopen-CanRead src (advance dst n) (advance-bound dst n b); can_write = w },
)
send_data-Flows stats dst src (Sent.failed Errno.eintr) b c w =
    (src, refl, record { can_read = c; can_write = w })
send_data-Flows stats dst src (Sent.failed Errno.eagain) b c w =
    (src, refl, record { can_read = c; can_write = w })
send_data-Flows stats dst src (Sent.failed Errno.ebusy) b c w =
    (src, refl, record { can_read = c; can_write = w })
send_data-Flows stats dst src (Sent.failed Errno.enobufs) b c w =
    (src, refl, record { can_read = c; can_write = w })
send_data-Flows stats dst src (Sent.failed Errno.enotconn) b c w =
    (src, refl, record { can_read = c; can_write = w })
send_data-Flows stats dst src (Sent.failed Errno.epipe) b c w =
    (src, refl, record { can_read = c; can_write = w })
send_data-Flows stats dst src (Sent.failed Errno.econnreset) b c w =
    (src, refl, record { can_read = c; can_write = w })
send_data-Flows stats dst src (Sent.failed (Errno.other n)) b c w =
    (src, refl, record { can_read = c; can_write = w })

send_data-Writes :
    (stats : Stats) (dst src : End) (r : Sent)
    → IsHandled r
    → is_incomplete dst.kind ≡ false
    → length dst.buf ≤ buf_size
    → CanRead src dst
    → Writes (send_data stats dst (some src) r)
send_data-Writes stats dst src r h k b c = elim (send_data-Waits stats dst (some src) r h k) [
  | inl e ↦ inl e
  | inr w ↦ inr (send_data-Flows stats dst src r b c w)
]

flush-Writes :
    (stats : Stats) (dst src : End) (r : Sent)
    → IsHandled r
    → is_incomplete dst.kind ≡ false
    → length dst.buf ≤ buf_size
    → CanRead src dst
    → Writes (flush stats dst src r)
unfolding flush
flush-Writes stats dst src r h k b c =
    if_split Writes (length dst.buf == 0) _ _
      (λ e. inr (src, refl, record { can_read = c; can_write = inl (ground arith) }))
      (λ _. send_data-Writes stats dst src r h k b c)

-- Where `send` does what the code has a case for, a write event keeps the flow, also where it is
-- the one that completes the connection; the destination need not have waited to be written to.
pub handle_write-Flows :
    (stats : Stats) (dst src : End) (r : Sent)
    → IsHandled r
    → IsEnd dst
    → CanRead src dst
    → Writes (handle_write stats dst src r)
unfolding handle_write complete_end
handle_write-Flows stats dst src r h i c = elim (Bool-cases (is_incomplete dst.kind)) [
  | inl e ↦ rw e (flush-Writes stats (complete_end dst) src r h refl i.bound c)
  | inr e ↦ rw e (flush-Writes stats dst src r h e i.bound c)
]

-- Neither end waits for anything that would move the data, though there are some to move, or though
-- the connection is made: the flow has stalled.
abbrev pub IsStalled : End → End → Type 0
IsStalled src dst = (src.read ≡ false) × (dst.write ≡ false)

-- An error of `send` that the code has no case for, met when the buffer has just become full,
-- leaves the source not read and the destination not waited for, if it was not before, and the
-- connection in place.
pub handle_read_stall :
    (stats : Stats) (src dst : End) (bs : List ℕ) (n : ℕ)
    → length dst.buf < buf_size
    → length dst.buf + length bs ≡ buf_size
    → dst.write ≡ false
    → let r = handle_read stats src dst (data_in bs) (Sent.failed (Errno.other n)) in
      (r.removes ≡ false) × IsStalled r.src r.dst
unfolding handle_read pass_on send_data stop_reading
handle_read_stall stats src dst bs n l f w =
    let full = length-append dst.buf bs in
    let t : ltb (length dst.buf) buf_size ≡ true = ground arith in
    let e : (length (dst.buf ++ bs) == buf_size) ≡ true = ground (arith, full) in
    rw (t, e) (refl, (refl, w))
