-- ===== src/Pool/Stream.antt =====
-- No byte is lost, doubled or reordered on its way from one end of a connection to the other, and
-- the buffers keep their bounds.
use glb.Common.{
  ℕ, zero, suc, ◌+◌, ◌-◌, ◌≤◌, ◌<◌, ◌≡◌, refl, sym, ap, ◌∙◌, Option, none, some, List, [], ◌∷◌,
  ◌++◌, length, take, drop, take-append-drop, length-drop, ltb, ◌==◌, arith, Bool-cases, if_split,
  inl, inr, if◌then◌else◌,
}
use glb.Pool.State.{End, Stats, Errno, buf_size, is_incomplete}
use glb.Pool.Send.{Sent, send_data, advance}
use glb.Pool.Receive.{
  Received, Reading, data_in, closed, handle_read, pass_on, complete_end, flush, handle_write,
}

module _ {ℓ} {A : Type ℓ} where
  take-all : (n : ℕ) (xs : List A) → length xs ≤ n → take n xs ≡ xs
  take-all zero [] h = refl
  take-all zero (x ∷ xs) h = absurd (omega arith)
  take-all (suc n) [] h = refl
  take-all (suc n) (x ∷ xs) h = ap (◌∷◌ x) (take-all n xs (omega arith))

  drop_nil : (n : ℕ) → drop {A = A} n [] ≡ []
  drop_nil zero = refl
  drop_nil (suc n) = refl

  drop-drop : (m n : ℕ) (xs : List A) → drop m (drop n xs) ≡ drop (n + m) xs
  drop-drop m zero xs = ap (λ k. drop k xs) (omega arith)
  drop-drop m (suc n) [] = drop_nil m ∙ sym (drop_nil (suc n + m))
  drop-drop m (suc n) (x ∷ xs) =
      let shift : suc (n + m) ≡ suc n + m = omega arith in
      drop-drop m n xs ∙ ap (λ k. drop k (x ∷ xs)) shift

  drop-append : (n : ℕ) (xs ys : List A) → n ≤ length xs → drop n (xs ++ ys) ≡ drop n xs ++ ys
  drop-append zero xs ys h = refl
  drop-append (suc n) [] ys h = absurd (omega arith)
  drop-append (suc n) (x ∷ xs) ys h = drop-append n xs ys (omega arith)

  append_nil : (xs : List A) → xs ++ [] ≡ xs
  append_nil [] = refl
  append_nil (x ∷ xs) = ap (◌∷◌ x) (append_nil xs)

-- What is buffered and not sent yet.
abbrev pub pending : End → List ℕ
pending end = drop end.sent end.buf

-- The bytes that `send` took.
abbrev delivered : End → Sent → List ℕ
delivered end (Sent.bytes n) = take n (pending end)
delivered end (Sent.failed e) = []

-- `send` takes at most what it is given, and at least one byte where it succeeds.
abbrev FitsSend : End → Sent → Type 0
FitsSend end (Sent.bytes n) = (0 < n) × (n ≤ length (pending end))
FitsSend end (Sent.failed e) = Unit

-- Some of the buffered bytes are not sent yet, or there are none and nothing counts as sent.
pub record IsEnd (end : End) : Type 0 where
  pub bound : length end.buf ≤ buf_size
  pub order : end.sent < suc (length end.buf - 1)

advance_stream :
    (end : End) (n : ℕ)
    → n ≤ length (pending end)
    → take n (pending end) ++ pending (advance end n) ≡ pending end
unfolding advance
advance_stream end n h =
    let l = length-drop end.sent end.buf in
    if_split (λ (e : End). take n (pending end) ++ pending e ≡ pending end)
      (end.sent + n == length end.buf) _ _
      (λ q. append_nil (take n (pending end)) ∙ take-all n (pending end) (ground (arith, l)))
      (λ q.
        ap (◌++◌ (take n (pending end))) (sym (drop-drop n end.sent end.buf))
        ∙ take-append-drop n (pending end))

-- What `send` took, followed by what is still buffered, is what was buffered: whatever `send`
-- answers, the bytes keep their order, and none is lost or doubled.
send_data_stream :
    (stats : Stats) (dst : End) (src : Option End) (r : Sent)
    → FitsSend dst r
    → delivered dst r ++ pending (send_data stats dst src r).dst ≡ pending dst
unfolding send_data
send_data_stream stats dst src (Sent.bytes n) h = advance_stream dst n h.1
send_data_stream stats dst src (Sent.failed Errno.eintr) h = refl
send_data_stream stats dst src (Sent.failed Errno.eagain) h = refl
send_data_stream stats dst src (Sent.failed Errno.ebusy) h = refl
send_data_stream stats dst src (Sent.failed Errno.enobufs) h = refl
send_data_stream stats dst src (Sent.failed Errno.enotconn) h = refl
send_data_stream stats dst src (Sent.failed Errno.epipe) h = refl
send_data_stream stats dst src (Sent.failed Errno.econnreset) h = refl
send_data_stream stats dst src (Sent.failed (Errno.other n)) h = refl

advance-IsEnd : (end : End) (n : ℕ) → n ≤ length (pending end) → IsEnd end → IsEnd (advance end n)
unfolding advance
advance-IsEnd end n h i =
    let l = length-drop end.sent end.buf in
    if_split IsEnd (end.sent + n == length end.buf) _ _
      (λ q. record { bound = omega arith; order = omega arith })
      (λ q. record { bound = i.bound; order = ground (arith, l, i.order) })

-- Sending keeps `sent` below `total`, or both 0, and `total` at most `pool_buf_size`, if `send`
-- keeps to the size that it is given.
pub send_data-IsEnd :
    (stats : Stats) (dst : End) (src : Option End) (r : Sent)
    → FitsSend dst r
    → IsEnd dst
    → IsEnd (send_data stats dst src r).dst
unfolding send_data
send_data-IsEnd stats dst src (Sent.bytes n) h i = advance-IsEnd dst n h.1 i
send_data-IsEnd stats dst src (Sent.failed Errno.eintr) h i = record {
  bound = i.bound;
  order = i.order;
}
send_data-IsEnd stats dst src (Sent.failed Errno.eagain) h i = record {
  bound = i.bound;
  order = i.order;
}
send_data-IsEnd stats dst src (Sent.failed Errno.ebusy) h i = record {
  bound = i.bound;
  order = i.order;
}
send_data-IsEnd stats dst src (Sent.failed Errno.enobufs) h i = record {
  bound = i.bound;
  order = i.order;
}
send_data-IsEnd stats dst src (Sent.failed Errno.enotconn) h i = record {
  bound = i.bound;
  order = i.order;
}
send_data-IsEnd stats dst src (Sent.failed Errno.epipe) h i = i
send_data-IsEnd stats dst src (Sent.failed Errno.econnreset) h i = i
send_data-IsEnd stats dst src (Sent.failed (Errno.other n)) h i = i

-- The end with more bytes in its buffer.
abbrev pub buffered : End → List ℕ → End
buffered dst bs = record dst { buf = dst.buf ++ bs }

-- What a read event takes in, and what it sends on.
abbrev pub taken_in : End → Received → List ℕ
taken_in dst (data_in bs) = if ltb (length dst.buf) buf_size then bs else []
taken_in dst _ = []

abbrev pub passed_on : End → Received → Sent → List ℕ
passed_on dst (data_in bs) sent =
    if ltb (length dst.buf) buf_size then delivered (buffered dst bs) sent else []
passed_on dst _ sent = []

-- `recv` fills at most the space that it is given, and `send` takes at most what is buffered then.
abbrev FitsRead : End → Received → Sent → Type 0
FitsRead dst (data_in bs) sent =
    (0 < length bs) × (length dst.buf + length bs ≤ buf_size) × FitsSend (buffered dst bs) sent
FitsRead dst _ sent = Unit

pass_on-dst :
    (stats : Stats) (src dst : End) (bs : List ℕ) (sent : Sent)
    → (pass_on stats src dst bs sent).dst ≡ (send_data stats (buffered dst bs) none sent).dst
unfolding pass_on
pass_on-dst stats src dst bs sent =
    if_split (λ (r : Reading). r.dst ≡ (send_data stats (buffered dst bs) none sent).dst)
      (send_data stats (buffered dst bs) none sent).removes _ _ (λ _. refl) (λ _. refl)

-- What a read event sends on, followed by what is buffered after it, is what was buffered before,
-- followed by what it received, where `recv` and `send` keep to the sizes that they are given and
-- the pointers into the buffer are in their bounds.
pub handle_read_stream :
    (stats : Stats) (src dst : End) (received : Received) (sent : Sent)
    → FitsRead dst received sent
    → IsEnd dst
    → passed_on dst received sent ++ pending (handle_read stats src dst received sent).dst
      ≡ pending dst ++ taken_in dst received
unfolding handle_read
handle_read_stream stats src dst (data_in bs) sent f i =
    elim (Bool-cases (ltb (length dst.buf) buf_size)) [
      | inl h ↦ rw h (
          ap (λ (e : End). delivered (buffered dst bs) sent ++ pending e)
            (pass_on-dst stats src dst bs sent)
          ∙ send_data_stream stats (buffered dst bs) none sent f.2
          ∙ drop-append dst.sent dst.buf bs (omega (arith, i.order)))
      | inr h ↦ rw h (sym (append_nil (pending dst)))
    ]
handle_read_stream stats src dst closed sent f i =
    if_split (λ (r : Reading). pending r.dst ≡ pending dst ++ []) (ltb (length dst.buf) buf_size) _
      _ (λ _. sym (append_nil (pending dst))) (λ _. sym (append_nil (pending dst)))
handle_read_stream stats src dst (Received.failed e) sent f i =
    if_split (λ (r : Reading). pending r.dst ≡ pending dst ++ []) (ltb (length dst.buf) buf_size) _
      _ (λ _. sym (append_nil (pending dst))) (λ _. sym (append_nil (pending dst)))

-- What a write event sends: nothing where nothing is buffered.
abbrev pub written : End → Sent → List ℕ
written dst sent = if length dst.buf == 0 then [] else delivered dst sent

flush_stream :
    (stats : Stats) (dst src : End) (sent : Sent)
    → FitsSend dst sent
    → written dst sent ++ pending (flush stats dst src sent).dst ≡ pending dst
unfolding flush
flush_stream stats dst src sent f = elim (Bool-cases (length dst.buf == 0)) [
  | inl e ↦ rw e refl
  | inr e ↦ rw e (send_data_stream stats dst (some src) sent f)
]

same_delivered : (dst : End) (sent : Sent) → delivered (complete_end dst) sent ≡ delivered dst sent
unfolding complete_end
same_delivered dst (Sent.bytes n) = refl
same_delivered dst (Sent.failed e) = refl

same_fits : (dst : End) (sent : Sent) → FitsSend dst sent → FitsSend (complete_end dst) sent
unfolding complete_end
same_fits dst (Sent.bytes n) f = f
same_fits dst (Sent.failed e) f = f

-- What a write event sends, followed by what is buffered after it, is what was buffered before,
-- also where the event completes the connection, if `send` keeps to the size that it is given.
pub handle_write_stream :
    (stats : Stats) (dst src : End) (sent : Sent)
    → FitsSend dst sent
    → written dst sent ++ pending (handle_write stats dst src sent).dst ≡ pending dst
unfolding handle_write complete_end
handle_write_stream stats dst src sent f = elim (Bool-cases (is_incomplete dst.kind)) [
  | inr e ↦ rw e (flush_stream stats dst src sent f)
  | inl e ↦
      rw (e, ← same_delivered dst sent)
        (flush_stream stats (complete_end dst) src sent (same_fits dst sent f))
]
