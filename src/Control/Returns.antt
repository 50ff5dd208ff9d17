-- ===== src/Control/Returns.antt =====
-- The control thread does not stop: no assertion of its table fails, and it does not abort.
use glb.Common.{
  ℕ, zero, suc, ◌+◌, ◌<◌, ◌≡◌, ◌≢◌, refl, sym, ap, ◌∙◌, Bool, true, false, Option, none, some, List,
  [], ◌∷◌, get_elem?, All, OnSome, OnSome-some, option_at_some,
}
use mathlib.Core.Option.{some-injective}
use glb.Double.{Double}
use glb.Cnf.{Cnf}
use glb.Parse.Dst.{Libc}
use glb.Control.Clients.{PollFd, no_fd, Ctrl, ctrl_max, add_client}
use glb.Control.Request.{Control}
use glb.Control.Serve.{
  free, Visit, Wakeup, nothing, ready, Server, poll_fds, has_new_client, ctrl_create, visit_loop,
  ctrl_turn, ctrl_thread,
}
use glb.Control.Listening.{Listens, added-Held}
use glb.Control.Polls.{poll_fds-Listens, ctrl_create-Listens}
use glb.Control.Keeps.{Apart, ctrl_turn-Listens}
use glb.Control.Quiet.{
  Returns, Idle, add_client-Returns, poll_fds-Idle, has_new_client-room, has_new_client-Deaf,
}
use glb.Control.Visits.{is_text, Sane, visit_loop-Returns}

-- Without a FIFO the listening socket comes first; and no entry is ready.
abbrev Starts : Option ℕ → Ctrl → Type 0
Starts fifo c = Idle c × (fifo ≡ none → c.inet_fd ≡ some 0)

free-revents : (k j : ℕ) (p : PollFd) → get_elem? (free k) j ≡ some p → p.revents ≡ false
unfolding free
free-revents zero j p g = absurd (cc g)
free-revents (suc k) zero p g = sym (ap (λ (y : PollFd). y.revents) (some-injective no_fd p g))
free-revents (suc k) (suc j) p g = free-revents k j p g

entry-revents :
    (f : ℕ) (ps : List PollFd)
    → ((j : ℕ) (p : PollFd) → get_elem? ps j ≡ some p → p.revents ≡ false)
    → (j : ℕ) (p : PollFd)
    → get_elem? (record { fd = f; pollin = true; revents = false } ∷ ps) j ≡ some p
    → p.revents ≡ false
entry-revents f ps k zero p g = sym (ap (λ (y : PollFd). y.revents) (some-injective _ p g))
entry-revents f ps k (suc j) p g = k j p g

ctrl_create-Starts :
    (fifo : Option ℕ) (sock : ℕ) → OnSome (Starts fifo) (ctrl_create fifo (some sock))
unfolding ctrl_create
ctrl_create-Starts (some f) sock = (
  (λ j p l g.
      entry-revents f (record { fd = sock; pollin = true; revents = false } ∷ free 30)
        (entry-revents sock (free 30) (free-revents 30)) j p g),
  λ e. absurd (cc e),
)
ctrl_create-Starts none sock =
    ((λ j p l g. entry-revents sock (free 31) (free-revents 31) j p g), λ e. refl)

heard :
    (fifo : Option ℕ) (i : ℕ) {T : Type 0}
    → (fifo ≡ none → i ≡ 0)
    → OnSome (λ _. T) fifo
    → i ≢ 0
    → T
heard none i f t n = absurd (n (f refl))
heard (some _) i f t n = t

module _ {F : Type 0} ⦃fp : Double F⦄ where
  ctrl_turn-Returns :
      (sock i : ℕ) (s : Server F) (cnf : Cnf F) (libc : Libc F) (port : ℕ) (is_ready : ℕ → Bool)
      (accepted : Option ℕ) (v : ℕ → Visit F)
      → sock ≢ 0
      → Apart sock (ready is_ready accepted v)
      → Sane i v
      → Listens sock i s.table
      → Idle s.table
      → Returns
          (λ (s : Server F). Idle s.table)
          (ctrl_turn s cnf libc port (ready is_ready accepted v))
  unfolding ctrl_turn
  ctrl_turn-Returns sock i s cnf libc port is_ready accepted v z n sane h idle =
      go (has_new_client table) refl
    where
      table : Ctrl
      table = record s.table { fds = poll_fds is_ready s.table.fd_max 0 s.table.fds }

      polled : Listens sock i table
      polled = poll_fds-Listens is_ready sock i s.table h

      still : Idle table
      still = poll_fds-Idle is_ready s.table idle

      P : Server F → Type 0
      P s = Idle s.table

      joins :
          (o : Option ℕ)
          → OnSome (λ client. client ≢ sock) o
          → table.fd_max < ctrl_max
          → Returns P (elim o as (λ _. Option (Server F)) [
            | none ↦ some (record s { table = table })
            | some client ↦ elim (add_client table client) as (λ _. Option (Server F)) [
              | none ↦ none
              | some table' ↦ some (record s { table = table' })
            ]
          ])
      joins none _ _ = (record s { table = table }, refl, still)
      joins (some client) m room =
          let (c, e, k) =
            add_client-Returns sock i table client room polled.held
              (added-Held sock i table client m room polled.held) still in
          (
            record s { table = c },
            option_at_some none (λ table'. some (record s { table = table' })) e,
            k,
          )

      go :
          (b : Bool)
          → has_new_client table ≡ b
          → Returns P (elim b as (λ _. Option (Server F)) [
            | true ↦ elim accepted as (λ _. Option (Server F)) [
              | none ↦ some (record s { table = table })
              | some client ↦ elim (add_client table client) as (λ _. Option (Server F)) [
                | none ↦ none
                | some table' ↦ some (record s { table = table' })
              ]
            ]
            | false ↦ visit_loop (ctrl_max + 1) 0 (record s { table = table }) cnf libc port v
          ])
      go true b = joins accepted n.0 (has_new_client-room is_ready sock i s.table polled b)
      go false b =
          visit_loop-Returns sock i (ctrl_max + 1) 0 (record s { table = table }) cnf libc port v z
            n.1 sane polled (still, has_new_client-Deaf sock i table polled.held b)

  -- What comes from outside: the FIFO, if there is one, only gives requests, and what stands past the
  -- array is not ready.
  abbrev pub Lasts : Option ℕ → Wakeup F → Type 0
  Lasts fifo nothing = Unit
  Lasts fifo (ready is_ready accepted v) =
      OnSome (λ _. is_text (v 0).read ≡ true) fifo × ((fd : ℕ) → (v fd).past.revents ≡ false)

  turn-Returns :
      (sock i : ℕ) (fifo : Option ℕ) (s : Server F) (cnf : Cnf F) (libc : Libc F) (port : ℕ)
      (e : Wakeup F)
      → sock ≢ 0
      → (fifo ≡ none → i ≡ 0)
      → Apart sock e
      → Lasts fifo e
      → Listens sock i s.table
      → Idle s.table
      → Returns (λ (s : Server F). Idle s.table) (ctrl_turn s cnf libc port e)
  unfolding ctrl_turn
  turn-Returns sock i fifo s cnf libc port nothing z f n m h idle = (s, refl, idle)
  turn-Returns sock i fifo s cnf libc port (ready is_ready accepted v) z f n m h idle =
      ctrl_turn-Returns sock i s cnf libc port is_ready accepted v z n (heard fifo i f m.0, m.1) h
        idle

  from_Returns :
      (sock i : ℕ) (fifo : Option ℕ) (es : List (Wakeup F)) (s : Server F) (cnf : Cnf F)
      (libc : Libc F) (port : ℕ)
      → sock ≢ 0
      → (fifo ≡ none → i ≡ 0)
      → All (Apart sock) es
      → All (Lasts fifo) es
      → Listens sock i s.table
      → Idle s.table
      → Returns (λ (s : Server F). Listens sock i s.table) (ctrl_thread es s cnf libc port)
  unfolding ctrl_thread
  from_Returns sock i fifo [] s cnf libc port z f n m h idle = (s, refl, h)
  from_Returns sock i fifo (e ∷ es) s cnf libc port z f n m h idle =
      let (s', q, k) = turn-Returns sock i fifo s cnf libc port e z f n.0 m.0 h idle in
      let h' : Listens sock i s'.table =
        OnSome-some (λ (s : Server F). Listens sock i s.table)
          (ctrl_turn-Listens sock i s cnf libc port e z n.0 h) q in
      let (t, r, l) = from_Returns sock i fifo es s' cnf libc port z f n.1 m.1 h' k in
      (t, option_at_some none (λ s'. ctrl_thread es s' cnf libc port) q ∙ r, l)

  -- From the table that it is created with on, whatever clients come and go and whatever they send: no
  -- assertion on the table fails and the control thread does not abort, and it goes on with its
  -- listening socket in its place, polled exactly while there is room for another client. The FIFO, if
  -- there is one, only gives requests, the descriptors of the FIFO and of the clients are not that of
  -- the socket, and what stands in memory just past the array does not look ready.
  pub ctrl_thread-Returns :
      (fifo : Option ℕ) (sock : ℕ) (table : Ctrl) (control : Control F) (es : List (Wakeup F))
      (cnf : Cnf F) (libc : Libc F) (port : ℕ)
      → sock ≢ 0
      → OnSome (λ f. f ≢ sock) fifo
      → All (Apart sock) es
      → All (Lasts fifo) es
      → ctrl_create fifo (some sock) ≡ some table
      → Returns
          (λ (s : Server F). (i : ℕ) × Listens sock i s.table)
          (ctrl_thread es (record { table = table; control = control }) cnf libc port)
  ctrl_thread-Returns fifo sock table control es cnf libc port z f n m c =
      let (i, h) =
        OnSome-some (λ (c : Ctrl). (i : ℕ) × Listens sock i c) (ctrl_create-Listens fifo sock z f)
          c in
      let (idle, first) = OnSome-some (Starts fifo) (ctrl_create-Starts fifo sock) c in
      let zero_first : fifo ≡ none → i ≡ 0 =
        λ e. sym (some-injective 0 i (sym (first e) ∙ h.held.index)) in
      let (s, e, k) =
        from_Returns sock i fifo es (record { table = table; control = control }) cnf libc port z
          zero_first n m h idle in
      (s, e, (i, k))
