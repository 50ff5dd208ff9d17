-- ===== src/Control/Serve.antt =====
-- src/glb_control.c: the control thread, `ctrl_thread`, and how it is set up, `glb_ctrl_create`.
use glb.Common.{
  ℕ, zero, suc, ◌+◌, ◌&&◌, Bool, true, false, Option, none, some, List, [], ◌∷◌, get_elem?, ltb,
  if◌then◌else◌,
}
use glb.Double.{Double}
use glb.Cnf.{Cnf}
use glb.Router.Change.{Alloc}
use glb.Router.Disconnect.{is_index}
use glb.Wdog.Change.{Start}
use glb.Parse.Dst.{Libc}
use glb.Control.Clients.{PollFd, Ctrl, ctrl_max, no_fd, add_client, del_client}
use glb.Control.Request.{Control, handle_request}

-- What reading a request gives: the end of the connection, an error, or a text.
pub data Read : Type 0 where
  closed reset : Read
  text : List ℕ → Read

-- What a request gets from outside. `past` is what stands in memory just past the array, which is read as
-- an entry when the loop gets there.
pub record Visit (F : Type 0) : Type 0 where
  pub read : Read
  pub past : PollFd
  pub alloc : Alloc F
  pub start : Start

-- The outcome of `poll`: an error or no event in time, or which entries are ready, with the result of
-- `accept` and what each entry is to get.
pub data Wakeup (F : Type 0) : Type 0 where
  nothing : Wakeup F
  ready : (ℕ → Bool) → Option ℕ → (ℕ → Visit F) → Wakeup F

pub record Server (F : Type 0) : Type 0 where
  pub table : Ctrl
  pub control : Control F

-- `poll` reports on the first entries, for the events that they wait for.
unfoldable pub poll_fds : (ℕ → Bool) → ℕ → ℕ → List PollFd → List PollFd
poll_fds is_ready left i [] = []
poll_fds is_ready zero i (p ∷ ps) = p ∷ ps
poll_fds is_ready (suc left) i (p ∷ ps) =
    record p { revents = p.pollin && is_ready i } ∷ poll_fds is_ready left (suc i) ps

-- A client is waiting at the listening socket.
unfoldable pub has_new_client : Ctrl → Bool
has_new_client ctrl = elim ctrl.inet_fd [
  | none ↦ false
  | some i ↦ elim (get_elem? ctrl.fds i) [ none ↦ false | some p ↦ p.revents ]
]

unfoldable pub free : ℕ → List PollFd
free zero = []
free (suc n) = no_fd ∷ free n

-- The FIFO comes first, if there is one; none where there is nothing to listen to.
unfoldable pub ctrl_create : Option ℕ → Option ℕ → Option Ctrl
unfolding free
ctrl_create fifo sock =
    let entry : ℕ → PollFd = λ fd. record { fd = fd; pollin = true; revents = false } in
    elim fifo [
      | some f ↦ elim sock [
        | some s ↦ some (record { inet_fd = some 1; fd_max = 2; fds = entry f ∷ entry s ∷ free 30 })
        | none ↦ some (record { inet_fd = none; fd_max = 1; fds = entry f ∷ free 31 })
      ]
      | none ↦ elim sock [
        | some s ↦ some (record { inet_fd = some 0; fd_max = 1; fds = entry s ∷ free 31 })
        | none ↦ none
      ]
    ]

module _ {F : Type 0} ⦃fp : Double F⦄ where
  -- One entry that is ready, and whether the loop over the entries is left.
  unfoldable pub visit : Server F → Cnf F → Libc F → ℕ → Visit F → ℕ → Option (Bool × Server F)
  unfolding del_client handle_request
  visit s cnf libc default_port v fd =
      let without : Bool → Option (Bool × Server F) = λ leaves. elim (del_client s.table fd) [
        | none ↦ none
        | some table ↦ some (leaves, record s { table = table })
      ] in
      elim v.read [
        | closed ↦ without false
        | reset ↦ without true
        | text t ↦ some (
          false,
          record s {
            control = (handle_request s.control cnf libc default_port v.alloc v.start t).1;
          },
        )
      ]

  -- The entry at index `fd`, if it is ready: not the listening socket. `none` is a failed assertion.
  unfoldable pub visit_at : Server F → Cnf F → Libc F → ℕ → Visit F → ℕ → Option (Bool × Server F)
  unfolding visit
  visit_at s cnf libc default_port v fd = elim (get_elem? s.table.fds fd) [
    | none ↦ if v.past.revents then visit s cnf libc default_port v v.past.fd else some (false, s)
    | some p ↦
        if p.revents
        then if is_index s.table.inet_fd fd then none else visit s cnf libc default_port v p.fd
        else some (false, s)
  ]

  -- The loop from `fd` on.
  unfoldable pub visit_loop :
      ℕ → ℕ → Server F → Cnf F → Libc F → ℕ → (ℕ → Visit F) → Option (Server F)
  unfolding visit_at
  visit_loop zero fd s cnf libc port v = some s
  visit_loop (suc left) fd s cnf libc port v = elim (ltb s.table.fd_max fd) [
    | true ↦ some s
    | false ↦ elim (visit_at s cnf libc port (v fd) fd) [
      | none ↦ none
      | some (leaves, s') ↦ elim leaves [
        | true ↦ some s'
        | false ↦ visit_loop left (suc fd) s' cnf libc port v
      ]
    ]
  ]

  -- One turn of the thread. The array has 32 entries, so the loop ends by its 33rd index.
  unfoldable pub ctrl_turn : Server F → Cnf F → Libc F → ℕ → Wakeup F → Option (Server F)
  unfolding poll_fds has_new_client add_client visit_loop
  ctrl_turn s cnf libc port nothing = some s
  ctrl_turn s cnf libc port (ready is_ready accepted v) =
      let table = record s.table { fds = poll_fds is_ready s.table.fd_max 0 s.table.fds } in
      elim (has_new_client table) [
        | true ↦ elim accepted [
          | none ↦ some (record s { table = table })
          | some client ↦ elim (add_client table client) [
            | none ↦ none
            | some table' ↦ some (record s { table = table' })
          ]
        ]
        | false ↦ visit_loop (ctrl_max + 1) 0 (record s { table = table }) cnf libc port v
      ]

  unfoldable pub ctrl_thread : List (Wakeup F) → Server F → Cnf F → Libc F → ℕ → Option (Server F)
  unfolding ctrl_turn
  ctrl_thread [] s cnf libc port = some s
  ctrl_thread (e ∷ es) s cnf libc port = elim (ctrl_turn s cnf libc port e) [
    | none ↦ none
    | some s' ↦ ctrl_thread es s' cnf libc port
  ]
