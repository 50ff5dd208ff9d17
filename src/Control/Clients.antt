-- ===== src/Control/Clients.antt =====
-- src/glb_control.c: the descriptors that the control thread polls. A failed assertion or `abort`
-- ends the process: `none`.
use glb.Common.{
  ℕ, zero, suc, ◌+◌, ◌-◌, Bool, true, false, ◌&&◌, Option, none, some, List, get_elem?, set, ltb,
  ◌==◌, if◌then◌else◌,
}

-- `pollfd_t`, with POLLIN among the events waited for, and among those that came.
pub record PollFd : Type 0 where
  pub fd : ℕ
  pub pollin : Bool
  pub revents : Bool

abbrev pub ctrl_max : ℕ
ctrl_max = 32

-- `inet_fd` is the index of the listening socket, none for -1. `fds` has `ctrl_max` entries.
pub record Ctrl : Type 0 where
  pub inet_fd : Option ℕ
  pub fd_max : ℕ
  pub fds : List PollFd

-- The listening socket is polled, or not. Without one the entry at index -1 would be written.
unfoldable pub set_listening : Ctrl → Bool → Option Ctrl
set_listening ctrl on = elim ctrl.inet_fd [
  | none ↦ none
  | some i ↦ elim (get_elem? ctrl.fds i) [
    | none ↦ none
    | some p ↦ some (record ctrl { fds = set ctrl.fds i (record p { pollin = on }) })
  ]
]

unfoldable pub add_client : Ctrl → ℕ → Option Ctrl
unfolding set_listening
add_client ctrl fd =
    let added = record ctrl {
      fds = set ctrl.fds ctrl.fd_max (record { fd = fd; pollin = true; revents = false });
      fd_max = ctrl.fd_max + 1;
    } in
    if ltb ctrl.fd_max ctrl_max
    then if ctrl_max == added.fd_max then set_listening added false else some added
    else none

abbrev pub no_fd : PollFd
no_fd = record { fd = 0; pollin = false; revents = false }

-- The last entry is moved to index `idx`.
unfoldable pub forget_fd : Ctrl → ℕ → Ctrl
forget_fd ctrl idx =
    let last = ctrl.fd_max - 1 in
    elim (get_elem? ctrl.fds last) [
      | none ↦ record ctrl { fd_max = last }
      | some p ↦ record ctrl { fd_max = last; fds = set (set ctrl.fds idx p) last no_fd }
    ]

-- The loop from index `idx` on, with `left` indices left below `fd_max`.
unfoldable pub del_loop : ℕ → ℕ → Ctrl → ℕ → Ctrl
unfolding forget_fd
del_loop zero idx ctrl fd = ctrl
del_loop (suc left) idx ctrl fd = elim (get_elem? ctrl.fds idx) [
  | none ↦ ctrl
  | some p ↦ elim (fd == p.fd) [
    | true ↦ forget_fd ctrl idx
    | false ↦ del_loop left (suc idx) ctrl fd
  ]
]

unfoldable pub del_client : Ctrl → ℕ → Option Ctrl
unfolding del_loop set_listening
del_client ctrl fd =
    let forgotten = del_loop (ctrl.fd_max - 1) 1 ctrl fd in
    if ltb 1 ctrl.fd_max && ltb ctrl.fd_max (ctrl_max + 1)
    then if ltb forgotten.fd_max ctrl_max then set_listening forgotten true else none
    else none
