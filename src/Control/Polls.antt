-- ===== src/Control/Polls.antt =====
-- src/glb_control.c: the table that the control thread starts with, and what polling leaves of it.
use glb.Common.{
  ℕ, zero, suc, ◌≡◌, ◌≢◌, refl, ap, sym, ◌∙◌, Bool, true, false, ◌&&◌, Option, none, some, List, [],
  ◌∷◌, length, get_elem?, arith, OnSome, OnSome-some,
}
use mathlib.Core.Option.{some-injective}
use glb.Control.Clients.{PollFd, Ctrl, no_fd}
use glb.Control.Listening.{Listens}
use glb.Control.Serve.{free, poll_fds, ctrl_create}

-- Polling changes nothing but what is ready.
abbrev SamePoll : Option PollFd → Option PollFd → Type 0
SamePoll o o' =
    OnSome (λ (q : PollFd). (p : PollFd) × (o' ≡ some p) × (p.fd ≡ q.fd) × (p.pollin ≡ q.pollin)) o

length-poll_fds :
    (is_ready : ℕ → Bool) (left i : ℕ) (ps : List PollFd)
    → length (poll_fds is_ready left i ps) ≡ length ps
unfolding poll_fds
length-poll_fds is_ready zero i [] = refl
length-poll_fds is_ready (suc left) i [] = refl
length-poll_fds is_ready zero i (p ∷ ps) = refl
length-poll_fds is_ready (suc left) i (p ∷ ps) = ap suc (length-poll_fds is_ready left (suc i) ps)

same : (ps : List PollFd) (j : ℕ) → SamePoll (get_elem? ps j) (get_elem? ps j)
same [] j = tt
same (p ∷ ps) zero = (p, refl, refl, refl)
same (p ∷ ps) (suc j) = same ps j

poll_fds-SamePoll :
    (is_ready : ℕ → Bool) (left i : ℕ) (ps : List PollFd) (j : ℕ)
    → SamePoll (get_elem? ps j) (get_elem? (poll_fds is_ready left i ps) j)
unfolding poll_fds
poll_fds-SamePoll is_ready left i [] j = tt
poll_fds-SamePoll is_ready zero i (p ∷ ps) j = same (p ∷ ps) j
poll_fds-SamePoll is_ready (suc left) i (p ∷ ps) zero =
    (record p { revents = p.pollin && is_ready i }, refl, refl, refl)
poll_fds-SamePoll is_ready (suc left) i (p ∷ ps) (suc j) =
    poll_fds-SamePoll is_ready left (suc i) ps j

same_fd :
    (ps : List PollFd) (j : ℕ)
    → OnSome
        (λ (p : PollFd). (q : PollFd) × (get_elem? ps j ≡ some q) × (q.fd ≡ p.fd))
        (get_elem? ps j)
same_fd [] j = tt
same_fd (p ∷ ps) zero = (p, refl, refl)
same_fd (p ∷ ps) (suc j) = same_fd ps j

-- The other way round: an entry after polling has its descriptor from before.
poll_fds-fd :
    (is_ready : ℕ → Bool) (left i : ℕ) (ps : List PollFd) (j : ℕ)
    → OnSome
        (λ (p : PollFd). (q : PollFd) × (get_elem? ps j ≡ some q) × (q.fd ≡ p.fd))
        (get_elem? (poll_fds is_ready left i ps) j)
unfolding poll_fds
poll_fds-fd is_ready left i [] j = tt
poll_fds-fd is_ready zero i (p ∷ ps) j = same_fd (p ∷ ps) j
poll_fds-fd is_ready (suc left) i (p ∷ ps) zero = (p, refl, refl)
poll_fds-fd is_ready (suc left) i (p ∷ ps) (suc j) = poll_fds-fd is_ready left (suc i) ps j

pub poll_fds-Listens :
    (is_ready : ℕ → Bool) (sock i : ℕ) (c : Ctrl)
    → Listens sock i c
    → Listens sock i (record c { fds = poll_fds is_ready c.fd_max 0 c.fds })
poll_fds-Listens is_ready sock i c h =
    let (p, at, fd, pollin) =
      OnSome-some
        (λ (q : PollFd).
          (p : PollFd) × (get_elem? (poll_fds is_ready c.fd_max 0 c.fds) i ≡ some p)
          × (p.fd ≡ q.fd)
          × (p.pollin ≡ q.pollin))
        (poll_fds-SamePoll is_ready c.fd_max 0 c.fds i) h.held.at in
    record {
      held = record {
        size = length-poll_fds is_ready c.fd_max 0 c.fds ∙ h.held.size;
        bound = h.held.bound;
        index = h.held.index;
        low = h.held.low;
        used = h.held.used;
        only = λ j p g e.
            let (q, f, d) =
              OnSome-some
                (λ (p : PollFd). (q : PollFd) × (get_elem? c.fds j ≡ some q) × (q.fd ≡ p.fd))
                (poll_fds-fd is_ready c.fd_max 0 c.fds j) g in
            h.held.only j q f (d ∙ e);
        entry = p;
        at = at;
        is_sock = fd ∙ h.held.is_sock;
      };
      polled = pollin ∙ h.polled;
    }

-- The entries that are free have no descriptor.
free-fd : (k j : ℕ) (p : PollFd) → get_elem? (free k) j ≡ some p → p.fd ≡ 0
unfolding free
free-fd zero j p g = absurd (cc g)
free-fd (suc k) zero p g = sym (ap (λ (y : PollFd). y.fd) (some-injective no_fd p g))
free-fd (suc k) (suc j) p g = free-fd k j p g

-- The sockets of a new table; the FIFO is not the listening socket.
pub ctrl_create-Listens :
    (fifo : Option ℕ) (sock : ℕ)
    → sock ≢ 0
    → OnSome (λ f. f ≢ sock) fifo
    → OnSome (λ (c : Ctrl). (i : ℕ) × Listens sock i c) (ctrl_create fifo (some sock))
unfolding ctrl_create
ctrl_create-Listens (some f) sock z n = (
  1,
  record {
    held = record {
      size = refl;
      bound = omega arith;
      index = refl;
      low = omega arith;
      used = omega arith;
      only = first_two;
      entry = record { fd = sock; pollin = true; revents = false };
      at = refl;
      is_sock = refl;
    };
    polled = refl;
  },
)
  where
    first_two :
        (j : ℕ) (p : PollFd)
        → get_elem?
            (record { fd = f; pollin = true; revents = false }
              ∷ record { fd = sock; pollin = true; revents = false }
              ∷ free 30)
            j
          ≡ some p
        → p.fd ≡ sock
        → j ≡ 1
    first_two zero p g e = absurd (n (ap (λ (y : PollFd). y.fd) (some-injective _ p g) ∙ e))
    first_two (suc zero) p g e = refl
    first_two (suc (suc j)) p g e = absurd (z (sym e ∙ free-fd 30 j p g))
ctrl_create-Listens none sock z n = (
  0,
  record {
    held = record {
      size = refl;
      bound = omega arith;
      index = refl;
      low = omega arith;
      used = omega arith;
      only = first;
      entry = record { fd = sock; pollin = true; revents = false };
      at = refl;
      is_sock = refl;
    };
    polled = refl;
  },
)
  where
    first :
        (j : ℕ) (p : PollFd)
        → get_elem? (record { fd = sock; pollin = true; revents = false } ∷ free 31) j ≡ some p
        → p.fd ≡ sock
        → j ≡ 0
    first zero p g e = refl
    first (suc j) p g e = absurd (z (sym e ∙ free-fd 31 j p g))
