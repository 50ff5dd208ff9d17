-- ===== src/Control/Listening.antt =====
-- src/glb_control.c: what the table of descriptors keeps while clients come and go.
use glb.Common.{
  ℕ, zero, suc, ◌+◌, ◌-◌, ◌≤◌, ◌<◌, ◌≡◌, ◌≢◌, ◌⊎◌, refl, sym, ap, ◌∙◌, inl, inr, Bool, true, false,
  ◌&&◌, some, List, [], ◌∷◌, length, get_elem?, get_elem?-set_self, get_elem?-set_ne, set,
  length-set, ltb, ◌==◌, arith, OnSome, if_split, Option-cases, Bool-cases, option_split,
  option_at_some, subst,
}
use mathlib.Core.Option.{some-injective}
use glb.Control.Clients.{
  PollFd, Ctrl, ctrl_max, no_fd, set_listening, add_client, forget_fd, del_loop, del_client,
}

-- The array has all its entries; the one at index `i`, of those in use, is the listening socket, and no
-- other entry is.
pub record Held (sock i : ℕ) (c : Ctrl) : Type 0 where
  pub size : length c.fds ≡ ctrl_max
  pub bound : c.fd_max ≤ ctrl_max
  pub index : c.inet_fd ≡ some i
  pub low : i < 2
  pub used : i < c.fd_max
  pub only : (j : ℕ) (p : PollFd) → get_elem? c.fds j ≡ some p → p.fd ≡ sock → j ≡ i
  pub entry : PollFd
  pub at : get_elem? c.fds i ≡ some entry
  pub is_sock : entry.fd ≡ sock

-- It is polled exactly while there is room for another client.
pub record Listens (sock i : ℕ) (c : Ctrl) : Type 0 where
  pub held : Held sock i c
  pub polled : held.entry.pollin ≡ ltb c.fd_max ctrl_max

-- What an entry is after one is set.
pub set_cases :
    (xs : List PollFd) (k j : ℕ) (x p : PollFd)
    → get_elem? (set xs k x) j ≡ some p
    → ((j ≡ k) × (p ≡ x)) ⊎ ((j ≢ k) × (get_elem? xs j ≡ some p))
set_cases [] k j x p h = absurd (cc h)
set_cases (y ∷ xs) zero zero x p h = inl (refl, sym (some-injective x p h))
set_cases (y ∷ xs) zero (suc j) x p h = inr (λ e. absurd (omega (arith, e)), h)
set_cases (y ∷ xs) (suc k) zero x p h = inr (λ e. absurd (omega (arith, e)), h)
set_cases (y ∷ xs) (suc k) (suc j) x p h = elim (set_cases xs k j x p h) [
  | inl (e, f) ↦ inl (ap suc e, f)
  | inr (n, e) ↦ inr (λ q. n (omega (arith, q)), e)
]

pub set_listening-some :
    (sock i : ℕ) (c : Ctrl) (on : Bool) (h : Held sock i c)
    → set_listening c on ≡ some (record c { fds = set c.fds i (record h.entry { pollin = on }) })
unfolding set_listening
set_listening-some sock i c on h = option_at_some _ _ h.index ∙ option_at_some _ _ h.at

pub set_listening-Listens :
    (sock i : ℕ) (c : Ctrl) (on : Bool)
    → on ≡ ltb c.fd_max ctrl_max
    → Held sock i c
    → OnSome (Listens sock i) (set_listening c on)
unfolding set_listening
set_listening-Listens sock i c on o h =
    let set_entry : PollFd = record h.entry { pollin = on } in
    let fits : i < length c.fds = omega (arith, h.size, h.low) in
    subst (OnSome (Listens sock i)) (sym (set_listening-some sock i c on h)) (record {
      held = record {
        size = length-set c.fds i set_entry ∙ h.size;
        bound = h.bound;
        index = h.index;
        low = h.low;
        used = h.used;
        only = λ j p g e. elim (set_cases c.fds i j set_entry p g) [
          | inl (q, _) ↦ q
          | inr (_, q) ↦ h.only j p q e
        ];
        entry = set_entry;
        at = get_elem?-set_self c.fds i set_entry fits;
        is_sock = h.is_sock;
      };
      polled = o;
    })

abbrev pub added-Held :
    (sock i : ℕ) (c : Ctrl) (fd : ℕ)
    → fd ≢ sock
    → c.fd_max < ctrl_max
    → Held sock i c
    → Held sock i (record c {
      fds = set c.fds c.fd_max (record { fd = fd; pollin = true; revents = false });
      fd_max = c.fd_max + 1;
    })
added-Held sock i c fd n room h =
    let x : PollFd = record { fd = fd; pollin = true; revents = false } in
    record {
      size = length-set c.fds c.fd_max x ∙ h.size;
      bound = omega (arith, room);
      index = h.index;
      low = h.low;
      used = omega (arith, h.used);
      only = λ j p g e. elim (set_cases c.fds c.fd_max j x p g) [
        | inl (_, q) ↦ absurd (n (sym (ap (λ (y : PollFd). y.fd) q) ∙ e))
        | inr (_, q) ↦ h.only j p q e
      ];
      entry = h.entry;
      at = get_elem?-set_ne c.fds x (λ e. absurd (omega (arith, e, h.used))) ∙ h.at;
      is_sock = h.is_sock;
    }

-- A client whose descriptor is not that of the listening socket is added.
pub add_client-Listens :
    (sock i : ℕ) (c : Ctrl) (fd : ℕ)
    → fd ≢ sock
    → Listens sock i c
    → OnSome (Listens sock i) (add_client c fd)
unfolding add_client
add_client-Listens sock i c fd n h =
    if_split (OnSome (Listens sock i)) (ltb c.fd_max ctrl_max) _ _
      (λ room.
        let x : PollFd = record { fd = fd; pollin = true; revents = false } in
        let added : Ctrl = record c { fds = set c.fds c.fd_max x; fd_max = c.fd_max + 1 } in
        let held : Held sock i added = added-Held sock i c fd n (ground (arith, room)) h.held in
        if_split (OnSome (Listens sock i)) (ctrl_max == c.fd_max + 1) _ _
          (λ full. set_listening-Listens sock i added false (ground (arith, full)) held)
          (λ more. record { held = held; polled = h.polled ∙ room ∙ ground (arith, more, room) }))
      (λ _. tt)

apart : (i j : ℕ) → j ≢ i → (i < j) ⊎ (j < i)
apart zero zero n = absurd (n refl)
apart zero (suc j) n = inl (omega arith)
apart (suc i) zero n = inr (omega arith)
apart (suc i) (suc j) n = elim (apart i j (λ e. n (ap suc e))) [
  | inl l ↦ inl (omega (arith, l))
  | inr l ↦ inr (omega (arith, l))
]

-- The entry at index `idx`, which is not that of the listening socket, is taken out.
forget_fd-Held :
    (sock i : ℕ) (c : Ctrl) (idx : ℕ)
    → sock ≢ 0
    → 0 < idx
    → idx < c.fd_max
    → idx ≢ i
    → Held sock i c
    → Held sock i (forget_fd c idx)
unfolding forget_fd
forget_fd-Held sock i c idx z pos_idx lt_idx ne h =
    option_split (Held sock i) (get_elem? c.fds (c.fd_max - 1)) _ _
      (λ _. record {
        size = h.size;
        bound = omega (arith, h.bound);
        index = h.index;
        low = h.low;
        used = below;
        only = h.only;
        entry = h.entry;
        at = h.at;
        is_sock = h.is_sock;
      })
      (λ p e. record {
        size =
            length-set (set c.fds idx p) (c.fd_max - 1) no_fd ∙ (length-set c.fds idx p ∙ h.size);
        bound = omega (arith, h.bound);
        index = h.index;
        low = h.low;
        used = below;
        only = λ j q g f. elim (set_cases (set c.fds idx p) (c.fd_max - 1) j no_fd q g) [
          | inl (_, y) ↦ absurd (z (sym f ∙ ap (λ (y : PollFd). y.fd) y))
          | inr (_, y) ↦ elim (set_cases c.fds idx j p q y) [
            | inl (_, w) ↦
                let same : c.fd_max - 1 ≡ i =
                  h.only (c.fd_max - 1) p e (sym (ap (λ (y : PollFd). y.fd) w) ∙ f) in
                absurd (omega (arith, same, below))
            | inr (_, w) ↦ h.only j q w f
          ]
        ];
        entry = h.entry;
        at =
            get_elem?-set_ne (set c.fds idx p) no_fd (λ e. absurd (omega (arith, e, below)))
            ∙ get_elem?-set_ne c.fds p ne
            ∙ h.at;
        is_sock = h.is_sock;
      })
  where
    below : i < c.fd_max - 1
    below = elim (apart i idx ne) [
      | inl l ↦ omega (arith, l, lt_idx, h.low)
      | inr l ↦ omega (arith, l, lt_idx, pos_idx, h.low)
    ]

pub del_loop-Held :
    (sock i left idx : ℕ) (c : Ctrl) (fd : ℕ)
    → sock ≢ 0
    → fd ≢ sock
    → 0 < idx
    → idx + left ≤ c.fd_max
    → Held sock i c
    → Held sock i (del_loop left idx c fd)
unfolding del_loop
del_loop-Held sock i zero idx c fd z n g l h = h
del_loop-Held sock i (suc left) idx c fd z n g l h = elim (Option-cases (get_elem? c.fds idx)) [
  | inl e ↦ rw (e, del_loop) h
  | inr (p, e) ↦ elim (Bool-cases (fd == p.fd)) [
    | inl f ↦
        let found : fd ≡ p.fd = ground (arith, f) in
        rw (e, f, del_loop)
          (forget_fd-Held sock i c idx z g (omega (arith, l))
            (λ q. n (
              found
              ∙ ap (λ (y : PollFd). y.fd)
                  (some-injective p h.entry (sym e ∙ ap (λ k. get_elem? c.fds k) q ∙ h.at))
              ∙ h.is_sock))
            h)
    | inr f ↦
        rw (e, f, del_loop)
          (del_loop-Held sock i left (suc idx) c fd z n (omega arith) (omega (arith, l)) h)
  ]
]

-- A client that is not the listening socket leaves.
pub del_client-Listens :
    (sock i : ℕ) (c : Ctrl) (fd : ℕ)
    → sock ≢ 0
    → fd ≢ sock
    → Held sock i c
    → OnSome (Listens sock i) (del_client c fd)
unfolding del_client
del_client-Listens sock i c fd z n h =
    if_split (OnSome (Listens sock i)) (ltb 1 c.fd_max && ltb c.fd_max (ctrl_max + 1)) _ _
      (λ e.
        let forgotten = del_loop (c.fd_max - 1) 1 c fd in
        if_split (OnSome (Listens sock i)) (ltb forgotten.fd_max ctrl_max) _ _
          (λ room.
            set_listening-Listens sock i forgotten true (sym room)
              (del_loop-Held sock i (c.fd_max - 1) 1 c fd z n (omega arith) (ground (arith, e)) h))
          (λ _. tt))
      (λ _. tt)
