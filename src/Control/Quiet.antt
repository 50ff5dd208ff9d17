-- ===== src/Control/Quiet.antt =====
-- src/glb_control.c: which entries are not ready, and so are not visited.
use glb.Common.{
  ℕ, zero, suc, ◌+◌, ◌-◌, ◌≤◌, ◌<◌, ◌≡◌, ◌≢◌, refl, sym, ap, ◌∙◌, inl, inr, Bool, true, false, ◌&&◌,
  Option, some, List, [], ◌∷◌, get_elem?, get_elem?-none, set, ltb, ◌==◌, arith, OnSome,
  OnSome-some, if_split, Bool-cases, option_split, option_at_some,
}
use mathlib.Core.Option.{some-injective}
use glb.Control.Clients.{PollFd, Ctrl, ctrl_max, no_fd, add_client, forget_fd, del_loop, del_client}
use glb.Control.Serve.{poll_fds, has_new_client}
use glb.Control.Listening.{Held, Listens, set_cases, set_listening-some, del_loop-Held}

-- The call comes back.
abbrev pub Returns : {A : Type 0} → (A → Type 0) → Option A → Type 0
Returns {A = A} P o = (a : A) × (o ≡ some a) × P a

-- The entries that are not in use are not ready.
abbrev pub Idle : Ctrl → Type 0
Idle c = (j : ℕ) (p : PollFd) → c.fd_max ≤ j → get_elem? c.fds j ≡ some p → p.revents ≡ false

-- The listening socket is not ready.
abbrev pub Deaf : ℕ → Ctrl → Type 0
Deaf i c = (p : PollFd) → get_elem? c.fds i ≡ some p → p.revents ≡ false

abbrev pub Quiet : ℕ → Ctrl → Type 0
Quiet i c = Idle c × Deaf i c

-- Whether the listening socket is polled does not matter.
listening-Idle :
    (sock i : ℕ) (c : Ctrl) (on : Bool) (h : Held sock i c)
    → Idle c
    → Idle (record c { fds = set c.fds i (record h.entry { pollin = on }) })
listening-Idle sock i c on h idle j p l g =
    elim (set_cases c.fds i j (record h.entry { pollin = on }) p g) [
      | inl (e, _) ↦ absurd (omega (arith, e, l, h.used))
      | inr (_, e) ↦ idle j p l e
    ]

listening-Deaf :
    (sock i : ℕ) (c : Ctrl) (on : Bool) (h : Held sock i c)
    → Deaf i c
    → Deaf i (record c { fds = set c.fds i (record h.entry { pollin = on }) })
listening-Deaf sock i c on h deaf p g =
    elim (set_cases c.fds i i (record h.entry { pollin = on }) p g) [
      | inl (_, e) ↦ ap (λ (y : PollFd). y.revents) e ∙ deaf h.entry h.at
      | inr (_, e) ↦ deaf p e
    ]

-- There is room for a client, so that the call comes back.
pub add_client-Returns :
    (sock i : ℕ) (c : Ctrl) (fd : ℕ)
    → c.fd_max < ctrl_max
    → Held sock i c
    → Held sock i (record c {
      fds = set c.fds c.fd_max (record { fd = fd; pollin = true; revents = false });
      fd_max = c.fd_max + 1;
    })
    → Idle c
    → Returns Idle (add_client c fd)
unfolding add_client
add_client-Returns sock i c fd room h held idle =
    if_split (Returns Idle) (ltb c.fd_max ctrl_max) _ _
      (λ _.
        if_split (Returns Idle) (ctrl_max == c.fd_max + 1) _ _
          (λ _. (
            record added { fds = set added.fds i (record held.entry { pollin = false }) },
            set_listening-some sock i added false held,
            listening-Idle sock i added false held added_idle,
          ))
          (λ _. (added, refl, added_idle)))
      (λ full. absurd (ground (arith, full, room)))
  where
    x : PollFd
    x = record { fd = fd; pollin = true; revents = false }

    added : Ctrl
    added = record c { fds = set c.fds c.fd_max x; fd_max = c.fd_max + 1 }

    added_idle : Idle added
    added_idle j p l g = elim (set_cases c.fds c.fd_max j x p g) [
      | inl (_, e) ↦ ap (λ (y : PollFd). y.revents) e
      | inr (_, e) ↦ idle j p (omega (arith, l)) e
    ]

-- One entry less.
abbrev Fewer : ℕ → Ctrl → Ctrl → Type 0
Fewer i c c' = (c'.fd_max ≡ c.fd_max - 1) × Quiet i c'

forget_fd-Fewer :
    (i : ℕ) (c : Ctrl) (idx : ℕ)
    → idx < c.fd_max
    → idx ≢ i
    → Quiet i c
    → Fewer i c (forget_fd c idx)
unfolding forget_fd
forget_fd-Fewer i c idx lt_idx ne (idle, deaf) =
    option_split (Fewer i c) (get_elem? c.fds (c.fd_max - 1)) _ _
      (λ e. (
        refl,
        (
          (λ j p l g. elim (Bool-cases (j == c.fd_max - 1)) [
            | inl b ↦
                let same : j ≡ c.fd_max - 1 = ground (arith, b) in
                absurd (cc (sym g ∙ ap (λ k. get_elem? c.fds k) same ∙ e))
            | inr b ↦ idle j p (ground (arith, b, l)) g
          ]),
          deaf,
        ),
      ))
      (λ last e. (refl, (taken-Idle last, taken-Deaf last)))
  where
    beyond : (k j : ℕ) → k ≤ j → j ≢ k → k + 1 ≤ j
    beyond k j l n = elim (Bool-cases (j == k)) [
      | inl b ↦ absurd (n (ground (arith, b)))
      | inr b ↦ ground (arith, b, l)
    ]

    taken : PollFd → Ctrl
    taken last = record c {
      fd_max = c.fd_max - 1;
      fds = set (set c.fds idx last) (c.fd_max - 1) no_fd;
    }

    taken-Idle : (last : PollFd) → Idle (taken last)
    taken-Idle last j p l g = elim (set_cases (set c.fds idx last) (c.fd_max - 1) j no_fd p g) [
      | inl (_, f) ↦ ap (λ (y : PollFd). y.revents) f
      | inr (n, f) ↦
          let past : c.fd_max ≤ j = omega (arith, beyond (c.fd_max - 1) j l n) in
          elim (set_cases c.fds idx j last p f) [
            | inl (q, _) ↦ absurd (omega (arith, q, past, lt_idx))
            | inr (_, q) ↦ idle j p past q
          ]
    ]

    taken-Deaf : (last : PollFd) → Deaf i (taken last)
    taken-Deaf last p g = elim (set_cases (set c.fds idx last) (c.fd_max - 1) i no_fd p g) [
      | inl (_, f) ↦ ap (λ (y : PollFd). y.revents) f
      | inr (_, f) ↦ elim (set_cases c.fds idx i last p f) [
        | inl (q, _) ↦ absurd (ne (sym q))
        | inr (_, q) ↦ deaf p q
      ]
    ]

-- The loop finds the client.
del_loop-Fewer :
    (sock i left idx j : ℕ) (c : Ctrl) (fd : ℕ) (p : PollFd)
    → fd ≢ sock
    → idx ≤ j
    → j < idx + left
    → idx + left ≤ c.fd_max
    → get_elem? c.fds j ≡ some p
    → p.fd ≡ fd
    → Held sock i c
    → Quiet i c
    → Fewer i c (del_loop left idx c fd)
unfolding del_loop
del_loop-Fewer sock i zero idx j c fd p n lo hi m g e h q = absurd (omega (arith, lo, hi))
del_loop-Fewer sock i (suc left) idx j c fd p n lo hi m g e h q = elim (Bool-cases (idx == j)) [
  | inl b ↦
      let same : j ≡ idx = ground (arith, b) in
      let here : get_elem? c.fds idx ≡ some p = ap (λ k. get_elem? c.fds k) (sym same) ∙ g in
      let found : (fd == p.fd) ≡ true = ground (arith, e) in
      rw (here, del_loop, found) (forget_fd-Fewer i c idx (omega (arith, m)) (other idx p here e) q)
  | inr b ↦
      option_split (Fewer i c) (get_elem? c.fds idx) c
        (λ (x : PollFd). elim (fd == x.fd) as (λ _. Ctrl) [
          | true ↦ forget_fd c idx
          | false ↦ del_loop left (suc idx) c fd
        ])
        (λ gone. absurd (omega (arith, get_elem?-none c.fds idx gone, h.size, h.bound, m)))
        (λ x f. go x f (fd == x.fd) refl (
          del_loop-Fewer sock i left (suc idx) j c fd p n (ground (arith, b, lo))
            (omega (arith, hi)) (omega (arith, m)) g e h q))
]
  where
    other : (k : ℕ) (x : PollFd) → get_elem? c.fds k ≡ some x → x.fd ≡ fd → k ≢ i
    other k x f d r = n (
        sym d
        ∙ ap (λ (y : PollFd). y.fd)
            (some-injective x h.entry (sym f ∙ ap (λ k. get_elem? c.fds k) r ∙ h.at))
        ∙ h.is_sock)

    go :
        (x : PollFd)
        → get_elem? c.fds idx ≡ some x
        → (b : Bool) → (fd == x.fd) ≡ b
        → Fewer i c (del_loop left (suc idx) c fd)
        → Fewer i c (elim b as (λ _. Ctrl) [
          | true ↦ forget_fd c idx
          | false ↦ del_loop left (suc idx) c fd
        ])
    go x f true d _ =
        forget_fd-Fewer i c idx (omega (arith, m)) (other idx x f (ground (arith, d))) q
    go x f false d rest = rest

-- A client that has an entry leaves.
pub del_client-Returns :
    (sock i j : ℕ) (c : Ctrl) (p : PollFd)
    → sock ≢ 0
    → p.fd ≢ sock
    → 0 < j
    → j < c.fd_max
    → get_elem? c.fds j ≡ some p
    → Held sock i c
    → Quiet i c
    → Returns (Quiet i) (del_client c p.fd)
unfolding del_client
del_client-Returns sock i j c p z n pos_j lt_j g h q =
    let forgotten = del_loop (c.fd_max - 1) 1 c p.fd in
    let fewer : Fewer i c forgotten =
      del_loop-Fewer sock i (c.fd_max - 1) 1 j c p.fd p n (omega (arith, pos_j))
        (omega (arith, lt_j)) (omega (arith, lt_j)) g refl h q in
    let held : Held sock i forgotten =
      del_loop-Held sock i (c.fd_max - 1) 1 c p.fd z n (omega arith) (omega (arith, lt_j)) h in
    if_split (Returns (Quiet i)) (ltb 1 c.fd_max && ltb c.fd_max (ctrl_max + 1)) _ _
      (λ _.
        if_split (Returns (Quiet i)) (ltb forgotten.fd_max ctrl_max) _ _
          (λ _. (
            record forgotten { fds = set forgotten.fds i (record held.entry { pollin = true }) },
            set_listening-some sock i forgotten true held,
            (
              listening-Idle sock i forgotten true held fewer.1.0,
              listening-Deaf sock i forgotten true held fewer.1.1,
            ),
          ))
          (λ full. absurd (ground (arith, full, fewer.0, h.bound, lt_j))))
      (λ bad. absurd (ground (arith, bad, h.bound, lt_j, pos_j)))

-- Polling leaves the entries that are not in use as they are.
poll_fds-past :
    (is_ready : ℕ → Bool) (left i : ℕ) (ps : List PollFd) (j : ℕ)
    → left ≤ j
    → get_elem? (poll_fds is_ready left i ps) j ≡ get_elem? ps j
unfolding poll_fds
poll_fds-past is_ready left i [] j l = refl
poll_fds-past is_ready zero i (p ∷ ps) j l = refl
poll_fds-past is_ready (suc left) i (p ∷ ps) zero l = absurd (omega (arith, l))
poll_fds-past is_ready (suc left) i (p ∷ ps) (suc j) l =
    poll_fds-past is_ready left (suc i) ps j (omega (arith, l))

pub poll_fds-Idle :
    (is_ready : ℕ → Bool) (c : Ctrl)
    → Idle c
    → Idle (record c { fds = poll_fds is_ready c.fd_max 0 c.fds })
poll_fds-Idle is_ready c idle j p l g =
    idle j p l (sym (poll_fds-past is_ready c.fd_max 0 c.fds j l) ∙ g)

-- What is ready is polled.
poll_fds-polled :
    (is_ready : ℕ → Bool) (left i : ℕ) (ps : List PollFd) (j : ℕ)
    → j < left
    → OnSome
        (λ (p : PollFd). p.revents ≡ true → p.pollin ≡ true)
        (get_elem? (poll_fds is_ready left i ps) j)
unfolding poll_fds
poll_fds-polled is_ready left i [] j l = tt
poll_fds-polled is_ready zero i (p ∷ ps) j l = absurd (omega (arith, l))
poll_fds-polled is_ready (suc left) i (p ∷ ps) zero l = λ r. ground (arith, r)
poll_fds-polled is_ready (suc left) i (p ∷ ps) (suc j) l =
    poll_fds-polled is_ready left (suc i) ps j (omega (arith, l))

has_new_client_lem :
    (sock i : ℕ) (c : Ctrl) (h : Held sock i c) → has_new_client c ≡ h.entry.revents
unfolding has_new_client
has_new_client_lem sock i c h = option_at_some _ _ h.index ∙ option_at_some _ _ h.at

-- A client is waiting only where there is room for it.
pub has_new_client-room :
    (is_ready : ℕ → Bool) (sock i : ℕ) (c : Ctrl)
    → let polled : Ctrl = record c { fds = poll_fds is_ready c.fd_max 0 c.fds } in
      Listens sock i polled → has_new_client polled ≡ true → c.fd_max < ctrl_max
has_new_client-room is_ready sock i c h b =
    let polled : Ctrl = record c { fds = poll_fds is_ready c.fd_max 0 c.fds } in
    let pollin : h.held.entry.pollin ≡ true =
      OnSome-some (λ (p : PollFd). p.revents ≡ true → p.pollin ≡ true)
        (poll_fds-polled is_ready c.fd_max 0 c.fds i h.held.used) h.held.at
        (sym (has_new_client_lem sock i polled h.held) ∙ b) in
    let room : ltb c.fd_max ctrl_max ≡ true = sym h.polled ∙ pollin in ground (arith, room)

pub has_new_client-Deaf :
    (sock i : ℕ) (c : Ctrl) → Held sock i c → has_new_client c ≡ false → Deaf i c
has_new_client-Deaf sock i c h b p g =
    ap (λ (y : PollFd). y.revents) (some-injective p h.entry (sym g ∙ h.at))
    ∙ sym (has_new_client_lem sock i c h)
    ∙ b
