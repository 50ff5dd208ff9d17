-- ===== src/Control/Keeps.antt =====
-- The control thread keeps its listening socket, and polls it exactly while there is room for a client.
use glb.Common.{
  ℕ, zero, suc, ◌+◌, ◌≡◌, ◌≢◌, inl, inr, Bool-cases, if_intro, if_split, if◌then◌else◌, Bool, true,
  false, Option, none, some, List, [], ◌∷◌, get_elem?, ltb, arith, All, OnSome, OnSome-some,
  option_split,
}
use mathlib.Core.Option.{some-injective}
use glb.Double.{Double}
use glb.Cnf.{Cnf}
use glb.Router.Disconnect.{is_index}
use glb.Parse.Dst.{Libc}
use glb.Control.Clients.{Ctrl, ctrl_max, add_client, del_client}
use glb.Control.Request.{Control, handle_request}
use glb.Control.Listening.{Listens, add_client-Listens, del_client-Listens}
use glb.Control.Serve.{
  Read, closed, reset, text, Visit, Wakeup, nothing, ready, Server, poll_fds, has_new_client,
  ctrl_create, visit, visit_at, visit_loop, ctrl_turn, ctrl_thread,
}
use glb.Control.Polls.{ctrl_create-Listens, poll_fds-Listens}

OnSome-map :
    {A : Type 0} (P Q : A → Type 0) (o : Option A) → ((a : A) → P a → Q a) → OnSome P o → OnSome Q o
OnSome-map P Q none f h = tt
OnSome-map P Q (some a) f h = f a h

pub not_index :
    {A : Type 0} (o : Option ℕ) (fd i : ℕ) → is_index o fd ≡ false → o ≡ some i → fd ≡ i → A
not_index none fd i n e q = absurd (cc e)
not_index (some k) fd i n e q = absurd (ground (arith, n, some-injective k i e, q))

module _ {F : Type 0} ⦃fp : Double F⦄ where
  -- What stands past the array does not look like the listening socket, and no client has its descriptor.
  abbrev pub Past : ℕ → Visit F → Type 0
  Past sock v = v.past.fd ≢ sock

  abbrev pub Apart : ℕ → Wakeup F → Type 0
  Apart sock nothing = Unit
  Apart sock (ready is_ready accepted v) =
      OnSome (λ client. client ≢ sock) accepted × ((fd : ℕ) → Past sock (v fd))

  visit-Listens :
      (sock i : ℕ) (s : Server F) (cnf : Cnf F) (libc : Libc F) (port : ℕ) (v : Visit F) (fd : ℕ)
      → sock ≢ 0
      → fd ≢ sock
      → Listens sock i s.table
      → OnSome (λ (p : Bool × Server F). Listens sock i p.1.table) (visit s cnf libc port v fd)
  unfolding visit
  visit-Listens sock i s cnf libc port v fd z n h = go v.read
    where
      P : Option (Bool × Server F) → Type 0
      P = OnSome λ (p : Bool × Server F). Listens sock i p.1.table

      gone :
          (leaves : Bool)
          → P (elim (del_client s.table fd) as (λ _. Option (Bool × Server F)) [
            | none ↦ none
            | some table ↦ some (leaves, record s { table = table })
          ])
      gone leaves =
          option_split P (del_client s.table fd) _ _ (λ _. tt)
            (λ table e.
              OnSome-some (Listens sock i) (del_client-Listens sock i s.table fd z n h.held) e)

      go :
          (r : Read)
          → P (
              let without : Bool → Option (Bool × Server F) = λ leaves.
                elim (del_client s.table fd) [
                  | none ↦ none
                  | some table ↦ some (leaves, record s { table = table })
                ] in
              elim r as (λ _. Option (Bool × Server F)) [
                | closed ↦ without false
                | reset ↦ without true
                | text t ↦ some (
                  false,
                  record s {
                    control = (handle_request s.control cnf libc port v.alloc v.start t).1;
                  },
                )
              ])
      go closed = gone false
      go reset = gone true
      go (text t) = h

  -- The entry that is visited is another one than the listening socket.
  pub visit_at-Listens :
      (sock i : ℕ) (s : Server F) (cnf : Cnf F) (libc : Libc F) (port : ℕ) (v : Visit F) (fd : ℕ)
      → sock ≢ 0
      → Past sock v
      → Listens sock i s.table
      → OnSome (λ (p : Bool × Server F). Listens sock i p.1.table) (visit_at s cnf libc port v fd)
  unfolding visit_at
  visit_at-Listens sock i s cnf libc port v fd z past h =
      let P = OnSome λ (p : Bool × Server F). Listens sock i p.1.table in
      option_split P (get_elem? s.table.fds fd) _ _
        (λ _.
          if_intro P v.past.revents _ (some (false, s))
            (visit-Listens sock i s cnf libc port v v.past.fd z past h) h)
        (λ p e.
          let visited = visit s cnf libc port v p.fd in
          if_intro P p.revents (if is_index s.table.inet_fd fd then none else visited)
            (some (false, s))
            (if_split P (is_index s.table.inet_fd fd) none visited (λ _. tt)
              (λ other.
                visit-Listens sock i s cnf libc port v p.fd z
                  (λ q. not_index s.table.inet_fd fd i other h.held.index (h.held.only fd p e q))
                  h))
            h)

  -- The loop is left, or goes on.
  leave :
      (P : Server F → Type 0) (next : Server F → Option (Server F)) (p : Bool × Server F)
      → ((s : Server F) → P s → OnSome P (next s))
      → P p.1
      → OnSome P (elim p.0 as (λ _. Option (Server F)) [ true ↦ some p.1 | false ↦ next p.1 ])
  leave P next (true, s) k h = h
  leave P next (false, s) k h = k s h

  visit_loop-Listens :
      (sock i left fd : ℕ) (s : Server F) (cnf : Cnf F) (libc : Libc F) (port : ℕ) (v : ℕ → Visit F)
      → sock ≢ 0
      → ((fd : ℕ) → Past sock (v fd))
      → Listens sock i s.table
      → OnSome (λ (s : Server F). Listens sock i s.table) (visit_loop left fd s cnf libc port v)
  unfolding visit_loop
  visit_loop-Listens sock i zero fd s cnf libc port v z past h = h
  visit_loop-Listens sock i (suc left) fd s cnf libc port v z past h =
      let P : Server F → Type 0 = λ s. Listens sock i s.table in
      elim (Bool-cases (ltb s.table.fd_max fd)) [
        | inl b ↦ rw (b, visit_loop) h
        | inr b ↦
            rw (b, visit_loop)
              (option_split (OnSome P) (visit_at s cnf libc port (v fd) fd) none
                (λ (p : Bool × Server F). elim p.0 as (λ _. Option (Server F)) [
                  | true ↦ some p.1
                  | false ↦ visit_loop left (suc fd) p.1 cnf libc port v
                ])
                (λ _. tt)
                (λ p e.
                  leave P (λ s'. visit_loop left (suc fd) s' cnf libc port v) p
                    (λ s' k. visit_loop-Listens sock i left (suc fd) s' cnf libc port v z past k)
                    (OnSome-some (λ (p : Bool × Server F). Listens sock i p.1.table)
                      (visit_at-Listens sock i s cnf libc port (v fd) fd z (past fd) h) e)))
      ]

  pub ctrl_turn-Listens :
      (sock i : ℕ) (s : Server F) (cnf : Cnf F) (libc : Libc F) (port : ℕ) (e : Wakeup F)
      → sock ≢ 0
      → Apart sock e
      → Listens sock i s.table
      → OnSome (λ (s : Server F). Listens sock i s.table) (ctrl_turn s cnf libc port e)
  unfolding ctrl_turn
  ctrl_turn-Listens sock i s cnf libc port nothing z n h = h
  ctrl_turn-Listens sock i s cnf libc port (ready is_ready accepted v) z n h =
      go (has_new_client table)
    where
      table : Ctrl
      table = record s.table { fds = poll_fds is_ready s.table.fd_max 0 s.table.fds }

      polled : Listens sock i table
      polled = poll_fds-Listens is_ready sock i s.table h

      P : Server F → Type 0
      P s = Listens sock i s.table

      joins :
          (o : Option ℕ)
          → OnSome (λ client. client ≢ sock) o
          → OnSome P (elim o as (λ _. Option (Server F)) [
            | none ↦ some (record s { table = table })
            | some client ↦ elim (add_client table client) as (λ _. Option (Server F)) [
              | none ↦ none
              | some table' ↦ some (record s { table = table' })
            ]
          ])
      joins none _ = polled
      joins (some client) m =
          option_split (OnSome P) (add_client table client) _ _ (λ _. tt)
            (λ table' e.
              OnSome-some (Listens sock i) (add_client-Listens sock i table client m polled) e)

      go :
          (b : Bool)
          → OnSome P (elim b as (λ _. Option (Server F)) [
            | true ↦ elim accepted as (λ _. Option (Server F)) [
              | none ↦ some (record s { table = table })
              | some client ↦ elim (add_client table client) as (λ _. Option (Server F)) [
                | none ↦ none
                | some table' ↦ some (record s { table = table' })
              ]
            ]
            | false ↦ visit_loop (ctrl_max + 1) 0 (record s { table = table }) cnf libc port v
          ])
      go true = joins accepted n.0
      go false =
          visit_loop-Listens sock i (ctrl_max + 1) 0 (record s { table = table }) cnf libc port v z
            n.1 polled

  from_Listens :
      (sock i : ℕ) (es : List (Wakeup F)) (s : Server F) (cnf : Cnf F) (libc : Libc F) (port : ℕ)
      → sock ≢ 0
      → All (Apart sock) es
      → Listens sock i s.table
      → OnSome (λ (s : Server F). Listens sock i s.table) (ctrl_thread es s cnf libc port)
  unfolding ctrl_thread
  from_Listens sock i [] s cnf libc port z n h = h
  from_Listens sock i (e ∷ es) s cnf libc port z n h =
      let P : Server F → Type 0 = λ s. Listens sock i s.table in
      option_split (OnSome P) (ctrl_turn s cnf libc port e) _ _ (λ _. tt)
        (λ s' q.
          from_Listens sock i es s' cnf libc port z n.1
            (OnSome-some P (ctrl_turn-Listens sock i s cnf libc port e z n.0 h) q))

  -- From the table that it is created with on, whatever clients come and go and whatever they send, as
  -- long as no assertion stops it: the control thread keeps its listening socket in its place and in no
  -- other, no more descriptors than fit the array, and polls the socket exactly while there is room for
  -- another client. The descriptors of the FIFO and of the clients are not that of the socket, nor is
  -- what stands in memory just past the array.
  pub ctrl_thread-Listens :
      (fifo : Option ℕ) (sock : ℕ) (table : Ctrl) (control : Control F) (es : List (Wakeup F))
      (cnf : Cnf F) (libc : Libc F) (port : ℕ)
      → sock ≢ 0
      → OnSome (λ f. f ≢ sock) fifo
      → All (Apart sock) es
      → ctrl_create fifo (some sock) ≡ some table
      → OnSome
          (λ (s : Server F). (i : ℕ) × Listens sock i s.table)
          (ctrl_thread es (record { table = table; control = control }) cnf libc port)
  ctrl_thread-Listens fifo sock table control es cnf libc port z f n c =
      let (i, h) =
        OnSome-some (λ (c : Ctrl). (i : ℕ) × Listens sock i c) (ctrl_create-Listens fifo sock z f)
          c in
      OnSome-map (λ (s : Server F). Listens sock i s.table)
        (λ (s : Server F). (i : ℕ) × Listens sock i s.table) _ (λ s k. (i, k))
        (from_Listens sock i es (record { table = table; control = control }) cnf libc port z n h)
