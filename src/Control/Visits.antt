-- ===== src/Control/Visits.antt =====
-- src/glb_control.c: the loop over the entries that are ready comes back.
use glb.Common.{
  ℕ, zero, suc, ◌<◌, ◌≡◌, ◌≢◌, refl, sym, ap, ◌∙◌, inl, inr, Bool, true, false, Option, none, some,
  get_elem?, ltb, arith, OnSome-some, if_split, if◌then◌else◌, Bool-cases, option_split,
  option_at_some,
}
use mathlib.Core.Option.{some-injective}
use glb.Double.{Double}
use glb.Cnf.{Cnf}
use glb.Router.Disconnect.{is_index}
use glb.Parse.Dst.{Libc}
use glb.Control.Clients.{PollFd, del_client}
use glb.Control.Request.{handle_request}
use glb.Control.Serve.{Read, closed, reset, text, Visit, Server, visit, visit_at, visit_loop}
use glb.Control.Listening.{Held, Listens}
use glb.Control.Keeps.{Past, visit_at-Listens}
use glb.Control.Quiet.{Returns, Idle, Quiet, del_client-Returns}

-- A request, not the end of a connection.
abbrev pub is_text : Read → Bool
is_text (text t) = true
is_text _ = false

module _ {F : Type 0} ⦃fp : Double F⦄ where
  -- The FIFO, at index 0 where there is one, gives requests; and what stands past the array is not ready.
  abbrev pub Sane : ℕ → (ℕ → Visit F) → Type 0
  Sane i v = (i ≢ 0 → is_text (v 0).read ≡ true) × ((fd : ℕ) → (v fd).past.revents ≡ false)

  visit-Returns :
      (sock i j : ℕ) (s : Server F) (cnf : Cnf F) (libc : Libc F) (port : ℕ) (v : Visit F)
      (p : PollFd)
      → sock ≢ 0
      → p.fd ≢ sock
      → (j ≡ 0 → is_text v.read ≡ true)
      → j < s.table.fd_max
      → get_elem? s.table.fds j ≡ some p
      → Held sock i s.table
      → Quiet i s.table
      → Returns (λ (q : Bool × Server F). Quiet i q.1.table) (visit s cnf libc port v p.fd)
  unfolding visit
  visit-Returns sock i j s cnf libc port v p z n t l g h q = go v.read t
    where
      P : Option (Bool × Server F) → Type 0
      P = Returns λ (q : Bool × Server F). Quiet i q.1.table

      gone :
          (leaves : Bool)
          → 0 < j
          → P (elim (del_client s.table p.fd) as (λ _. Option (Bool × Server F)) [
            | none ↦ none
            | some table ↦ some (leaves, record s { table = table })
          ])
      gone leaves pos_j =
          let (c, e, k) = del_client-Returns sock i j s.table p z n pos_j l g h q in
          (
            (leaves, record s { table = c }),
            option_at_some none (λ table. some (leaves, record s { table = table })) e,
            k,
          )

      positive : (k : ℕ) → (k ≡ 0 → false ≡ true) → 0 < k
      positive zero f = absurd (cc (f refl))
      positive (suc k) f = omega arith

      go :
          (r : Read)
          → (j ≡ 0 → is_text r ≡ true)
          → P (
              let without : Bool → Option (Bool × Server F) = λ leaves.
                elim (del_client s.table p.fd) [
                  | none ↦ none
                  | some table ↦ some (leaves, record s { table = table })
                ] in
              elim r as (λ _. Option (Bool × Server F)) [
                | closed ↦ without false
                | reset ↦ without true
                | text t ↦ some (
                  false,
                  record s {
                    control = (handle_request s.control cnf libc port v.alloc v.start t).1;
                  },
                )
              ])
      go closed t = gone false (positive j t)
      go reset t = gone true (positive j t)
      go (text _) t = (_, refl, q)

  visit_at-Returns :
      (sock i fd : ℕ) (s : Server F) (cnf : Cnf F) (libc : Libc F) (port : ℕ) (v : ℕ → Visit F)
      → sock ≢ 0
      → Sane i v
      → Held sock i s.table
      → Quiet i s.table
      → Returns (λ (q : Bool × Server F). Quiet i q.1.table) (visit_at s cnf libc port (v fd) fd)
  unfolding visit_at
  visit_at-Returns sock i fd s cnf libc port v z sane h q =
      let P : Option (Bool × Server F) → Type 0 =
        Returns λ (q : Bool × Server F). Quiet i q.1.table in
      option_split P (get_elem? s.table.fds fd) _ _
        (λ _.
          if_split P (v fd).past.revents _ (some (false, s)) (λ b. absurd (cc (sym b ∙ sane.1 fd)))
            (λ _. ((false, s), refl, q)))
        (λ p e.
          let visited = visit s cnf libc port (v fd) p.fd in
          if_split P p.revents (if is_index s.table.inet_fd fd then none else visited)
            (some (false, s))
            (λ r.
              let other : fd ≢ i =
                λ d. absurd (cc (sym r ∙ q.1 p (ap (λ k. get_elem? s.table.fds k) (sym d) ∙ e))) in
              let low : fd < s.table.fd_max = in_use p e r in
              if_split P (is_index s.table.inet_fd fd) none visited
                (λ b. absurd (other (index_of s.table.inet_fd h.index b)))
                (λ _.
                  visit-Returns sock i fd s cnf libc port (v fd) p z (λ d. other (h.only fd p e d))
                    (first other) low e h q))
            (λ _. ((false, s), refl, q)))
    where
      in_use :
          (p : PollFd) → get_elem? s.table.fds fd ≡ some p → p.revents ≡ true → fd < s.table.fd_max
      in_use p e r = elim (Bool-cases (ltb fd s.table.fd_max)) [
        | inl b ↦ ground (arith, b)
        | inr b ↦ absurd (cc (sym r ∙ q.0 fd p (ground (arith, b)) e))
      ]

      index_of : (o : Option ℕ) → o ≡ some i → is_index o fd ≡ true → fd ≡ i
      index_of none e b = absurd (cc e)
      index_of (some k) e b = ground (arith, b, some-injective k i e)

      first : fd ≢ i → fd ≡ 0 → is_text (v fd).read ≡ true
      first n e = ap (λ k. is_text (v k).read) e ∙ sane.0 (λ d. n (e ∙ sym d))

  pub visit_loop-Returns :
      (sock i left fd : ℕ) (s : Server F) (cnf : Cnf F) (libc : Libc F) (port : ℕ) (v : ℕ → Visit F)
      → sock ≢ 0
      → ((fd : ℕ) → Past sock (v fd))
      → Sane i v
      → Listens sock i s.table
      → Quiet i s.table
      → Returns (λ (s : Server F). Idle s.table) (visit_loop left fd s cnf libc port v)
  unfolding visit_loop
  visit_loop-Returns sock i zero fd s cnf libc port v z past sane h q = (s, refl, q.0)
  visit_loop-Returns sock i (suc left) fd s cnf libc port v z past sane h q =
      let P : Server F → Type 0 = λ s. Idle s.table in
      elim (Bool-cases (ltb s.table.fd_max fd)) [
        | inl b ↦ rw (b, visit_loop) (s, refl, q.0)
        | inr b ↦
            let ((leaves, s'), e, k) =
              visit_at-Returns sock i fd s cnf libc port v z sane h.held q in
            let h' : Listens sock i s'.table =
              OnSome-some (λ (p : Bool × Server F). Listens sock i p.1.table)
                (visit_at-Listens sock i s cnf libc port (v fd) fd z (past fd) h) e in
            let rest =
              visit_loop-Returns sock i left (suc fd) s' cnf libc port v z past sane h' k in
            rw (b, visit_loop, e) (leave leaves s' k.0 rest)
      ]
    where
      leave :
          (leaves : Bool) (s' : Server F) {o : Option (Server F)}
          → Idle s'.table
          → Returns (λ (s : Server F). Idle s.table) o
          → Returns
              (λ (s : Server F). Idle s.table)
              (elim leaves as (λ _. Option (Server F)) [ true ↦ some s' | false ↦ o ])
      leave true s' k r = (s', refl, k)
      leave false s' k r = r
