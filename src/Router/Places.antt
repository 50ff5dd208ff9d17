-- ===== src/Router/Places.antt =====
-- The destinations stay in their places while some thread connects to one of them.
use glb.Common.{
  ℕ, suc, ◌+◌, not, sym, OnSome, ◌-◌, ◌≤◌, ◌≡◌, refl, ap, ◌∙◌, inl, inr, Option, none, some, List,
  [], ◌∷◌, ◌++◌, length, get_elem?, arith, All, option_split,
}
use glb.Double.{Double}
use glb.Cnf.{Cnf}
use glb.Router.State.{Router, n_dst}
use glb.Router.Choose.{World, choose_dst}
use glb.Router.Sound.{IsSound}
use glb.Router.Invariant.{choose_dst-IsSound}
use glb.Router.Again.{Counted, choose_dst-Counted}
use glb.Router.Addrs.{addrs, addrs-get, choose_dst-addrs, find_dst-addrs, n_dst-addrs}
use glb.Router.Busy.{Making, Waiting, Shared, try_dst}
use glb.Router.Change.{find_dst}
use glb.Router.Check.{is_none}

module _ {F : Type 0} where
  abbrev pub InPlace : Router F → Making → Type 0
  InPlace r m = get_elem? (addrs r) m.index ≡ some m.addr

  pub InPlace-addrs :
      (r q : Router F) (ms : List Making)
      → addrs q ≡ addrs r
      → All (InPlace r) ms
      → All (InPlace q) ms
  InPlace-addrs r q [] e h = tt
  InPlace-addrs r q (m ∷ ms) e h =
      (ap (λ l. get_elem? l m.index) e ∙ h.0, InPlace-addrs r q ms e h.1)

-- One entry is taken out.
module _ {ℓ} {A : Type ℓ} where
  pub length-take_out :
      (xs : List A) (m : A) (ys : List A) → length (xs ++ m ∷ ys) ≡ suc (length (xs ++ ys))
  length-take_out [] m ys = refl
  length-take_out (x ∷ xs) m ys = ap suc (length-take_out xs m ys)

  pub All-take_out :
      (P : A → Type 0) (xs : List A) (m : A) (ys : List A) → All P (xs ++ m ∷ ys) → All P (xs ++ ys)
  All-take_out P [] m ys h = h.1
  All-take_out P (x ∷ xs) m ys h = (h.0, All-take_out P xs m ys h.1)

module _ {F : Type 0} ⦃fp : Double F⦄ where
  -- What was looked up before the wait is still so.
  abbrev pub StillFound : Router F → Waiting F → Type 0
  StillFound r v =
      (find_dst v.dst 0 r.dst ≡ v.found)
      × (v.n_dst ≡ n_dst r)
      × (is_none v.found ≡ not (fp.lt v.dst.weight fp.nought))

  pub StillFound-addrs :
      (r q : Router F) (o : Option (Waiting F))
      → addrs q ≡ addrs r
      → OnSome (StillFound r) o
      → OnSome (StillFound q) o
  StillFound-addrs r q none e h = tt
  StillFound-addrs r q (some v) e h =
      (find_dst-addrs v.dst 0 r.dst q.dst e ∙ h.0, h.1 ∙ sym (n_dst-addrs r q e), h.2)

  -- The router is consistent, and exceeds the limit on connections by at most the other threads that
  -- make requests, of `n` in all; busy_count is the number of threads that are connecting, and each of
  -- them points to the destination that it connects to; and what a thread that waits has found is still
  -- there.
  pub record Safe (n : ℕ) (cnf : Cnf F) (s : Shared F) : Type 0 where
    pub sound : IsSound s.router
    pub bound : s.router.conns + s.admitted ≤ cnf.max_conn + (n - 1)
    pub callers : s.idle + s.admitted + length s.connecting ≡ n
    pub busy : s.busy_count ≡ length s.connecting
    pub places : All (InPlace s.router) s.connecting
    pub still : OnSome (StillFound s.router) s.waiting

  -- A call that goes on with the same threads.
  pub Safe-router :
      (n : ℕ) (cnf : Cnf F) (s : Shared F) (router : Router F)
      → Safe n cnf s
      → IsSound router
      → router.conns ≤ s.router.conns
      → addrs router ≡ addrs s.router
      → Safe n cnf (record s { router = router })
  Safe-router n cnf s router h sound le e = record {
    sound = sound;
    bound = omega (arith, le, h.bound);
    callers = h.callers;
    busy = h.busy;
    places = InPlace-addrs s.router router s.connecting e h.places;
    still = StillFound-addrs s.router router s.waiting e h.still;
  }

  -- One more thread is counted than those that point to a destination.
  pub try_dst-Safe :
      (n : ℕ) (cnf : Cnf F) (s : Shared F) (hint : ℕ) (w : World)
      → IsSound s.router
      → s.router.conns + s.admitted + 1 ≤ cnf.max_conn + (n - 1)
      → s.idle + s.admitted + length s.connecting + 1 ≡ n
      → s.busy_count ≡ suc (length s.connecting)
      → All (InPlace s.router) s.connecting
      → OnSome (StillFound s.router) s.waiting
      → Safe n cnf (try_dst s cnf hint w)
  unfolding try_dst
  try_dst-Safe n cnf s hint w sound bound callers busy places still =
      go (choose_dst s.router hint cnf w) (choose_dst-IsSound s.router hint cnf w sound)
        (choose_dst-Counted s.router hint cnf w sound)
        (InPlace-addrs s.router ((choose_dst s.router hint cnf w).1) s.connecting
          (choose_dst-addrs s.router hint cnf w sound) places)
        (StillFound-addrs s.router ((choose_dst s.router hint cnf w).1) s.waiting
          (choose_dst-addrs s.router hint cnf w sound) still)
    where
      le :
          (c : Option ℕ × Router F)
          → Counted s.router c
          → c.1.conns + s.admitted ≤ cnf.max_conn + (n - 1)
      le c (inl (e, k)) = omega arith
      le c (inr (i, (e, k))) = omega arith

      go :
          (c : Option ℕ × Router F)
          → IsSound c.1
          → Counted s.router c
          → All (InPlace c.1) s.connecting
          → OnSome (StillFound c.1) s.waiting
          → Safe n cnf (
              let ended = record s {
                router = c.1;
                busy_count = s.busy_count - 1;
                idle = s.idle + 1;
              } in
              elim c.0 as (λ _. Shared F) [
                | none ↦ ended
                | some i ↦ elim (get_elem? c.1.dst i) as (λ _. Shared F) [
                  | none ↦ ended
                  | some d ↦ record s {
                    router = c.1;
                    connecting = record { index = i; addr = d.dst.addr } ∷ s.connecting;
                  }
                ]
              ])
      go (none, r) sd ct pl st = record {
        sound = sd;
        bound = le (none, r) ct;
        callers = omega arith;
        busy = omega arith;
        places = pl;
        still = st;
      }
      go (some i, r) sd ct pl st =
          option_split (Safe n cnf) (get_elem? r.dst i) _ _
            (λ _. record {
              sound = sd;
              bound = le (some i, r) ct;
              callers = omega arith;
              busy = omega arith;
              places = pl;
              still = st;
            })
            (λ d e. record {
              sound = sd;
              bound = le (some i, r) ct;
              callers = omega arith;
              busy = busy;
              places = (addrs-get r.dst i d e, pl);
              still = st;
            })
