-- ===== src/Router/Requests.antt =====
-- src/glb_router.c: each step of a thread that makes requests keeps the router safe.
use glb.Common.{
  ℕ, suc, ◌+◌, ◌-◌, ◌≡◌, ◌≤◌, ◌<◌, ap, subst, ◌∙◌, inl, inr, false, Option, none, some, List, ◌∷◌,
  ◌++◌, length, arith, All, OnSome, OnSome-some, option_split,
}
use glb.Double.{Double}
use glb.Cnf.{Cnf}
use glb.Router.State.{Router}
use glb.Router.Choose.{World, choose_dst}
use glb.Router.Connect.{connect_async, connect_failed}
use glb.Router.Attempts.{Undone, connect_failed-Undone}
use glb.Router.Invariant.{choose_dst-IsSound}
use glb.Router.Again.{Counted, choose_dst-Counted}
use glb.Router.Addrs.{addrs, choose_dst-addrs, Quiet, connect_failed-Quiet}
use glb.Router.Busy.{Making, Shared, is_full, try_dst, begin_connect, fail_connect, end_connect}
use glb.Router.Places.{
  InPlace, InPlace-addrs, length-take_out, All-take_out, StillFound-addrs, Safe, try_dst-Safe,
}

module _ {F : Type 0} ⦃fp : Double F⦄ where
  -- One of the threads that have passed the test makes its request.
  pub begin_connect-Safe :
      (n : ℕ) (cnf : Cnf F) (s : Shared F) (k hint : ℕ) (w : World)
      → s.admitted ≡ suc k
      → Safe n cnf s
      → Safe n cnf (begin_connect (record s { admitted = k }) cnf hint w)
  unfolding begin_connect
  begin_connect-Safe n cnf s k hint w e h =
      try_dst-Safe n cnf (record s { admitted = k; busy_count = s.busy_count + 1 }) hint w h.sound
        (omega (arith, e, h.bound)) (omega (arith, e, h.callers)) (omega (arith, h.busy)) h.places
        h.still

  -- The thread is taken out, but still counted.
  pub fail_connect-Safe :
      (n : ℕ) (cnf : Cnf F) (s t : Shared F) (xs ys : List Making) (m : Making) (now hint : ℕ)
      (w : World)
      → Safe n cnf s
      → s.connecting ≡ xs ++ m ∷ ys
      → fail_connect (record s { connecting = xs ++ ys }) cnf now m.index hint w ≡ some t
      → Safe n cnf t
  unfolding fail_connect
  fail_connect-Safe n cnf s t xs ys m now hint w h e f =
      OnSome-some (Safe n cnf)
        (option_split (OnSome (Safe n cnf)) (connect_failed s.router cnf now m.index) none
          (λ (router' : Router F).
            some (try_dst (record s { router = router'; connecting = xs ++ ys }) cnf hint w))
          (λ _. tt)
          (λ router' g.
            let undone : Undone s.router router' =
              OnSome-some (Undone s.router) (connect_failed-Undone s.router cnf now m.index h.sound)
                g in
            let quiet : Quiet s.router router' =
              OnSome-some (Quiet s.router) (connect_failed-Quiet s.router cnf now m.index h.sound)
                g in
            let count : length s.connecting ≡ suc (length (xs ++ ys)) =
              ap length e ∙ length-take_out xs m ys in
            try_dst-Safe n cnf (record s { router = router'; connecting = xs ++ ys }) hint w
              undone.0 (omega (arith, undone.1, h.bound)) (omega (arith, count, h.callers))
              (h.busy ∙ count)
              (InPlace-addrs s.router router' (xs ++ ys) quiet.0 (
                All-take_out (InPlace s.router) xs m ys
                  (subst (All (InPlace s.router)) e h.places)))
              (StillFound-addrs s.router router' s.waiting quiet.0 h.still)))
        f

  pub end_connect-Safe :
      (n : ℕ) (cnf : Cnf F) (s : Shared F) (xs ys : List Making) (m : Making)
      → Safe n cnf s
      → s.connecting ≡ xs ++ m ∷ ys
      → Safe n cnf (end_connect s (xs ++ ys))
  unfolding end_connect
  end_connect-Safe n cnf s xs ys m h e =
      let count : length s.connecting ≡ suc (length (xs ++ ys)) =
        ap length e ∙ length-take_out xs m ys in
      record {
        sound = h.sound;
        bound = h.bound;
        callers = omega (arith, count, h.callers);
        busy = omega (arith, h.busy, count);
        places =
            All-take_out (InPlace s.router) xs m ys (subst (All (InPlace s.router)) e h.places);
        still = h.still;
      }

  -- A thread passes the test: there is room, whatever the others that have passed it add.
  pub admits-Safe :
      (n : ℕ) (cnf : Cnf F) (s : Shared F) (k : ℕ)
      → s.idle ≡ suc k
      → is_full s.router cnf ≡ false
      → Safe n cnf s
      → Safe n cnf (record s { idle = k; admitted = s.admitted + 1 })
  unfolding is_full
  admits-Safe n cnf s k e f h = record {
    sound = h.sound;
    bound =
        let room : s.router.conns < cnf.max_conn = ground (arith, f) in
        omega (arith, room, e, h.callers);
    callers = omega (arith, e, h.callers);
    busy = h.busy;
    places = h.places;
    still = h.still;
  }

  -- A request that does not connect itself.
  pub asks-Safe :
      (n : ℕ) (cnf : Cnf F) (s : Shared F) (k hint : ℕ) (w : World)
      → s.admitted ≡ suc k
      → Safe n cnf s
      → Safe n cnf (record s {
        router = (connect_async s.router cnf hint w).1;
        admitted = k;
        idle = s.idle + 1;
      })
  unfolding connect_async
  asks-Safe n cnf s k hint w e h =
      let c = choose_dst s.router hint cnf w in
      let same : addrs c.1 ≡ addrs s.router = choose_dst-addrs s.router hint cnf w h.sound in
      record {
        sound = choose_dst-IsSound s.router hint cnf w h.sound;
        bound = one_more c (choose_dst-Counted s.router hint cnf w h.sound);
        callers = omega (arith, e, h.callers);
        busy = h.busy;
        places = InPlace-addrs s.router c.1 s.connecting same h.places;
        still = StillFound-addrs s.router c.1 s.waiting same h.still;
      }
    where
      one_more :
          (c : Option ℕ × Router F) → Counted s.router c → c.1.conns + k ≤ cnf.max_conn + (n - 1)
      one_more c (inl (f, m)) = omega (arith, m, e, h.bound)
      one_more c (inr (i, (f, m))) = omega (arith, m, e, h.bound)
