-- ===== src/Pool/EventCounts.antt =====
-- Whatever events a pool thread is given, its counters agree with its connections.
use glb.Common.{
  ℕ, ◌+◌, ◌<◌, ◌≡◌, refl, Bool, true, false, not, ◌&&◌, Option, none, some, List, [], ◌∷◌, length,
  length-set, arith, OnSome-some, option_split, if_intro,
}
use glb.SockAddr.{SockAddr}
use glb.Pool.State.{End, Conn, Stats, is_incomplete}
use glb.Pool.Send.{Sending}
use glb.Pool.Receive.{Reading, handle_read, handle_write}
use glb.Pool.Conns.{Pool, Done, nothing_done, find_conn, remove_found, handle_stats}
use glb.Pool.Threads.{reconnect, conn_failed}
use glb.Pool.Counts.{
  IsPool, Kept, find_conn-lt, remove_found-IsPool, remove_conn-OnSome, handle_add_conn-IsPool,
  after-Kept, handle_drop_dst-Kept, handle_shutdown-Kept,
}
use glb.Pool.Events.{
  Ctl, add_conn, drop_dst, stats, shutdown, unsupported, Io, Event, ctl, io, end_at, conn_of,
  put_conn, uncount_poll, count_read, count_write, removed_fd, remove_sock, read_at, write_at,
  read_event, write_event, io_event, handle_ctl, handle_events,
}

-- Only the counters of connections and descriptors matter.
same-IsPool :
    (p q : Pool)
    → q.n_conns ≡ p.n_conns
    → q.fd_max ≡ p.fd_max
    → q.pollfds_len ≡ p.pollfds_len
    → length q.conns ≡ length p.conns
    → IsPool p
    → IsPool q
same-IsPool p q n f a l h = record {
  counted = omega (arith, n, l, h.counted);
  descriptors = omega (arith, f, l, h.descriptors);
  allocated = omega (arith, f, a, h.allocated);
}

put_conn-IsPool : (p : Pool) (i : ℕ) (c : Conn) (s : Stats) → IsPool p → IsPool (put_conn p i c s)
unfolding put_conn
put_conn-IsPool p i c s h =
    same-IsPool p (put_conn p i c s) refl refl refl (length-set p.conns i c) h

remove_sock-Kept : (p : Pool) (fd : Option ℕ) → IsPool p → Kept (remove_sock p fd)
unfolding remove_sock
remove_sock-Kept p none h = tt
remove_sock-Kept p (some fd) h = remove_conn-OnSome p fd true h

conn_failed-Kept :
    (p : Pool) (fd : ℕ) (again : Option SockAddr) (started : Option ℕ)
    → IsPool p
    → Kept (conn_failed p fd again started)
unfolding conn_failed reconnect
conn_failed-Kept p fd again started h =
    option_split Kept (find_conn fd 0 p.conns) _ _ (λ _. tt)
      (λ (f : ℕ × Conn × Bool) e.
        let lt =
          OnSome-some (λ (f : ℕ × Conn × Bool). f.0 < 0 + length p.conns)
            (find_conn-lt fd 0 p.conns) e in
        let inside : f.0 < length p.conns = omega (arith, lt) in
        option_split Kept again _ _ (λ _. remove_found-IsPool p f.0 f.1 true false inside h)
          (λ addr _.
            option_split Kept (remove_found p f.0 f.1 false false) none
              (λ d. some (reconnect d f.1 addr started)) (λ _. tt)
              (λ (d : Done) g.
                let moved : Conn = record f.1 {
                  dst = record f.1.dst { addr = addr; sock = none };
                } in
                let kept : IsPool d.pool =
                  OnSome-some (λ (x : Done). IsPool x.pool)
                    (remove_found-IsPool p f.0 f.1 false false inside h) g in
                handle_add_conn-IsPool d.pool moved started kept)))

read_at-Kept :
    (p : Pool) (i : ℕ) (c : Conn) (b : Bool) (e : Io) → IsPool p → Kept (read_at p i c b e).0
unfolding read_at
read_at-Kept p i c b e h =
    let r : Reading = handle_read p.stats (end_at b c) (end_at (not b) c) e.received e.passed in
    let q : Pool = put_conn p i (conn_of b r.src r.dst) r.stats in
    let kept : IsPool q = put_conn-IsPool p i (conn_of b r.src r.dst) r.stats h in
    if_intro Kept r.removes (remove_sock q (removed_fd e.fd e.received r.dst))
      (some (nothing_done q)) (remove_sock-Kept q (removed_fd e.fd e.received r.dst) kept) kept

write_at-Kept :
    (p : Pool) (i : ℕ) (c : Conn) (b : Bool) (e : Io) → IsPool p → Kept (write_at p i c b e)
unfolding write_at
write_at-Kept p i c b e h =
    let s : Sending = handle_write p.stats (end_at b c) (end_at (not b) c) e.sent in
    let src : End = elim s.src [ none ↦ end_at (not b) c | some x ↦ x ] in
    let q : Pool = put_conn p i (conn_of b s.dst src) s.stats in
    let kept : IsPool q = put_conn-IsPool p i (conn_of b s.dst src) s.stats h in
    if_intro Kept (is_incomplete (end_at b c).kind && e.broken) _ _
      (conn_failed-Kept p e.fd e.again e.started h)
      (if_intro Kept s.removes (remove_sock q s.dst.sock) (some (nothing_done q))
        (remove_sock-Kept q s.dst.sock kept) kept)

-- The flag that comes with the result does not matter.
read_event-Kept : (p : Pool) (e : Io) → IsPool p → Kept (read_event p e).0
unfolding read_event
read_event-Kept p e h =
    if_intro (λ (r : Option Done × Bool). Kept r.0) e.readable _ _
      (option_split (λ (r : Option Done × Bool). Kept r.0) (find_conn e.fd 0 p.conns) _ _ (λ _. tt)
        (λ (f : ℕ × Conn × Bool) _.
          read_at-Kept (count_read p) f.0 f.1 f.2 e
            (same-IsPool p (count_read p) refl refl refl refl h)))
      h

write_event-Kept : (e : Io) (p : Pool) → IsPool p → Kept (write_event e p)
unfolding write_event
write_event-Kept e p h =
    if_intro Kept e.writable _ _
      (option_split Kept (find_conn e.fd 0 p.conns) _ _ (λ _. tt)
        (λ (f : ℕ × Conn × Bool) _.
          write_at-Kept (count_write p) f.0 f.1 f.2 e
            (same-IsPool p (count_write p) refl refl refl refl h)))
      h

io_event-Kept : (p : Pool) (e : Io) → IsPool p → Kept (io_event p e).0
unfolding io_event
io_event-Kept p e h =
    if_intro (λ (r : Option Done × Bool). Kept r.0) (read_event p e).1 _ _ (read_event-Kept p e h)
      (after-Kept (read_event p e).0 (write_event e) (read_event-Kept p e h)
        (λ q. write_event-Kept e q))

handle_ctl-Kept : (p : Pool) (c : Ctl) → IsPool p → Kept (handle_ctl p c)
unfolding handle_ctl handle_stats
handle_ctl-Kept p (add_conn c started) h =
    handle_add_conn-IsPool (uncount_poll p) c started
      (same-IsPool p (uncount_poll p) refl refl refl refl h)
handle_ctl-Kept p (drop_dst dst before) h =
    handle_drop_dst-Kept (uncount_poll p) dst before
      (same-IsPool p (uncount_poll p) refl refl refl refl h)
handle_ctl-Kept p (stats s) h =
    same-IsPool p (handle_stats (uncount_poll p) s).1 refl refl refl refl h
handle_ctl-Kept p shutdown h =
    handle_shutdown-Kept (uncount_poll p) (same-IsPool p (uncount_poll p) refl refl refl refl h)
handle_ctl-Kept p unsupported h = same-IsPool p (uncount_poll p) refl refl refl refl h

-- Whatever events and commands come at once, and whatever the calls they lead to return, the number of
-- connections, of descriptors and the size of the array agree with the connections that the thread
-- has afterwards, if it comes back.
pub handle_events-Kept : (p : Pool) (events : List Event) → IsPool p → Kept (handle_events p events)
unfolding handle_events
handle_events-Kept p [] h = h
handle_events-Kept p (ctl c ∷ events) h = handle_ctl-Kept p c h
handle_events-Kept p (io e ∷ events) h =
    after-Kept (io_event p e).0 _ (io_event-Kept p e h)
      (λ q k. if_intro Kept (io_event p e).1 _ _ k (handle_events-Kept q events k))
