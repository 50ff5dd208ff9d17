-- ===== src/Lib.antt =====
-- A model of glb, a TCP connection balancer, and what holds of it.
--
-- The program. A listener accepts connections of clients and asks the router for a destination
-- (src/glb_router.c); a pool of threads (src/glb_pool.c) then carries the data between the two ends of
-- each connection, and tells the router when a connection ends or fails. Destinations are changed by
-- requests on the control interface (src/glb_control.c) and by the watchdog (src/glb_wdog.c), whose
-- backend threads report on each destination (src/glb_wdog_backend.c, src/glb_wdog_exec.c). The
-- configuration comes from the command line or the environment. What a call on the router does under its
-- lock is one step here; router_connect_dst and glb_router_change_dst let go of the lock between steps.
--
-- The modules.
--   Common, Double: shared names, lists and tests; floating-point numbers as an interface of the
--     operations that the code uses and the laws that the proofs need, with decimal fractions as an
--     instance. The laws are those of IEEE 754 numbers without NaN, infinities and overflow.
--   Time, SockAddr, Dst, Cnf, Limits: src/glb_time.h, src/glb_socket.c, src/glb_dst.h, src/glb_cnf.h and
--     src/glb_limits.c. `SockAddr.Text` prints addresses.
--   Parse: src/glb_dst.c and src/glb_misc.c; strtoul, strtod and gethostbyname are parameters.
--   Config: src/glb_cnf.c, src/glb_env.c, src/glb_cmd.c and src/glb_opt.h. `Config` has the configuration
--     and its defaults, `Options` and `Cmd` the command line (glb_cmd_parse), `EnvOptions` and `Env` the
--     environment (glb_env_parse). getopt_long, getenv, strtol, errno and the rounding of seconds are
--     parameters.
--   Router: src/glb_router.c. `State` has the data and tests; `Top` and `Map` redo the top destination
--     and the map (router_redo_top, router_redo_map); `Check` is the extra check; `Choose` the five
--     policies and router_choose_dst; `Change` glb_router_change_dst, `Stale` what it does after a wait,
--     and `Create` glb_router_create; `Disconnect` router_dst_failed, router_disconnect and
--     glb_router_choose_dst_again; `Connect` glb_router_connect and router_connect_dst; `Busy` has the
--     calls of several threads as steps: the test of max_conn outside the lock, router_connect_dst,
--     which lets go of the lock while it connects, and glb_router_change_dst, which waits for
--     busy_count with what it has looked up; only one thread changes destinations. `Sound` has the invariant and `View` the router as a map of addresses to weights; the
--     other modules have the proofs.
--   Pool: src/glb_pool.c, built for epoll without splice. `Send` is pool_send_data, `Receive`
--     pool_handle_read and pool_handle_write, `Conns` the registry of connections, `Threads` the choice
--     of a thread and pool_handle_conn_complete, `Events` pool_handle_events and pool_handle_ctl,
--     `Broadcast` pool_bcast_ctl, creation and the end.
--   Listener: src/glb_listener.c, one accepted connection through the router and the pool.
--   Wdog: src/glb_wdog.c. `Change` is wdog_change_dst, `Copy` wdog_copy_result, `Collect`
--     wdog_collect_results, `Members` wdog_process_membership_change, `Main` wdog_main_loop, `Create`
--     glb_wdog_create and wdog_dst_cleanup.
--   Backend: src/glb_wdog_backend.c and src/glb_wdog_exec.c. `Context` is what the threads share,
--     `Command` and `Reply` what is sent to the process and read from it, `Thread` the life of an exec
--     thread and `Steps` the same with the watchdog and the probes as steps, `Factory`
--     wdog_backend_factory.
--   Control: src/glb_control.c. `Clients` is the table of descriptors, `Request` ctrl_handle_request,
--     `Serve` ctrl_thread and glb_ctrl_create; what stands past the array is an argument.
--   Proc: src/glb_proc.c, by the descriptors that are opened and closed.
--   The modules named Tests apply the theorems at concrete data.
--
-- What comes from outside, such as the time, the answers of backends, results of system calls and of
-- memory allocation, is an argument of the definitions (World, Alloc, Sent, Received, Start, Libc).
-- Assertions are those of a build without NDEBUG where a definition returns an Option: none is the
-- end of the process.
--
-- Bounds and fuel. Numbers are not negative where the code keeps them so; counters do not wrap in
-- the life of a process. The loop of the policy round makes as many rounds as there are
-- destinations. The loops over descriptors have POOL_MAX_FD rounds, as the assertion in them has it;
-- that of the control thread has 33, one more than there are entries. The watchdog makes eleven
-- first rounds at most, as the code has it. The attempts of a synchronous connection are a list,
-- because the code may go on without end.
--
-- Not modelled: waiting for locks as such, and the interleaving of threads other than those that
-- share a router (Router.Busy, with one thread that changes destinations; Router.Stale, with two) or
-- the context of a backend thread (Backend.Steps); the wait of a caller for the confirmation of a
-- pool thread; the poll build and splicing in the pool; the
-- preloaded library, with its copy of the fork protocol; the daemon, signals and logging, which are
-- system calls; and the reports for people.
pub mod Common
pub mod Double
pub mod Time
pub mod SockAddr
pub mod Dst
pub mod Cnf
pub mod Router
pub mod Pool
pub mod Wdog
pub mod Parse
pub mod Config
pub mod Backend
pub mod Control
pub mod Listener
pub mod Limits
pub mod Proc
pub mod Tests
