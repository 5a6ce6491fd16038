-- ===== src/Lib.antt =====
-- ngx_lua_cpp: C++ coroutines that Lua code under nginx calls. The program is one class,
-- `ngx_lua_cpp_t`, whose methods are exposed to Lua, with a few helper types beside it, all in
-- src/ngx_lua_cpp.cpp and src/ngx_lua_cpp.h. Paths are from the repository's root.
--
-- The parts, and the files that model them:
--   * `lru_cache_t` (cache_set, cache_get, cache_stats): Cache.antt. The `std::list` is a list of
--     nodes with addresses, the iterators of `iters` are such addresses, and an operation that would
--     use a dangling iterator or pop an empty list has no result. Cache/Spec.antt is the abstract
--     cache: the order of use and a finite map.
--   * `event_bus_t` (pub, events): Bus.antt. Identifiers and cursors are `double` in the code; they
--     are values of any type with the laws of IEEE 754 that Prelude/Double.antt names.
--   * base64url (base64url_encode, base64url_decode): Base64.antt. Base64/Canonical.antt tells which
--     texts the encoder produces.
--   * SHA-256 (sha256, file_sha256): Sha256.antt, Sha256/Transform.antt for the compression function
--     and Sha256/Stream.antt for the file that is read in chunks. Sha256/Fips.antt writes out
--     FIPS 180-4, with nothing of the code: the constants are computed from the primes.
--   * HMAC-SHA256 and random_hex: Hmac.antt. Hmac/Rfc2104.antt writes out the standard's definition.
--   * background jobs (job_submit, job_query, job_list, run_job): Jobs.antt for the table,
--     Jobs/Sieve.antt for the sieve and Jobs/Runner.antt for the coroutine, as a state machine whose
--     steps interleave with any other call. A job is shared between the map and the coroutine: both
--     refer to it by its place in a store. `std::sqrt` and the printing of a `double` are parameters.
--   * UDP (udp_listen, udp_recv, udp_reply, udp_send, udp_echo): Udp/Listener.antt for the listeners,
--     Udp/Thread.antt for their threads, which others stop between any two steps, Udp/Waiting.antt
--     for the condition variable between a thread and the calls that wait, and Udp/Client.antt for the
--     exchanges of a client, on POSIX and on Windows. What a system call returns is an
--     argument; a client's calls are a trace.
--   * the Mandelbrot demo: Mandelbrot.antt for the picture and its two modes, where the order in which
--     the worker threads run the tasks is an argument, and Bmp.antt for the file. `std::log` and
--     `std::log2` are parameters.
--   * the fetcher (`http_get`, `fetch`): Url.antt for the parser of addresses, where a number that no
--     `long` can hold, undefined for `atol`, stops at the largest; Fetch.antt for a request over WinHTTP,
--     whose answers are arguments and whose handles are a trace, and for the fan-out and the fan-in.
--   * the analysis of an access log (`log_parse_time`, `log_analyze`): Log/Time.antt for the time of a
--     line, Log/Calendar.antt for the calendar that it is held against, and Log.antt for the loop over
--     the characters, the counts and the report. `std::atof` is a parameter.
--   * the hook into nginx's event loop (`ngx_hooker_t`, `ngx_queue_t`): Hook/Setup.antt for the
--     constructor, Hook/Queue.antt for nginx's circular list, on a store of links, and Hook.antt for
--     yield, resume, the return values, notify and process_events. Hook/Wakeups.antt has the last two
--     once more, one access of `notified` at a time, as steps that interleave with those of the threads
--     that queue tasks. The contexts of a request, `ngx.sleep` and what an instance does in a pass are
--     parameters.
--   * the life of an instance (the constructor, start, stop, stop_impl, the destructor,
--     set_async_worker, process_events): Lifecycle.antt, with `sleep` and the handler of priority tasks
--     in Lifecycle/Tasks.antt. The operations of the worker pool are parameters, with the laws that
--     Lifecycle/Pool.antt names; Lifecycle/Reachable.antt has the calls as a relation of steps. A pass
--     of the hook calls an instance's process_events, and stopping an instance stops its UDP listeners.
--   * what Lua finds (`lua_registar`, and the traits in src/ngx_lua_cpp.h): Registration.antt.
--
-- Shared helpers are in Prelude.antt and its children: Boolean tests and case splits, lists over the
-- native numbers, bitwise operations on fields, `std::map` as a sorted association list
-- (Prelude/Map.antt), the orders it is sorted by (Prelude/Order.antt), `double` behind its laws
-- (Prelude/Double.antt), and strings as lists of bytes (Prelude/Text.antt).
--
-- Numbers. A `uint32_t`, a `uint64_t` or a `size_t` is a natural number whose wrap-around is written
-- out where the code can reach it. A clock's reading, the result of a system call and the random
-- generator are arguments. Each method that takes a mutex is one atomic step.
--
-- Fuel. `absorb` (SHA-256) runs on as much fuel as there are bytes, since each round takes one at
-- least. The coroutine of a job needs no fuel: Jobs/Ending.antt counts the steps it has left. The loop
-- of the hook's process_events runs on the 1000 passes of its own safety valve. The loop of stop_impl
-- that polls the main thread's warp runs on fuel, and more than the polls until the warp is empty is
-- enough; whether it empties is up to the tasks.
--
-- Not modelled: the coroutine and Lua binding library in src/iris, which is another project's; the
-- web page, configuration and demo scripts; the guard that keeps an instance's warp preempted, which
-- is part of that library. Interleavings are sequences of steps: the memory orders of the atomic
-- variables, which are weaker, are not modelled, nor is the data race on the socket of a listener
-- that is stopped.
-- A coroutine's hops between the nginx thread and the worker pool are not written out where they
-- change no state of the program.
pub mod Prelude
pub mod Cache
pub mod Bus
pub mod Base64
pub mod Sha256
pub mod Hmac
pub mod Jobs
pub mod Udp
pub mod Bmp
pub mod Mandelbrot
pub mod Url
pub mod Fetch
pub mod Log
pub mod Hook
pub mod Lifecycle
pub mod Registration
