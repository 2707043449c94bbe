-- ===== src/Lib.antt =====
-- NNTI, the network transport library: a model of its front end, its MPI transport, parts of
-- its InfiniBand transport, its buffer queue, its thread counters and its URLs, and the theorems about
-- them.
--
-- The parts and the files that model them:
--
-- - BufferQueue: nnti/buffer_queue.cpp, a pool of registered buffers. init, pop, push and fini are
--   `trios_buffer_queue_init`, `_pop`, `_push` and `_fini`, over the interface `Registrar` that stands
--   for malloc, free, NNTI_alloc and NNTI_free. BufferQueue/Session has the calls of a client,
--   BufferQueue/Custody says who has which buffer,
--   BufferQueue/Ledger what the calls keep of it, BufferQueue/Failure has single calls.
-- - Threads: the counters of support/threads/trios_threads.cpp, an `int64_t` under a lock.
-- - Mpi: nnti/nnti_mpi.cpp. Mpi/State has its constants and types, Mpi/Machine the state of a process
--   (`transport_global_data`, `target_buffers` and the objects that pointers lead to), the calls of
--   MPI and the monad of its functions. Mpi/Initiate is `NNTI_mpi_send`, `_put` and `_get`;
--   Mpi/Register the registration of memory and the posting of work requests; Mpi/Event
--   `process_event` and `is_wr_complete`; Mpi/Atomics `check_atomic_operation` and the calls on
--   atomic variables; Mpi/Wait `check_target_buffer_progress`, `create_status` and the calls on a
--   user's work request, with `NNTI_mpi_wait` in Mpi/Wait/Loop, `NNTI_mpi_waitany` in Mpi/Wait/Any and
--   `NNTI_mpi_waitall` in Mpi/Wait/All. A function has the name of the source, less its prefix
--   `NNTI_mpi_`.
-- - Mpi/Peer: `create_peer`, `NNTI_mpi_get_url` and `NNTI_mpi_connect`; Mpi/Setup: `NNTI_mpi_init`,
--   `_fini`, `_alloc` and `_free`.
-- - Url: nnti/nnti_utils.c, the parts of a URL; Url/Numbers has what printf and strtol do there.
-- - Front: nnti/nnti.c and nnti/nnti_internal.h. The static table of transports is `Front`, the build's
--   macros are `Build`, and the functions of a transport, the record `Ops`, are parameters on the memory
--   `World`. Front/Session is `NNTI_init` and `NNTI_fini`, Front/Calls all functions that pass a call
--   on, Front/Pack those on packed objects, over XDR functions that are parameters. Front/Request
--   has the calls as data and Front/Desk what the front end promises for a sequence of them.
-- - Ib: nnti/nnti_ib.cpp, the InfiniBand transport: its work requests with `process_event` and the tests
--   of completion; Ib/Tcp and Ib/Exchange are `tcp_read`, `tcp_write` and `tcp_exchange`, Ib/Pool
--   the pools of work requests. Ib/Segments has the loops by which `NNTI_ib_put` and `NNTI_ib_get` cut a
--   transfer into descriptors (Ib/Segments/Gather those to and from a buffer of one segment), and
--   the bytes these move; Ib/Issue has the two operations themselves with `wrmap`, and its children
--   `NNTI_ib_send` and the atomic operations (Message), the work requests that wait to receive
--   (Receive), and `decode_work_request`, the end of `NNTI_ib_wait`, `NNTI_ib_cancel` and what users do
--   with work requests (Cleanup). Ib/Issue/Session has any sequence of these as data. Ib/Register is
--   `NNTI_ib_register_segments` and `NNTI_ib_unregister_memory`, with `buffers_by_bufhash`, and
--   Ib/Status is `create_status`, with the tests of completion on arrays.
-- - Base and Types: lists, maps and Boolean tests over the native numbers, and `NNTI_result_t`.
--
-- How they interact. The transport draws the tags of a buffer from a counter. Registering a buffer
-- posts a receive for commands (Mpi/Register). A PUT or GET of another process sends a command and
-- posts or receives the data (Mpi/Initiate). The events that MPI reports drive both sides
-- (Mpi/Event), from the loop of a wait (Mpi/Wait), which also serves commands and atomic requests. The
-- buffer queue stands on top of a transport and sees it as a `Registrar`. The front end stands between a
-- user and all transports, and sees each as its `Ops`.
--
-- Conventions. A pointer is an address, NULL is `none`; in Front, where pointers are only passed on,
-- NULL is 0. Unsigned and signed words are natural numbers
-- below 2^w, with the wrap-around written out where the code computes with them or stores them in
-- fewer bits (the `int` of MPI and of the URL functions, the sizes of InfiniBand segments); offsets of
-- transfers are only copied and added. MPI, the clock, the exit flag and the locks' results are the
-- parameter `Env`, which answers by the number of the question. A failed assertion, a NULL that is
-- followed and a thread that waits for a lock that it holds itself are `none`. A function runs under
-- the locks that it takes, so that a call is a step; locks that are given back on every path are left
-- out, the lock of an atomic variable is in the state. MPI calls are recorded in the order made, the
-- latest first.
--
-- Bounds and fuel. Loops are over lists or counts, by recursion on these, without fuel, but for
-- the loops of `NNTI_mpi_wait`, `waitany` and `waitall`, which have a number of rounds and may end
-- without an outcome; how many rounds are enough for the timeout of `wait` is proved. The loops of
-- `tcp_read` and `tcp_write` have a number of rounds too; as many as bytes are enough. The loops over
-- descriptors have one round more than there are segments on both sides, which is enough.
--
-- Not modelled: the stubs of the MPI transport that do nothing; of the
-- InfiniBand transport, connections, the registration of buffers of one segment and of acknowledgement
-- buffers, the loop of its waits; the other transports (Gemini, Portals, DCMF,
-- PAMI), logging, tracing and timers. Work requests' MPI handles belong to MPI.
pub mod Base
pub mod Types
pub mod Threads
pub mod BufferQueue
pub mod Url
pub mod Mpi
pub mod Ib
pub mod Front
