-- ===== src/Lib.antt =====
-- LiteFlow, a tunnel that carries TCP and UDP flows over one reliable UDP transport (litedt).
-- This library models the transport, from its data structures and congestion control to the
-- protocol engine, and verifies it.
--
-- The program's parts. The protocol engine, src/litedt.c, holds one host per peer
-- (litedt_host_t) with its connections. A connection keeps its bytes in two ring buffers
-- (common/rbuffer.c), its packets in flight in a retransmission module (src/retrans.c), and
-- selective acknowledgements in an ordered map (common/treemap.c), which the ring buffers and
-- the packet lists use too. Acknowledgements release packets and feed a rate sample to
-- src/ctrl.c, a controller in the manner of BBR, which sets the pacing rate and the window of
-- the host from two windowed filters (common/windowed_filter.c). Packets that are due wait in
-- a timer list (common/timerlist.c) that all connections of a host share.
--
-- The files, and what they model:
--   Base       numbers of 32 and 64 bits with their wrap-around, Boolean tests, lists.
--   Seq        LESS_EQUAL, BEFORE, AFTER and seq_cmp of src/util.h.
--   Filter     common/windowed_filter.c: filter_update_max and filter_update_min return the new filter.
--   Config     transport_settings_t of src/config.h.
--   Host       the fields of litedt_host_t that the models read, and rate_sample_t.
--   Ctrl       src/ctrl.c, every function under its name; long functions are cut into their parts.
--   Treemap    common/treemap.c. A tree is a value; an operation that would read through NULL returns
--              none. The cached pointer tm->first is the key of its node.
--   Retrans    src/retrans.c. The packet list is the entries of the ordered map in order, which the
--              theorems of Treemap justify; the waiting queue is the sequence numbers in it; the shared
--              timer list is the interface TimerQueue.
--   Rbuffer    common/rbuffer.c. Blocks and data are functions from an index to a byte.
--   Timerlist  common/timerlist.c: the heap, the chains and the nodes are functions from an index.
--   Hashqueue  common/hashqueue.c: the pool, the buckets and the links are functions from an index.
--   Messages   src/litedt_messages.h: the packed layout as bytes, and the checks of litedt_io_event on
--              the length of what arrived (Messages/Codec).
--   Fec        src/fec.c. The queue of groups is the entries of the hash queue in their order; what
--              fec_post and fec_push_data send, and what fec_insert recovers, is returned.
--   Litedt     src/litedt.c, and retrans_queue_send and handle_retrans of src/retrans.c. Send, Post and
--              Sack hold the senders, Table the connections, User what the program above calls, Control,
--              Receive and Ack the handlers, Transmit and Timer the timed work, Event the entry points. The
--              files from Follow to Steps are about the states of the connections.
--   Samples    values for the examples that stand in the modules named Examples.
--
-- The engine is a state, Engine, for litedt_host_t with its connections, and a computation on it, Run,
-- which either faults or returns a state and a value. What it sends and what it calls back is written
-- to a log in the state. The record Env holds what one call of an entry point meets from outside: the
-- two clocks, which allocations work (of a time-wait record, of the queue of an error correction module,
-- of each block, and all others), what sys_send and connect_cb answer, the time-out from a round trip
-- (a product with a float) and the digest of a token.
--
-- A function that writes through a pointer returns what it wrote. A program error (a read
-- through NULL, a failed assertion, a division by 0, or a write behind a heap that was grown) is none.
-- Loops that are not structural run on fuel: the deletion of the map on the size of the tree, the
-- checkpoint of retransmission on the length
-- of the list, the copying and the release of ring buffers on the number of bytes. That these
-- are enough is part of the theorems, which say that a result is returned. The loops of the
-- heap run on an index or on the number of entries, and stop where the fuel ends. The loops of the
-- engine run on the connections that are due, the packets that are ready, the bytes that wait or twice
-- the ranges to acknowledge; each round takes one of them. Times are natural numbers of microseconds,
-- as the monotonic clock is never negative.
--
-- Not modelled: sockets and the event loop (src/liteflow.c, src/tcp.c, src/udp.c, src/main.c), the
-- parser of src/config.c, and digests and hashes from third parties (common/sha256.c,
-- common/hash_32.c). In the modelled files: the iteration of the map by parent pointers and the
-- product with rto_ratio. Of the engine: callbacks that call back into it, a clock that moves within one
-- call, the order of entries with equal times in its timer lists, and the setters of callbacks.
pub mod Base
pub mod Seq
pub mod Filter
pub mod Config
pub mod Host
pub mod Ctrl
pub mod Treemap
pub mod Retrans
pub mod Rbuffer
pub mod Timerlist
pub mod Hashqueue
pub mod Fec
pub mod Litedt
pub mod Messages
pub mod Samples
