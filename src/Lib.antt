-- ===== src/Lib.antt =====
-- AffiniX: event loops that are each bound to a thread, and what runs on them. Timers wait in a
-- hierarchical wheel and are named by handles of a table; connections read through a framer and write
-- through a buffer, over a backend that reports completions; threads exchange items through rings and
-- channels, which poke the consumer's loop through its mailbox.
--
-- Core/HandleTable models include/afx/core/handle_table.hpp (emplace, get, release, reclaim, for_each,
--   clear). Slots are a list, an object and its `alive` flag an option; generations are 32 bits wide and
--   skip 0, and the index of a new slot is cast to 32 bits.
-- Core/TimerWheel models TimerWheel of include/afx/core/timer_wheel.hpp (insert, cascade, prime,
--   advance, next_due_tick). A bucket is the list of its nodes; a callback is the list of nodes that it
--   re-arms. `level_of` has 8 rounds of fuel, one for each byte of a 64-bit distance, and the loops over
--   a slot and up to the target are given the slot's length and the distance as fuel. Not modelled:
--   unlink, TimerHeap, TimerGroupState.
-- Core/IoBuffer models include/afx/core/io_buffer.hpp. A copy that would leave the allocation is `none`, and so
--   is a doubling of the capacity that does not end: sizes have 64 bits and wrap, and after 64 doublings the
--   capacity is 0, so that the 65 rounds of fuel of `doubled` are enough to tell.
-- Core/Context models include/afx/core/context.hpp and the merge of contexts in `spawn` of
--   include/afx/core/event_manager.hpp.
-- Core/Histogram models Histogram of include/afx/core/stats.hpp, less `mean` and `percentile`, which
--   compute in double.
-- Core/FlightRecorder models include/afx/core/flight_recorder.hpp; `dump` is a snapshot written to a file.
-- Core/Arena and Core/Pool model include/afx/core/arena.hpp, less the mapping of its region, and
--   include/afx/core/pool.hpp: a slot is its number, and a chunk comes from the arena or from the heap.
-- Core/EventManager models the timers of include/afx/core/event_manager.hpp: a timer is its place in a
--   table, and its lists are flags of its node. A callback is the list of calls that it makes; which timer
--   comes up is an argument. `coalesce` has a round of fuel more than the present time in nanoseconds,
--   which is enough as the period is not 0 (Core/EventManager/Rate). Core/EventManager/Deferred models
--   defer and run_deferred, and Core/EventManager/Shutdown begin_shutdown and drain_step over the hooks of
--   what the loop owns, with a drain timer that comes up by ticks; how far the wheel is behind the clock at a
--   poll is an argument. Core/EventManager/Sinks models the sinks, dispatch_completions and flush_writes.
-- Itc/SpscRing models include/afx/itc/spsc_ring.hpp, positions of 64 bits that wrap; an operation is
--   one step, memory orders are not modelled.
-- Itc/MpscRing models include/afx/itc/mpsc_ring.hpp: one access of a thread to an atomic or to a cell is a
--   step, and a run is any sequence of the steps of any number of producers and of one consumer. A load
--   reads the last store, memory orders are not modelled. Not modelled: try_push_bulk and drain.
-- Itc/Barrier models include/afx/itc/barrier.hpp; posts and tasks are steps in any order, and what a mailbox
--   answers to a post is an argument.
-- Itc/Channel models a channel of kind SPSC of include/afx/itc/channel.hpp, its mailbox being the count
--   of drains that were posted and the answer to a post an argument.
-- Itc/Mailbox models include/afx/itc/mailbox.hpp and the loop's side of it (drain_mailbox, wait_timeout) in
--   include/afx/core/event_manager.hpp: what a thread does between two points at which another may come
--   between is an action, and a run is any sequence of actions; the consumer's first look at the ring, its
--   store of Blocked and its second look are three. Not modelled: post_and_reply.
-- Net/Protocol models the framer of include/afx/net/protocol.hpp; the protocol's operations are
--   parameters, and the size of a frame is a sum that wraps at 2^64.
-- Net/Connection models include/afx/net/connection.hpp in callback mode: the sending side and the
--   teardown in Net/Connection.antt, the completions in Net/Connection/Engine.antt. What a call asks of
--   the loop, the backend and the handlers is an entry of a log; a handler is the list of calls that it
--   makes. The read loop has one round of fuel more than there are bytes, which is enough for a framer
--   whose frames are not empty (Net/Connection/Engine/Rounds). Net/Connection/Engine/Fifo runs it over a backend
--   that takes the bytes of a send at its submission (src/backend/epoll.cpp, kqueue.cpp, sim.cpp) or keeps their
--   address (src/backend/uring.cpp). Not modelled: coroutine
--   sessions, descriptor passing, the cross-thread Handle, the connection's entries in the flight
--   recorder.
-- Net/TcpClient models include/afx/net/tcp_client.hpp: the attempts in Net/TcpClient/Attempts, what reaches
--   the client in Net/TcpClient/Events. Connections are numbers, timers and deferred calls lists, and which
--   timer comes up is an argument; what making a socket comes to and the jitter are parameters; a connection
--   does only what `close` and a connect result of include/afx/net/connection.hpp do to it, and a handler
--   is an entry of a log. Not modelled: the destructor, the drain hooks, the rows for the admin endpoint.
-- Net/TcpServer models include/afx/net/tcp_server.hpp: accepts, the end of connections, and the hooks that
--   the loop's shutdown calls. A connection is its number and what its write queue holds; what the submission of
--   an accept answers is an argument. Not modelled: open,
--   the destructor, the rows for the admin endpoint, coroutine sessions.
-- Net/UdpSocket models sends and the delivery of datagrams of include/afx/net/udp_socket.hpp. The framer is a
--   parameter and what the system answers an argument; the loop over a datagram has as many rounds as bytes,
--   which is enough for frames that are not empty (Net/UdpSocket/Batches). Not modelled: open, multicast.
-- Backend/Sim models src/backend/sim.cpp without a SimNet; a completion of a read carries its bytes.
-- Sim/Net models src/sim/net.cpp and include/afx/sim/net.hpp. What the seeded generator decides for a
--   delivery is an argument; the priority queue is the list of its events in the order in which they come
--   up. Applying an event to a backend is not modelled here.
-- Admin/Http models the request parser of src/admin/http.cpp; the lines of a head are given a round of
--   fuel for each character, and each takes two at least. http_response is not modelled.
-- Sys/Endian models include/afx/sys/endian.hpp for any number of bytes and either order of the machine.
--
-- Not modelled: the rest of the event loop, Fan and Sharded, coroutines, the simulated runtime, and, as they
-- are system calls or text for an operator, the rest of the kernel backends, of the system layer, sockets and
-- name lookup, the admin server.
-- Base holds what these share: Boolean tests, lists with native indices, writes into arrays.
pub mod Admin
pub mod Base
pub mod Backend
pub mod Core
pub mod Itc
pub mod Net
pub mod Sim
pub mod Sys
