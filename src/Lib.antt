-- ===== src/Lib.antt =====
-- sRPC: a remote procedure call framework in C++ (namespace rrr).
--
-- The parts of the program, and the files here that model them. Paths are those of the repository.
-- * SparseInt (src/base/basetypes.cpp) writes an integer in as few bytes as it needs. SparseInt.antt
--   has `buf_size`, `val_size`, `dump` and `load` for 32 and 64 bits on lists of bytes; SparseInt/
--   holds the proofs: what the first byte says (Header), sizes (Sizes), round trips (RoundTrip), and
--   the width that does not come back (Defect).
-- * Marshal (src/misc/marshal.hpp and marshal.cpp) is the byte queue of a connection: a chain of
--   chunks, each a window of a block of memory. Marshal/Memory.antt is the store of blocks,
--   Marshal/Chunk.antt class chunk, Marshal/Buffer.antt class Marshal (`write`, `read`, `peek`,
--   `content_size_slow`), Marshal/Bookmark.antt the places that are skipped and filled in later
--   (`set_bookmark`, `write_bookmark`, `get_and_reset_write_cnt`), Marshal/Slice.antt
--   `read_from_marshal`, which hands blocks over without a copy, Marshal/Socket.antt `read_from_fd`
--   and `write_to_fd`, and Marshal/Wire.antt the operators << and >> of the scalar types, of v32 and
--   v64 and of strings; Marshal/Containers.antt those of pairs, vectors, lists, sets and maps.
-- * Packet.antt is what client and server share: when a packet is complete, and what one looks like
--   (Packet/Complete, and Packet/Reading for what reading leaves alone).
-- * Server (src/rpc/server.cpp and server.hpp): Server.antt cuts the incoming bytes of a TCPConnection
--   into requests, finds their handlers and writes their replies (`handle_read` behind the system
--   call, `begin_reply`, `end_reply`, `reg`, `unreg`); Server/Events.antt has `handle_read`,
--   `handle_write` and `poll_mode` whole. Server/Service.antt says what a server owes its clients.
-- * Client (src/rpc/client.cpp and client.hpp): Client.antt has the futures and the TCPClient
--   (`connect`, `begin_request` in its stretches, `end_request`, the packet loop of `handle_read`, `close`);
--   Client/Steps.antt makes it a state machine of what its threads can do, and Client/Moves.antt shows
--   what each step keeps.
-- * Call.antt joins a client and a server by a network that delivers.
-- * ThreadPool (src/base/threading.hpp and threading.cpp), which runs the deferred work of a server:
--   ThreadPool.antt has `run_async`, the queues and the turns of `run_thread`; ThreadPool/Once.antt
--   the steps of a pool with its threads, ThreadPool/Joined.antt what its destructor does.
-- * Polling (src/rpc/polling.hpp and polling.cpp): Polling.antt has the tables of a PollThread and the
--   references that it holds on what it polls; Polling/Reached.antt the states that its calls and its
--   loop lead to.
-- * Connections.antt joins the server and the polling: the connections of a TCPServer (those that
--   the server loop accepts, `close`, and the loop of `stop`) with the PollThread that polls them. The
--   class has two sets of the name sconns_, its own and that of Server, which are kept apart.
-- * ALock (src/misc/alock.hpp and alock.cpp) is a read-write lock whose requests are granted or
--   refused by callbacks. ALock.antt has what its classes share, ALock/WaitDie.antt class
--   WaitDieALock, ALock/WoundDie.antt class WoundDieALock, ALock/Timeout.antt class TimeoutALock and
--   ALock/Group.antt class ALockGroup, which asks many locks at once and counts their answers with a
--   DragonBall.
-- * Alarm (src/misc/alarm.hpp), which rings for the requests of a TimeoutALock: Alarm.antt.
-- * DragonBall (src/misc/dball.hpp), a counter of events: DragonBall.antt.
-- * MergedEnumerator (src/base/basetypes.hpp): Enumerator.antt merges sources in order.
-- * String operations (src/base/strop.hpp and strop.cpp): Strop.antt, with strsplit against its
--   description in Strop/Words.antt.
-- Base.antt and its children hold the lists, integers, tests and outcomes that all of them use.
-- Tests.antt and its children apply the theorems at concrete inputs.
--
-- How the code is read:
-- * A call that can end the process, leave an array or touch a deleted object returns an Outcome
--   (Base/Outcome.antt): `done`, or a fault. A failed `verify`, a copy past the end of an array, a
--   counter that would go below zero and a call on a deleted object are faults.
-- * Bytes and unsigned integers are natural numbers, with the wrap-around written out; `pos n` is n
--   and `negsuc n` is -(n + 1). The counters of a lock, of a DragonBall and the ids of requests are
--   not cut at 64 bits.
-- * The object that a method works on is a record that it takes and returns. What is shared is passed
--   along: the memory of the blocks, and the alarm of the TimeoutALocks.
-- * The callbacks of a lock are named by the id of their request, and a call of one is an entry of the
--   list that an operation returns, in the order of the calls. They do not call the same lock back
--   while the operation runs. What a wound_callback answers is a parameter of WoundDieALock.
-- * The loops are structural recursions on the chain, the queue or the bytes, where one of these gets
--   shorter. The packet loops and those on a socket take `fuel`, a bound on their rounds; it is more
--   than the packets, or the bytes on either side of the socket, and the theorems that give so much
--   say that the loop returns. The fault `out_of_fuel` says that it was too little. The loop whose
--   test reads the clock (Alarm::run) takes the clock as a parameter.
-- * A socket is an argument (the record Socket), with what the system promises of it (InOrder). What
--   stands in an array of the stack before it is read into is an argument, `junk`.
-- * A lock (`out_l_`) that is held, where the caller would wait for it, is the fault `blocked`. What
--   other threads do in the gaps of `begin_request` is an argument there, and Client/Steps.antt has
--   its stretches as steps among those of other threads. `close`, and a round of the packet loop, are
--   one step each. The use of a deleted future is the fault `deleted`, with which a run ends.
-- * The asserts count: the build is a debug build. `write` of Marshal/Buffer.antt leaves out that of
--   its line 170, which `assert_write` has; the operators of Marshal/Wire.antt always have a byte to
--   write, and the callers that may have none go through `assert_write`.
-- * Each connection has its own memory of blocks; a request or a reply that is cut off shares the
--   blocks of the Marshal that it came from.
-- * `std::map` is an association list in the order of its keys.
--
-- Not modelled: the wait for events in the polling loop, the accept loop of the server and the
-- socket calls of `connect`, which are system calls; the waits in `stop` of the server;
-- DeferredReply, ClientPool and FutureGroup; RunLater, the sleeps of a pool's thread and the draw
-- of its stealing order; format_decimal; UDPServer and UDPClient with the DPDK transport, whose
-- library is not in the repository; the clock and the random numbers of base; logging, statistics,
-- the applications and the Python bindings.
pub mod Base
pub mod SparseInt
pub mod Marshal
pub mod Alarm
pub mod DragonBall
pub mod ALock
pub mod Packet
pub mod Server
pub mod Client
pub mod Call
pub mod ThreadPool
pub mod Polling
pub mod Strop
pub mod Enumerator
pub mod Connections
mod Tests
