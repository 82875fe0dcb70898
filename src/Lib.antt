-- ===== src/Lib.antt =====
-- FixEngine, a FIX 4.4 engine in C++: sessions that exchange numbered messages with a peer.
--
-- The parts, and how they meet. Bytes from a connection go to the framer, which cuts them into
-- messages; the parser takes a message apart; the validator checks it; the session tests its number
-- and hands it to a handler. What a session sends is built by the message factory in a scratch
-- buffer, stored, and queued for the connection. A gap in the numbers is filled by a resend request,
-- while the recovery cache keeps what arrives early. The manager keeps the sessions in a pool and asks
-- the connection factory for their connections; what is logged goes through a ring to one thread.
--
-- Files, and the code that each models (paths from the repository's root):
--
-- Prelude: shared names; lists over the native numbers; fallible steps, where none is a violated
--   assert or an access out of range; flat memory for buffers of bytes.
-- Chars: what the engine uses of std::string_view and <charconv>.
-- RecoveryCache: include/fix/core/RecoveryCache.hpp, src/RecoveryCache.cpp. Slots counts the slots
--   in use, Invariant is the representation invariant, Map the finite map that clients see.
-- MessageStore: include/fix/core/MessageStore.hpp, src/MessageStore.cpp. Resend is ResendStream,
--   Store the round trip, Tiling what a resend stream covers.
-- Definitions: include/fix/core/definitions.hpp, include/fix/core/SeqProvider.hpp, src/Clock.cpp.
-- FactoryScratch: the scratch buffer of include/fix/core/MessageFactory.hpp, with
--   src/FactoryScratch.cpp. View is the bytes built so far, Trailer the length and the checksum.
-- MessageFactory: MessageFactory of the same header. WellFormed says what its messages are,
--   Parsed that they are parsed back.
-- Ring: include/fix/core/Ring.hpp. Contents says how the items lie in the buffer, Queue that they are
--   a queue.
-- LinearBuffer: include/fix/core/LinearBuffer.hpp. View is the readable bytes and their position.
-- Framer: include/fix/core/Framer.hpp, src/Framer.cpp. Frames and Queued are about one message in the
--   buffer, Stream and Append about one after the other, Delivery about what the session
--   takes out, Total about any bytes.
-- Message: include/fix/message/GenericMessage.hpp, include/fix/core/Message.hpp, src/Message.cpp.
-- Parser: include/fix/core/Parser.hpp, src/Parser.cpp. RoundTrip and Checksum are about reading back
--   what is written out.
-- Schema: include/fix/schema and the tables of include/fix/message. Registry is the search for a
--   type, Lookup what it finds.
-- Validator: include/fix/core/Validator.hpp, src/Validator.cpp. Result and TagScratch are its state,
--   Groups the walk through a repeating group. Steps and Coverage say what a walk leaves behind,
--   Acceptance and Required what a message without errors has.
-- Session: include/fix/core/Session.hpp, src/Session.cpp. State is the record of its fields; Io
--   send_message_, do_write, do_read; Send the messages sent; Handlers the admin messages received;
--   Dispatch process_wire_message_, dispatch and the recovery; Lifecycle start, loss and timers;
--   Events the entry points in any order. Queue, Recovery, Connection, History, Stopped and Soundness
--   prove.
--
-- Arena: include/fix/core/Arena.hpp, src/Arena.cpp. FreeList is the list of the free blocks in memory,
--   Leases who holds which block.
-- WireWriter: include/fix/core/WireWriter.hpp, src/WireWriter.cpp. View is what a writer shows.
-- SessionPool: include/fix/core/SessionPool.hpp, src/SessionPool.cpp. Slots is the invariant, Operations
--   what keeps it, Ids whom an id finds, Live the sessions left.
-- SessionManager: include/fix/core/SessionManager.hpp, src/SessionManager.cpp. AllSound is about any
--   sequence of operations, Isolation about whom one reaches.
-- ConnectionFactory: src/AsioConnectionFactory.cpp, include/fix/error/Network.hpp. Errors has the
--   classes of errors, Connect and Listen the two operations, ConnectEnds and ListenEnds their ends.
-- MpscRing: include/fix/log/MpscRing.hpp. Threads is the step relation of the threads at the ring,
--   Invariant and Accesses what every step keeps, Order what the threads get.
-- LogEntry: include/fix/log/LogEntry.hpp, include/fix/log/LogContext.hpp, include/fix/error/utility.hpp.
-- LogFileSink: include/fix/log/LogFileSink.hpp, src/LogFileSink.cpp. Eviction is about the list of the
--   open files.
-- Loopback: include/fix/core/LoopbackTransport.hpp. Bytewise is about the bytes of one channel.
--
-- State is passed explicitly: a method takes the record of the object and returns the new one, and
-- an Option where the source asserts, or reads out of range. What a session asks of the outside is a
-- list of effects. Handlers run on the session's strand one after the other, so that interleavings
-- are the orders of events; the threads at the ring of the log are interleaved access by access.
--
-- Bounds and fuel: the counter of the session ids and the tickets of the ring are unbounded numbers,
-- where the source has 64 bits: they are taken not to reach 2^64. A loop over a wire takes its length
-- as fuel, since each round moves past at least one byte; the walk of a resend stream takes the
-- distance to its end; the loop that drains the recovery cache takes the cache's size, since each
-- round takes a message out; the framer's loop takes
-- one round more than there are bytes, since each round but the last moves its search on. Connecting
-- is run for 26 answers of the network and listening for 7, behind which both have ended. The operations
-- of the log's sink take the depth of their calls of each other: three are enough for an eviction of a
-- file that is open.
--
-- Not modelled: Boost.Asio and the connections over it, whose completions are events, and whose error
-- codes are parameters; the thread that takes the log from the ring to the files; the command line;
-- the threads of the reactor.
pub mod Prelude
pub mod Chars
pub mod Definitions
pub mod RecoveryCache
pub mod MessageStore
pub mod FactoryScratch
pub mod MessageFactory
pub mod Message
pub mod Parser
pub mod Schema
pub mod Validator
pub mod Ring
pub mod LinearBuffer
pub mod Framer
pub mod Arena
pub mod WireWriter
pub mod Session
pub mod SessionPool
pub mod MpscRing
pub mod ConnectionFactory
pub mod SessionManager
pub mod LogEntry
pub mod LogFileSink
pub mod Loopback
