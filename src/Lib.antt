-- ===== src/Lib.antt =====
-- A verification of toy-basket, a C++ library of event loops, connections and tasks after the
-- pattern of a reactor.
--
-- The parts and how they interact. An event loop owns a poller, a wake-up descriptor and a queue of
-- functors; each file descriptor that it watches has a channel, which keeps the event mask and the
-- callbacks. A loop polls, runs the callbacks of the channels with events, and then runs the
-- functors that its own callbacks or other threads have queued. Connections read into and write
-- from byte buffers. A server keeps the connections that its acceptor gives it, a client the one of
-- its connector; remote procedure calls are frames on such connections, and a serial port is used
-- like one.
--
-- Which module models which part (paths from the root of the repository):
--
-- - Prelude: tests, lists over the native numbers, `size_t` arithmetic, the option monad.
-- - Buffer: src/communication/Buffer.h and Buffer.cpp. `Buffer` has the vector `buffer_` as a list
--   of bytes and the two indices; each method is the function of the same name in snake case,
--   `appendInt64` and its like are one function of the width. Offsets, lengths and the casts between
--   `size_t` and `int` wrap at their width. `none` is a failed assertion or an exception of
--   `std::vector`. A pointer into the buffer is an index; a piece of memory of the caller is a list.
--   `readv` enters `read_fd` as what it delivered. Children: Region (the readable bytes), Space
--   (append and prepend), Retrieve, Find, Codec (integers), Vectored (`readFd`), Shrink.
-- - Channel: src/communication/Channel.h and Channel.cpp, the event mask and the callbacks that
--   `handleEvent` runs.
-- - Poller: src/communication/EPollPoller.cpp and Poller.cpp, with the calls of Channel.h and
--   EventLoop.cpp that lead to them. A channel object is a number. epoll_ctl(2) is the interface
--   `Epoll`, a parameter with the laws that its manual page documents. `none` is a failed assertion
--   or a fatal log entry. Children: Sync (the agreement of map and kernel), Steps, Update, Remove.
-- - EventLoop: src/communication/EventLoop.cpp. `System` is the loop, the place of its thread, and
--   the number of threads that have changed it and not yet written to the wake-up descriptor; an
--   `Action` is a step of one thread between two accesses to shared data, and a schedule is a list
--   of actions. Children: Order, Rounds, Wakeup.
-- - StreamConnection: src/communication/net/StreamConnection.cpp. The record has the state, the
--   channel, both buffers, the bytes that the socket took and the list of what the connection did
--   outside itself: callbacks, functors for the loop, the shutdown of the socket. What ::write
--   answers is an argument. Children: Valid (the invariant), Send, Drain, Close, Stream.
-- - Connector: src/communication/net/Connector.cpp. What ::socket, ::connect and the socket report
--   are arguments; an `Action` is a call, a functor, a timer or a channel event. Children: Sockets
--   (no descriptor is lost), Retry (the delay).
-- - Timer: src/base/Timer.cpp and Timer.h. The heap algorithms and the actions of the timers are
--   parameters. `fired` records the timers that have run. The loop over expired timers has fuel,
--   since a repeating timer of interval 0 keeps it running; one more than the number of timers is
--   enough where intervals are positive and no action touches the manager. Children: Laws (of the
--   heap algorithms, and what a tick should do), Steps, Tick, Sorted (vectors that meet the laws),
--   Hang.
-- - Rpc: src/communication/net/protorpc/rpc_channel.cc and rpc_server.cc. The loop of both
--   `onMessage` methods is one function with what it does with a frame as a parameter; its fuel is
--   the number of rounds, and one more than the number of bytes is enough for frames as both sides
--   send them. The serialisation of protocol buffers is the parameter `Codec`, of which only the
--   round trip is used. Children: Frames and Stream (whole frames and parts of them), Parts (frames
--   that arrive in parts), Hang, Channel and Calls (the client), Server and Names, RoundTrip.
-- - Serial: src/communication/serial/Serial.cpp. The record has the descriptor, the channel, both
--   buffers and the flag `writing_`; a null pointer is `none`. Children: Send (its output against
--   that of StreamConnection), Closed.
-- - Checksum: getCrcCheck of src/communication/serial/Serial.cpp and of
--   src/component/ComponentBase.cpp. Child: Bounds.
-- - StreamServer: src/communication/net/StreamServer.cpp with the connections of StreamConnection
--   that it makes. What snprintf prints for a number is a parameter, different for different
--   numbers. A connection ends by an event of its channel, which comes only while the mask is not
--   empty; a functor that destroys a connection may run at any time. Children: Names, Valid (what
--   holds between events), Serve, Safe.
-- - StreamClient: src/communication/net/StreamClient.cpp with the connector and the connection that
--   it owns. Child: Again.
-- - Acceptor: src/communication/net/Acceptor.cpp, as to its descriptors.
-- - BlockingQueue: src/base/BlockingQueue.h, with addMsgToQueue of src/component/ComponentBase.cpp.
-- - InetAddress: src/communication/net/InetAddress.cpp and InetAddress.h. The union of socket
--   addresses is its 112 bytes, on a machine whose first byte is the lowest, and a constructor gets
--   what the memory held before. inet_pton, inet_ntop, gethostbyname_r and the decimal text of
--   snprintf are parameters; the numbers of the families are those of Linux. Children: Fields, Ports,
--   Strings (zero-terminated texts), Texts, Paths, Resolve.
-- - TaskCommonLoopThread, TaskEventLoopThread: the files of these names in src/task. The state has
--   the members, the place of the thread in `threadFunc` and that of its owner; an `Action` is a step
--   of one of the two, and a schedule is a list of actions. Children: Valid, Stop, Stuck.
-- - Datagram: src/communication/net/DgramServer.cpp, DgramClient.cpp and UdpMultiCastListener.cpp,
--   with their channels in the model of the poller, and `recvfrom` of Socket.cpp. What recvfrom(2)
--   answers and what lies on the stack are arguments. Children: Calls (start and stop), Client (with
--   its Buffer), Receive.
--
-- Bounds. A byte is a number, and the functions move bytes without looking into them, except for
-- line ends and integers. The largest vector of bytes is half the address space, and a growing
-- vector beyond it is an exception. Only the loops of Timer and Rpc have fuel; the others go along a
-- list.
--
-- Not modelled: log texts, the identity of threads (an operation says which thread calls it), the
-- capacity of a vector, which no result depends on, the wrappers of single system calls
-- (most of src/communication/net/Socket.cpp, and UdpMultiCastSender.cpp), src/base/StringPiece.h,
-- which is a copy of that of PCRE, generated protocol code, the samples, and the headers of other
-- projects under include/.
pub mod Prelude
pub mod Buffer
pub mod Channel
pub mod Poller
pub mod EventLoop
pub mod InetAddress
pub mod StreamConnection
pub mod Connector
pub mod Timer
pub mod TaskCommonLoopThread
pub mod TaskEventLoopThread
pub mod Rpc
pub mod Serial
pub mod Checksum
pub mod StreamServer
pub mod StreamClient
pub mod Acceptor
pub mod Datagram
pub mod BlockingQueue
