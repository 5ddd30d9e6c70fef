-- ===== src/Lib.antt =====
-- HPGS is a C++ library for servers: coroutines run by a scheduler, an I/O manager on epoll with
-- timers, hooks that make system calls yield, sockets with byte streams, and a buffer for
-- serialisation. This library models its parts in the order of how much they compute.
--
-- ByteArray.antt is src/network/bytearray.cc with include/network/bytearray.h. A ByteArray is a chain
-- of nodes of m_baseSize bytes. The record ByteArray holds the nodes as lists of bytes; m_cur is the
-- index of a node, which is the number of nodes where the pointer is null. Every method is a value of
-- the monad M, a function from the state to a result and the new state; a result is a value or a fault,
-- which is an exception of the source or a null pointer that it follows.
-- ByteArray/Codec.antt is the part of it that writes and reads integers and strings, and
-- include/util/myendian.h. A signed integer is its bit pattern, and zigzag is read off the patterns.
-- The bytes of new memory are the parameter `fill`, and the byte order of the host is `host`: both are
-- the platform's. Memory is taken to be enough, so `new` does not fail, and size_t has 64 bits.
-- The loops of the chain run on the list of nodes, addCapacity and the varints on fuel: the first on
-- the number of nodes it has computed, a 64-bit varint on 10 groups and a 32-bit one on 5, which is
-- why the loop has ended by then (the round trips prove it).
--
-- Timer.antt is src/concurrency/timer.cc with include/concurrency/timer.h. A timer is an address, the
-- heap a function from addresses to the fields, and the std::set the list of its elements in order.
-- A method is one step under the mutex; Timer::reset compares the old time with the new one before it
-- takes the mutex, and that is in the step as well. The clock is the argument
-- `now`, the address of a new timer another. A callback is a number, so that the order of the callbacks
-- that listExpiredCb hands over can be told; running them is not part of the class.
--
-- Url.antt is StringUtil::UrlEncode and StringUtil::UrlDecode of src/util/util.cc with their tables,
-- the loops with the string that they make late. A string is the list of its bytes.
--
-- IoManager.antt and IoManager/Operations.antt are the events of src/concurrency/iomanager.cc: addEvent,
-- delEvent, cancelEvent, cancelAll and the body of the loop over ready events in idle. A pointer to a
-- FdContext is its place in m_fdContexts. epoll_ctl is the parameter `ctl` on a state of the kernel, and
-- IsEpoll in IoManager/Inv.antt says what is relied on of it; scheduling a task appends it to a list.
-- A failing assertion is a fault that ends the run. Each operation is one critical section of the
-- mutex of its context. IoManager hands waiters to a scheduler, waits as long as Timer allows, and
-- runs what listExpiredCb hands over; the loop around them is not modelled.
--
-- FdManager.antt is src/util/fd_manager.cc: a FdCtx::ptr is an address, fstat and the flag O_NONBLOCK are
-- parameters, and get is two functions, because it gives up its lock in between.
--
-- Scheduler.antt is one turn of the loop of Scheduler::run in src/concurrency/scheduler.cc on one thread,
-- with the states of src/concurrency/fibre.cc. A fibre is an address, and the parameter `leaves` gives
-- the state in which a fibre comes back when it was swapped in, which its function decides. What other
-- threads schedule meanwhile is left to steps of their own.
--
-- Paths.antt is FSUtil::Dirname and FSUtil::Basename of src/util/util.cc.
--
-- Log.antt is src/system/log.cc with include/system/log.h: Log/Level.antt the levels, Log/Pattern.antt the loop
-- of LogFormatter::init over a pattern, Log/Items.antt its items and what they print, Log/Loggers.antt appenders
-- and loggers, Log/Manager.antt what makes them and LoggerManager, Log/Define.antt the definitions that a
-- configuration compares. What localtime_r and strftime write is the parameter `strftime`, whether a file
-- opens the parameter `opens`; members that no constructor sets are arguments. Logger::log asks its root on
-- fuel, and the address of a logger is enough, because a root is older than the loggers that have it.
--
-- Address.antt is src/network/address.cc: CreateMask, CountBytes and IPv4 addresses; Address/V6.antt has IPv6
-- addresses, Address/Unix.antt those of files, Address/Order.antt the comparison and Address/Lookup.antt how Lookup
-- cuts a host. A number in network byte order is the number that its bytes stand for, which
-- byteswapOnLittleEndian makes of it. The loop of CountBytes has the bits of the value for fuel, and ends
-- before. getaddrinfo, getifaddrs and inet_pton are not modelled.
--
-- Env.antt is src/system/env.cc behind readlink, whose answer gives the directory. Stream.antt is
-- src/network/stream.cc: read or write is the parameter `transfer`, and the loop has the length for fuel, which is
-- enough, because each turn moves a byte at least.
--
-- Hook.antt is the loop do_io of src/util/hook.cc as a machine: the call that it wraps, the timer, its
-- callback and the scheduler act on it by moves, in any order, with the operations of IoManager.antt and
-- Timer.antt. Hook/Call.antt has the moves of a blocking call. Hook/Connect.antt is connect_with_timeout in
-- the same way, and Hook/Close.antt close, on the events and the table. Hook/Flags.antt is fcntl, ioctl and
-- setsockopt on the table of FdManager.antt, where what the kernel makes of its flags is a parameter, and
-- Hook/Sleep.antt the times of the sleeps.
--
-- Socket.antt is src/network/socket.cc but for SSLSocket: what a socket does with its descriptor, with the
-- calls of the system, the hooked ones among them, as the parameter `sys`, and the list of the
-- descriptors that are open.
--
-- Trim.antt is StringUtil::Trim and its two kin of src/util/util.cc.
--
-- Prelude.antt has the shared notation, with lists, bits and two's complement below it.
--
-- Not modelled: the file functions of ByteArray, floats (a memcpy of the integer of the same width),
-- locking inside a method, SSLSocket, the configuration and TcpServer, and the parts that are calls of the
-- system or of other libraries: contexts, threads, the database, JSON.
pub mod Prelude
pub mod Address
pub mod ByteArray
pub mod Env
pub mod FdManager
pub mod Hook
pub mod IoManager
pub mod Log
pub mod Paths
pub mod Scheduler
pub mod Socket
pub mod Stream
pub mod Timer
pub mod Trim
pub mod Url
