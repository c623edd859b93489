-- ===== src/Lib.antt =====
-- A model of the server framework under myhttp/: its byte buffers, its timers, the table of events
-- of its epoll loop, its contexts of descriptors, its fibers and their scheduler, its streams, its
-- HTTP messages, their way over a stream and the pool of client connections, its choice of a
-- servlet for a URI, its log, its addresses, its hooks of system calls, and the arguments of its
-- environment. The loop, IOManager, is a TimerManager and a Scheduler too: it sleeps for as long
-- as getNextTimer says, then runs what listExpiredCb gives and what the kernel reports of the
-- descriptors in its table. A session or a connection writes the text of a message with the loops
-- of its stream.
--
-- Prelude has what the parts share: names of the libraries passed on, Boolean tests
-- (Prelude.Tests), lists (Prelude.Lists, Prelude.Splice), bits (Prelude.Bits), signed numbers
-- (Prelude.Int), strings as bytes with what the C library does with them (Prelude.Text), std::map
-- (Prelude.SortedMap and Prelude.Keys), and the ends of a C++ call (Prelude.Results): a value,
-- std::out_of_range, or the fault that the code runs into, such as a null pointer or a failed
-- assertion. A fault stands for what C++ leaves undefined and ends the run.
--
-- ByteArray is myhttp/bytearray.h, myhttp/bytearray.cpp and myhttp/endian.h.
--   Store: the record of the class, the chain of nodes from m_root as a list and m_cur as an index in
--   it or null, with clear, addCapacity, write, both reads, setPosition and toString. Each loop over
--   the nodes is a recursion on the chain. The bytes of a new node are those of `blank`.
--   Fixed: the writers and readers of fixed width and byteswap; the byte order of the machine is an
--   argument, and a float is its bits. Varint: zigzag, writeUint32 and writeUint64, whose loop runs
--   over the cells of tmp[5] and tmp[10], and readUint32 and readUint64, whose loop runs 5 and 10
--   times. Strings: the writers and readers of strings and floats, with their round trips. Stream is
--   what all round trips use: a write, a setPosition back and a read.
--   Iovecs: getReadBuffers, getWriteBuffers and toHexString.
--   Chain, Invariant, Growth, Write and Read prove what the operations do on a valid array, whose
--   blocks all have the base size and whose cursor is on the block of the position. File is the
--   contract: a file of bytes with a position. Wire, VarintRoundTrip and Zigzag are the codecs.
--   The remainder in addCapacity is compared with the room that is left and not with 0. RoundsUp is
--   where that makes no difference, as with the block size of 1 that the tests use.
--
-- Timer is myhttp/timer.h and myhttp/timer.cpp.
--   Order: Timer, the comparator on pointers (by time, then by address) and the std::set of timers, a
--   list in that order whose operations find an element by the comparator alone.
--   Manager: TimerManager, with the timers in a heap by address; add_timer is addTimer, add is the
--   overload that takes a lock, list_expired_cb is listExpiredCb, and list_locked the half of it
--   behind the second lock. The clock and the address of each new timer are arguments. Times wrap at
--   2 ^ 64. The calls of onTimerInsertedAtFront are counted.
--   Sorted and Bound are about the set; Invariant, Reschedule, Expiring, Expired and Poll about single
--   calls; Calls and Wakeup about sequences of them.
--
-- IoManager is the event table of myhttp/iomanager.h and myhttp/iomanager.cpp, with the swaps of
-- Scheduler::schedule in myhttp/scheduler.h.
--   Table: FdContext, EventContext, triggerEvent and contextResize. Descriptors are not negative.
--   Ops: addEvent, delEvent, cancelEvent, cancelAll and the round of idle for one event. epoll_ctl is
--   the kernel's: its answer is an argument, and the calls that it accepted are listed. What a thread
--   is when it calls addEvent (its scheduler, its fiber) is an argument too.
--   Context and Invariant are the invariant, Resize, Adding, Removing, Triggering and Handling the
--   single operations, and Calls sequences of them. What the kernel watches after a list of calls is
--   read off the manual of epoll_ctl: ADD of what is not watched, MOD and DEL of what is.
--
-- Servlet is the dispatch of myhttp/http/servlet.h and myhttp/http/servlet.cpp: Dispatch has the
-- exact table, the globs and getMatchedServlet, with fnmatch of the C library as an argument;
-- Matching and Unique are about lookups after changes and about the tables. A servlet is a number.
--
-- FdManager is myhttp/fd_manager.h and myhttp/fd_manager.cpp: Contexts has FdCtx and the table of
-- them, with what fstat and fcntl say of a descriptor as an argument, and Lookup is about get.
--
-- Scheduler is myhttp/fiber.h, myhttp/fiber.cpp, myhttp/scheduler.h and myhttp/scheduler.cpp.
--   Fiber: the states of a fiber, reset, swapIn, the assertions of the destructor, and how a fiber
--   gives its thread back. Queue: the tasks, scheduleNoLock and the loop that picks a task.
--   Run: start, stop, stopping, and run as steps of its threads, which may come in any order: up to
--   the end of the lock, up to a swapIn, behind it, and the schedule of a fiber that came back READY.
--   What a fiber does between is its outcome. Fibers are shared, by index.
--   Picking is about the pick; Counting has the steps as a relation between states, and the counter
--   of active threads; Steps is about that counter over all steps, Stopping about stopping.
--
-- Streams is myhttp/stream.cpp and myhttp/socket_stream.cpp. Loops has the four loops, over a read
-- or a write of the peer, with the conversions between int and size_t written out; the fuel of a
-- loop is its turns, and one more than the bytes is enough where each call moves a byte. Socket is
-- SocketStream with a buffer. Reading, FixSize and Writing are about peers that move their bytes
-- in pieces; Source and Sink are what such a peer promises.
--
-- Http is myhttp/http/http.h, myhttp/http/http.cpp, the pool and the requests of
-- myhttp/http/http_connection.cpp, and sendResponse of myhttp/http/http_session.cpp.
--   Codes: methods and status codes. Message: HttpRequest and HttpResponse with their maps, and dump.
--   Methods, Headers and Dump are about them; Lines is a peer that reads a text back by lines.
--   Pool: getConnection and ReleasePtr, with the clock, the state of the sockets and the way an
--   attempt to connect ends as arguments; Pooling and PoolCalls are about it. m_total has 32 bits.
--   Requests: the requests of both DoRequests and the codes of their results; RequestHeaders is about
--   the former. Sending: sendRequest and sendResponse over the loops of Streams.
--
-- Log is myhttp/log.h and myhttp/log.cpp.
--   Levels: the levels, as numbers. Pattern: LogFormatter::init, on fuel: the bytes of the pattern;
--   the inner loop is in_name and in_format, the parts are the vector of tuples. Printing writes a
--   pattern from parts, Rounds is about the rounds of the loop.
--   Formatting: LogEvent and the format items. Appenders: LogAppender and its two classes; what
--   strftime gives, whether a file opens and whether a stream takes a text are arguments (System).
--   Loggers: Logger and LoggerManager over a table of all loggers and one of all appenders, in which
--   a pointer is an index. log has fuel for the loggers that an event is handed to, which are two at
--   most. Defines: the listener of the logs configuration.
--   Ready, Keeping, Delivery, Tables, Sound and History are about calls from the start of the manager,
--   Fitting about dates in the buffer of 64 bytes, Output about what is put out, Changes about the
--   listener, Failing about a stream that refuses a text.
--   What the log itself prints to std::cout about errors is left out.
--
-- Address is myhttp/address.h and myhttp/address.cpp, with byteswapOnLittleEndian of myhttp/endian.h.
--   Masks: CreateMask, whose shifts that C++ leaves undefined are faults, and CountBytes, on fuel: the
--   bits of its type and one. V4, V6 and Unix: the classes of addresses; an address in a sockaddr is
--   in network order, and the byte order of the machine is an argument. Order: the comparisons.
--   Lookup: Create, Lookup with what follows it, and IPAddress::Create. Interfaces:
--   GetInterfaceAddresses. getaddrinfo, inet_pton and getifaddrs are arguments.
--   V4/Prefixes, V6/PrefixBits and PrefixLengths are about prefixes, Lookup/Hosts about host texts.
--
-- Hook is myhttp/hook.cpp. Io has do_io and connect_with_timeout, for which the calls of the original
--   function, addEvent and the timers answer by their number; the fuel of retry is the calls, and
--   enough where one of them is answered neither with EINTR nor with EAGAIN. What a call does to the
--   timers and the table of events is its list of actions. Flags: fcntl, ioctl, setsockopt and the
--   times of the sleeps, over the context of the descriptor. Io/Blocking is about do_io.
--
-- Env is myhttp/env.h and myhttp/env.cpp: State has init, whose readlink is an argument, the
-- arguments and the helps; Arguments reads a command line back.
--
-- A size_t that counts memory is a plain number, and so are counters, which stay where the
-- invariant puts them, but for those of the scheduler and the pool. Calls run one at a time, each
-- with its lock held, but for the two halves of listExpiredCb and the steps of the scheduler's
-- threads. Not modelled are locks, the lines that the other parts log, the contexts of fibers and
-- their life time, the file streams of writeToFile and readFromFile, the waking of the loop, the
-- hooks of socket, accept and close, the class Socket, URIs, the receive loops of sessions and
-- connections with their generated parsers, the configuration, the servers and the application.
pub mod Prelude
pub mod ByteArray
pub mod Timer
pub mod IoManager
pub mod Servlet
pub mod FdManager
pub mod Http
pub mod Scheduler
pub mod Streams
pub mod Env
pub mod Log
pub mod Address
pub mod Hook
