-- ===== src/Lib.antt =====
-- Verification of fatdog, a C++ library of fibers, buffers and HTTP servers.
--
-- ByteArray (fatdog/bytearray.cpp, bytearray.h, endian.h) is a buffer made of a chain of nodes of
-- equal size, with a position in it; the socket streams and the HTTP parts exchange their bytes
-- through it. Its raw operations move bytes between the chain and a caller's buffer, and all
-- writers and readers of numbers and strings are built on these.
--
-- TimerManager (fatdog/timer.cpp, timer.h) keeps the timers of the I/O manager in a set ordered by
-- time, and hands out the functions of those that have expired.
--
-- Scheduler (fatdog/scheduler.cpp, scheduler.h) runs fibers (fatdog/fiber.cpp, fiber.h) and
-- functions from a queue on its threads. IOManager (fatdog/iomanager.cpp, iomanager.h) is a
-- Scheduler and a TimerManager, and lets fibers and functions wait until a descriptor can be read
-- or written, and schedules them then.
--
-- FdManager (fatdog/fd_manager.cpp, fd_manager.h) keeps for each file descriptor whether it is a
-- socket and whether it blocks; the hooked system calls ask it.
--
-- ServletDispatch (fatdog/http/servlet.cpp, servlet.h) gives the path of an HTTP request the
-- servlet that handles it.
--
-- HttpRequest and HttpResponse (fatdog/http/http.cpp, http.h) are the messages that servlets and
-- connections exchange.
--
-- Stream (fatdog/stream.cpp, stream.h) reads and writes whole lengths over a read and a write that
-- may move less.
--
-- Base holds what the parts share: tests on numbers, lists and slices of lists, 64-bit sums (add64
-- and sub64, for size_t), bits, and signed integers with their patterns; size_le is the test
-- (int)size <= fd of FdManager and IOManager, with the cast.
--
-- * ByteArray/State.antt is the state: m_root and the `next` pointers are a list of nodes, m_cur is
--   a place in that list or none for nullptr. A call returns, throws std::out_of_range, or crashes,
--   which is where the code follows a null pointer, divides by zero, or overflows a signed integer.
-- * ByteArray/File.antt is the specification: a list of bytes with a position in it.
-- * ByteArray/Raw.antt has addCapacity, write, the two reads, setPosition, clear and toString. The
--   invariant and the file that an object stands for are in ByteArray/Raw/Valid.antt.
-- * ByteArray/Endian.antt has byteswap and the layout of an integer in memory; ByteArray/Fixed.antt
--   writeFint8 to readFuint64; ByteArray/Varint.antt writeInt32 to readUint64, with the zigzag
--   code, where a signed overflow is a crash; ByteArray/Strings.antt the strings, and float and
--   double, whose patterns are numbers of 32 and 64 bits.
-- * ByteArray/Buffers.antt has getReadBuffers(buffers, len); an iovec is a place in a node and a
--   length.
-- * ByteArray/Runs.antt and ByteArray/CodeRuns.antt run the model on concrete inputs.
-- * Timer.antt is the TimerManager: timers on a heap, std::set as the list of its elements in the
--   comparator's order, GetCurrentMS() as an argument of each call, and the address of a new timer
--   as another. Timer/Order.antt is about the set, Timer/Update.antt has the invariant,
--   Timer/Change.antt addTimer, cancel, refresh and reset, Timer/Expiry.antt to Timer/Expired.antt
--   getNextTimer and listExpiredCb; Timer/Runs.antt runs it.
-- * FdManager.antt is FdCtx and FdManager: contexts on a heap, the vector of pointers with what is
--   read and written beyond its end written out, and fstat and fcntl on a state of the system,
--   which is a parameter: a descriptor refers to an open file description, which has the flag
--   O_NONBLOCK. FdManager/Table.antt is about get and del, FdManager/Context.antt about init;
--   FdManager/Runs.antt runs it.
-- * Fiber.antt has the states of a fiber and what changes them. Scheduler.antt is Scheduler: the
--   queue, and the loop of run of one thread, with what the code of a fiber does until it gives the
--   thread back as a parameter. Scheduler/Pick.antt is about the search in the queue,
--   Scheduler/Swap.antt about a fiber that runs, Scheduler/Between.antt has the invariant,
--   Scheduler/Round.antt and Scheduler/Run.antt about a round, and Scheduler/Finish.antt about the
--   end of run; Scheduler/Runs.antt runs it.
-- * IoManager.antt is IOManager: the contexts of the descriptors, the number of pending events, the
--   tasks handed to schedule, and epoll_ctl on a state of the kernel, which is a parameter.
--   IoManager/Flags.antt has the event bits, IoManager/Table.antt is about the table, and
--   IoManager/Valid.antt has what epoll_ctl is relied on for and the invariant.
--   IoManager/Trigger.antt is about triggerEvent, IoManager/Add.antt about addEvent,
--   IoManager/Drop.antt about delEvent and cancelEvent, IoManager/Cancel.antt about cancelAll, and
--   IoManager/Fire.antt and IoManager/Ready.antt about the loop of idle over the events,
--   IoManager/Keeps.antt and IoManager/Reach.antt about any sequence of calls, and
--   IoManager/Idle.antt about the timeout of idle and stopping; IoManager/Runs.antt runs it, over a
--   small epoll.
-- * Http.antt has HttpRequest and HttpResponse; what operator<< writes of a number is a parameter,
--   decimal. Http/Strings.antt has strings as lists of bytes with the C functions on them,
--   Http/Method.antt the methods and status codes with their names, Http/Fields.antt std::map with
--   CaseInsensitiveLess. Http/Names.antt is about the names, Http/Order.antt and Http/Lookup.antt
--   about the map, and Http/Dump.antt about the headers of a message; Http/Access.antt has the
--   setters and the typed getters, over boost::lexical_cast as a parameter; Http/Runs.antt runs
--   them.
-- * Stream.antt has the loops of Stream, over a read and a write that are parameters;
--   Stream/Whole.antt is about them, and Stream/Runs.antt runs them.
-- * Servlet.antt is ServletDispatch: unordered_map and the vector of patterns as lists of entries,
--   with fnmatch as a parameter. Servlet/Table.antt is about the entries, Servlet/Dispatch.antt
--   about the dispatch, and Servlet/NotFound.antt has NotFoundServlet; Servlet/Runs.antt runs it.
--
-- The loops along the chain recur on the nodes that are left, and those on a varint on the slots of
-- its array or on the rounds that their bound allows; only run of the scheduler and the loops of
-- Stream are on fuel, a number of rounds: two rounds more than there are tasks and work left are
-- enough for the one, and one more than there are bytes for the others. Sums of size_t wrap at 2 ^
-- 64, and the theorems that need it ask that the end of a write stays a node below that. The sizes
-- of the tables of FdManager and IOManager are cast to an int as in the source, and a theorem that
-- needs a table to be seen whole asks for less than 2 ^ 31 places. What new char[] leaves in memory
-- is a parameter of the state, fresh. The order of the machine's bytes is a parameter, host.
--
-- Not modelled: getReadBuffers with a position, getWriteBuffers, the files and the hex dump of
-- ByteArray; start and stop of the scheduler and its threads side by side, fibers that code makes
-- while it runs, the contexts and stacks of fibers; the pipe of the I/O manager and negative
-- descriptors; SocketStream; the other parts of the library (the HTTP parsers and connections,
-- addresses, configuration); generated parsers; failing allocations.
pub mod Base
pub mod ByteArray
pub mod FdManager
pub mod Fiber
pub mod Http
pub mod IoManager
pub mod Scheduler
pub mod Servlet
pub mod Stream
pub mod Timer
