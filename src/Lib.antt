-- ===== src/Lib.antt =====
-- A verification library for flute, a C++ network library in the style of a reactor (flute/net) with
-- its helpers (flute/common). It models the reactor, which is the loop of a thread, with its timers
-- and its pollers, the way of the bytes (the buffer that every connection reads into and writes from,
-- the copier that sends files without copying them, the channel that carries the events of one file
-- descriptor, and the connection that puts these together), and the servers over them: the one that
-- keeps the connections of all threads, and the one that answers HTTP requests; and of the helpers the
-- log and its files, the dates and time zones, and the pieces of text.
--
-- Each file names the source it is about at its top. Stateful methods are functions from a record of
-- the object's fields to the record after the call. `none` is a failed `assert`, an escaping exception
-- or a copy out of a vector's range. A byte is a number, a `size_t` is a native number with its wrap
-- written out (`add_size`, `sub_size`), and a `std::vector<char>` is a list that `resize` refuses to
-- grow beyond `max_size`.
--
--   Prelude              shared names; Prelude/Tests has the Boolean tests, the conditional and the
--                        option monad, Prelude/Lists the list functions over the native numbers,
--                        Prelude/Int the signed integers.
--   Buffer               flute/net/Buffer.h and Buffer.cc. Buffer/Inv has the invariant and `std::copy`,
--                        Buffer/Slide, Fifo and Consume the steps, Buffer/Laws the operations against
--                        the list of bytes that a buffer stands for, Buffer/Refines all of them at once,
--                        Buffer/Room pieces appended one after the other, Buffer/Search the line ends
--                        and Buffer/Ints the integers in network order.
--   ZeroCopier           flute/common/ZeroCopier.h and ZeroCopier.cc. The kernel's answers to one chunk
--                        are a record, a transfer is a list of them (ZeroCopier/Finish, /ReadWrite).
--   Channel              flute/net/Channel.h and Channel.cc.
--   Connection           flute/net/TcpConnection.h and TcpConnection.cc. What a connection asks of the
--                        socket, the reactor and its owner is a list of effects in their order, and the
--                        callbacks of the owner are a record of functions on the connection. The
--                        children are Ready (what a readable or writable socket does), Socket and Owed
--                        (the bytes sent and owed), Stream and Writing (a writable event), Rank, Sends and
--                        State (the order of the states) and Stuck.
--   Connector            flute/net/Connector.h and Connector.cc. Connector/Balance accounts for the sockets,
--                        Connector/Delay for the waits between attempts.
--   EPollPoller          flute/net/poller/EPollPoller.h and EPollPoller.cc. The calls of epoll_ctl are a list,
--                        and EPollPoller/Interest reads the interest list of the manual page from it.
--   PollPoller           flute/net/poller/PollPoller.h and PollPoller.cc. PollPoller/Inv has what holds of
--                        the entries and the indices of the channels, PollPoller/Places keeps it at a
--                        removal, and PollPoller/Active is about the active channels.
--   Http                 flute/net/http/HttpRequest.h, HttpContext.h and HttpContext.cc. Http/RequestLine,
--                        Http/Headers and Http/Parse print a request and read it back, Http/Lines takes
--                        the lines of a buffer, Http/Ends is about the end of the loop, Http/Refused
--                        about a line that is refused.
--   HttpResponse         flute/net/http/HttpResponse.h and HttpResponse.cc. HttpResponse/Text is what is put
--                        into a buffer, HttpResponse/Decimal the numbers in it.
--   HttpServer           flute/net/http/HttpServer.cc, over Http, HttpResponse and Connection.
--                        HttpServer/Answers is about one answer, HttpServer/Requests goes from the
--                        bytes of a request to those of its answer.
--   AsyncLogging         flute/common/AsyncLogging.h and AsyncLogging.cc, over flute/common/FixedBuffer.h.
--                        AsyncLogging/Turns runs the backend's loop with lines logged in between.
--   Deques               flute/common/BoundedBlockingDeque.h; Deques/Order has
--                        the calls of all threads against an ideal queue.
--   Reactor              flute/net/Reactor.h and Reactor.cc. Reactor/Threads has the steps of its thread
--                        and of the others, Reactor/Line the tasks in their order, Reactor/Turn a step
--                        of the reactor's own thread, Reactor/Sound all runs.
--   TimerQueue           flute/net/TimerQueue.h and TimerQueue.cc, with Timer and TimerId. TimerQueue/Sets
--                        and Split have the sets, Inv and Calls the timers added and removed, Expired,
--                        Reset and Alarms the timers that are due, Armed the timerfd, Runs all together.
--   Date                 flute/common/Date.h and Date.cc. Date/Calendar is the calendar, Date/Fields and
--                        Date/Days the day numbers against it.
--   TcpServer            flute/net/TcpServer.h and TcpServer.cc, with ReactorThreadPool. TcpServer/Pool is
--                        about the turns of the reactors; TcpServer/Tasks, Inv, Lives and Runs follow the
--                        connections through the tasks that the threads queue for each other, and
--                        TcpServer/Ends is about the destructor.
--   Timezone             flute/common/Timezone.h and Timezone.cc, with the reading of zone files in
--                        Timezone/File. Timezone/Lookup is about the lookup of a local time,
--                        Timezone/ZoneFile and Timezone/Printed about the files, Timezone/Floor and
--                        Timezone/Utc about UTC and Timezone/Local about local times.
--   StringPiece          flute/common/StringPiece.h. StringPiece/Order is about the comparisons,
--                        StringPiece/Prefix about beginnings and ends.
--   LogFile              flute/common/LogFile.h and LogFile.cc, with the AppendFile of FileUtil.cc.
--                        LogFile/Writes is about one line, Inv and Runs about the log.
--   TcpClient            flute/net/TcpClient.h and TcpClient.cc, over Connector. TcpClient/Inv is what each
--                        call keeps, TcpClient/Runs about all runs, TcpClient/Ends about the destructor.
--   Acceptor             flute/net/Acceptor.h and Acceptor.cc. Acceptor/Held is about its descriptors.
--   CountdownLatch       flute/common/CountdownLatch.h. CountdownLatch/Waiters is about its threads.
--   TaskDeque            flute/common/TaskDeque.h and TaskDeque.cc. TaskDeque/Workers is about the end of its
--                        threads, Weights and Accepted about the tasks.
--
-- Bounds and fuel. A transfer of a file is a recursion over the list of the kernel's answers. The
-- loop of `parse_request` runs on a number of turns, and `still_running` is its end only where these
-- do not suffice: one turn more than the buffer has bytes is enough. `take_lefts` takes what
-- a client leaves behind in a number of turns, two more than it had tasks. All else is structural.
-- Integers in network order are of any number of bytes, and the time of a request is a number. A
-- `time_t` is an integer without bounds; the dates of Timezone are those from the year 0 on whose
-- arithmetic stays within an `int`.
--
-- What the code relies on: `gmtime_r` and `timegm` take each other back, `fwrite` takes the bytes
-- of a line in pieces, `fopen` succeeds for the file of a log, the kernel gives no descriptor that
-- is open (`IsNew`), `malloc` gives no address in use (`GivesFree`), the kernel takes no more bytes
-- than it is given (`Honest`, `HonestWritable`), epoll keeps its interest list by its manual page
-- (`interest`), and the callbacks of a connection's owner do not set its state back (`IsPolite`).
-- They are hypotheses.
--
-- Not modelled: the wrappers of system calls (Socket, SocketsOps, InetAddress, ProcessInfo) and of
-- threads and locks, whose answers the models take as arguments; the choice of a poller (Poller,
-- DefaultPoller); the texts of log lines (LogStream, LogLine), of times and of dates, and the names of
-- log files; BlockingDeque, a template that no file uses; ZlibStream, a wrapper of zlib; and
-- FlameGraph, a third party's.
pub mod Prelude
pub mod Buffer
pub mod ZeroCopier
pub mod Channel
pub mod Connection
pub mod Connector
pub mod TcpClient
pub mod EPollPoller
pub mod PollPoller
pub mod Http
pub mod HttpResponse
pub mod HttpServer
pub mod AsyncLogging
pub mod LogFile
pub mod Deques
pub mod TaskDeque
pub mod Reactor
pub mod TimerQueue
pub mod Acceptor
pub mod TcpServer
pub mod Date
pub mod Timezone
pub mod StringPiece
pub mod CountdownLatch
