-- ===== src/Lib.antt =====
-- ffnetwork: an HTTP client (source/net) on a base library of message loops, tasks, time and
-- byte messages (source/base). A client has a thread with a message loop. Requests are tasks that it
-- keeps in a map by the hash of the request; starting or cancelling one posts a closure to the loop,
-- which the client's thread runs between two polls of libcurl. A loop takes its closures from a task
-- queue; all loops share one `MessageLoopTaskQueues`, whose tasks wait in the order of their time.
--
-- The files, in the order in which they build on each other:
--   Common: helpers. `Outcome` is the result of code that can throw, abort or be undefined, and
--     `Fault` names how. Maps are association lists. `size_t` and `int` are natural numbers with
--     their wrap-around written out; `int64_t` is ℤ with overflow as a fault.
--   Time: `TimeDelta` and `TimePoint` of source/base/time. The clock is an argument.
--   DelayedTask: source/base/messageloop/delayed_task.h and .cpp; the priority queue is a sorted
--     list.
--   TaskQueues: source/base/messageloop/message_loop_task_queues.h and .cpp. An operation holds its
--     queue's mutex to its end, so it is one function from the state to an outcome. The loop of
--     `GetTasksToRunNow` is on fuel, one round more than the queue has tasks: every round that is
--     not the last takes a task off. Wake-ups are returned as a list. TaskQueues/Locking: the calls of
--     several threads as moves in any order: lock, use of `order_`, read, write, unlock.
--   Locks: source/base/thread/mutex.h and mutex.cpp. The calls of pthread on a lock are a parameter,
--     and what POSIX says of them its laws (Locks/Holders).
--   MessageLoop: source/base/messageloop/message_loop_impl.cpp, message_loop.cpp and
--     task_runner.cpp. A closure is a value, and what it does is an argument; so is the platform's
--     `Run`.
--   MessageLoop/Posting: tasks that are posted and then flushed. MessageLoop/Ending: the task that ends
--     a loop, as `Thread::Join` posts it.
--   MessageLoop/Linux: source/base/messageloop/message_loop_impl_linux.cpp and
--     source/base/platform/linux/timerfd.cpp, over a list of what the system gives in each round, and
--     the descriptors of the loop.
--   ThreadLocal: source/base/thread/thread_local.h and .cpp. MessageLoop/Threaded: the loops that
--     message_loop.cpp keeps for the threads.
--   Threads: source/base/thread/thread.cpp; Threads/Starting: the moves of `Thread::Start` and of its
--     new thread in any order.
--   Message: source/base/messageloop/message.h and .cpp. Whether memory is there is an argument.
--   Net/Request: source/net/request_impl.cpp. `sha256` is an argument, since it is third-party code.
--     A header map is a list in the order in which it is iterated; how a new key changes that order is
--     an argument.
--   Net/Task: source/net/request_task_impl.cpp and response_impl.cpp. Whether libcurl has memory for a
--     header line is an argument (Net/Task/HandleInfo). A string that is passed to libcurl ends at its
--     first byte 0.
--   Net/Metrics: the metrics of a task and `metrics_dump_info`; `double` is an argument.
--   Net/Client: source/net/curl_client.cpp. The messages of libcurl are arguments of the steps, and
--     the calls of its multi interface are recorded. A request whose hash the map has overwrites the
--     entry, and an argument says whether somebody else keeps the pointer to the old task: if not, that
--     task is gone. A task whose request is over stays, as if its user kept it.
--   Net/Client/Polling: the rounds of the request thread, over a list of what libcurl gives in each: the
--     header lines that `curl_multi_perform` passes to the tasks, the messages, and the run of the loop,
--     with what users do before each flush, and between the last one and the disposal of what is left.
--     Net/Client/Replay: rounds as a list of steps. Net/Client/Lifetime: the destructor and
--     libcurl's global state. Net/Client/Legal: histories that the client's users and libcurl can make,
--     up to the destructor.
--   Net/Sync: source/net/client.cpp, `PerformRequestSync`, as moves of two threads in any order.
--   Logging: source/base/logging.h and .cpp as built for Linux. A level is an integer that can be
--     negated without overflow.
--   TimeUtils: source/utils/time_utils.h and .cpp. UniqueObject: source/base/unique_object.h.
--   WaitableEvent: source/base/thread/waitable_event.h and .cpp, over a list of the wake-ups of the
--     condition variable.
--   The files named Tests hold concrete values and the theorems at them.
--
-- Not modelled: the floating-point conversions of `TimeDelta`; the names of threads; the serialised
-- form of a response, which the code does not fill in; log output on Android and Darwin, and the Darwin
-- loop; sha256, a copy of third-party code. Accesses that race are not modelled, but for the
-- handshakes of `Thread::Start` and `PerformRequestSync`, the guards of a shared mutex and the calls
-- of task queues under their mutexes: other operations are steps that do not overlap. No queue is
-- created or disposed of while such calls are under way, since the code does not lock that out.
pub mod Common
pub mod DelayedTask
pub mod Locks
pub mod Logging
pub mod Message
pub mod MessageLoop
pub mod Net
pub mod TaskQueues
pub mod Tests
pub mod ThreadLocal
pub mod Threads
pub mod Time
pub mod TimeUtils
pub mod UniqueObject
pub mod WaitableEvent
