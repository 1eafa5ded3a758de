-- ===== src/Lib.antt =====
-- A verification library for the spdlog stress-test harness (C++ Project/src).
--
-- The program parses its command line (TestContext), selects tests from a registry (main), and runs
-- each in a task of a ThreadPool until a deadline; the tests log from several threads. One of them
-- is the RideStateManager, a state machine with observers and a thread that notifies them.
--
--   Prelude          shared names, Boolean tests, lists, texts
--   Harness          main.cpp and include/test_base.h: the registry, `make_logger`, `create_tests`
--                    and `configure_all` (main's first two phases), `start`, the task main submits
--   Harness/Main     main as a whole: the command line, `set_up`, and the run of the tests that it
--                    gives
--   Harness/Schedule main from its third phase on, and the tests' tasks, a turn at a time; here the
--                    pool is whatever order the tasks take their turns in
--   Harness/Schedule/Pooled    main and the pool together: the tests are tasks of a ThreadPool, and each
--                    of its threads takes its turns; `until_stop` says which tests leave their
--                    `start` only once `stop` is set
--   Harness/Schedule/Failures  Schedule with the exceptions of main, and the code it returns
--   Ride             include/ride_state_manager.h: one function to a method (`try_changing_state` is
--                    tryChangingState, `subscribe`, `unsubscribe`, `shut_down` the first block of the
--                    destructor); weak pointers are identities, with `Owners` to say what is alive
--   Ride/ObserverThread  the thread that `run` starts there, a step at a time; a schedule is a list
--                    of events of the clients, of the owners of the observers, and of the thread
--   ThreadPool       include/thread_pool.h: `submit`, `worker_turn` (workerLoop), `wait`
--   ThreadPool/Events    the destructor, and the runs of a pool as lists of events
--   ThreadPool/Sleeping  the pool with a maximum, with threads that sleep on its condition variables
--                    until `notify_one` or `notify_all`
--   TestContext      include/test_context.h: `parse`, `should_run`
--   TestContext/Numbers  strtol in base 10, for a 64-bit long
--   ExpiringCache    include/non_test/expiring_cache.h: `put`, `get`, `remove`, `size`, `begin_stop`
--                    (stop, up to its join), `sweep` (the handler's inner loop)
--   ExpiringCache/HandlerThread  the constructor's thread with its timed wait, a turn at a time
--   ExpiringCache/Histories      histories of a cache, and its specification
--   ProducerConsumerQueue  include/producer_consumer_queue.h: the two producers and two consumers
--   ConcurrentMetrics      include/concurrent_metrics.h: `consolidate`, `envelope_with`, `flush`
--   ConcurrentMetrics/Random     its `createRandom`, with the numbers that are drawn as its input
--   ConcurrentMetrics/Workers    its `run`: the worker threads, the reporter, their start and the joins
--   ThreadPair       the two threads that `run` starts in include/diagnostics.h and include/level.h
--   Diagnostics      include/diagnostics.h: `collect_round` and `report_round`, the loops' rounds
--   Level            include/level.h: `write_round` and `read_round`
--   StringUaf        include/string_uaf.h: `set` and `emit` on the bytes of the buffer
--   Timebase         include/timebase.h: the averages
--   Logging          include/sink_callback.h and include/level5.h: the messages that are logged
--
-- The mutexes make each locked block one step, and a list of events is the order in which the
-- locks are taken; a test that loops until `stop` without threads of its own is a function of the
-- inputs of its rounds. A wait on a condition variable is a turn without effect until its predicate
-- holds. In ThreadPool/Sleeping a thread sleeps until it is notified or wakes by chance, and in
-- ExpiringCache/HandlerThread until it is notified, its time is over, or by chance; elsewhere notifications are
-- not modelled. The int that numbers the tasks of a ThreadPool does not wrap: at INT_MAX a
-- submission is a fault (`none`). Loops recur on their lists; only the digits of a number n are made
-- with fuel, n + 1, and it has fewer digits. The level type of spdlog and its from_str are
-- parameters, and so are `double` with its arithmetic, the answers of the file system, and whether a
-- pool of spdlog can be made (`Machine`). Times are counts of ticks; in ExpiringCache a `time_point` is
-- its pattern of 64 bits, counted from the least one, and an overflow wraps. Unsigned counters wrap at their width.
--
-- Not modelled: what spdlog does with a logger that `make_logger` has made; the end of the tests'
-- loggers and `spdlog::shutdown`; memory that runs out elsewhere in the set-up; the texts of
-- exceptions; spdlog and hamed_common, which are not in the repository; what the loggers do with a
-- line; the sleeps; memory errors.
pub mod Prelude
pub mod Ride
pub mod ThreadPool
pub mod TestContext
pub mod ExpiringCache
pub mod ProducerConsumerQueue
pub mod ConcurrentMetrics
pub mod Harness
pub mod ThreadPair
pub mod Diagnostics
pub mod Level
pub mod StringUaf
pub mod Timebase
pub mod Logging
