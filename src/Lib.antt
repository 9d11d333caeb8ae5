-- ===== src/Lib.antt =====
-- galay-kernel: an asynchronous runtime of coroutines, schedulers with work stealing, channels and
-- timers. This library models its core, translated from the sources under galay-kernel/, and proves
-- what the parts promise to each other.
--
-- How the parts fit together: an I/O scheduler owns a worker (kernel/io_scheduler.hpp,
-- IOSchedulerWorkerState), which keeps its ready tasks in a LIFO slot, a fixed ring that siblings
-- steal from (ChaseLevTaskRing) and a queue by which other threads inject tasks. A wake coordinator
-- decides which injections ring the scheduler's bell. Timers hang in the wheels of the scheduler's
-- timer manager. Coroutines of one scheduler exchange values through unsafe channels. Blocking work
-- goes to a pool of threads.
--
-- Files and what they model:
--   Ring.antt: ChaseLevTaskRing, whole calls: push_back, pop_back, steal_front, clear. Ring/Deque is
--     the bounded deque it implements and Ring/Refine the refinement. Ring/Race takes the atomic
--     accesses of an owner and its thieves one at a time: Ring/Race/OwnerSide, Claims and Loss.
--   Worker.antt: IOSchedulerWorkerState with scheduleLocal, scheduleLocalDeferred, scheduleInjected,
--     drainInjected, prepareForRun, popNext, stealFrom and trySteal. Worker/Conserve is about keeping
--     tasks, Worker/Order and Worker/Drains about which runs next, Worker/Moves and Worker/Steal about
--     stealing.
--   Concurrent.antt: the interface of moodycamel::ConcurrentQueue, which the repository includes and
--     does not contain; what the code relies on are its laws, and a list is an instance.
--   SchedulerCore.antt: from kernel/scheduler_core.h and kernel/sched_loop.hpp, the fetching of injected
--     tasks and the bound on passes.
--   Channel.antt: concurrency/unsafe_channel.h with the awaitables of recv, recvBatch and recvBatched;
--     Channel/Session runs it with one consumer, senders and the timer of kernel/timeout.hpp,
--     Channel/Consumers, Receipts, Fifo and Outcome are about what the consumer receives.
--   TimerWheel.antt and TimerWheel/Timers.antt: common/timer_manager.hpp and common/timer.hpp.
--     TimerWheel/Weight, Keeps and Runs are about keeping timers, TimerWheel/Hand about the loop.
--   WakeCoordinator.antt: kernel/wake_coordinator.h.
--   WaitRegistration.antt: kernel/wait_registration.h.
--   Waiter.antt: concurrency/async_waiter.h, the version with a value, by atomic accesses.
--   Mpsc.antt and Mpsc/Await: concurrency/mpsc_channel.h. Mpsc/Order says what a queue keeps of the
--     order, Mpsc/Delivery, Batches, Sends and Session are about what is received.
--   StateMachine.antt and StateMachine/Events: StateMachineAwaitable of kernel/awaitable.h.
--     StateMachine/Settles and Runs are about waits and outcomes, StateMachine/Backends about the two
--     kinds of reactors.
--   IoController.antt and its modules: kernel/io_controller.hpp. IoController/ReadyRecv is the queue of
--     received chunks, IoController/Stream the stream it stands for, IoController/Recv the refinement.
--   UringRecv.antt: recv with io_uring, of kernel/uring_reactor.cc. UringRecv/Wakes and
--     UringRecv/Strands are about when a recv that waits is woken.
--   Sequence.antt: the slots of a controller, from kernel/awaitable.h and kernel/io_scheduler.hpp.
--     Sequence/Slots and Sequence/Exclusive are about who owns them.
--   AsyncMutex.antt: concurrency/async_mutex.h, whole calls; AsyncMutex/Unlock is about who gets the
--     lock.
--   Handlers.antt: kernel/io_handlers.hpp and kernel/awaitable.inl, the outcomes of system calls.
--   EpollReactor.antt: kernel/epoll_reactor.cc: pending changes, applyEvents and flushPendingChanges.
--     EpollReactor/Operations has the operations on controllers, EpollReactor/Dispatch has poll and
--     processEvent. EpollReactor/Registered, Flush, Wanted, Changes, Requests and Runs are about what
--     the epoll instance holds, Bounds about the list, Stall about when epoll_wait is called, Kept,
--     Synchronised and Once about the events.
--   Task.antt: kernel/task.h and kernel/task.cc. Task/Results is about results and who takes them,
--     Task/Continuations about `then` and co_await, Task/References is TaskRef, Task/Storage the free
--     list of states, Task/Resumes requestTaskResume against resume of kernel/scheduler.hpp.
--   Executor.antt: kernel/blocking_executor.cc, one critical section of its mutex at a time.
--   Balancer.antt: common/async_strategy.hpp but for the smooth weighted round robin.
--   Error.antt: common/error.h and common/error.cc.
--   Prelude.antt: shared names, tests on numbers, lists and words of 32 and 64 bits.
--
-- State is passed explicitly: an operation takes the state and returns its result with the new one.
-- Tasks, timers, coroutine handles and addresses are numbers. Machine words keep their wrap-around,
-- and theorems say where they need that a 64-bit counter does not run out. Fuel bounds these
-- kinds of loops: the timers' tick has as many rounds as there are ticks from the hand to the target,
-- unlock of the mutex one more than there are waiters, and the state machines the 64 rounds of the
-- source itself. Two more are arguments that theorems leave open: the interruptions of epoll_ctl after
-- which a retry is given up, and the depth to which a scheduler is handed down to continuations.
--
-- Not modelled: memory orders weaker than sequential consistency, the life of coroutine frames,
-- threads that block for a task, system calls (sockets, files, epoll, kqueue, io_uring), logging, and
-- the other parts of the runtime: the kqueue reactor, the other operations of the io_uring reactor,
-- tokens of io_uring requests, the thread-safe timer manager, the runtime that starts the schedulers.
pub mod Prelude
pub mod Concurrent
pub mod Ring
pub mod Worker
pub mod Channel
pub mod TimerWheel
pub mod WakeCoordinator
pub mod WaitRegistration
pub mod Waiter
pub mod SchedulerCore
pub mod Executor
pub mod Balancer
pub mod Error
pub mod Mpsc
pub mod StateMachine
pub mod IoController
pub mod UringRecv
pub mod Sequence
pub mod AsyncMutex
pub mod Handlers
pub mod EpollReactor
pub mod Task
