-- ===== src/Lib.antt =====
-- ants: a pool of worker threads (the Rust crate in the repository's src/).
--
-- A pool, `PoolCore` (src/pool_common.rs), keeps idle workers in a queue: a stack
-- (src/worker_stack.rs), or a ring of fixed size when it is preallocated
-- (src/worker_loop_queue.rs). A submitter takes an idle worker, or has one made while the capacity
-- allows, or waits on a condition variable (src/deps/cond.rs); a worker that has run its task goes
-- back to the queue and wakes a waiting submitter. One background thread finishes workers that were
-- idle for too long, another keeps the clock. `tune`, `release` and `reboot` change a running pool.
--
-- Files and what they model:
--   Error, Duration, Options   the enum `Error` of src/lib.rs, src/deps/gotime.rs, src/options.rs
--   Search                     the loop of both `binary_search` functions
--   WorkerStack, LoopQueue     the two queues; an operation that changes a queue returns it
--   Idle                       sorted lists of workers and the split at an expiry time
--   WorkerQueue                `Box<dyn WorkerQueue>` (src/worker_queue.rs), and the interface, a
--                              record of operations and laws, that the pool is written against
--   Cond, Context              src/deps/cond.rs, src/deps/event.rs and src/deps/context.rs;
--                              Context/Waits: the loops of their waits
--   Panic                      panics of tasks: `call`, the report and the hook of src/worker.rs
--   PoolCore                   the shared state; PoolCore/Workers: `retrieve_worker`,
--                              `revert_worker` and the loop of src/worker.rs; PoolCore/Lifecycle:
--                              `tune`, `release`, `release_context`, `reboot`;
--                              PoolCore/Background: the two background threads;
--                              PoolCore/Create: `PoolCore::new`; PoolCore/Shutdown: the wait of
--                              `release_timeout`, with the guard of `release_context`
--   PoolCore/System            the pool among its threads: the steps of submitters, workers, callers
--                              and background threads in any order, with the spin lock and the
--                              workers' channels. Its invariants have a file each: Counted (running
--                              workers), Places (where each worker is), Blocked (waiting
--                              submitters), Latch (`all_done`), System/Mail (the channels),
--                              System/Tasks (the payloads), Emptied (the queue of a closed
--                              pool). System/Drained is how a closed pool winds down, with
--                              Unlock and Drain; Effects says what each operation changes.
--                              System/Handover is the way of a worker to a waiting submitter,
--                              System/Lost a wake-up that is lost (System/Alone: a worker's end
--                              with nothing in between), System/Overtaken a reboot that a release
--                              overtakes. The parts of the end of a worker, of a purge round, of a
--                              release and of a reboot are steps of their own
--   Pool, PoolFunc,            the pools that users see (src/pool.rs, src/pool_func.rs,
--     PoolFuncGeneric          src/pool_func_generic.rs); Flavours compares them,
--                              by what each makes of a list of calls (Flavours/Calls)
--   MultiPool                  several pools behind one submit function (src/multipool.rs), over an
--                              interface of pools; MultiPool/Lifecycle: release and reboot;
--                              MultiPool/Text: the text of the joined errors; MultiPool/Tasks, Func
--                              and FuncGeneric: `MultiPool` and the multi-pools of
--                              src/multipool_func.rs and src/multipool_func_generic.rs
--   DefaultPool                the global pool of src/lib.rs
--   SpinLock                   src/pkg/sync/spinlock.rs, with the threads around the lock
--   Golog                      the line format of src/deps/golog.rs
--   Base                       numbers, lists and tests that the others share
--
-- A function that blocks in the code is one function up to the wait and another from the wake-up.
-- What runs between two such points is one step; `System` lets the steps of all threads follow one
-- another in any order. Signed machine integers are a type `ℤ` over native numbers with the
-- wrap-around of the release build written out (Base/Word). A panic is `none`.
--
-- Bounds: the search takes fuel one more than the number of stored slots, which is enough, since
-- each round makes the range shorter. Draining a ring takes fuel one more than its slots. Theorems
-- on `refresh` ask for a stack of less than 2 ^ 31 workers, or a ring of at most 2 ^ 31 / 3 slots.
--
-- What a task does is a parameter: a test that tells whether a body, or the function on an argument,
-- returns or panics. The clock of the logger is a parameter as well.
--
-- Not modelled: the time that anything takes, and the text of a backtrace. A thread can always be
-- made: the panics of the `expect` on a spawn (`go_purge` and `go_ticktock` in src/pool_common.rs, and
-- `run` in src/worker.rs, where the count has been raised before) are left out. What the
-- threads of a multi-pool's release make of its pools, when they wait with a context, is an argument
-- of the release. In PoolCore the spin lock is a field of `System` that says who holds it, and its
-- own algorithm stands by itself in SpinLock. There a call of `tune` is one step, as are
-- the first part of a release, up to the lock, and the last, after it; a payload is weighed, not run.
-- A send into a worker's channel never waits there: where the channel has no room for a message, as
-- on one processor (src/lib.rs, `worker_chan_cap`), the sender would wait for the receiver.
pub mod Base
pub mod Error
pub mod Duration
pub mod Idle
pub mod Search
pub mod WorkerStack
pub mod LoopQueue
pub mod WorkerQueue
pub mod Cond
pub mod SpinLock
pub mod Golog
pub mod Panic
pub mod DefaultPool
pub mod Context
pub mod Options
pub mod PoolCore
pub mod MultiPool
pub mod Pool
pub mod PoolFunc
pub mod PoolFuncGeneric
pub mod Flavours
pub mod Tests
